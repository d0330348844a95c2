-- ===== src/Progress/Download/RoundTrip.antt =====
-- The progress file written and read again.
use gitabic.Base.{ℕ, ◌^◌, ◌<◌, ◌≡◌, refl, List, [], ◌∷◌, ◌++◌, append_assoc, length, All}
use gitabic.Bytes.{ok}
use gitabic.Bytes.RoundTrip.{read_le-le, read_bytes-append}
use gitabic.Progress.Block.{bool_byte, of_bool_byte-bool_byte, bool_byte-lt}
use gitabic.Progress.Piece.{PieceProgress}
use gitabic.Progress.Piece.Codec.{PieceFits, deserialize-serialize_piece}
use gitabic.Progress.Download.{
  DownloadProgress, serialize_pieces, read_pieces, serialize, deserialize,
}

-- The fields fit their C++ types, and the two strings their one-byte sizes.
pub record DownloadFits (d : DownloadProgress) : Type 0 where
  pub total_fits : d.total_download_bytes < 256 ^ 8
  pub file_size_fits : d.file_size < 256 ^ 8
  pub start_fits : d.start_time < 256 ^ 8
  pub last_fits : d.last_time < 256 ^ 8
  pub hash_fits : d.file_hash < 256 ^ 32
  pub name_fits : length d.file_name < 256
  pub creator_fits : length d.creator < 256
  pub ip_fits : d.signaling_address.ip < 256 ^ 4
  pub port_fits : d.signaling_address.port < 256 ^ 2
  pub count_fits : length d.pieces < 256 ^ 4
  pub pieces_fit : All PieceFits d.pieces

read_pieces-serialize_pieces :
    (ps : List PieceProgress) (rest : List ℕ)
    → All PieceFits ps
    → read_pieces (length ps) (serialize_pieces ps ++ rest) ≡ ok (ps, rest)
unfolding read_pieces serialize_pieces
read_pieces-serialize_pieces [] rest f = refl
read_pieces-serialize_pieces (p ∷ ps) rest (fp, fs) =
    simp (append_assoc, deserialize-serialize_piece p _ fp, read_pieces-serialize_pieces ps rest fs)

-- A download is read back whole from the bytes that `serialize` wrote, whatever follows them, when
-- its fields fit their types and both its strings are shorter than 256 bytes.
pub deserialize-serialize_download :
    (d : DownloadProgress) (rest : List ℕ)
    → DownloadFits d
    → deserialize (serialize d ++ rest) ≡ ok (d, rest)
unfolding serialize deserialize
deserialize-serialize_download d rest f = simp (
  append_assoc,
  read_le-le 1 (bool_byte d.completed) _ (bool_byte-lt d.completed),
  read_le-le 8 d.total_download_bytes _ f.total_fits,
  read_le-le 8 d.file_size _ f.file_size_fits,
  read_le-le 8 d.start_time _ f.start_fits,
  read_le-le 8 d.last_time _ f.last_fits,
  read_le-le 32 d.file_hash _ f.hash_fits,
  read_le-le 1 (length d.file_name) _ f.name_fits,
  read_bytes-append d.file_name,
  read_le-le 1 (length d.creator) _ f.creator_fits,
  read_bytes-append d.creator,
  read_le-le 4 d.signaling_address.ip _ f.ip_fits,
  read_le-le 2 d.signaling_address.port _ f.port_fits,
  read_le-le 4 (length d.pieces) _ f.count_fits,
  read_pieces-serialize_pieces d.pieces rest f.pieces_fit,
  of_bool_byte-bool_byte,
)
