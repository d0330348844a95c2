-- ===== src/Progress/Piece/Codec.antt =====
-- The bytes of a piece in the progress file.
use gitabic.Base.{
  ℕ, ◌+◌, ◌*◌, ◌^◌, ◌<◌, ◌≡◌, refl, List, [], ◌∷◌, ◌++◌, append_assoc, arith, length, length-append,
  All,
}
use gitabic.Bytes.{ok}
use gitabic.Bytes.RoundTrip.{read_le-le, length-le}
use gitabic.Progress.Status.{to_code, IsNamed, of_code-to_code, to_code-lt}
use gitabic.Progress.Block.{
  BlockInfo, BlockFits, serialize_block, deserialize-serialize_block, length-serialize_block,
}
use gitabic.Progress.Piece.{
  PieceProgress, serialize_blocks, read_blocks, serialize_piece, deserialize_piece,
}

-- The fields fit their C++ types.
pub record PieceFits (p : PieceProgress) : Type 0 where
  pub offset_fits : p.offset < 256 ^ 8
  pub size_fits : p.size < 256 ^ 4
  pub downloaded_fits : p.bytes_downloaded < 256 ^ 4
  pub access_fits : p.last_access < 256 ^ 8
  pub status_named : IsNamed p.status
  pub hash_fits : p.hash < 256 ^ 32
  pub count_fits : length p.blocks < 256 ^ 4
  pub blocks_fit : All BlockFits p.blocks

read_blocks-serialize_blocks :
    (bs : List BlockInfo) (rest : List ℕ)
    → All BlockFits bs
    → read_blocks (length bs) (serialize_blocks bs ++ rest) ≡ ok (bs, rest)
unfolding read_blocks serialize_blocks
read_blocks-serialize_blocks [] rest f = refl
read_blocks-serialize_blocks (b ∷ bs) rest (fb, fs) =
    simp (append_assoc, deserialize-serialize_block b _ fb, read_blocks-serialize_blocks bs rest fs)

-- A piece is read back from the bytes that `serialize` wrote, whatever follows them.
pub deserialize-serialize_piece :
    (p : PieceProgress) (rest : List ℕ)
    → PieceFits p
    → deserialize_piece (serialize_piece p ++ rest) ≡ ok (p, rest)
unfolding serialize_piece deserialize_piece
deserialize-serialize_piece p rest f = simp (
  append_assoc,
  read_le-le 8 p.offset _ f.offset_fits,
  read_le-le 4 p.size _ f.size_fits,
  read_le-le 4 p.bytes_downloaded _ f.downloaded_fits,
  read_le-le 8 p.last_access _ f.access_fits,
  read_le-le 4 (to_code p.status) _ (to_code-lt p.status f.status_named),
  read_le-le 32 p.hash _ f.hash_fits,
  read_le-le 4 (length p.blocks) _ f.count_fits,
  read_blocks-serialize_blocks p.blocks rest f.blocks_fit,
  of_code-to_code p.status f.status_named,
)

length-serialize_blocks : (bs : List BlockInfo) → length (serialize_blocks bs) ≡ length bs * 11
unfolding serialize_blocks
length-serialize_blocks [] = refl
length-serialize_blocks (b ∷ bs) = omega (
  arith,
  length-append (serialize_block b) (serialize_blocks bs),
  length-serialize_block b,
  length-serialize_blocks bs,
)

-- A piece takes 64 bytes and 11 for each block, the `PIECE_SIZE` of the progress file.
length-serialize_piece :
    (p : PieceProgress) → length (serialize_piece p) ≡ 64 + length p.blocks * 11
unfolding serialize_piece
length-serialize_piece p = simp (length-append, length-le, length-serialize_blocks) (omega arith)
