-- ===== src/Progress/Download.antt =====
-- `class DownloadProgress` (Peer/Utils/DowndloadProgress/DownloadProgress.cpp and .h). A method that
-- changes the object and may throw returns the object it leaves and the outcome.
pub mod RoundTrip
pub mod Layout
pub mod Accounting
pub mod Reach
use gitabic.Base.{
  ℕ, zero, suc, ◌+◌, ◌-◌, ◌*◌, ◌/◌, ◌%◌, ◌^◌, Bool, true, false, ltb, leb, ◌==◌, if◌then◌else◌,
  List, [], ◌∷◌, ◌++◌, length, get_elem?, set, filterb, none, some,
}
use gitabic.Bytes.{Outcome, ok, raise, fault, bind, Reader, ◌>>=◌, return, le, read_le, read_bytes}
use gitabic.Splitter.{piece_size}
use gitabic.MetaData.{MetaDataFile, Address}
use gitabic.Progress.Status.{DownloadStatus, verified, downloaded, status_eq}
use gitabic.Progress.Block.{bool_byte, of_bool_byte}
use gitabic.Progress.Piece.{
  PieceProgress, no_such, new_piece, downloaded_block, set_status, update_block_status,
  serialize_piece, deserialize_piece,
}
use gitabic.Progress.Piece.Accounting.{add_change}

pub record DownloadProgress : Type 0 where
  pub file_name : List ℕ
  pub creator : List ℕ
  pub file_hash : ℕ
  pub completed : Bool
  pub total_download_bytes : ℕ
  pub file_size : ℕ
  pub start_time : ℕ
  pub last_time : ℕ
  pub pieces : List PieceProgress
  pub signaling_address : Address

-- The `while (temp > 0)` loop of `init`. A read behind the hashes is undefined.
unfoldable pub piece_loop : ℕ → ℕ → ℕ → ℕ → List ℕ → ℕ → Outcome (List PieceProgress)
piece_loop zero file_size step temp hashes now = ok []
piece_loop (suc fuel) file_size step temp hashes now =
    let bytes = if ltb step temp then step else temp in
    let rest = λ (hs : List ℕ). piece_loop fuel file_size step (temp - bytes) hs now in
    let round : Outcome (List PieceProgress) = elim hashes [
      | [] ↦ fault
      | h ∷ hs ↦ bind (rest hs) (λ ps. ok (new_piece (file_size - temp) bytes h now ∷ ps))
    ] in
    if ltb 0 temp then round else ok []

-- What `init` assigns; the pieces are pushed behind those that the object has.
unfoldable pub started : DownloadProgress → MetaDataFile → ℕ → List PieceProgress → DownloadProgress
started d meta now ps = record {
  file_name = meta.file_name;
  creator = meta.creator;
  file_hash = meta.file_hash;
  completed = false;
  total_download_bytes = 0;
  file_size = meta.sizes.file_size;
  start_time = now;
  last_time = now;
  pieces = d.pieces ++ ps;
  signaling_address = meta.signaling_address;
}

-- A piece takes a byte at least, so `fileSize` rounds are enough.
unfoldable pub init : DownloadProgress → MetaDataFile → ℕ → Outcome DownloadProgress
unfolding started
init d meta now =
    let size = meta.sizes.file_size in
    bind (piece_loop size size (piece_size size) size meta.parts_hashes now)
      (λ ps. ok (started d meta now ps))

unfoldable pub serialize_pieces : List PieceProgress → List ℕ
serialize_pieces [] = []
serialize_pieces (p ∷ ps) = serialize_piece p ++ serialize_pieces ps

-- The sizes of the two strings are `uint8_t`; `sizeof(Address)` is 6.
unfoldable pub serialize : DownloadProgress → List ℕ
serialize d =
    le 1 (bool_byte d.completed)
    ++ (le 8 d.total_download_bytes
        ++ (le 8 d.file_size
            ++ (le 8 d.start_time
                ++ (le 8 d.last_time
                    ++ (le 32 d.file_hash
                        ++ (le 1 (length d.file_name)
                            ++ (d.file_name
                                ++ (le 1 (length d.creator)
                                    ++ (d.creator
                                        ++ (le 4 d.signaling_address.ip
                                            ++ (le 2 d.signaling_address.port
                                                ++ (le 4 (length d.pieces)
                                                    ++ serialize_pieces d.pieces))))))))))))

unfoldable pub read_pieces : ℕ → Reader (List PieceProgress)
read_pieces zero = return []
read_pieces (suc n) = do p ← deserialize_piece; ps ← read_pieces n; return (p ∷ ps)

unfoldable pub deserialize : Reader DownloadProgress
deserialize = do
  completed ← read_le 1
  total_download_bytes ← read_le 8
  file_size ← read_le 8
  start_time ← read_le 8
  last_time ← read_le 8
  file_hash ← read_le 32
  name_size ← read_le 1
  file_name ← read_bytes name_size
  creator_size ← read_le 1
  creator ← read_bytes creator_size
  ip ← read_le 4
  port ← read_le 2
  pieces_count ← read_le 4
  pieces ← read_pieces pieces_count
  return (record {
    file_name = file_name;
    creator = creator;
    file_hash = file_hash;
    completed = of_bool_byte completed;
    total_download_bytes = total_download_bytes;
    file_size = file_size;
    start_time = start_time;
    last_time = last_time;
    pieces = pieces;
    signaling_address = record { ip = ip; port = port };
  })

-- `progress() >= 1`. The division of two `double`s reaches 1 exactly when the numerator reaches the
-- denominator, as long as both are below 2^53 (a file size has 47 bits); by 0 it gives NaN or infinity.
unfoldable pub is_finished : DownloadProgress → Bool
is_finished d =
    if d.file_size == 0
    then ltb 0 d.total_download_bytes
    else leb d.file_size d.total_download_bytes

-- `if (progress() >= 1) _completed = true;`
unfoldable pub check_finished : DownloadProgress → DownloadProgress
unfolding is_finished
check_finished d = record d { completed = if is_finished d then true else d.completed }

abbrev touched : DownloadProgress → ℕ → DownloadProgress
touched d now = record d { last_time = now }

unfoldable pub set_piece : DownloadProgress → ℕ → PieceProgress → ℕ → DownloadProgress
set_piece d piece p total = record d { pieces = set d.pieces piece p; total_download_bytes = total }

unfoldable pub on_downloaded_block : DownloadProgress → ℕ → ℕ → ℕ → DownloadProgress × Outcome Bool
unfolding set_piece
on_downloaded_block d piece block now = elim (get_elem? d.pieces piece) [
  | none ↦ (d, no_such 10 piece)
  | some p ↦ elim (downloaded_block p block now) [
    | ok (q, bytes) ↦
        let total = (d.total_download_bytes + bytes) % 2 ^ 64 in
        (set_piece (touched d now) piece q total, ok (status_eq q.status downloaded))
    | raise e ↦ (touched d now, raise e)
    | fault ↦ (touched d now, fault)
  ]
]

unfoldable pub update_piece_status :
    DownloadProgress → ℕ → DownloadStatus → ℕ → DownloadProgress × Outcome (Unit {0})
unfolding set_piece check_finished
update_piece_status d piece s now = elim (get_elem? d.pieces piece) [
  | none ↦ (d, no_such 10 piece)
  | some p ↦
      let changed = set_status p s now in
      let total = add_change d.total_download_bytes changed.1 in
      (check_finished (set_piece (touched d now) piece changed.0 total), ok tt)
]

unfoldable pub on_block_status :
    DownloadProgress → ℕ → ℕ → DownloadStatus → ℕ → DownloadProgress × Outcome (Unit {0})
unfolding set_piece check_finished
on_block_status d piece block s now = elim (get_elem? d.pieces piece) [
  | none ↦ (d, no_such 10 piece)
  | some p ↦ elim (update_block_status p block s now) [
    | ok q ↦ (check_finished (set_piece (touched d now) piece q d.total_download_bytes), ok tt)
    | raise e ↦ (touched d now, raise e)
    | fault ↦ (touched d now, fault)
  ]
]

-- The loop of `done`: the pieces and the total.
unfoldable pub verify_pieces : List PieceProgress → ℕ → ℕ → List PieceProgress × ℕ
verify_pieces [] total now = ([], total)
verify_pieces (p ∷ ps) total now =
    let changed = set_status p verified now in
    let rest = verify_pieces ps (add_change total changed.1) now in (changed.0 ∷ rest.0, rest.1)

unfoldable pub done : DownloadProgress → ℕ → DownloadProgress
done d now =
    let verified_pieces = verify_pieces d.pieces d.total_download_bytes now in
    record d {
      pieces = verified_pieces.0;
      total_download_bytes = verified_pieces.1;
      completed = true;
    }

unfoldable pub get_pieces_statused : DownloadProgress → DownloadStatus → List PieceProgress
get_pieces_statused d s = filterb (λ p. status_eq p.status s) d.pieces

unfoldable pub get_piece : DownloadProgress → ℕ → Outcome PieceProgress
get_piece d index = elim (get_elem? d.pieces index) [ none ↦ no_such 10 index | some p ↦ ok p ]

-- A division by zero is undefined; the quotient is a `uint`.
unfoldable pub get_piece_index : DownloadProgress → ℕ → Outcome ℕ
get_piece_index d offset =
    if piece_size d.file_size == 0 then fault else ok (offset / piece_size d.file_size % 2 ^ 32)

-- `PIECE_SIZE` and its product with the index are `uint`s; the sum is a `size_t`.
unfoldable pub get_piece_offset_in_progress_file : DownloadProgress → ℕ → Outcome ℕ
get_piece_offset_in_progress_file d piece = elim (get_elem? d.pieces 0) [
  | none ↦ fault
  | some first ↦
      let record_size = (64 + length first.blocks * 11) % 2 ^ 32 in
      ok (81 + piece * record_size % 2 ^ 32 + 12 + length d.file_name)
]
