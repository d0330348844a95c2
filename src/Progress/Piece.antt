-- ===== src/Progress/Piece.antt =====
-- `struct PieceProgress` (Peer/Utils/DowndloadProgress/DownloadProgress.cpp and .h). Times are
-- arguments: `now` is what `time(nullptr)` returns.
pub mod Codec
pub mod Layout
pub mod Accounting
pub mod Marking
use gitabic.Base.{
  ℕ, zero, suc, ◌+◌, ◌-◌, ◌*◌, ◌/◌, ◌%◌, ◌^◌, Bool, true, false, ◌&&◌, ◌||◌, not, ltb, ◌==◌,
  if◌then◌else◌, List, [], ◌∷◌, ◌++◌, length, get_elem?, set, filterb, none, some,
}
use gitabic.Bytes.{
  Outcome, Error, ok, raise, fault, out_of_range, bind, Reader, ◌>>=◌, return, le, read_le,
}
use gitabic.Splitter.{block_size}
use gitabic.Progress.Status.{
  DownloadStatus, empty, downloading, downloaded, verified, status_eq, is_counted, is_missing,
  to_code, of_code,
}
use gitabic.Progress.Block.{BlockInfo, serialize_block, deserialize_block}

-- A hash is the number whose 32 little-endian bytes the `HashResult` array holds.
pub record PieceProgress : Type 0 where
  pub status : DownloadStatus
  pub offset : ℕ
  pub blocks : List BlockInfo
  pub size : ℕ
  pub bytes_downloaded : ℕ
  pub last_access : ℕ
  pub hash : ℕ

-- The `while (temp > 0)` loop of the constructor, which cuts `size` bytes into blocks.
unfoldable pub block_loop : ℕ → ℕ → ℕ → List BlockInfo
block_loop zero size temp = []
block_loop (suc fuel) size temp =
    let block_bytes = if ltb block_size temp then block_size else temp in
    let block : BlockInfo = record {
      offset = size - temp;
      size = block_bytes;
      is_last_block = (temp - block_bytes) == 0;
      status = empty;
    } in
    let rest = block_loop fuel size (temp - block_bytes) in if ltb 0 temp then block ∷ rest else []

-- Each round takes a byte at least, so `size` rounds are enough.
unfoldable pub new_piece : ℕ → ℕ → ℕ → ℕ → PieceProgress
new_piece offset size hash now = record {
  status = empty;
  offset = offset;
  blocks = block_loop size size size;
  size = size;
  bytes_downloaded = 0;
  last_access = now;
  hash = hash;
}

unfoldable pub all_downloaded : List BlockInfo → Bool
all_downloaded [] = true
all_downloaded (b ∷ bs) = status_eq b.status downloaded && all_downloaded bs

unfoldable mark_block : PieceProgress → ℕ → BlockInfo → DownloadStatus → ℕ → PieceProgress
mark_block p block b s now = record p {
  blocks = set p.blocks block (record b { status = s });
  last_access = now;
}

-- `throw std::out_of_range("No block #" + block)`, or `"No piece #" + piece`: the index is added to
-- the address of the literal, of `chars` characters, and the text is read from there.
abbrev pub no_such {ℓ} : {A : Type ℓ} → ℕ → ℕ → Outcome A
no_such chars index = if ltb chars index then fault else raise out_of_range

-- The new piece, and the bytes that the block adds to the download.
unfoldable pub downloaded_block : PieceProgress → ℕ → ℕ → Outcome (PieceProgress × ℕ)
unfolding mark_block
downloaded_block p block now = elim (get_elem? p.blocks block) [
  | none ↦ no_such 11 block
  | some b ↦
      let p' = mark_block p block b downloaded now in
      let status' = if all_downloaded p'.blocks then downloaded else p.status in
      ok (record p' { status = status' }, if is_counted b.status then 0 else b.size)
]

-- `int32_t` arithmetic on the 32-bit pattern.
abbrev pub add32 : ℕ → ℕ → ℕ
add32 a b = (a + b) % 2 ^ 32

abbrev pub sub32 : ℕ → ℕ → ℕ
sub32 a b = (a + 2 ^ 32 - b) % 2 ^ 32

-- The loop of `setStatus`: every block takes the new status, and `sizeChanged` follows.
unfoldable pub set_blocks : Bool → Bool → DownloadStatus → List BlockInfo → ℕ → List BlockInfo × ℕ
set_blocks to_remove to_add s [] size_changed = ([], size_changed)
set_blocks to_remove to_add s (b ∷ bs) size_changed =
    let removed =
      if to_remove && is_counted b.status then sub32 size_changed b.size else size_changed in
    let added = if to_add && is_missing b.status then add32 removed b.size else removed in
    let rest = set_blocks to_remove to_add s bs added in (record b { status = s } ∷ rest.0, rest.1)

-- The new piece, and `sizeChanged` as a 32-bit pattern.
unfoldable pub set_status : PieceProgress → DownloadStatus → ℕ → PieceProgress × ℕ
set_status p s now =
    let to_remove = status_eq s empty && not (status_eq p.status empty) in
    let to_add = is_counted s && is_missing p.status in
    let changed = set_blocks to_remove to_add s p.blocks 0 in
    if status_eq s downloading
    then (record p { status = s; last_access = now }, 0)
    else (record p { status = s; last_access = now; blocks = changed.0 }, changed.1)

unfoldable pub update_block_status : PieceProgress → ℕ → DownloadStatus → ℕ → Outcome PieceProgress
unfolding mark_block
update_block_status p block s now = elim (get_elem? p.blocks block) [
  | none ↦ no_such 10 block
  | some b ↦
      let p' = mark_block p block b s now in
      let first =
        if status_eq s downloaded && all_downloaded p'.blocks then downloaded else p.status in
      ok (record p' { status = if status_eq s downloading then downloading else first })
]

unfoldable get_block_info : PieceProgress → ℕ → Outcome BlockInfo
get_block_info p block = elim (get_elem? p.blocks block) [ none ↦ no_such 10 block | some b ↦ ok b ]

unfoldable pub get_blocks_statused : PieceProgress → DownloadStatus → List BlockInfo
get_blocks_statused p s = filterb (λ b. status_eq b.status s) p.blocks

-- The result is a `uint16_t`.
unfoldable pub get_block_index : ℕ → ℕ
get_block_index offset = (offset / block_size) % 2 ^ 16

unfoldable pub serialize_blocks : List BlockInfo → List ℕ
serialize_blocks [] = []
serialize_blocks (b ∷ bs) = serialize_block b ++ serialize_blocks bs

unfoldable pub serialize_piece : PieceProgress → List ℕ
serialize_piece p =
    le 8 p.offset
    ++ (le 4 p.size
        ++ (le 4 p.bytes_downloaded
            ++ (le 8 p.last_access
                ++ (le 4 (to_code p.status)
                    ++ (le 32 p.hash ++ (le 4 (length p.blocks) ++ serialize_blocks p.blocks))))))

unfoldable pub serialize_for_file_update : PieceProgress → List ℕ
serialize_for_file_update p =
    le 4 p.bytes_downloaded
    ++ (le 4 (to_code p.status)
        ++ (le 8 p.last_access
            ++ (le 32 p.hash ++ (le 4 (length p.blocks) ++ serialize_blocks p.blocks))))

unfoldable pub read_blocks : ℕ → Reader (List BlockInfo)
read_blocks zero = return []
read_blocks (suc n) = do b ← deserialize_block; bs ← read_blocks n; return (b ∷ bs)

-- The constructor's blocks are cleared and the rest is overwritten, so only the fields count.
unfoldable pub deserialize_piece : Reader PieceProgress
deserialize_piece = do
  offset ← read_le 8
  size ← read_le 4
  bytes_downloaded ← read_le 4
  last_access ← read_le 8
  status ← read_le 4
  hash ← read_le 32
  blocks_count ← read_le 4
  blocks ← read_blocks blocks_count
  return (record {
    status = of_code status;
    offset = offset;
    blocks = blocks;
    size = size;
    bytes_downloaded = bytes_downloaded;
    last_access = last_access;
    hash = hash;
  })
