-- ===== src/Progress/Piece/Layout.antt =====
-- How the constructor of PieceProgress cuts a piece into blocks.
use gitabic.Base.{
  ℕ, zero, suc, ◌+◌, ◌-◌, ◌*◌, ◌≤◌, ◌<◌, ◌≡◌, List, [], ◌∷◌, arith, ◌==◌, get_elem?, some,
}
use gitabic.Splitter.{block_size, max_piece_size}
use gitabic.Progress.Status.{empty}
use gitabic.Progress.Block.{BlockInfo}
use gitabic.Progress.Piece.{block_loop, new_piece, get_block_index}

-- The blocks follow one another from `start` to `end` with no gap, none is empty or larger than
-- 12 KiB, none is downloaded, and the last one alone is marked as the last.
abbrev pub Tiles : ℕ → List BlockInfo → ℕ → Type 0
Tiles start [] end = start ≡ end
Tiles start (b ∷ bs) end =
    (b.offset ≡ start)
    × (0 < b.size)
    × (b.size ≤ block_size)
    × (b.is_last_block ≡ ((start + b.size) == end))
    × (b.status ≡ empty)
    × Tiles (start + b.size) bs end

block_loop-Tiles :
    (fuel size temp start : ℕ)
    → temp ≤ fuel
    → start + temp ≡ size
    → Tiles start (block_loop fuel size temp) size
unfolding block_loop
block_loop-Tiles zero size temp start le e = omega arith
block_loop-Tiles (suc fuel) size temp start le e =
    let small = block_loop-Tiles fuel size (temp - temp) (start + temp) (omega arith) in
    ground (
      arith,
      block_loop-Tiles fuel size (temp - block_size) (start + block_size),
      small (omega arith),
    )

-- The blocks of a new piece follow one another from its start to its end with no gap; none is empty
-- or larger than 12 KiB, all are still to be downloaded, and the last one alone is marked as the
-- last.
pub new_piece-Tiles :
    (offset size hash now : ℕ) → Tiles 0 (new_piece offset size hash now).blocks size
unfolding new_piece
new_piece-Tiles offset size hash now = block_loop-Tiles size size size 0 (omega arith) (omega arith)

block_loop-offset :
    (fuel size temp i : ℕ) (b : BlockInfo)
    → temp ≤ size
    → get_elem? (block_loop fuel size temp) i ≡ some b
    → (b.offset ≡ size - temp + i * block_size) × (b.offset < size)
unfolding block_loop
block_loop-offset zero size temp i b le e = ground arith
block_loop-offset (suc fuel) size temp zero b le e = ground arith
block_loop-offset (suc fuel) size temp (suc i) b le e = ground (
  arith,
  block_loop-offset fuel size (temp - block_size) i b,
  block_loop-offset fuel size (temp - temp) i b,
)

-- In a new piece of at most 4 MiB, `getBlockIndex` of a block's offset is the block's index.
get_block_index-offset :
    (offset size hash now i : ℕ) (b : BlockInfo)
    → size ≤ max_piece_size
    → get_elem? (new_piece offset size hash now).blocks i ≡ some b
    → get_block_index b.offset ≡ i
unfolding new_piece get_block_index
get_block_index-offset offset size hash now i b le e =
    omega (arith, block_loop-offset size size size i b (omega arith) e)
