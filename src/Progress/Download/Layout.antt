-- ===== src/Progress/Download/Layout.antt =====
-- How `init` cuts a file into pieces.
use gitabic.Base.{
  ℕ, zero, suc, ◌+◌, ◌-◌, ◌*◌, ◌/◌, ◌^◌, ◌≤◌, ◌<◌, ◌≡◌, refl, arith, List, [], ◌∷◌, length,
  get_elem?, some, min, false, ltb, lt→ltb, if◌then◌else◌,
}
use gitabic.Bytes.{ok}
use gitabic.Splitter.{piece_size, piece_size_bounds}
use gitabic.MetaData.{MetaDataFile}
use gitabic.Progress.Status.{empty}
use gitabic.Progress.Piece.{PieceProgress, new_piece}
use gitabic.Progress.Piece.Layout.{Tiles, new_piece-Tiles}
use gitabic.Progress.Download.{DownloadProgress, piece_loop, started, init, get_piece_index}

-- The pieces follow one another from `start` to `end` in steps of `step` bytes, the last one being
-- shorter if need be; each is empty, is tiled by its blocks, and has its part's hash.
abbrev pub PiecesTile : ℕ → ℕ → List ℕ → List PieceProgress → ℕ → Type 0
PiecesTile step start hashes [] end = start ≡ end
PiecesTile step start [] (p ∷ ps) end = ⊥
PiecesTile step start (h ∷ hs) (p ∷ ps) end =
    (p.offset ≡ start)
    × (p.size ≡ min step (end - start))
    × (0 < p.size)
    × (p.status ≡ empty)
    × (p.hash ≡ h)
    × Tiles 0 p.blocks p.size
    × PiecesTile step (start + p.size) hs ps end

piece_loop_round :
    (fuel file_size step temp start h now bytes : ℕ) (hashes : List ℕ) (ps : List PieceProgress)
    → 0 < step
    → start + suc temp ≡ file_size
    → bytes ≡ (if ltb step (suc temp) then step else suc temp)
    → piece_loop fuel file_size step (suc temp - bytes) hashes now ≡ ok ps
    → PiecesTile step (start + bytes) hashes ps file_size
    → let p = new_piece (file_size - suc temp) bytes h now in
      (piece_loop (suc fuel) file_size step (suc temp) (h ∷ hashes) now ≡ ok (p ∷ ps))
      × PiecesTile step start (h ∷ hashes) (p ∷ ps) file_size
unfolding piece_loop new_piece
piece_loop_round fuel file_size step temp start h now bytes hashes ps hs e cut run tiles = (
  rw (lt→ltb 0 (suc temp) (omega arith), ← cut, run),
  (
    ground arith,
    ground arith,
    ground arith,
    refl,
    refl,
    new_piece-Tiles (file_size - suc temp) bytes h now,
    tiles,
  ),
)

piece_loop_tiles :
    (fuel file_size step temp start : ℕ) (hashes : List ℕ) (now : ℕ)
    → 0 < step
    → temp ≤ fuel
    → start + temp ≡ file_size
    → temp ≤ length hashes * step
    → (ps : List PieceProgress) × (piece_loop fuel file_size step temp hashes now ≡ ok ps)
      × PiecesTile step start hashes ps file_size
unfolding piece_loop
piece_loop_tiles zero file_size step temp start hashes now hs le e room = ([], refl, omega arith)
piece_loop_tiles (suc fuel) file_size step zero start hashes now hs le e room =
    ([], refl, omega arith)
piece_loop_tiles (suc fuel) file_size step (suc temp) start [] now hs le e room =
    absurd (omega arith)
piece_loop_tiles (suc fuel) file_size step (suc temp) start (h ∷ hashes) now hs le e room =
    let bytes : ℕ = if ltb step (suc temp) then step else suc temp in
    let cut : bytes ≡ min step (suc temp) = ground arith in
    let (ps, run, tiles) =
      piece_loop_tiles fuel file_size step (suc temp - bytes) (start + bytes) hashes now hs
        (omega (arith, cut)) (omega (arith, cut)) (omega (arith, cut)) in
    let (run', tiles') =
      piece_loop_round fuel file_size step temp start h now bytes hashes ps hs e refl run tiles in
    (new_piece (file_size - suc temp) bytes h now ∷ ps, run', tiles')

-- A download without pieces that starts with a metadata file of a non-empty file, with a hash for
-- every piece, has pieces that tile the file, has counted no byte, and is not completed.
pub init-PiecesTile :
    (d : DownloadProgress) (meta : MetaDataFile) (now : ℕ)
    → d.pieces ≡ []
    → 0 < meta.sizes.file_size
    → meta.sizes.file_size ≤ length meta.parts_hashes * piece_size meta.sizes.file_size
    → (e : DownloadProgress) × (init d meta now ≡ ok e)
      × PiecesTile (piece_size e.file_size) 0 meta.parts_hashes e.pieces e.file_size
      × (e.file_size ≡ meta.sizes.file_size)
      × (e.total_download_bytes ≡ 0)
      × (e.completed ≡ false)
unfolding init
init-PiecesTile d meta now fresh pos room =
    let file_size = meta.sizes.file_size in
    let (ps, run, tiles) =
      piece_loop_tiles file_size file_size (piece_size file_size) file_size 0 meta.parts_hashes now
        (piece_size_bounds file_size pos).0 (omega arith) (omega arith) room in
    (started d meta now ps, rw run, rw fresh tiles, refl, refl, refl)

piece_offset :
    (step start end i : ℕ) (hashes : List ℕ) (ps : List PieceProgress) (p : PieceProgress)
    → PiecesTile step start hashes ps end
    → get_elem? ps i ≡ some p
    → (p.offset ≡ start + i * step) × (p.offset < end)
piece_offset step start end i hashes [] p t e = cc
piece_offset step start end i [] (q ∷ ps) p t e = absurd t
piece_offset step start end zero (h ∷ hashes) (q ∷ ps) p t e =
    let same : q ≡ p = cc in rw (← same) (omega arith)
piece_offset step start end (suc i) (h ∷ hashes) (q ∷ ps) p t e =
    let later = piece_offset step (start + q.size) end i hashes ps p t.6 e in
    (omega (arith, later), later.1)

quotient_exact : (i n : ℕ) → 0 < n → i * n / n ≡ i
quotient_exact i n h = grind arith

-- In a download of a non-empty file whose pieces tile it, `getPieceIndex` of a piece's offset is
-- the piece's index, when that is below 2^32.
get_piece_index-offset :
    (d : DownloadProgress) (hashes : List ℕ) (i : ℕ) (p : PieceProgress)
    → 0 < d.file_size
    → i < 2 ^ 32
    → PiecesTile (piece_size d.file_size) 0 hashes d.pieces d.file_size
    → get_elem? d.pieces i ≡ some p
    → get_piece_index d p.offset ≡ ok i
unfolding get_piece_index
get_piece_index-offset d hashes i p pos fits tiles e =
    let step = piece_size d.file_size in
    let bounds = piece_size_bounds d.file_size pos in
    let at = piece_offset step 0 d.file_size i hashes d.pieces p tiles e in
    ground (arith, bounds.0, at.0, quotient_exact i (piece_size d.file_size) bounds.0)
