-- ===== src/Progress/Download/Accounting.antt =====
-- `_totalDownloadBytes` against the blocks that are downloaded or verified.
use gitabic.Base.{
  Bool-cases, ltb, ℕ, ◌+◌, ◌^◌, ◌%◌, ◌≤◌, ◌<◌, ◌≡◌, ◌≢◌, List, arith, get_elem?, set, some,
  Option-cases, inl, inr, true, false, All, All-get_elem?, All-set, sum_by, sum_by-set, sum_by-ge,
  sum_by-le,
}
use gitabic.Bytes.RoundTrip.{Outcome-cases}
use gitabic.Progress.Status.{DownloadStatus, empty, is_counted, is_missing, IsNamed}
use gitabic.Progress.Block.{BlockInfo}
use gitabic.Progress.Piece.{PieceProgress, downloaded_block, update_block_status}
use gitabic.Progress.Piece.Accounting.{
  Consistent, counted_bytes, all_bytes, counted-le-all, set_status_accounting, all_bytes-set_status,
}
use gitabic.Progress.Piece.Marking.{
  downloaded_block_accounting, downloaded_block-Consistent, update_block_status-Consistent,
}
use gitabic.Progress.Download.{
  DownloadProgress, on_downloaded_block, update_piece_status, on_block_status,
}

abbrev pub piece_counted : PieceProgress → ℕ
piece_counted p = counted_bytes p.blocks

abbrev pub piece_bytes : PieceProgress → ℕ
piece_bytes p = all_bytes p.blocks

-- A total and the pieces that it belongs to: it is the number of bytes counted in them.
pub record Tracks (file_size total : ℕ) (pieces : List PieceProgress) : Type 0 where
  pub counted : total ≡ sum_by piece_counted pieces
  pub whole : sum_by piece_bytes pieces ≡ file_size
  pub consistent : All Consistent pieces
  pub fits : file_size < 2 ^ 47

abbrev pub Tracked : DownloadProgress → Type 0
Tracked d = Tracks d.file_size d.total_download_bytes d.pieces

-- One piece changes, and the total follows.
set-Tracks :
    {file_size total : ℕ} {pieces : List PieceProgress} (i : ℕ) (p q : PieceProgress) (total' : ℕ)
    → Tracks file_size total pieces
    → get_elem? pieces i ≡ some p
    → Consistent q
    → piece_bytes q ≡ piece_bytes p
    → total' + piece_counted p ≡ total + piece_counted q
    → Tracks file_size total' (set pieces i q)
set-Tracks {file_size} {total} {pieces} i p q total' t found c same change = record {
  counted = omega (arith, t.counted, change, sum_by-set piece_counted pieces i p q found);
  whole = omega (arith, t.whole, same, sum_by-set piece_bytes pieces i p q found);
  consistent = All-set Consistent pieces i q t.consistent c;
  fits = t.fits;
}

module _ {file_size total : ℕ} {pieces : List PieceProgress} (i : ℕ) (p : PieceProgress)
    (t : Tracks file_size total pieces) (found : get_elem? pieces i ≡ some p) where
  piece-Consistent : Consistent p
  piece-Consistent = All-get_elem? Consistent pieces i p t.consistent found

  piece-le-total : piece_counted p ≤ total
  piece-le-total = omega (arith, t.counted, sum_by-ge piece_counted pieces i p found)

  total_room : total + piece_bytes p < 2 ^ 64
  total_room = omega (
    arith,
    t.counted,
    t.whole,
    t.fits,
    sum_by-le piece_counted piece_bytes pieces (λ x. counted-le-all x.blocks),
    sum_by-ge piece_bytes pieces i p found,
  )

-- `updatePieceStatus` keeps the total equal to the bytes counted, and the pieces consistent, for
-- every piece index and every named status.
pub update_piece_status-Tracked :
    (d : DownloadProgress) (piece now : ℕ) (s : DownloadStatus)
    → IsNamed s
    → Tracked d
    → Tracked (update_piece_status d piece s now).0
unfolding update_piece_status
update_piece_status-Tracked d piece now s named t = elim (Option-cases (get_elem? d.pieces piece)) [
  | inl missing ↦ rw (missing, update_piece_status) t
  | inr (p, found) ↦
      let c = piece-Consistent piece p t found in
      let (change, kept) =
        set_status_accounting p s now d.total_download_bytes c named
          (piece-le-total piece p t found) (total_room piece p t found) in
      rw (found, update_piece_status)
        (set-Tracks piece p _ _ t found kept (all_bytes-set_status p s now named) change)
]

-- `downloadedBlock` keeps the total equal to the bytes counted, and the pieces consistent, when the
-- piece, if it is there, is not empty.
pub on_downloaded_block-Tracked :
    (d : DownloadProgress) (piece block now : ℕ)
    → ((p : PieceProgress) → get_elem? d.pieces piece ≡ some p → p.status ≢ empty)
    → Tracked d
    → Tracked (on_downloaded_block d piece block now).0
unfolding on_downloaded_block
on_downloaded_block-Tracked d piece block now started t =
    elim (Option-cases (get_elem? d.pieces piece)) [
      | inl missing ↦ rw (missing, on_downloaded_block) t
      | inr (p, found) ↦ elim (Outcome-cases (downloaded_block p block now)) [
        | inl ((q, n), run) ↦
            let (counted, same) = downloaded_block_accounting p q block now n run in
            let c =
              downloaded_block-Consistent p q block now n (piece-Consistent piece p t found)
                (started p found) run in
            let room = total_room piece p t found in
            let change : (d.total_download_bytes + n) % 2 ^ 64 + piece_counted p
                ≡ d.total_download_bytes + piece_counted q =
              omega (arith, counted, same, room, counted-le-all q.blocks) in
            rw (found, on_downloaded_block, run) (set-Tracks piece p q _ t found c same change)
        | inr (inl (e, run)) ↦ rw (found, on_downloaded_block, run) t
        | inr (inr run) ↦ rw (found, on_downloaded_block, run) t
      ]
    ]

-- `updateBlockStatus` keeps the total equal to the bytes counted, and the pieces consistent, when
-- it marks a block that is not counted as empty or as being downloaded.
pub on_block_status-Tracked :
    (d : DownloadProgress) (piece block now : ℕ) (s : DownloadStatus)
    → is_missing s ≡ true
    → IsNamed s
    → ((p : PieceProgress) (b : BlockInfo)
        → get_elem? d.pieces piece ≡ some p
        → get_elem? p.blocks block ≡ some b
        → is_counted b.status ≡ false)
    → Tracked d
    → Tracked (on_block_status d piece block s now).0
unfolding on_block_status
on_block_status-Tracked d piece block now s new named old t =
    elim (Option-cases (get_elem? d.pieces piece)) [
      | inl missing ↦ rw (missing, on_block_status) t
      | inr (p, found) ↦ elim (Option-cases (get_elem? p.blocks block)) [
        | inl missing ↦ elim (Bool-cases (ltb 10 block)) [
          | inl far ↦ unfold update_block_status in rw (found, on_block_status, missing, far) t
          | inr near ↦ unfold update_block_status in rw (found, on_block_status, missing, near) t
        ]
        | inr (b, there) ↦ elim (Outcome-cases (update_block_status p block s now)) [
          | inl (q, run) ↦
              let (c, counted, same) =
                update_block_status-Consistent p q block now s b (piece-Consistent piece p t found)
                  there (old p b found there) new named run in
              rw (found, on_block_status, run)
                (set-Tracks piece p q _ t found c same (omega (arith, counted)))
          | inr (inl (e, run)) ↦ rw (found, on_block_status, run) t
          | inr (inr run) ↦ rw (found, on_block_status, run) t
        ]
      ]
    ]
