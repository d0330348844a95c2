-- ===== src/Progress/Download/Reach.antt =====
-- The states that a download reaches from `init`, and what `progress() >= 1` means in them.
use gitabic.Base.{
  ℕ, ◌+◌, ◌^◌, ◌≤◌, ◌<◌, ◌≡◌, ◌≢◌, refl, ap, ◌∙◌, List, [], ◌∷◌, arith, get_elem?, some, length,
  ◌*◌, true, false, All, sum_by, sum_by-le, subst, ◌==◌,
}
use gitabic.Bytes.{ok}
use gitabic.Splitter.{piece_size, max_piece_size, piece_size_bounds}
use gitabic.MetaData.{MetaDataFile}
use gitabic.Progress.Status.{DownloadStatus, empty, verified, is_counted, is_missing, IsNamed}
use gitabic.Progress.Block.{BlockInfo}
use gitabic.Progress.Piece.{PieceProgress, set_status}
use gitabic.Progress.Piece.Layout.{Tiles}
use gitabic.Progress.Piece.Accounting.{
  Consistent, BlockNamed, counted_bytes, missing_bytes, all_bytes, add_change, counted-le-all,
  set_status_accounting, all_bytes-set_status, counted-missing,
}
use gitabic.Progress.Download.{
  DownloadProgress, on_downloaded_block, update_piece_status, on_block_status, verify_pieces, done,
  init, is_finished,
}
use gitabic.Progress.Download.Layout.{PiecesTile, init-PiecesTile}
use gitabic.Progress.Download.Accounting.{
  Tracked, piece_counted, piece_bytes, update_piece_status-Tracked, on_downloaded_block-Tracked,
  on_block_status-Tracked,
}

sum_counted-le : (ps : List PieceProgress) → sum_by piece_counted ps ≤ sum_by piece_bytes ps
sum_counted-le ps = sum_by-le piece_counted piece_bytes ps (λ p. counted-le-all p.blocks)

empty_not_counted : is_counted empty ≢ true
empty_not_counted e = cc

-- `k` is what is counted in the pieces that the loop has passed.
verify_pieces-Tracks :
    (k total : ℕ) (ps : List PieceProgress) (now : ℕ)
    → total ≡ k + sum_by piece_counted ps
    → k + sum_by piece_bytes ps < 2 ^ 47
    → All Consistent ps
    → let r = verify_pieces ps total now in
      (r.1 ≡ k + sum_by piece_counted r.0)
      × (sum_by piece_bytes r.0 ≡ sum_by piece_bytes ps)
      × All Consistent r.0
unfolding verify_pieces sum_by
verify_pieces-Tracks k total [] now e fits c = (e, refl, tt)
verify_pieces-Tracks k total (p ∷ ps) now e fits (cp, cs) =
    let changed = set_status p verified now in
    let (change, kept) =
      set_status_accounting p verified now total cp tt (omega (arith, e))
        (omega (arith, e, counted-le-all p.blocks, sum_counted-le ps)) in
    let same = all_bytes-set_status p verified now tt in
    let (total', bytes', all') =
      verify_pieces-Tracks (k + piece_counted changed.0) (add_change total changed.1) ps now
        (omega (arith, change, e)) (omega (arith, same, counted-le-all changed.0.blocks)) cs in
    (omega (arith, total'), omega (arith, bytes', same), (kept, all'))

done-Tracked : (d : DownloadProgress) (now : ℕ) → Tracked d → Tracked (done d now)
unfolding done
done-Tracked d now t =
    let (total, bytes, all) =
      verify_pieces-Tracks 0 d.total_download_bytes d.pieces now (omega (arith, t.counted))
        (omega (arith, t.whole, t.fits)) t.consistent in
    record {
      counted = omega (arith, total);
      whole = bytes ∙ t.whole;
      consistent = all;
      fits = t.fits;
    }

Tiles-counts :
    (start : ℕ) (bs : List BlockInfo) (end : ℕ)
    → Tiles start bs end
    → (counted_bytes bs ≡ 0) × (start + all_bytes bs ≡ end) × All BlockNamed bs
unfolding counted_bytes all_bytes
Tiles-counts start [] end t = (refl, omega arith, tt)
Tiles-counts start (b ∷ bs) end t =
    let (counted, bytes, named) = Tiles-counts (start + b.size) bs end t.5 in
    (rw t.4 (omega (arith, counted)), omega (arith, bytes), (rw t.4 tt, named))

PiecesTile-counts :
    (step start : ℕ) (hashes : List ℕ) (ps : List PieceProgress) (end : ℕ)
    → step ≤ max_piece_size
    → PiecesTile step start hashes ps end
    → (sum_by piece_counted ps ≡ 0) × (start + sum_by piece_bytes ps ≡ end) × All Consistent ps
unfolding sum_by
PiecesTile-counts step start hashes [] end h t = (refl, omega arith, tt)
PiecesTile-counts step start [] (p ∷ ps) end h t = absurd t
PiecesTile-counts step start (x ∷ hashes) (p ∷ ps) end h t =
    let (counted, bytes, consistent) =
      PiecesTile-counts step (start + p.size) hashes ps end h t.6 in
    let (c, b, named) = Tiles-counts 0 p.blocks p.size t.5 in
    (
      omega (arith, c, counted),
      omega (arith, b, bytes),
      (
        record {
          status_named = rw t.3 tt;
          blocks_named = named;
          empty_uncounted = λ _. c;
          counted_full = λ e. absurd (empty_not_counted (rw t.3 at e));
          small = omega (arith, b, t.1, h);
        },
        consistent,
      ),
    )

-- What the program does to a download: a block of a piece that was started arrives; a piece gets a
-- status; a block that is not counted is marked as empty or as being downloaded; the seeder is done.
pub data Step (d : DownloadProgress) : DownloadProgress → Type 0 where
  block_arrives :
      (piece block now : ℕ)
      → ((p : PieceProgress) → get_elem? d.pieces piece ≡ some p → p.status ≢ empty)
      → Step d (on_downloaded_block d piece block now).0
  piece_gets :
      (piece now : ℕ) (s : DownloadStatus)
      → IsNamed s
      → Step d (update_piece_status d piece s now).0
  block_gets :
      (piece block now : ℕ) (s : DownloadStatus)
      → is_missing s ≡ true
      → IsNamed s
      → ((p : PieceProgress) (b : BlockInfo)
          → get_elem? d.pieces piece ≡ some p
          → get_elem? p.blocks block ≡ some b
          → is_counted b.status ≡ false)
      → Step d (on_block_status d piece block s now).0
  seeds : (now : ℕ) → Step d (done d now)

pub data Reach (d : DownloadProgress) : DownloadProgress → Type 0 where
  here : Reach d d
  next : {e f : DownloadProgress} → Reach d e → Step e f → Reach d f

Step-Tracked : {d e : DownloadProgress} → Step d e → Tracked d → Tracked e
Step-Tracked {d} (block_arrives piece block now started) t =
    on_downloaded_block-Tracked d piece block now started t
Step-Tracked {d} (piece_gets piece now s named) t =
    update_piece_status-Tracked d piece now s named t
Step-Tracked {d} (block_gets piece block now s new named old) t =
    on_block_status-Tracked d piece block now s new named old t
Step-Tracked {d} (seeds now) t = done-Tracked d now t

Reach-Tracked : {d e : DownloadProgress} → Reach d e → Tracked d → Tracked e
Reach-Tracked here t = t
Reach-Tracked (next r s) t = Step-Tracked s (Reach-Tracked r t)

sum_missing :
    (ps : List PieceProgress)
    → All Consistent ps
    → sum_by piece_counted ps + sum_by (λ p. missing_bytes p.blocks) ps ≡ sum_by piece_bytes ps
unfolding sum_by
sum_missing [] c = refl
sum_missing (p ∷ ps) (c, cs) =
    omega (arith, counted-missing p.blocks c.blocks_named, sum_missing ps cs)

Step-file_size : {d e : DownloadProgress} → Step d e → e.file_size ≡ d.file_size
unfolding on_downloaded_block update_piece_status on_block_status done
Step-file_size (block_arrives piece block now started) = ground arith
Step-file_size (piece_gets piece now s named) = ground arith
Step-file_size (block_gets piece block now s new named old) = ground arith
Step-file_size (seeds now) = refl

Reach-file_size : {d e : DownloadProgress} → Reach d e → e.file_size ≡ d.file_size
Reach-file_size here = refl
Reach-file_size (next r s) = Step-file_size s ∙ Reach-file_size r

abbrev pub missing_total : DownloadProgress → ℕ
missing_total d = sum_by (λ p. missing_bytes p.blocks) d.pieces

Tracked-finished :
    (d : DownloadProgress) → 0 < d.file_size → Tracked d → is_finished d ≡ (missing_total d == 0)
unfolding is_finished
Tracked-finished d pos t = ground (arith, sum_missing d.pieces t.consistent, t.counted, t.whole)

-- Take a metadata file of a non-empty file of fewer than 2^47 bytes with a hash for each piece,
-- start a download from it, and let these happen in any order: a block of a piece that was started
-- arrives; a piece gets a named status; a block that is not counted is marked as empty or as being
-- downloaded; the seeder is done. Then `_totalDownloadBytes` is the number of bytes in the blocks
-- that are downloaded or verified, and `progress()` is 1 or more exactly when no byte is in a block
-- that is empty or being downloaded.
pub progress_exact :
    (meta : MetaDataFile) (now : ℕ) (blank d e : DownloadProgress)
    → blank.pieces ≡ []
    → 0 < meta.sizes.file_size
    → meta.sizes.file_size < 2 ^ 47
    → meta.sizes.file_size ≤ length meta.parts_hashes * piece_size meta.sizes.file_size
    → init blank meta now ≡ ok d
    → Reach d e
    → (e.total_download_bytes ≡ sum_by piece_counted e.pieces)
      × (is_finished e ≡ (missing_total e == 0))
progress_exact meta now blank d e fresh pos fits room run r =
    let (s, ran, tiles, size, total, _) = init-PiecesTile blank meta now fresh pos room in
    let same : s ≡ d = cc in
    let bounds = piece_size_bounds meta.sizes.file_size pos in
    let (counted, bytes, consistent) =
      PiecesTile-counts _ 0 meta.parts_hashes s.pieces s.file_size (rw size bounds.2) tiles in
    let first : Tracked s = record {
      counted = omega (arith, total, counted);
      whole = omega (arith, bytes);
      consistent = consistent;
      fits = omega (arith, size);
    } in
    let t : Tracked e = Reach-Tracked r (subst (λ x. Tracked x) same first) in
    (
      t.counted,
      Tracked-finished e (omega (arith, Reach-file_size r, size, ap (λ x. x.file_size) same)) t,
    )
