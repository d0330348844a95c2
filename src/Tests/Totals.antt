-- ===== src/Tests/Totals.antt =====
-- The bytes counted in the download of a file of five bytes.
use gitabic.Base.{◌≡◌, ◌≢◌, refl, [], ◌∷◌, get_elem?, some, sum_by, arith}
use gitabic.Progress.Status.{empty, downloaded}
use gitabic.Progress.Piece.{PieceProgress, set_status}
use gitabic.Progress.Piece.Accounting.{Consistent, counted_bytes, missing_bytes, all_bytes}
use gitabic.Progress.Download.{update_piece_status}
use gitabic.Progress.Download.Accounting.{Tracked}
use gitabic.Tests.Downloads.{block, piece, download, asked}

piece-Consistent : Consistent piece
unfolding counted_bytes missing_bytes all_bytes
piece-Consistent = record {
  status_named = tt;
  blocks_named = (tt, tt);
  empty_uncounted = λ e. refl;
  counted_full = λ e. cc;
  small = omega arith;
}

download-Tracked : Tracked download
unfolding counted_bytes all_bytes sum_by
download-Tracked = record {
  counted = refl;
  whole = refl;
  consistent = (piece-Consistent, tt);
  fits = omega arith;
}

abbrev done_piece : PieceProgress
done_piece = record piece {
  status = downloaded;
  last_access = 105;
  blocks = record block { status = downloaded } ∷ [];
}

-- The piece has been asked for.
asked_piece : (p : PieceProgress) → get_elem? asked.pieces 0 ≡ some p → p.status ≢ empty
unfolding update_piece_status set_status
asked_piece p e = cc
