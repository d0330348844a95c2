-- ===== src/FileIo/Verified.antt =====
-- What it takes for a piece to count as verified (Peer/Torrent/FileIO/FileIO.cpp).
use gitabic.Base.{
  get_elem?-set_self, ℕ, ◌≡◌, refl, sym, ap, ◌∙◌, subst, Bool, true, false, ◌==◌, ==_iff,
  if◌then◌else◌, List, some, get_elem?, arith,
}
use gitabic.Bytes.{ok}
use gitabic.Bytes.Ensures.{bind-eq_ok}
use gitabic.Progress.Status.{DownloadStatus, verified}
use gitabic.Progress.Piece.{PieceProgress, set_status}
use gitabic.Progress.Download.{
  DownloadProgress, update_piece_status, on_downloaded_block, get_piece, check_finished, set_piece,
}
use gitabic.FileIo.{
  FileIo, get_offset, read_file_chunk, write_chunk_to_file, verify_piece,
  update_piece_state_to_file, settle_piece, finish_piece, save_block,
}
use gitabic.FileIo.Transfer.{update_piece_state_to_file_keeps, settle_piece_keeps}

-- The piece that the download has at the index has the wanted status, size and hash.
pub record IsPiece (d : DownloadProgress) (piece : ℕ) (s : DownloadStatus) (size hash : ℕ)
    : Type 0 where
  pub found : PieceProgress
  pub at : get_elem? d.pieces piece ≡ some found
  pub status_is : found.status ≡ s
  pub size_is : found.size ≡ size
  pub hash_is : found.hash ≡ hash

set_status_kept :
    (p : PieceProgress) (now : ℕ)
    → ((set_status p verified now).0.status ≡ verified)
      × ((set_status p verified now).0.size ≡ p.size)
      × ((set_status p verified now).0.hash ≡ p.hash)
unfolding set_status
set_status_kept p now = (refl, refl, refl)

get_piece-eq_ok :
    (d : DownloadProgress) (piece : ℕ) (p : PieceProgress)
    → get_piece d piece ≡ ok p
    → get_elem? d.pieces piece ≡ some p
unfolding get_piece
get_piece-eq_ok d piece p e = ground (arith, e)

update_piece_status_verified :
    (d : DownloadProgress) (piece now : ℕ) (p : PieceProgress)
    → get_elem? d.pieces piece ≡ some p
    → IsPiece (update_piece_status d piece verified now).0 piece verified p.size p.hash
unfolding update_piece_status set_piece check_finished
update_piece_status_verified d piece now p e =
    let kept = set_status_kept p now in
    rw (e, update_piece_status)
      record {
        found = (set_status p verified now).0;
        at = get_elem?-set_self d.pieces piece p (set_status p verified now).0 e;
        status_is = kept.0;
        size_is = kept.1;
        hash_is = kept.2;
      }

-- The piece is verified in the download, and the bytes of the file have its hash.
abbrev pub IsVerified : (List ℕ → ℕ) → ℕ → ℕ → FileIo → Type 0
IsVerified sha256 piece_size piece t =
    (size : ℕ) × (hash : ℕ) × IsPiece t.download_progress piece verified size hash
    × (sha256 (read_file_chunk t.file (get_offset piece_size piece 0) size) ≡ hash)

settle_piece_verified :
    (io t : FileIo) (piece now : ℕ) (p : PieceProgress)
    → settle_piece true io piece now ≡ ok (t, true)
    → get_elem? io.download_progress.pieces piece ≡ some p
    → (t.file ≡ io.file) × IsPiece t.download_progress piece verified p.size p.hash
unfolding settle_piece
settle_piece_verified io t piece now p h e =
    let changed = update_piece_status io.download_progress piece verified now in
    let next = record io { download_progress = changed.0 } in
    let (x, e1, h1) = bind-eq_ok changed.1 _ (t, true) h in
    let (saved, e2, h2) = bind-eq_ok (update_piece_state_to_file next piece now) _ (t, true) h1 in
    let kept = update_piece_state_to_file_keeps next saved piece now e2 in
    let same : saved ≡ t = cc in
    subst (λ s. (s.file ≡ io.file) × IsPiece s.download_progress piece verified p.size p.hash) same
      (
        kept.0,
        subst (λ d. IsPiece d piece verified p.size p.hash) (sym kept.1)
            (update_piece_status_verified io.download_progress piece now p e),
      )

finish_piece-IsVerified :
    (sha256 : List ℕ → ℕ) (io t : FileIo) (piece now : ℕ)
    → finish_piece sha256 io piece now ≡ ok (t, true)
    → IsVerified sha256 io.piece_size piece t
unfolding finish_piece verify_piece
finish_piece-IsVerified sha256 io t piece now h =
    let (p, e, h1) = bind-eq_ok (get_piece io.download_progress piece) _ (t, true) h in
    let offset = get_offset io.piece_size piece 0 in
    let good : Bool = p.hash == sha256 (read_file_chunk io.file offset p.size) in
    let is_true : true ≡ good = (settle_piece_keeps good io piece now (t, true) h1).1 in
    let h2 : settle_piece true io piece now ≡ ok (t, true) =
      subst (λ b. settle_piece b io piece now ≡ ok (t, true)) (sym is_true) h1 in
    let settled =
      settle_piece_verified io t piece now p h2 (get_piece-eq_ok io.download_progress piece p e) in
    (
      p.size,
      p.hash,
      settled.1,
      ap (λ f. sha256 (read_file_chunk f offset p.size)) settled.0
          ∙ sym ((==_iff p.hash _).0 (sym is_true)),
    )

-- Whatever bytes arrive for a block: when saveBlock returns true, the download has the block's piece
-- as verified, and the bytes that then stand in the file where the piece begins, as many as the piece
-- has, hash to the piece's hash.
pub save_block-IsVerified :
    (sha256 : List ℕ → ℕ) (io t : FileIo) (piece block : ℕ) (bytes : List ℕ) (now : ℕ)
    → save_block sha256 io piece block bytes now ≡ ok (t, true)
    → IsVerified sha256 io.piece_size piece t
unfolding save_block
save_block-IsVerified sha256 io t piece block bytes now h =
    let marked = on_downloaded_block io.download_progress piece block now in
    let (complete, e, h1) = bind-eq_ok marked.1 _ (t, true) h in after complete h1
  where
    saved : FileIo
    saved = record io {
      file = write_chunk_to_file io.file (get_offset io.piece_size piece block) bytes;
      download_progress = (on_downloaded_block io.download_progress piece block now).0;
    }

    after :
        (complete : Bool)
        → (if complete then finish_piece sha256 saved piece now else ok (saved, false))
          ≡ ok (t, true)
        → IsVerified sha256 io.piece_size piece t
    after true h1 = finish_piece-IsVerified sha256 saved t piece now h1
    after false h1 = cc
