-- ===== src/FileIo/Damaged.antt =====
-- A finished file against its hash: verifyFile, getDamagedPieces and changeAllStatus
-- (Peer/Torrent/FileIO/FileIO.cpp), where the reads succeed; FileIo.Damaged.Reading has their exceptions.
pub mod Cleared
pub mod Fresh
pub mod Reading
use gitabic.Base.{
  ℕ, zero, suc, ◌+◌, ◌%◌, ◌^◌, Bool, true, false, if◌then◌else◌, List, [], ◌∷◌, length,
}
use gitabic.Bytes.{Outcome, ok, bind}
use gitabic.Progress.Status.{DownloadStatus, empty}
use gitabic.Progress.Piece.{PieceProgress}
use gitabic.Progress.Download.{DownloadProgress, update_piece_status}
use gitabic.FileIo.{FileIo, verify_piece}

-- The loop from piece `i` on; an index is pushed as a `uint16_t`.
unfoldable pub damaged_from : (List ℕ → ℕ) → List ℕ → ℕ → List PieceProgress → List ℕ
damaged_from sha256 file i [] = []
damaged_from sha256 file i (p ∷ ps) =
    let rest = damaged_from sha256 file (suc i) ps in
    if verify_piece sha256 file p.offset p.size p.hash then rest else (i % 2 ^ 16) ∷ rest

unfoldable pub get_damaged_pieces : (List ℕ → ℕ) → FileIo → List ℕ
unfolding damaged_from
get_damaged_pieces sha256 io = damaged_from sha256 io.file 0 io.download_progress.pieces

-- The loop of verifyFile.
unfoldable pub mark_empty : List ℕ → DownloadProgress → ℕ → Outcome DownloadProgress
unfolding update_piece_status
mark_empty [] d now = ok d
mark_empty (i ∷ is) d now =
    let changed = update_piece_status d i empty now in
    bind changed.1 (λ _. mark_empty is changed.0 now)

unfoldable pub verify_file : (List ℕ → ℕ) → FileIo → ℕ → Outcome (FileIo × Bool)
unfolding get_damaged_pieces mark_empty
verify_file sha256 io now =
    let d = io.download_progress in
    if verify_piece sha256 io.file 0 d.file_size d.file_hash
    then ok (io, true)
    else bind (mark_empty (get_damaged_pieces sha256 io) d now)
        (λ marked. ok (record io { download_progress = marked }, false))

-- The loop of changeAllStatus, with so many pieces left.
unfoldable change_from : ℕ → ℕ → DownloadStatus → DownloadProgress → ℕ → Outcome DownloadProgress
unfolding update_piece_status
change_from zero i s d now = ok d
change_from (suc n) i s d now =
    let changed = update_piece_status d i s now in
    bind changed.1 (λ _. change_from n (suc i) s changed.0 now)

unfoldable change_all_status : DownloadStatus → FileIo → ℕ → Outcome FileIo
unfolding change_from
change_all_status s io now =
    bind (change_from (length io.download_progress.pieces) 0 s io.download_progress now)
      (λ d. ok (record io { download_progress = d }))
