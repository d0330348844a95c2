-- ===== src/FileIo/Damaged/Reading.antt =====
-- verifyFile with the exceptions of its reads: readFileChunk, verifyPiece
-- (Peer/Utils/FileUtils/FileUtils.cpp), getDamagedPieces and verifyFile
-- (Peer/Torrent/FileIO/FileIO.cpp). Whether the file opens and what the construction of a vector throws are
-- parameters.
use gitabic.Base.{
  ℕ, suc, ◌%◌, ◌^◌, ◌≤◌, ◌≡◌, refl, ap, ◌∙◌, Bool, true, false, ◌==◌, Bool-cases, ◌⊎◌, inl, inr,
  if◌then◌else◌, List, [], ◌∷◌, length, Option, none, some, All,
}
use gitabic.Bytes.{Error, Outcome, ok, raise, bind, runtime_error}
use gitabic.Progress.Status.{empty}
use gitabic.Progress.Piece.{PieceProgress}
use gitabic.Progress.Download.{DownloadProgress}
use gitabic.FileIo.{FileIo, read_file_chunk, verify_piece}
use gitabic.FileIo.Damaged.{damaged_from, get_damaged_pieces, mark_empty, verify_file}
use gitabic.FileIo.Damaged.Cleared.{IsSound, verify_file-clears}

-- `opens`: the stream on the file is good; `refused` is what a vector of so many bytes throws.
pub record Disk : Type 0 where
  pub opens : Bool
  pub refused : ℕ → Option Error

unfoldable vector_of : Disk → ℕ → List ℕ → Outcome (List ℕ)
vector_of disk size bytes = elim (disk.refused size) [ none ↦ ok bytes | some e ↦ raise e ]

unfoldable read_chunk : Disk → List ℕ → ℕ → ℕ → Outcome (List ℕ)
unfolding vector_of read_file_chunk
read_chunk disk file offset size =
    if disk.opens
    then vector_of disk size (read_file_chunk file offset size)
    else raise runtime_error

unfoldable verify_piece_reading : Disk → (List ℕ → ℕ) → List ℕ → ℕ → ℕ → ℕ → Outcome Bool
unfolding read_chunk
verify_piece_reading disk sha256 file offset size hash =
    bind (read_chunk disk file offset size) (λ bytes. ok (hash == sha256 bytes))

-- The loop of getDamagedPieces from piece `i` on.
unfoldable damaged_reading :
    Disk → (List ℕ → ℕ) → List ℕ → ℕ → List PieceProgress → Outcome (List ℕ)
unfolding verify_piece_reading
damaged_reading disk sha256 file i [] = ok []
damaged_reading disk sha256 file i (p ∷ ps) =
    bind (verify_piece_reading disk sha256 file p.offset p.size p.hash) λ good.
      bind (damaged_reading disk sha256 file (suc i) ps)
        λ rest. ok (if good then rest else (i % 2 ^ 16) ∷ rest)

unfoldable pub verify_file_reading : Disk → (List ℕ → ℕ) → FileIo → ℕ → Outcome (FileIo × Bool)
unfolding verify_piece_reading damaged_reading mark_empty
verify_file_reading disk sha256 io now =
    let d = io.download_progress in
    bind (verify_piece_reading disk sha256 io.file 0 d.file_size d.file_hash) λ good.
      if good
      then ok (io, true)
      else bind (damaged_reading disk sha256 io.file 0 d.pieces) λ damaged.
        bind (mark_empty damaged d now)
          (λ marked. ok (record io { download_progress = marked }, false))

-- A vector of the file's size can be had, and one of the size of each piece.
pub record IsRoomy (disk : Disk) (d : DownloadProgress) : Type 0 where
  pub whole : disk.refused d.file_size ≡ none
  pub each : All (λ p. disk.refused p.size ≡ none) d.pieces

module _ (disk : Disk) (sha256 : List ℕ → ℕ) (file : List ℕ) where
  verify_piece_reading-verify_piece :
      (offset size hash : ℕ)
      → disk.opens ≡ true
      → disk.refused size ≡ none
      → verify_piece_reading disk sha256 file offset size hash
        ≡ ok (verify_piece sha256 file offset size hash)
  unfolding verify_piece_reading read_chunk vector_of verify_piece
  verify_piece_reading-verify_piece offset size hash on room = rw on (rw (room, vector_of) refl)

  damaged_reading-damaged_from :
      (i : ℕ) (ps : List PieceProgress)
      → disk.opens ≡ true
      → All (λ p. disk.refused p.size ≡ none) ps
      → damaged_reading disk sha256 file i ps ≡ ok (damaged_from sha256 file i ps)
  unfolding damaged_reading damaged_from
  damaged_reading-damaged_from i [] on room = refl
  damaged_reading-damaged_from i (p ∷ ps) on room =
      let rest = damaged_from sha256 file (suc i) ps in
      let good = verify_piece sha256 file p.offset p.size p.hash in
      let finish : Bool → List ℕ → Outcome (List ℕ) =
        λ b l. ok (if b then l else (i % 2 ^ 16) ∷ l) in
      ap (λ o. bind o λ b. bind (damaged_reading disk sha256 file (suc i) ps) (finish b))
        (verify_piece_reading-verify_piece p.offset p.size p.hash on room.0)
      ∙ ap (λ o. bind o (finish good)) (damaged_reading-damaged_from (suc i) ps on room.1)

module _ (disk : Disk) (sha256 : List ℕ → ℕ) (io : FileIo) (now : ℕ) where
  verify_file_reading-closed :
      disk.opens ≡ false → verify_file_reading disk sha256 io now ≡ raise runtime_error
  unfolding verify_file_reading verify_piece_reading read_chunk
  verify_file_reading-closed off = rw off refl

  verify_file_reading-verify_file :
      disk.opens ≡ true
      → IsRoomy disk io.download_progress
      → verify_file_reading disk sha256 io now ≡ verify_file sha256 io now
  unfolding verify_file_reading verify_file get_damaged_pieces
  verify_file_reading-verify_file on room =
      let d = io.download_progress in
      let finish : List ℕ → Outcome (FileIo × Bool) = λ damaged.
        bind (mark_empty damaged d now)
          (λ marked. ok (record io { download_progress = marked }, false)) in
      let after : Outcome (List ℕ) → Bool → Outcome (FileIo × Bool) =
        λ o good. if good then ok (io, true) else bind o finish in
      ap (λ o. bind o (after (damaged_reading disk sha256 io.file 0 d.pieces)))
        (verify_piece_reading-verify_piece disk sha256 io.file 0 d.file_size d.file_hash on
          room.whole)
      ∙ ap (λ o. after o (verify_piece sha256 io.file 0 d.file_size d.file_hash))
          (damaged_reading-damaged_from disk sha256 io.file 0 d.pieces on room.each)

-- verifyFile on at most 2^16 pieces, where vectors of the file's size and of each piece's can be had: if the
-- file cannot be opened, it throws. Otherwise it returns without an exception and the file is as it was;
-- either the result is true, nothing has changed and the bytes of the file have its hash, or it is false
-- and each piece is empty then, or its bytes have its hash.
pub verify_file_reading_lem :
    (disk : Disk) (sha256 : List ℕ → ℕ) (io : FileIo) (now : ℕ)
    → length io.download_progress.pieces ≤ 2 ^ 16
    → IsRoomy disk io.download_progress
    → ((disk.opens ≡ false) × (verify_file_reading disk sha256 io now ≡ raise runtime_error))
      ⊎ ((t : FileIo) × (good : Bool) × (verify_file_reading disk sha256 io now ≡ ok (t, good))
          × (t.file ≡ io.file)
          × (((good ≡ true)
                × (t ≡ io)
                × (sha256 (read_file_chunk io.file 0 io.download_progress.file_size)
                    ≡ io.download_progress.file_hash))
              ⊎ ((good ≡ false)
                  × All
                      (λ p. (p.status ≡ empty) ⊎ IsSound sha256 t.file p)
                      t.download_progress.pieces)))
verify_file_reading_lem disk sha256 io now small room = elim (Bool-cases disk.opens) [
  | inl on ↦
      let (t, good, run, same, verdict) = verify_file-clears sha256 io now small in
      inr (t, good, verify_file_reading-verify_file disk sha256 io now on room ∙ run, same, verdict)
  | inr off ↦ inl (off, verify_file_reading-closed disk sha256 io now off)
]
