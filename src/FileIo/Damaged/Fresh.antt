-- ===== src/FileIo/Damaged/Fresh.antt =====
-- A file whose metadata has just been made of it (Peer/Utils/MetaDataFile/MetaDataFile.cpp,
-- Peer/Utils/DowndloadProgress/DownloadProgress.cpp and Peer/Torrent/FileIO/FileIO.cpp together).
use gitabic.Base.{
  ℕ, zero, suc, ◌+◌, ◌-◌, ◌*◌, ◌%◌, ◌^◌, ◌<◌, ◌≤◌, ◌≡◌, refl, sym, ap, ◌∙◌, subst, min, true, false,
  ◌==◌, ==_refl, if◌then◌else◌, List, [], ◌∷◌, length, take, drop, arith,
}
use gitabic.Bytes.{ok, bind}
use gitabic.Bytes.Ensures.{bind-eq_ok}
use gitabic.Splitter.{piece_size, piece_size_bounds}
use gitabic.MetaData.{MetaDataFile, Address}
use gitabic.MetaData.Creation.{parts_from, StoredKey, create_meta_data}
use gitabic.Progress.Piece.{PieceProgress}
use gitabic.Progress.Download.{DownloadProgress, init, started, piece_loop}
use gitabic.Progress.Download.Layout.{PiecesTile, init-PiecesTile}
use gitabic.FileIo.{FileIo, read_file_chunk, verify_piece}
use gitabic.FileIo.Damaged.{damaged_from, get_damaged_pieces, mark_empty, verify_file}
use gitabic.FileIo.Damaged.Cleared.{damaged_from_good}

length-drop : (n : ℕ) (xs : List ℕ) → length (drop n xs) ≡ length xs - n
length-drop zero xs = omega arith
length-drop (suc n) [] = omega arith
length-drop (suc n) (x ∷ xs) = omega (arith, length-drop n xs)

drop-nil : (n : ℕ) → drop {A = ℕ} n [] ≡ []
drop-nil zero = refl
drop-nil (suc n) = refl

drop-drop : (m n : ℕ) (xs : List ℕ) → drop n (drop m xs) ≡ drop (m + n) xs
drop-drop zero n xs = let e : n ≡ 0 + n = omega arith in ap (λ k. drop k xs) e
drop-drop (suc m) n [] = drop-nil n ∙ sym (drop-nil (suc m + n))
drop-drop (suc m) n (x ∷ xs) =
    let e : suc m + n ≡ suc (m + n) = omega arith in
    drop-drop m n xs ∙ ap (λ k. drop k (x ∷ xs)) (sym e)

drop-min : (n : ℕ) (xs : List ℕ) → drop n xs ≡ drop (min n (length xs)) xs
drop-min zero xs = let e : 0 ≡ min 0 (length xs) = omega arith in ap (λ k. drop k xs) e
drop-min (suc n) [] = let e : 0 ≡ min (suc n) 0 = omega arith in ap (λ k. drop k []) e
drop-min (suc n) (x ∷ xs) =
    let e : suc (min n (length xs)) ≡ min (suc n) (suc (length xs)) = omega arith in
    drop-min n xs ∙ ap (λ k. drop k (x ∷ xs)) e

-- There is a hash for every piece.
parts_from_room :
    (sha256 : List ℕ → ℕ) (fuel step : ℕ) (rest : List ℕ)
    → 0 < step
    → length rest ≤ fuel
    → length rest ≤ length (parts_from sha256 fuel step rest) * step
unfolding parts_from
parts_from_room sha256 fuel step [] pos enough = omega arith
parts_from_room sha256 zero step (b ∷ bytes) pos enough = absurd (omega arith)
parts_from_room sha256 (suc fuel) step (b ∷ bytes) pos enough =
    let left = length-drop step (b ∷ bytes) in
    let rest =
      parts_from_room sha256 fuel step (drop step (b ∷ bytes)) pos
        (omega (arith, left, enough, pos)) in
    grind (arith, left, rest)

verify_piece_good :
    (sha256 : List ℕ → ℕ) (content : List ℕ) (offset size hash : ℕ)
    → hash ≡ sha256 (read_file_chunk content offset size)
    → verify_piece sha256 content offset size hash ≡ true
unfolding verify_piece
verify_piece_good sha256 content offset size hash e =
    ap (λ h. h == sha256 (read_file_chunk content offset size)) e ∙ ==_refl _

-- The pieces that tile the content from `start` on, with the hashes of its parts from there.
none_damaged :
    (sha256 : List ℕ → ℕ) (content : List ℕ) (step fuel start i : ℕ) (rest : List ℕ)
    (ps : List PieceProgress)
    → length content < 2 ^ 32
    → rest ≡ drop start content
    → PiecesTile step start (parts_from sha256 fuel step rest) ps (length content)
    → damaged_from sha256 content i ps ≡ []
unfolding parts_from
none_damaged sha256 content step fuel start i rest [] small at tiles = unfold damaged_from in refl
none_damaged sha256 content step fuel start i [] (p ∷ ps) small at tiles = absurd tiles
none_damaged sha256 content step zero start i (b ∷ bytes) (p ∷ ps) small at tiles = absurd tiles
none_damaged sha256 content step (suc fuel) start i (b ∷ bytes) (p ∷ ps) small at tiles =
    let left : length (b ∷ bytes) ≡ length content - start =
      ap length at ∙ length-drop start content in
    let (offset, size, pos, status, hash, blocks, later) = tiles in
    let whole : p.size ≡ min step (length (b ∷ bytes)) = omega (arith, left, size) in
    let current : min step (length (b ∷ bytes) % 2 ^ 32) ≡ p.size =
      omega (arith, left, size, small) in
    let read : take (min step (length (b ∷ bytes) % 2 ^ 32)) (b ∷ bytes)
        ≡ take p.size (drop p.offset content) =
      ap (λ k. take k (b ∷ bytes)) current
      ∙ ap (take p.size) (at ∙ ap (λ k. drop k content) (sym offset)) in
    let next : drop step (b ∷ bytes) ≡ drop (start + p.size) content =
      drop-min step (b ∷ bytes)
      ∙ ap (λ k. drop k (b ∷ bytes)) (sym whole)
      ∙ ap (drop p.size) at
      ∙ drop-drop start p.size content in
    damaged_from_good sha256 content i p ps (
      verify_piece_good sha256 content p.offset p.size p.hash
        (hash ∙ ap sha256 (unfold read_file_chunk in read)))
    ∙ none_damaged sha256 content step fuel (start + p.size) (suc i) (drop step (b ∷ bytes)) ps
        small next later

init-file_hash :
    (d : DownloadProgress) (meta : MetaDataFile) (now : ℕ) (e : DownloadProgress)
    → init d meta now ≡ ok e
    → e.file_hash ≡ meta.file_hash
unfolding init started
init-file_hash d meta now e h =
    let (ps, run, same) =
      bind-eq_ok
        (piece_loop meta.sizes.file_size meta.sizes.file_size (piece_size meta.sizes.file_size)
          meta.sizes.file_size meta.parts_hashes now)
        _ e h in
    let left : started d meta now ps ≡ e = cc in
    ap (λ (c : DownloadProgress). c.file_hash) (sym left)

-- A file that holds the content, with its download.
abbrev pub holding : List ℕ → List ℕ → ℕ → DownloadProgress → FileIo
holding content progress_file size e = record {
  file = content;
  progress_file = progress_file;
  download_progress = e;
  piece_size = size;
}

verify_file_whole :
    (sha256 : List ℕ → ℕ) (io : FileIo) (now : ℕ)
    → verify_piece sha256 io.file 0 io.download_progress.file_size io.download_progress.file_hash
      ≡ true
    → verify_file sha256 io now ≡ ok (io, true)
unfolding verify_file get_damaged_pieces
verify_file_whole sha256 io now h =
    ap
      (λ b.
        if b
        then ok (io, true)
        else bind (mark_empty (get_damaged_pieces sha256 io) io.download_progress now)
            (λ marked. ok (record io { download_progress = marked }, false)))
      h

take_all : (xs : List ℕ) → take (length xs) xs ≡ xs
take_all [] = refl
take_all (x ∷ xs) = ap (◌∷◌ x) (take_all xs)

-- A download that starts with the metadata that has been made of a file, which is not empty and shorter
-- than 2^32 bytes: in a copy of the file no piece is damaged, and verifyFile returns true and changes
-- nothing.
pub get_damaged_pieces-create_meta_data :
    (sha256 : List ℕ → ℕ) (name content creator : List ℕ) (address : Address)
    (stored_key : StoredKey) (parts_count : ℕ) (d : DownloadProgress) (now later : ℕ)
    (progress_file : List ℕ) (size : ℕ)
    → d.pieces ≡ []
    → 0 < length content
    → length content < 2 ^ 32
    → (e : DownloadProgress) × (init d
          (create_meta_data sha256 name content creator address stored_key parts_count)
          now
        ≡ ok e)
      × (get_damaged_pieces sha256 (holding content progress_file size e) ≡ [])
      × (verify_file sha256 (holding content progress_file size e) later
          ≡ ok (holding content progress_file size e, true))
unfolding create_meta_data get_damaged_pieces
get_damaged_pieces-create_meta_data sha256 name content creator address stored_key parts_count d now
      later progress_file size fresh pos small =
    let meta = create_meta_data sha256 name content creator address stored_key parts_count in
    let fits : length content % 2 ^ 47 ≡ length content = omega (arith, small) in
    let file_size : meta.sizes.file_size ≡ length content = fits in
    let step = piece_size meta.sizes.file_size in
    let positive : 0 < meta.sizes.file_size = omega (arith, pos, file_size) in
    let room : meta.sizes.file_size ≤ length meta.parts_hashes * step =
      subst (λ n. n ≤ length meta.parts_hashes * step) (sym file_size)
        (parts_from_room sha256 (length content) step content
          (piece_size_bounds meta.sizes.file_size positive).0 (omega arith)) in
    let (e, run, tiles, is_size, counted, running) =
      init-PiecesTile d meta now fresh positive room in
    let tiles' : PiecesTile step 0 meta.parts_hashes e.pieces (length content) =
      subst (λ n. PiecesTile step 0 meta.parts_hashes e.pieces n) (is_size ∙ file_size)
        (subst (λ n. PiecesTile (piece_size n) 0 meta.parts_hashes e.pieces e.file_size) is_size
          tiles) in
    let read : read_file_chunk content 0 e.file_size ≡ content =
      unfold read_file_chunk in
      (ap (λ n. take n content) (is_size ∙ file_size) ∙ take_all content) in
    let good =
      verify_piece_good sha256 content 0 e.file_size e.file_hash
        (init-file_hash d meta now e run ∙ ap sha256 (sym read)) in
    (
      e,
      run,
      none_damaged sha256 content step (length content) 0 0 content e.pieces small refl tiles',
      verify_file_whole sha256 (holding content progress_file size e) later good,
    )
