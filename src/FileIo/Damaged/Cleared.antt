-- ===== src/FileIo/Damaged/Cleared.antt =====
-- What verifyFile leaves of a damaged file (Peer/Torrent/FileIO/FileIO.cpp).
use gitabic.Base.{
  get_elem?-set_other, ℕ, zero, suc, ◌+◌, ◌%◌, ◌^◌, ◌<◌, ◌≤◌, ◌≡◌, refl, sym, ap, ◌∙◌, subst, Bool,
  true, false, ◌==◌, ==_iff, Bool-cases, ◌⊎◌, inl, inr, if◌then◌else◌, List, [], ◌∷◌, length,
  length-set, set, get_elem?, some, arith, All,
}
use gitabic.Bytes.{Outcome, ok, bind}
use gitabic.Progress.Status.{empty}
use gitabic.Progress.Piece.{PieceProgress, set_status}
use gitabic.Progress.Download.{DownloadProgress, update_piece_status, set_piece, check_finished}
use gitabic.FileIo.{FileIo, read_file_chunk, verify_piece}
use gitabic.FileIo.Damaged.{damaged_from, get_damaged_pieces, mark_empty, verify_file}

elem : ℕ → List ℕ → Bool
elem k [] = false
elem k (x ∷ xs) = if x == k then true else elem k xs

get_elem?-set_at {ℓ} :
    {A : Type ℓ} (xs : List A) (i : ℕ) (v w : A) → get_elem? (set xs i v) i ≡ some w → v ≡ w
get_elem?-set_at [] i v w h = cc
get_elem?-set_at (x ∷ xs) zero v w h = cc
get_elem?-set_at (x ∷ xs) (suc i) v w h = get_elem?-set_at xs i v w h

get_elem?_short {ℓ} :
    {A : Type ℓ} (xs : List A) (i : ℕ) (x : A) → get_elem? xs i ≡ some x → i < length xs
get_elem?_short [] i x h = cc
get_elem?_short (y ∷ xs) zero x h = omega arith
get_elem?_short (y ∷ xs) (suc i) x h = omega (arith, get_elem?_short xs i x h)

get_elem?_inside {ℓ} :
    {A : Type ℓ} (xs : List A) (i : ℕ) → i < length xs → (x : A) × (get_elem? xs i ≡ some x)
get_elem?_inside [] i h = absurd (omega arith)
get_elem?_inside (y ∷ xs) zero h = (y, refl)
get_elem?_inside (y ∷ xs) (suc i) h = get_elem?_inside xs i (omega arith)

All-get_elem? {ℓ κ} :
    {A : Type ℓ} {P : A → Type κ} (xs : List A)
    → ((j : ℕ) (x : A) → get_elem? xs j ≡ some x → P x)
    → All P xs
All-get_elem? [] h = tt
All-get_elem? (x ∷ xs) h = (h 0 x refl, All-get_elem? xs (λ j. h (suc j)))

-- The bytes of the piece have its hash.
unfoldable pub IsSound : (List ℕ → ℕ) → List ℕ → PieceProgress → Type 0
IsSound sha256 file p = sha256 (read_file_chunk file p.offset p.size) ≡ p.hash

-- Each piece is empty, sound, or at one of the indices.
LeftAt : (List ℕ → ℕ) → List ℕ → List ℕ → List PieceProgress → Type 0
LeftAt sha256 file is ps =
    (j : ℕ) (p : PieceProgress)
    → get_elem? ps j ≡ some p
    → ((p.status ≡ empty) ⊎ IsSound sha256 file p) ⊎ (elem j is ≡ true)

verify_piece-eq_true :
    (sha256 : List ℕ → ℕ) (file : List ℕ) (offset size hash : ℕ)
    → verify_piece sha256 file offset size hash ≡ true
    → sha256 (read_file_chunk file offset size) ≡ hash
unfolding verify_piece
verify_piece-eq_true sha256 file offset size hash h = sym ((==_iff hash _).0 h)

verify_piece-IsSound :
    (sha256 : List ℕ → ℕ) (file : List ℕ) (p : PieceProgress)
    → verify_piece sha256 file p.offset p.size p.hash ≡ true
    → IsSound sha256 file p
unfolding IsSound
verify_piece-IsSound sha256 file p h = verify_piece-eq_true sha256 file p.offset p.size p.hash h

-- The indices are those of pieces that are there.
BelowAll : ℕ → List ℕ → Type 0
BelowAll n is = All (λ i. i < n) is

elem_later : (k x : ℕ) (xs : List ℕ) → elem k xs ≡ true → elem k (x ∷ xs) ≡ true
unfolding elem
elem_later k x xs h = ground (arith, h)

elem_first : (k x : ℕ) (xs : List ℕ) → x ≡ k → elem k (x ∷ xs) ≡ true
unfolding elem
elem_first k x xs h = ground (arith, h)

pub damaged_from_good :
    (sha256 : List ℕ → ℕ) (file : List ℕ) (i : ℕ) (q : PieceProgress) (ps : List PieceProgress)
    → verify_piece sha256 file q.offset q.size q.hash ≡ true
    → damaged_from sha256 file i (q ∷ ps) ≡ damaged_from sha256 file (suc i) ps
unfolding damaged_from
damaged_from_good sha256 file i q ps good =
    ap
      (λ b.
        if b
        then damaged_from sha256 file (suc i) ps
        else (i % 2 ^ 16) ∷ damaged_from sha256 file (suc i) ps)
      good

damaged_from_bad :
    (sha256 : List ℕ → ℕ) (file : List ℕ) (i : ℕ) (q : PieceProgress) (ps : List PieceProgress)
    → verify_piece sha256 file q.offset q.size q.hash ≡ false
    → damaged_from sha256 file i (q ∷ ps) ≡ (i % 2 ^ 16) ∷ damaged_from sha256 file (suc i) ps
unfolding damaged_from
damaged_from_bad sha256 file i q ps bad =
    ap
      (λ b.
        if b
        then damaged_from sha256 file (suc i) ps
        else (i % 2 ^ 16) ∷ damaged_from sha256 file (suc i) ps)
      bad

damaged_from-LeftAt :
    (sha256 : List ℕ → ℕ) (file : List ℕ) (i : ℕ) (ps : List PieceProgress)
    → i + length ps ≤ 2 ^ 16
    → (j : ℕ) (p : PieceProgress) → get_elem? ps j ≡ some p
    → IsSound sha256 file p ⊎ (elem (i + j) (damaged_from sha256 file i ps) ≡ true)
damaged_from-LeftAt sha256 file i [] h j p e = cc
damaged_from-LeftAt sha256 file i (q ∷ ps) h zero p e =
    elim (Bool-cases (verify_piece sha256 file q.offset q.size q.hash)) [
      | inl good ↦
          let same : q ≡ p = cc in
          inl (subst (IsSound sha256 file) same (verify_piece-IsSound sha256 file q good))
      | inr bad ↦ inr (
          ap (elem (i + 0)) (damaged_from_bad sha256 file i q ps bad)
          ∙ elem_first (i + 0) (i % 2 ^ 16) (damaged_from sha256 file (suc i) ps)
              (omega (arith, h)))
    ]
damaged_from-LeftAt sha256 file i (q ∷ ps) h (suc j) p e =
    elim (damaged_from-LeftAt sha256 file (suc i) ps (omega (arith, h)) j p e) [
      | inl sound ↦ inl sound
      | inr found ↦
          let moved : i + suc j ≡ suc i + j = omega arith in
          let here = ap (λ k. elem k (damaged_from sha256 file (suc i) ps)) moved ∙ found in
          elim (Bool-cases (verify_piece sha256 file q.offset q.size q.hash)) [
            | inl good ↦
                inr (ap (elem (i + suc j)) (damaged_from_good sha256 file i q ps good) ∙ here)
            | inr bad ↦ inr (
                ap (elem (i + suc j)) (damaged_from_bad sha256 file i q ps bad)
                ∙ elem_later (i + suc j) (i % 2 ^ 16) (damaged_from sha256 file (suc i) ps) here)
          ]
    ]

damaged_from-BelowAll :
    (sha256 : List ℕ → ℕ) (file : List ℕ) (i : ℕ) (ps : List PieceProgress) (n : ℕ)
    → i + length ps ≤ n
    → n ≤ 2 ^ 16
    → BelowAll n (damaged_from sha256 file i ps)
unfolding BelowAll damaged_from
damaged_from-BelowAll sha256 file i [] n h small = tt
damaged_from-BelowAll sha256 file i (q ∷ ps) n h small =
    let rest = damaged_from-BelowAll sha256 file (suc i) ps n (omega (arith, h)) small in
    elim (Bool-cases (verify_piece sha256 file q.offset q.size q.hash)) [
      | inl good ↦ subst (BelowAll n) (sym (damaged_from_good sha256 file i q ps good)) rest
      | inr bad ↦
          subst (BelowAll n) (sym (damaged_from_bad sha256 file i q ps bad))
            (omega (arith, h, small), rest)
    ]

-- A piece is marked as empty.
mark_one :
    (d : DownloadProgress) (i now : ℕ)
    → i < length d.pieces
    → (q : PieceProgress) × (e : DownloadProgress) × (update_piece_status d i empty now
        ≡ (e, ok tt))
      × (e.pieces ≡ set d.pieces i q)
      × (q.status ≡ empty)
unfolding update_piece_status set_piece check_finished set_status
mark_one d i now h =
    let (p, found) = get_elem?_inside d.pieces i h in
    (
      (set_status p empty now).0,
      (update_piece_status d i empty now).0,
      rw (found, update_piece_status) refl,
      rw (found, update_piece_status) refl,
      refl,
    )

LeftAt-step :
    (sha256 : List ℕ → ℕ) (file is : List ℕ) (i : ℕ) (ps : List PieceProgress) (q : PieceProgress)
    → q.status ≡ empty
    → LeftAt sha256 file (i ∷ is) ps
    → LeftAt sha256 file is (set ps i q)
unfolding LeftAt elem
LeftAt-step sha256 file is i ps q cleared left j p found = elim (Bool-cases (i == j)) [
  | inl same ↦
      let at = (==_iff i j).0 same in
      let q_p =
        get_elem?-set_at ps i q p (subst (λ k. get_elem? (set ps i q) k ≡ some p) (sym at) found) in
      inl (inl (subst (λ (r : PieceProgress). r.status ≡ empty) q_p cleared))
  | inr other ↦ elim (left j p (sym (get_elem?-set_other ps i j q other) ∙ found)) [
    | inl fine ↦ inl fine
    | inr listed ↦ inr (rw other at listed)
  ]
]

mark_empty-LeftAt :
    (sha256 : List ℕ → ℕ) (file is : List ℕ) (d : DownloadProgress) (now : ℕ)
    → BelowAll (length d.pieces) is
    → LeftAt sha256 file is d.pieces
    → (e : DownloadProgress) × (mark_empty is d now ≡ ok e) × LeftAt sha256 file [] e.pieces
unfolding mark_empty BelowAll
mark_empty-LeftAt sha256 file [] d now h left = (d, refl, left)
mark_empty-LeftAt sha256 file (i ∷ is) d now h left =
    let (q, c, run, pieces, cleared) = mark_one d i now h.0 in
    let size : length d.pieces ≡ length c.pieces =
      sym (ap length pieces ∙ length-set d.pieces i q) in
    let (e, done, rest) =
      mark_empty-LeftAt sha256 file is c now (subst (λ n. All (λ k. k < n) is) size h.1) (
        subst (LeftAt sha256 file is) (sym pieces)
          (LeftAt-step sha256 file is i d.pieces q cleared left)) in
    (
      e,
      ap (λ (r : DownloadProgress × Outcome (Unit {0})). bind r.1 (λ _. mark_empty is r.0 now)) run
          ∙ done,
      rest,
    )

-- A download of no more than 2^16 pieces, where the reads succeed: verifyFile returns without an exception and leaves the file's
-- bytes alone. If it returns true, they have the file's hash and nothing is changed; if not, each
-- piece is empty then, or its bytes have its hash.
pub verify_file-clears :
    (sha256 : List ℕ → ℕ) (io : FileIo) (now : ℕ)
    → length io.download_progress.pieces ≤ 2 ^ 16
    → (t : FileIo) × (good : Bool) × (verify_file sha256 io now ≡ ok (t, good))
      × (t.file ≡ io.file)
      × (((good ≡ true)
            × (t ≡ io)
            × (sha256 (read_file_chunk io.file 0 io.download_progress.file_size)
                ≡ io.download_progress.file_hash))
          ⊎ ((good ≡ false)
              × All (λ p. (p.status ≡ empty) ⊎ IsSound sha256 t.file p) t.download_progress.pieces))
unfolding verify_file get_damaged_pieces LeftAt elem
verify_file-clears sha256 io now small =
    elim (Bool-cases (verify_piece sha256 io.file 0 d.file_size d.file_hash)) [
      | inl good ↦ (
        io,
        true,
        ap choice good,
        refl,
        inl (refl, refl, verify_piece-eq_true sha256 io.file 0 d.file_size d.file_hash good),
      )
      | inr bad ↦
          let (e, run, left) = mark_empty-LeftAt sha256 io.file is d now below listed in
          (
            record io { download_progress = e },
            false,
            ap choice bad ∙ ap (λ o. bind o finish) run,
            refl,
            inr (refl, All-get_elem? e.pieces (λ j p found. unlisted (left j p found))),
          )
    ]
  where
    d : DownloadProgress
    d = io.download_progress

    is : List ℕ
    is = get_damaged_pieces sha256 io

    below : BelowAll (length d.pieces) is
    below = damaged_from-BelowAll sha256 io.file 0 d.pieces (length d.pieces) (omega arith) small

    listed : LeftAt sha256 io.file is d.pieces
    listed j p found =
        elim (damaged_from-LeftAt sha256 io.file 0 d.pieces (omega (arith, small)) j p found) [
          | inl sound ↦ inl (inr sound)
          | inr here ↦
              let zero_first : 0 + j ≡ j = omega arith in
              inr (ap (λ k. elem k is) (sym zero_first) ∙ here)
        ]

    finish : DownloadProgress → Outcome (FileIo × Bool)
    finish marked = ok (record io { download_progress = marked }, false)

    choice : Bool → Outcome (FileIo × Bool)
    choice b = if b then ok (io, true) else bind (mark_empty is d now) finish

    unlisted : {P : Type 0} → P ⊎ (false ≡ true) → P
    unlisted (inl fine) = fine
    unlisted (inr never) = cc
