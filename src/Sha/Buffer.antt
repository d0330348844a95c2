-- ===== src/Sha/Buffer.antt =====
-- Pieces of a buffer, and the transformation of several blocks (Peer/Encryptions/SHA256/sha256.cpp).
use gitabic.Base.{
  ℕ, zero, suc, ◌+◌, ◌-◌, ◌*◌, ◌≤◌, ◌≡◌, refl, sym, ap, ◌∙◌, List, [], ◌∷◌, ◌++◌, append_assoc,
  length, length-append, take, drop, take-append, drop-append, drop-drop, replicate, arith,
}
use gitabic.Sha.{State, transform, transform_block}
use gitabic.Sha.Stream.{copy_to}

module _ {ℓ} {A : Type ℓ} where
  pub take-drop : (n : ℕ) (xs : List A) → take n xs ++ drop n xs ≡ xs
  take-drop zero xs = refl
  take-drop (suc n) [] = refl
  take-drop (suc n) (x ∷ xs) = ap (◌∷◌ x) (take-drop n xs)

  pub length-take : (n : ℕ) (xs : List A) → n ≤ length xs → length (take n xs) ≡ n
  length-take zero xs h = refl
  length-take (suc n) [] h = absurd (omega arith)
  length-take (suc n) (x ∷ xs) h = ap suc (length-take n xs (omega arith))

  pub take_exact : (n : ℕ) (xs ys : List A) → length xs ≡ n → take n (xs ++ ys) ≡ xs
  take_exact n xs ys e = ap (λ k. take k (xs ++ ys)) (sym e) ∙ take-append xs ys

  drop_exact : (n : ℕ) (xs ys : List A) → length xs ≡ n → drop n (xs ++ ys) ≡ ys
  drop_exact n xs ys e = ap (λ k. drop k (xs ++ ys)) (sym e) ∙ drop-append xs ys

  pub length-drop : (n : ℕ) (xs : List A) → length (drop n xs) ≡ length xs - n
  length-drop zero xs = omega arith
  length-drop (suc n) [] = omega arith
  length-drop (suc n) (x ∷ xs) = omega (arith, length-drop n xs)

  pub replicate-append : (n m : ℕ) (x : A) → replicate (n + m) x ≡ replicate n x ++ replicate m x
  replicate-append zero m x = let e : zero + m ≡ m = omega arith in ap (λ k. replicate k x) e
  replicate-append (suc n) m x =
      let e : suc n + m ≡ suc (n + m) = omega arith in
      ap (λ k. replicate k x) e ∙ ap (◌∷◌ x) (replicate-append n m x)

-- A write behind the part of the buffer that counts.
pub copy_to_known :
    (i : ℕ) (kept bytes rest buffer : List ℕ)
    → buffer ≡ kept ++ rest
    → length kept ≡ i
    → copy_to i bytes buffer ≡ (kept ++ bytes) ++ drop (length bytes) rest
unfolding copy_to
copy_to_known i kept bytes rest buffer e size =
    let before : take i buffer ≡ kept = ap (take i) e ∙ take_exact i kept rest size in
    let behind : drop (i + length bytes) buffer ≡ drop (length bytes) rest =
      ap (drop (i + length bytes)) e
      ∙ sym (drop-drop i (length bytes) (kept ++ rest))
      ∙ ap (drop (length bytes)) (drop_exact i kept rest size) in
    rw (before, behind) (sym (append_assoc kept bytes (drop (length bytes) rest)))

pub length-copy_to :
    (i : ℕ) (bytes buffer : List ℕ)
    → i + length bytes ≤ length buffer
    → length (copy_to i bytes buffer) ≡ length buffer
unfolding copy_to
length-copy_to i bytes buffer h = omega (
  arith,
  length-append (take i buffer) (bytes ++ drop (i + length bytes) buffer),
  length-append bytes (drop (i + length bytes) buffer),
  length-take i buffer (omega arith),
  length-drop (i + length bytes) buffer,
)

-- A block of 64 bytes in front.
transform-block :
    (front rest : List ℕ) (k : ℕ) (h : State)
    → length front ≡ 64
    → transform (front ++ rest) (suc k) h ≡ transform rest k (transform_block front h)
unfolding transform
transform-block front rest k h size =
    let first = take_exact 64 front rest size in
    let behind = drop_exact 64 front rest size in rw (first, behind)

-- Several whole blocks in front are transformed first.
pub transform-append :
    (n k : ℕ) (front rest : List ℕ) (h : State)
    → length front ≡ n * 64
    → transform (front ++ rest) (n + k) h ≡ transform rest k (transform front n h)
unfolding transform
transform-append zero k [] rest h e =
    let count : zero + k ≡ k = omega arith in ap (λ n. transform rest n h) count
transform-append zero k (x ∷ front) rest h e = absurd (omega arith)
transform-append (suc n) k front rest h e =
    let one = take 64 front in
    let others = drop 64 front in
    let size : length one ≡ 64 = length-take 64 front (omega arith) in
    let split : one ++ others ≡ front = take-drop 64 front in
    let count : suc n + k ≡ suc (n + k) = omega arith in
    let inner : transform (others ++ rest) (n + k) (transform_block one h)
        ≡ transform rest k (transform others n (transform_block one h)) =
      transform-append n k others rest (transform_block one h)
        (omega (arith, length-drop 64 front)) in
    ap (λ l. transform (l ++ rest) (suc n + k) h) (sym split)
    ∙ ap (λ l. transform l (suc n + k) h) (append_assoc one others rest)
    ∙ ap (λ m. transform (one ++ (others ++ rest)) m h) count
    ∙ transform-block one (others ++ rest) (n + k) h size
    ∙ inner
    ∙ ap (transform rest k)
        (sym (transform-block one others n h size) ∙ ap (λ l. transform l (suc n) h) split)

-- What stands behind the blocks does not matter.
pub transform_front :
    (n : ℕ) (front rest : List ℕ) (h : State)
    → length front ≡ n * 64
    → transform (front ++ rest) n h ≡ transform front n h
unfolding transform
transform_front n front rest h e =
    let count : n ≡ n + 0 = omega arith in
    ap (λ m. transform (front ++ rest) m h) count ∙ transform-append n 0 front rest h e
