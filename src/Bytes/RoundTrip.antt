-- ===== src/Bytes/RoundTrip.antt =====
-- Reading back what was written, field by field.
use native.Mathlib.Nat.{pow-suc}
use gitabic.Base.{
  ℕ, zero, suc, ◌+◌, ◌*◌, ◌/◌, ◌^◌, ◌≤◌, ◌<◌, ◌≡◌, refl, ap, ◌⊎◌, inl, inr, List, [], ◌∷◌, ◌++◌,
  arith, length, All, append-nil,
}
use gitabic.Bytes.{Outcome, Error, raise, ok, fault, le, read_le, read_bytes, IsByte}

pub length-le : (n x : ℕ) → length (le n x) ≡ n
unfolding le
length-le zero x = refl
length-le (suc n) x = ap suc (length-le n (x / 256))

le-IsByte : (n x : ℕ) → All IsByte (le n x)
unfolding le
le-IsByte zero x = tt
le-IsByte (suc n) x = (omega arith, le-IsByte n (x / 256))

quotient_small : (n x : ℕ) → x < 256 ^ suc n → x / 256 < 256 ^ n
quotient_small n x h = omega (arith, pow-suc 256 n)

-- A field that fits its width is read back, and the bytes behind it are left.
pub read_le-le : (n x : ℕ) (rest : List ℕ) → x < 256 ^ n → read_le n (le n x ++ rest) ≡ ok (x, rest)
unfolding le read_le
read_le-le zero x rest h = ground arith
read_le-le (suc n) x rest h = rw (read_le-le n (x / 256) rest (quotient_small n x h)) (ground arith)

-- A field at the end of a buffer.
pub read_le_last : (n x : ℕ) → x < 256 ^ n → read_le n (le n x) ≡ ok (x, [])
read_le_last n x h = rw append-nil at (read_le-le n x [] h)

pub read_bytes-append : (xs rest : List ℕ) → read_bytes (length xs) (xs ++ rest) ≡ ok (xs, rest)
unfolding read_bytes
read_bytes-append [] rest = refl
read_bytes-append (x ∷ xs) rest = rw (read_bytes-append xs rest)

-- A buffer that is too short is read past its end.
pub read_le-short : (n : ℕ) (bytes : List ℕ) → length bytes < n → read_le n bytes ≡ fault
unfolding read_le
read_le-short zero bytes h = absurd (omega arith)
read_le-short (suc n) [] h = refl
read_le-short (suc n) (b ∷ bytes) h = rw (read_le-short n bytes (omega arith))

pub read_bytes-short : (n : ℕ) (bytes : List ℕ) → length bytes < n → read_bytes n bytes ≡ fault
unfolding read_bytes
read_bytes-short zero bytes h = absurd (omega arith)
read_bytes-short (suc n) [] h = refl
read_bytes-short (suc n) (b ∷ bytes) h = rw (read_bytes-short n bytes (omega arith))

-- To split on what a call comes to.
pub Outcome-cases {ℓ} :
    {A : Type ℓ} (r : Outcome A)
    → ((a : A) × (r ≡ ok a)) ⊎ (((e : Error) × (r ≡ raise e)) ⊎ (r ≡ fault))
Outcome-cases (ok a) = inl (a, refl)
Outcome-cases (raise e) = inr (inl (e, refl))
Outcome-cases fault = inr (inr refl)

-- A buffer that is long enough is read.
pub read_le_long :
    (n : ℕ) (bytes : List ℕ)
    → n ≤ length bytes
    → (v : ℕ) × (rest : List ℕ) × (read_le n bytes ≡ ok (v, rest))
      × (length rest + n ≡ length bytes)
unfolding read_le
read_le_long zero bytes h = (0, bytes, refl, omega arith)
read_le_long (suc n) [] h = absurd (omega arith)
read_le_long (suc n) (b ∷ bytes) h =
    let (v, rest, run, len) = read_le_long n bytes (omega arith) in
    (b + 256 * v, rest, rw run, omega (arith, len))

pub read_bytes_long :
    (n : ℕ) (bytes : List ℕ)
    → n ≤ length bytes
    → (front behind : List ℕ) × (read_bytes n bytes ≡ ok (front, behind))
      × (length front ≡ n)
      × (length behind + n ≡ length bytes)
unfolding read_bytes
read_bytes_long zero bytes h = ([], bytes, refl, refl, omega arith)
read_bytes_long (suc n) [] h = absurd (omega arith)
read_bytes_long (suc n) (b ∷ bytes) h =
    let (front, behind, run, size, left) = read_bytes_long n bytes (omega arith) in
    (b ∷ front, behind, rw run, ap suc size, omega (arith, left))
