-- ===== src/BitField/Bits.antt =====
-- The bits of one byte, and the bytes of a vector.
use native.Mathlib.Nat.{add-mul-div_right, div-eq_of_lt, mul_assoc, pow-suc, pow-zero}
use gitabic.Base.{
  ℕ, zero, suc, ◌+◌, ◌-◌, ◌*◌, ◌/◌, ◌%◌, ◌^◌, ◌<◌, ◌≡◌, refl, sym, ap, ◌∙◌, Bool, true, false, List,
  [], ◌∷◌, ◌++◌, length, get_elem?, some, arith,
}
use gitabic.Bytes.{ok}
use gitabic.Chooser.Rarity.{test_bit, set_bit, reset_bit, test_piece}
use gitabic.BitField.{assign_bit, set_back}

pub pow_pos : (k : ℕ) → 0 < 2 ^ k
pow_pos zero = rw (pow-zero 2) (omega arith)
pow_pos (suc k) = omega (arith, pow-suc 2 k, pow_pos k)

test_bit_top : (b k : ℕ) → b < 2 ^ k → test_bit (b + 2 ^ k) k ≡ true
unfolding test_bit
test_bit_top b k h =
    let one : b + 2 ^ k ≡ b + 1 * 2 ^ k = omega arith in
    let top : (b + 2 ^ k) / 2 ^ k ≡ 1 =
      ap (λ x. x / 2 ^ k) one
      ∙ add-mul-div_right b 1 (pow_pos k)
      ∙ ap (λ x. x + 1) (div-eq_of_lt h) in
    rw top refl

pub pow_split : (j m : ℕ) → 2 ^ (j + suc m) ≡ (2 ^ m * 2) * 2 ^ j
pow_split zero m = ap (λ k. 2 ^ k) zero_suc ∙ pow-suc 2 m ∙ rw (pow-zero 2) (omega arith)
  where
    zero_suc : 0 + suc m ≡ suc m
    zero_suc = omega arith
pow_split (suc j) m =
    ap (λ k. 2 ^ k) suc_suc
    ∙ pow-suc 2 (j + suc m)
    ∙ ap (λ x. x * 2) (pow_split j m)
    ∙ mul_assoc (2 ^ m * 2) (2 ^ j) 2
    ∙ ap (λ x. (2 ^ m * 2) * x) (sym (pow-suc 2 j))
  where
    suc_suc : suc j + suc m ≡ suc (j + suc m)
    suc_suc = omega arith

pub test_bit_low : (b j m : ℕ) → test_bit (b + 2 ^ (j + suc m)) j ≡ test_bit b j
unfolding test_bit
test_bit_low b j m =
    let split : (b + 2 ^ (j + suc m)) / 2 ^ j ≡ b / 2 ^ j + 2 ^ m * 2 =
      ap (λ x. (b + x) / 2 ^ j) (pow_split j m) ∙ add-mul-div_right b (2 ^ m * 2) (pow_pos j) in
    let even : (b / 2 ^ j + 2 ^ m * 2) % 2 ≡ b / 2 ^ j % 2 = omega arith in rw (split, even) refl

test_bit_unset : (b k : ℕ) → b < 2 ^ k → test_bit b k ≡ false
unfolding test_bit
test_bit_unset b k h = rw (div-eq_of_lt h) refl

pub set_back-append :
    (f : ℕ → ℕ) (front : List ℕ) (b : ℕ) → set_back f (front ++ (b ∷ [])) ≡ front ++ (f b ∷ [])
unfolding set_back
set_back-append f [] b = refl
set_back-append f (a ∷ []) b = refl
set_back-append f (a ∷ c ∷ front) b = ap (◌∷◌ a) (set_back-append f (c ∷ front) b)

get_elem?-front :
    (front xs ys : List ℕ) (i : ℕ)
    → i < length front
    → get_elem? (front ++ xs) i ≡ get_elem? (front ++ ys) i
get_elem?-front [] xs ys i h = absurd (omega arith)
get_elem?-front (a ∷ front) xs ys zero h = refl
get_elem?-front (a ∷ front) xs ys (suc i) h = get_elem?-front front xs ys i (omega arith)

get_elem?-last : (front : List ℕ) (b : ℕ) → get_elem? (front ++ (b ∷ [])) (length front) ≡ some b
get_elem?-last [] b = refl
get_elem?-last (a ∷ front) b = get_elem?-last front b

pub test_piece-front :
    (front xs ys : List ℕ) (j : ℕ)
    → j / 8 < length front
    → test_piece (front ++ xs) j ≡ test_piece (front ++ ys) j
unfolding test_piece
test_piece-front front xs ys j h = rw (get_elem?-front front xs ys (j / 8) h, test_piece) refl

pub test_piece-last :
    (front : List ℕ) (b j : ℕ)
    → j / 8 ≡ length front
    → test_piece (front ++ (b ∷ [])) j ≡ ok (test_bit b (j % 8))
unfolding test_piece
test_piece-last front b j h = rw (h, get_elem?-last front b, test_piece) refl

assign_bit_set : (b k : ℕ) → b < 2 ^ k → assign_bit b k true ≡ b + 2 ^ k
unfolding assign_bit set_bit
assign_bit_set b k h = rw (test_bit_unset b k h) refl

assign_bit_reset : (b k : ℕ) → b < 2 ^ k → assign_bit b k false ≡ b
unfolding assign_bit reset_bit
assign_bit_reset b k h = rw (test_bit_unset b k h) refl

pub assign_bit-lt : (b k : ℕ) (v : Bool) → b < 2 ^ k → assign_bit b k v < 2 ^ suc k
assign_bit-lt b k true h = omega (arith, assign_bit_set b k h, pow-suc 2 k, h)
assign_bit-lt b k false h = omega (arith, assign_bit_reset b k h, pow-suc 2 k, h)

pub test_bit-assigned : (b k : ℕ) (v : Bool) → b < 2 ^ k → test_bit (assign_bit b k v) k ≡ v
test_bit-assigned b k true h = rw (assign_bit_set b k h) (test_bit_top b k h)
test_bit-assigned b k false h = rw (assign_bit_reset b k h) (test_bit_unset b k h)

pub test_bit-kept :
    (b k j : ℕ) (v : Bool) → b < 2 ^ k → j < k → test_bit (assign_bit b k v) j ≡ test_bit b j
test_bit-kept b k j true h lt =
    let gap : k ≡ j + suc (k - j - 1) = omega (arith, lt) in
    ap (λ x. test_bit x j) (assign_bit_set b k h ∙ ap (λ x. b + 2 ^ x) gap)
    ∙ test_bit_low b j (k - j - 1)
test_bit-kept b k j false h lt = ap (λ x. test_bit x j) (assign_bit_reset b k h)
