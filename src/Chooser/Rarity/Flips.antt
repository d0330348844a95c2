-- ===== src/Chooser/Rarity/Flips.antt =====
-- One bit of a byte that is set where it was not: the other bits stay.
use native.Mathlib.Nat.{add-mul-div_right, div-eq_of_lt, div-div-eq-div-mul, mul_assoc, mul_comm}
use gitabic.Base.{
  ℕ, suc, ◌+◌, ◌-◌, ◌*◌, ◌/◌, ◌%◌, ◌^◌, ◌<◌, ◌≤◌, ◌≡◌, refl, sym, ap, ◌∙◌, subst, true, false, ◌==◌,
  ltb, ltb→lt, ltb→le, Bool-cases, inl, inr, arith,
}
use gitabic.Chooser.Rarity.{test_bit, set_bit, reset_bit}
use gitabic.BitField.Bits.{pow_pos, pow_split, test_bit_low}

-- A byte above its bit at `i`.
shifted : (b i : ℕ) → (b + 2 ^ i) / 2 ^ i ≡ b / 2 ^ i + 1
shifted b i =
    let one : b + 2 ^ i ≡ b + 1 * 2 ^ i = omega arith in
    ap (λ x. x / 2 ^ i) one ∙ add-mul-div_right b 1 (pow_pos i)

even_above : (b i : ℕ) → test_bit b i ≡ false → b / 2 ^ i % 2 ≡ 0
unfolding test_bit
even_above b i h = ground (arith, h)

test_bit_here : (b i : ℕ) → test_bit b i ≡ false → test_bit (b + 2 ^ i) i ≡ true
unfolding test_bit
test_bit_here b i h = rw (shifted b i) (ground (arith, even_above b i h))

above : (x i m : ℕ) → x / 2 ^ (i + suc m) ≡ x / 2 ^ i / 2 / 2 ^ m
above x i m =
    let swap : 2 ^ m * 2 ≡ 2 * 2 ^ m = omega arith in
    let whole : 2 ^ (i + suc m) ≡ (2 ^ i * 2) * 2 ^ m =
      pow_split i m
      ∙ mul_comm (2 ^ m * 2) (2 ^ i)
      ∙ ap (λ k. 2 ^ i * k) swap
      ∙ sym (mul_assoc (2 ^ i) 2 (2 ^ m)) in
    ap (λ k. x / k) whole
    ∙ sym (div-div-eq-div-mul x (2 ^ i * 2) (2 ^ m))
    ∙ ap (λ k. k / 2 ^ m) (sym (div-div-eq-div-mul x (2 ^ i) 2))

test_bit_high :
    (b i m : ℕ) → test_bit b i ≡ false → test_bit (b + 2 ^ i) (i + suc m) ≡ test_bit b (i + suc m)
unfolding test_bit
test_bit_high b i m h =
    let half : (b / 2 ^ i + 1) / 2 ≡ b / 2 ^ i / 2 = omega (arith, even_above b i h) in
    let same : (b + 2 ^ i) / 2 ^ (i + suc m) ≡ b / 2 ^ (i + suc m) =
      above (b + 2 ^ i) i m
      ∙ ap (λ x. x / 2 / 2 ^ m) (shifted b i)
      ∙ ap (λ x. x / 2 ^ m) half
      ∙ sym (above b i m) in
    ap (λ x. x % 2 == 1) same

test_bit_other :
    (b i j : ℕ) → test_bit b i ≡ false → (i == j) ≡ false → test_bit (b + 2 ^ i) j ≡ test_bit b j
test_bit_other b i j h apart = elim (Bool-cases (ltb i j)) [
  | inl below ↦
      let at : i + suc (j - i - 1) ≡ j = omega (arith, ltb→lt _ _ below) in
      subst (λ k. test_bit (b + 2 ^ i) k ≡ test_bit b k) at (test_bit_high b i (j - i - 1) h)
  | inr above ↦
      let apart' : j < i = ground (arith, apart, ltb→le _ _ above) in
      let at : j + suc (i - j - 1) ≡ i = omega (arith, apart') in
      subst (λ k. test_bit (b + 2 ^ k) j ≡ test_bit b j) at (test_bit_low b j (i - j - 1))
]

-- One bit differs between two bytes, from unset to set.
pub record Raised (b c i : ℕ) : Type 0 where
  pub unset : test_bit b i ≡ false
  pub is_set : test_bit c i ≡ true
  pub others : (j : ℕ) → (i == j) ≡ false → test_bit c j ≡ test_bit b j

pow-Raised : (b i : ℕ) → test_bit b i ≡ false → Raised b (b + 2 ^ i) i
pow-Raised b i h = record {
  unset = h;
  is_set = test_bit_here b i h;
  others = λ j apart. test_bit_other b i j h apart;
}

pub set_bit-Raised : (b i : ℕ) → test_bit b i ≡ false → Raised b (set_bit b i) i
unfolding set_bit
set_bit-Raised b i h = subst (λ c. Raised b c i) (sym (rw h refl)) (pow-Raised b i h)

at_least : (b i : ℕ) → test_bit b i ≡ true → 2 ^ i ≤ b
unfolding test_bit
at_least b i h = elim (Bool-cases (ltb b (2 ^ i))) [
  | inl low ↦ absurd (none (div-eq_of_lt (ltb→lt _ _ low)))
  | inr high ↦ ltb→le _ _ high
]
  where
    none : b / 2 ^ i ≡ 0 → ⊥
    none e = ground (arith, e, h)

lowered : (c i : ℕ) → test_bit (c + 2 ^ i) i ≡ true → test_bit c i ≡ false
unfolding test_bit
lowered c i h =
    let odd : ((c / 2 ^ i + 1) % 2 == 1) ≡ true = ap (λ x. x % 2 == 1) (sym (shifted c i)) ∙ h in
    ground (arith, odd)

pub reset_bit-Raised : (b i : ℕ) → test_bit b i ≡ true → Raised (reset_bit b i) b i
unfolding reset_bit
reset_bit-Raised b i h =
    let back : b - 2 ^ i + 2 ^ i ≡ b = omega (arith, at_least b i h) in
    let unset = lowered (b - 2 ^ i) i (subst (λ c. test_bit c i ≡ true) (sym back) h) in
    subst (λ c. Raised c b i) (sym (rw h refl))
      (subst (λ c. Raised (b - 2 ^ i) c i) back (pow-Raised (b - 2 ^ i) i unset))
