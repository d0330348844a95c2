-- ===== src/Aes/Linear.antt =====
-- The tables over all bytes: the substitution is undone by its inverse, and the products by 9, 11, 13
-- and 14 are linear. A byte is a sum of powers of two, so that the eight of them need be tried.
use gitabic.Base.{
  ltb, ltb→lt, if◌then◌else◌, subst, false, ◌≤◌, ℕ, zero, suc, ◌/◌, ◌%◌, ◌^◌, ◌<◌, ◌≡◌, refl, sym,
  ap, ◌∙◌, Bool, true, ◌&&◌, ◌==◌, ==_iff, arith,
}
use gitabic.Base.Xor.{◌⊻◌, bit_xor-lt, bit_xor_assoc, bit_xor-zero}
use gitabic.Aes.Tables.{s_box, s_box_inv, mul2, mul3, mul9, mul11, mul13, mul14}

unfoldable pub all_below : ℕ → (ℕ → Bool) → Bool
all_below zero p = true
all_below (suc n) p = p n && all_below n p

pub all_below_holds : (n : ℕ) (p : ℕ → Bool) (x : ℕ) → all_below n p ≡ true → x < n → p x ≡ true
unfolding all_below
all_below_holds zero p x h lt = absurd (omega arith)
all_below_holds (suc n) p x h lt = ground (arith, all_below_holds n p x)

s_box_checked : all_below 256 (λ x. s_box_inv (s_box x) == x) ≡ true
unfolding all_below s_box s_box_inv
s_box_checked = refl

pub s_box_inv-s_box : (x : ℕ) → x < 256 → s_box_inv (s_box x) ≡ x
s_box_inv-s_box x h = (==_iff _ x).0 (all_below_holds 256 _ x s_box_checked h)

s_box_bytes : all_below 256 (λ x. ltb (s_box x) 256) ≡ true
unfolding all_below s_box
s_box_bytes = refl

pub s_box-lt : (x : ℕ) → x < 256 → s_box x < 256
s_box-lt x h = ltb→lt _ _ (all_below_holds 256 _ x s_box_bytes h)

-- The first `n` binary digits of a byte, summed up.
sum_bits : ℕ → ℕ → ℕ
sum_bits zero b = 0
sum_bits (suc i) b = sum_bits i b ⊻ (if b / 2 ^ i % 2 == 1 then 2 ^ i else 0)

bits_checked : all_below 256 (λ b. sum_bits 8 b == b) ≡ true
unfolding all_below sum_bits
bits_checked = refl

abbrev IsAdditive : (ℕ → ℕ) → ℕ → Type 0
IsAdditive f b = (a : ℕ) → a < 256 → f (a ⊻ b) ≡ f a ⊻ f b

abbrev pub IsLinear : (ℕ → ℕ) → Type 0
IsLinear f = (a b : ℕ) → a < 256 → b < 256 → f (a ⊻ b) ≡ f a ⊻ f b

-- Whether a table is additive at zero and at each power of two.
tried : (ℕ → ℕ) → Bool
tried f = f 0 == 0 && all_below 8 (λ i. all_below 256 (λ a. f (a ⊻ 2 ^ i) == f a ⊻ f (2 ^ i)))

powers_checked : all_below 8 (λ i. ltb (2 ^ i) 256) ≡ true
unfolding all_below
powers_checked = refl

power-lt : (i : ℕ) → i < 8 → 2 ^ i < 256
power-lt i h = ltb→lt _ _ (all_below_holds 8 _ i powers_checked h)

digit-lt : (t : Bool) (i : ℕ) → i < 8 → (if t then 2 ^ i else 0) < 256
digit-lt true i h = power-lt i h
digit-lt false i h = omega arith

module _ (f : ℕ → ℕ) where
  IsAdditive-xor : (b c : ℕ) → b < 256 → IsAdditive f b → IsAdditive f c → IsAdditive f (b ⊻ c)
  IsAdditive-xor b c hb p q a h =
      ap f (sym (bit_xor_assoc a b c))
      ∙ q (a ⊻ b) (bit_xor-lt a b h hb)
      ∙ ap (λ t. t ⊻ f c) (p a h)
      ∙ bit_xor_assoc (f a) (f b) (f c)
      ∙ ap (λ t. f a ⊻ t) (sym (q b hb))

  module _ (done : tried f ≡ true) where
    tried_parts :
        (f 0 ≡ 0)
        × (all_below 8 (λ i. all_below 256 (λ a. f (a ⊻ 2 ^ i) == f a ⊻ f (2 ^ i))) ≡ true)
    unfolding tried
    tried_parts = ground (arith, done)

    IsAdditive-zero : IsAdditive f 0
    IsAdditive-zero a h =
        ap f (bit_xor-zero a) ∙ sym (bit_xor-zero (f a)) ∙ ap (λ t. f a ⊻ t) (sym tried_parts.0)

    IsAdditive-power : (i : ℕ) → i < 8 → IsAdditive f (2 ^ i)
    IsAdditive-power i hi a h =
        (==_iff _ _).0 (all_below_holds 256 _ a (all_below_holds 8 _ i tried_parts.1 hi) h)

    IsAdditive-digit : (t : Bool) (i : ℕ) → i < 8 → IsAdditive f (if t then 2 ^ i else 0)
    IsAdditive-digit true i hi = IsAdditive-power i hi
    IsAdditive-digit false i hi = IsAdditive-zero

    sum_bits-IsAdditive : (n b : ℕ) → n ≤ 8 → (sum_bits n b < 256) × IsAdditive f (sum_bits n b)
    unfolding sum_bits
    sum_bits-IsAdditive zero b h = (omega arith, IsAdditive-zero)
    sum_bits-IsAdditive (suc i) b h =
        let before = sum_bits-IsAdditive i b (omega arith) in
        let small = digit-lt (b / 2 ^ i % 2 == 1) i (omega arith) in
        (
          bit_xor-lt _ _ before.0 small,
          IsAdditive-xor _ _ before.0 before.1 (IsAdditive-digit _ i (omega arith)),
        )

    tried-IsLinear : IsLinear f
    tried-IsLinear a b ha hb =
        subst (IsAdditive f) ((==_iff _ b).0 (all_below_holds 256 _ b bits_checked hb))
          (sum_bits-IsAdditive 8 b (omega arith)).1 a ha

mul9-tried : tried mul9 ≡ true
unfolding tried all_below mul9
mul9-tried = refl

pub mul9-IsLinear : IsLinear mul9
mul9-IsLinear = tried-IsLinear mul9 mul9-tried

mul11-tried : tried mul11 ≡ true
unfolding tried all_below mul11
mul11-tried = refl

pub mul11-IsLinear : IsLinear mul11
mul11-IsLinear = tried-IsLinear mul11 mul11-tried

mul13-tried : tried mul13 ≡ true
unfolding tried all_below mul13
mul13-tried = refl

pub mul13-IsLinear : IsLinear mul13
mul13-IsLinear = tried-IsLinear mul13 mul13-tried

mul14-tried : tried mul14 ≡ true
unfolding tried all_below mul14
mul14-tried = refl

pub mul14-IsLinear : IsLinear mul14
mul14-IsLinear = tried-IsLinear mul14 mul14-tried

products_checked : all_below 256 (λ x. ltb (mul2 x) 256 && ltb (mul3 x) 256) ≡ true
unfolding all_below mul2 mul3
products_checked = refl

pub products-lt : (x : ℕ) → x < 256 → (mul2 x < 256) × (mul3 x < 256)
products-lt x h = ground (arith, all_below_holds 256 _ x products_checked h)
