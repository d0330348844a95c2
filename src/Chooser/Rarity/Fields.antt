-- ===== src/Chooser/Rarity/Fields.antt =====
-- A bit field with one byte changed, and the counts with one of them changed.
use gitabic.Base.{
  ℕ, zero, suc, ◌+◌, ◌/◌, ◌%◌, ◌^◌, ◌<◌, ◌≤◌, ◌≡◌, refl, sym, ap, ◌∙◌, subst, false, ◌==◌, ==_iff,
  Bool-cases, inl, inr, List, [], ◌∷◌, length, set, get_elem?, get_elem?-set_other,
  get_elem?-set_self, some, none, arith,
}
use gitabic.Chooser.Rarity.{BitField, test_bit, one_if}
use gitabic.Chooser.Rarity.Exact.{bit_of, Counts}

pub bit_of-eq :
    (vec : BitField) (j b : ℕ)
    → get_elem? vec (j / 8) ≡ some b
    → bit_of vec j ≡ one_if (test_bit b (j % 8))
unfolding bit_of
bit_of-eq vec j b e = rw (e, bit_of) refl

bit_of-ext :
    (a b : BitField) (j : ℕ) → get_elem? a (j / 8) ≡ get_elem? b (j / 8) → bit_of a j ≡ bit_of b j
unfolding bit_of
bit_of-ext a b j h =
    ap (λ o. elim o as (λ _. ℕ) [ none ↦ 0 | some x ↦ one_if (test_bit x (j % 8)) ]) h

-- The bit field that has `c` in place of the byte `b`, at another piece.
pub bit_of-set_other :
    (vec : BitField) (p j b c : ℕ)
    → get_elem? vec (p / 8) ≡ some b
    → ((k : ℕ) → (p % 8 == k) ≡ false → test_bit c k ≡ test_bit b k)
    → (p == j) ≡ false
    → bit_of (set vec (p / 8) c) j ≡ bit_of vec j
bit_of-set_other vec p j b c e same apart = elim (Bool-cases (p / 8 == j / 8)) [
  | inl shared ↦
      let at : p / 8 ≡ j / 8 = (==_iff (p / 8) (j / 8)).0 shared in
      let differs : (p % 8 == j % 8) ≡ false = ground (arith, at, apart) in
      let old = bit_of-eq vec j b (subst (λ k. get_elem? vec k ≡ some b) at e) in
      let new = bit_of-eq (set vec (p / 8) c) j c (
        subst (λ k. get_elem? (set vec (p / 8) c) k ≡ some c) at
          (get_elem?-set_self vec (p / 8) b c e)) in
      new ∙ ap one_if (same (j % 8) differs) ∙ sym old
  | inr elsewhere ↦
      bit_of-ext (set vec (p / 8) c) vec j (get_elem?-set_other vec (p / 8) (j / 8) c elsewhere)
]

Counts-above :
    (w v : ℕ → ℕ) (i : ℕ) (rs : List ℕ)
    → ((j : ℕ) → i ≤ j → v j ≡ w j)
    → Counts w i rs
    → Counts v i rs
unfolding Counts
Counts-above w v i [] e c = tt
Counts-above w v i (r ∷ rs) e c = (
  omega (arith, c.0, e i (omega arith)),
  Counts-above w v (suc i) rs (λ j h. e j (omega (arith, h))) c.1,
)

-- One count is set, where the number of holders changes for its piece alone.
pub Counts-set :
    (w v : ℕ → ℕ) (i p : ℕ) (rs : List ℕ) (r : ℕ)
    → ((j : ℕ) → (i + p == j) ≡ false → v j ≡ w j)
    → r ≡ v (i + p) % 2 ^ 8
    → Counts w i rs
    → Counts v i (set rs p r)
unfolding Counts
Counts-set w v i p [] r e new c = tt
Counts-set w v i zero (x ∷ rs) r e new c =
    let at : i + 0 ≡ i = omega arith in
    (
      new ∙ ap (λ k. v k % 2 ^ 8) at,
      Counts-above w v (suc i) rs (λ j h. e j (ground (arith, h))) c.1,
    )
Counts-set w v i (suc p) (x ∷ rs) r e new c =
    let at : i + suc p ≡ suc i + p = omega arith in
    (
      omega (arith, c.0, e i (ground arith)),
      Counts-set w v (suc i) p rs r (λ j h. e j (ap (λ k. k == j) at ∙ h))
          (new ∙ ap (λ k. v k % 2 ^ 8) at) c.1,
    )

pub get_elem?_inside : (xs : List ℕ) (i : ℕ) → i < length xs → (x : ℕ) × (get_elem? xs i ≡ some x)
get_elem?_inside [] i h = absurd (omega arith)
get_elem?_inside (x ∷ xs) zero h = (x, refl)
get_elem?_inside (x ∷ xs) (suc i) h = get_elem?_inside xs i (omega arith)

pub Counts-get_elem? :
    (w : ℕ → ℕ) (i p : ℕ) (rs : List ℕ)
    → p < length rs
    → Counts w i rs
    → (r : ℕ) × (get_elem? rs p ≡ some r) × (r ≡ w (i + p) % 2 ^ 8)
unfolding Counts
Counts-get_elem? w i p [] h c = absurd (omega arith)
Counts-get_elem? w i zero (x ∷ rs) h c =
    let at : i ≡ i + 0 = omega arith in (x, refl, c.0 ∙ ap (λ k. w k % 2 ^ 8) at)
Counts-get_elem? w i (suc p) (x ∷ rs) h c =
    let at : suc i + p ≡ i + suc p = omega arith in
    let (r, found, value) = Counts-get_elem? w (suc i) p rs (omega arith) c.1 in
    (r, found, value ∙ ap (λ k. w k % 2 ^ 8) at)
