-- ===== src/Chooser/Rarity/Exact.antt =====
-- The counts of RarityTrackerChooser against the number of peers that have each piece.
use gitabic.Base.{
  ℕ, zero, suc, ◌+◌, ◌-◌, ◌*◌, ◌/◌, ◌%◌, ◌^◌, ◌<◌, ◌≤◌, ◌≡◌, refl, Bool, List, [], ◌∷◌, length,
  some, none, get_elem?, arith, ap,
}
use gitabic.Bytes.{ok}
use gitabic.Chooser.Rarity.{
  BitField, test_bit, test_piece, one_if, add_rarity_from, remove_rarity_from,
}

-- Whether a bit field has the piece, as a number; a field that is too short has not.
unfoldable pub bit_of : BitField → ℕ → ℕ
bit_of vec i = elim (get_elem? vec (i / 8)) [ none ↦ 0 | some b ↦ one_if (test_bit b (i % 8)) ]

-- How many peers have it.
unfoldable pub holders : ℕ → List (ℕ × BitField) → ℕ
holders i [] = 0
holders i ((peer, vec) ∷ m) = bit_of vec i + holders i m

-- From piece `i` on, each count is that of the weights, modulo 2^8.
unfoldable pub Counts : (ℕ → ℕ) → ℕ → List ℕ → Type 0
Counts w i [] = Unit
Counts w i (r ∷ rs) = (r ≡ w i % 2 ^ 8) × Counts w (suc i) rs

get_elem?_long : (vec : BitField) (i : ℕ) → i < length vec → (b : ℕ) × (get_elem? vec i ≡ some b)
get_elem?_long [] i h = absurd (omega arith)
get_elem?_long (b ∷ vec) zero h = (b, refl)
get_elem?_long (b ∷ vec) (suc i) h = get_elem?_long vec i (omega arith)

test_piece-bit_of :
    (vec : BitField) (i : ℕ)
    → i < 8 * length vec
    → (has : Bool) × ((test_piece vec i ≡ ok has) × (bit_of vec i ≡ one_if has))
unfolding test_piece bit_of
test_piece-bit_of vec i h =
    let (b, e) = get_elem?_long vec (i / 8) (omega (arith, h)) in
    (test_bit b (i % 8), (rw (e, test_piece) refl, rw (e, bit_of) refl))

pub add_rarity_from-Counts :
    (w v : ℕ → ℕ) (vec : BitField) (i : ℕ) (rs : List ℕ)
    → ((j : ℕ) → v j ≡ w j + bit_of vec j)
    → i + length rs ≤ 8 * length vec
    → Counts w i rs
    → (rs' : List ℕ) × ((add_rarity_from i vec rs ≡ ok rs')
        × ((length rs' ≡ length rs) × Counts v i rs'))
unfolding add_rarity_from Counts
add_rarity_from-Counts w v vec i [] e h c = ([], (refl, (refl, tt)))
add_rarity_from-Counts w v vec i (r ∷ rs) e h c =
    let (has, (tested, bit)) = test_piece-bit_of vec i (omega (arith, h)) in
    let (rs', (run, (size, counts))) =
      add_rarity_from-Counts w v vec (suc i) rs e (omega (arith, h)) c.1 in
    (
      (r + one_if has) % 2 ^ 8 ∷ rs',
      (rw (tested, run) refl, (ap suc size, (omega (arith, c.0, bit, e i), counts))),
    )

pub remove_rarity_from-Counts :
    (w v : ℕ → ℕ) (vec : BitField) (i : ℕ) (rs : List ℕ)
    → ((j : ℕ) → w j ≡ v j + bit_of vec j)
    → i + length rs ≤ 8 * length vec
    → Counts w i rs
    → (rs' : List ℕ) × ((remove_rarity_from i vec rs ≡ ok rs')
        × ((length rs' ≡ length rs) × Counts v i rs'))
unfolding remove_rarity_from Counts
remove_rarity_from-Counts w v vec i [] e h c = ([], (refl, (refl, tt)))
remove_rarity_from-Counts w v vec i (r ∷ rs) e h c =
    let (has, (tested, bit)) = test_piece-bit_of vec i (omega (arith, h)) in
    let (rs', (run, (size, counts))) =
      remove_rarity_from-Counts w v vec (suc i) rs e (omega (arith, h)) c.1 in
    (
      (r + 2 ^ 8 - one_if has) % 2 ^ 8 ∷ rs',
      (rw (tested, run) refl, (ap suc size, (ground (arith, c.0, bit, e i), counts))),
    )

pub Counts-ext :
    (w v : ℕ → ℕ) (i : ℕ) (rs : List ℕ) → ((j : ℕ) → w j ≡ v j) → Counts w i rs → Counts v i rs
unfolding Counts
Counts-ext w v i [] e c = tt
Counts-ext w v i (r ∷ rs) e c = (omega (arith, c.0, e i), Counts-ext w v (suc i) rs e c.1)
