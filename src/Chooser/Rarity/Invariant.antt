-- ===== src/Chooser/Rarity/Invariant.antt =====
-- The map of bit fields: how the number of peers that have a piece changes with it.
use gitabic.Base.{
  ℕ, ◌+◌, ◌*◌, ◌≤◌, ◌≡◌, refl, true, false, ◌==◌, ==_iff, if◌then◌else◌, List, [], ◌∷◌, length,
  some, none, lookup, contains, insert, erase, arith, Bool-cases, inl, inr, subst,
}
use gitabic.Chooser.Rarity.{BitField}
use gitabic.Chooser.Rarity.Exact.{bit_of, holders}

abbrev pub Fields : Type 0
Fields = List (ℕ × BitField)

-- A peer stands in the map once, and each bit field covers `n` pieces.
unfoldable pub Proper : ℕ → Fields → Type 0
Proper n [] = Unit
Proper n ((k, vec) ∷ m) = (contains k m ≡ false) × (n ≤ 8 * length vec) × Proper n m

some_inj {ℓ} : {A : Type ℓ} {x y : A} → some x ≡ some y → x ≡ y
some_inj e = cc

contains-insert :
    (j k : ℕ) (v : BitField) (m : Fields)
    → contains j (insert k v m) ≡ (if k == j then true else contains j m)
contains-insert j k v [] = ground arith
contains-insert j k v ((i, w) ∷ m) = ground (arith, contains-insert j k v m)

contains-erase :
    (j k : ℕ) (m : Fields) → contains j (erase k m) ≡ (if k == j then false else contains j m)
contains-erase j k [] = ground arith
contains-erase j k ((i, w) ∷ m) = ground (arith, contains-erase j k m)

pub erase-absent : (k : ℕ) (m : Fields) → contains k m ≡ false → erase k m ≡ m
erase-absent k [] h = refl
erase-absent k ((i, w) ∷ m) h = ground (arith, erase-absent k m, h)

pub contains-none : (k : ℕ) (m : Fields) → lookup k m ≡ none → contains k m ≡ false
contains-none k [] h = refl
contains-none k ((i, w) ∷ m) h = ground (arith, contains-none k m, h)

pub Proper-insert :
    (n k : ℕ) (v : BitField) (m : Fields) → n ≤ 8 * length v → Proper n m → Proper n (insert k v m)
unfolding Proper
Proper-insert n k v [] h p = (refl, h, tt)
Proper-insert n k v ((i, w) ∷ m) h p = elim (Bool-cases (i == k)) [
  | inl same ↦ rw same (subst (λ a. contains a m ≡ false) ((==_iff i k).0 same) p.0, h, p.2)
  | inr other ↦ rw other (apart other, p.1, Proper-insert n k v m h p.2)
]
  where
    apart : (i == k) ≡ false → contains i (insert k v m) ≡ false
    apart o = ground (arith, contains-insert i k v m, o, p.0)

pub Proper-erase : (n k : ℕ) (m : Fields) → Proper n m → Proper n (erase k m)
unfolding Proper
Proper-erase n k [] p = tt
Proper-erase n k ((i, w) ∷ m) p = elim (Bool-cases (i == k)) [
  | inl same ↦ rw same (Proper-erase n k m p.2)
  | inr other ↦ rw other (apart other, p.1, Proper-erase n k m p.2)
]
  where
    apart : (i == k) ≡ false → contains i (erase k m) ≡ false
    apart o = ground (arith, contains-erase i k m, o, p.0)

pub Proper-lookup :
    (n k : ℕ) (v : BitField) (m : Fields) → Proper n m → lookup k m ≡ some v → n ≤ 8 * length v
unfolding Proper
Proper-lookup n k v [] p e = cc
Proper-lookup n k v ((i, w) ∷ m) p e = elim (Bool-cases (i == k)) [
  | inl same ↦ subst (λ (u : BitField). n ≤ 8 * length u) (some_inj (rw same at e)) p.1
  | inr other ↦ Proper-lookup n k v m p.2 (rw other at e)
]

pub holders-insert_new :
    (j k : ℕ) (v : BitField) (m : Fields)
    → lookup k m ≡ none
    → holders j (insert k v m) ≡ holders j m + bit_of v j
unfolding holders
holders-insert_new j k v [] e = omega arith
holders-insert_new j k v ((i, w) ∷ m) e = elim (Bool-cases (i == k)) [
  | inl same ↦ absurd (none_some (rw same at e))
  | inr other ↦ rw other (omega (arith, holders-insert_new j k v m (rw other at e)))
]
  where
    none_some : some w ≡ none → ⊥
    none_some h = cc

pub holders-insert_old :
    (j k : ℕ) (v old : BitField) (m : Fields)
    → lookup k m ≡ some old
    → holders j (insert k v m) + bit_of old j ≡ holders j m + bit_of v j
unfolding holders
holders-insert_old j k v old [] e = cc
holders-insert_old j k v old ((i, w) ∷ m) e = elim (Bool-cases (i == k)) [
  | inl same ↦ rw same (rw (some_inj {x = w} {y = old} (rw same at e)) (omega arith))
  | inr other ↦ rw other (omega (arith, holders-insert_old j k v old m (rw other at e)))
]

pub holders-ge :
    (j k : ℕ) (v : BitField) (m : Fields) → lookup k m ≡ some v → bit_of v j ≤ holders j m
unfolding holders
holders-ge j k v [] e = cc
holders-ge j k v ((i, w) ∷ m) e = elim (Bool-cases (i == k)) [
  | inl same ↦ rw (some_inj {x = w} {y = v} (rw same at e)) (omega arith)
  | inr other ↦ omega (arith, holders-ge j k v m (rw other at e))
]

pub holders-erase :
    (n j k : ℕ) (v : BitField) (m : Fields)
    → Proper n m
    → lookup k m ≡ some v
    → holders j m ≡ holders j (erase k m) + bit_of v j
unfolding holders Proper
holders-erase n j k v [] p e = cc
holders-erase n j k v ((i, w) ∷ m) p e = elim (Bool-cases (i == k)) [
  | inl same ↦
      let gone : erase k m ≡ m =
        erase-absent k m (subst (λ a. contains a m ≡ false) ((==_iff i k).0 same) p.0) in
      rw same (rw (gone, some_inj {x = w} {y = v} (rw same at e)) (omega arith))
  | inr other ↦ rw other (omega (arith, holders-erase n j k v m p.2 (rw other at e)))
]
