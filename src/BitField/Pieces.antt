-- ===== src/BitField/Pieces.antt =====
-- The bit field of a download as the chooser of another peer reads it.
use gitabic.Base.{
  ℕ, zero, suc, ◌+◌, ◌/◌, ◌%◌, ◌^◌, ◌<◌, ◌≡◌, ◌⊎◌, inl, inr, refl, sym, subst, ap, ◌∙◌, Bool, false,
  ◌==◌, ==_iff, Bool-cases, if◌then◌else◌, List, [], ◌∷◌, ◌++◌, append-nil, length, length-append,
  get_elem?, some, none, arith,
}
use gitabic.Bytes.{ok}
use gitabic.Progress.Status.{verified, status_eq}
use gitabic.Progress.Piece.{PieceProgress}
use gitabic.Progress.Download.{DownloadProgress}
use gitabic.Chooser.Rarity.{test_piece}
use gitabic.BitField.{assign_bit, set_back, bit_field_from, get_bit_field}
use gitabic.BitField.Bits.{
  set_back-append, test_piece-front, test_piece-last, assign_bit-lt, test_bit-assigned,
  test_bit-kept, pow_pos,
}

abbrev grow : ℕ → List ℕ → List ℕ
grow i field = if i % 8 == 0 then field ++ (0 ∷ []) else field

-- Before piece `i` the field, grown for it, is right for the pieces before it, and ends in a byte
-- whose bits from that piece's on are not set.
record Written (w : ℕ → Bool) (i : ℕ) (field : List ℕ) : Type 0 where
  front : List ℕ
  last : ℕ
  grown : grow i field ≡ front ++ (last ∷ [])
  bytes : length front ≡ i / 8
  unset : last < 2 ^ (i % 8)
  right : (j : ℕ) → j < i → test_piece (front ++ (last ∷ [])) j ≡ ok (w j)

place : (i j : ℕ) → j < suc i → (j / 8 < i / 8) ⊎ ((j / 8 ≡ i / 8) × ((j ≡ i) ⊎ (j % 8 < i % 8)))
place i j h = ground arith

grow_cases :
    (i : ℕ) (field : List ℕ)
    → ((i % 8 ≡ 0) × (grow i field ≡ field ++ (0 ∷ [])))
      ⊎ (((i % 8 ≡ 0) → ⊥) × (grow i field ≡ field))
grow_cases i field = elim (Bool-cases (i % 8 == 0)) [
  | inl h ↦ inl ((==_iff (i % 8) 0).0 h, rw h refl)
  | inr h ↦ inr ((λ e. ground (arith, e, h)), rw h refl)
]

get_elem?-length :
    (ps : List PieceProgress) (i : ℕ) (p : PieceProgress) → get_elem? ps i ≡ some p → i < length ps
get_elem?-length [] i p e = cc
get_elem?-length (q ∷ ps) zero p e = omega arith
get_elem?-length (q ∷ ps) (suc i) p e = omega (arith, get_elem?-length ps i p e)

shorter :
    (field : List ℕ) (b j : ℕ)
    → j / 8 < length field
    → test_piece (field ++ (b ∷ [])) j ≡ test_piece field j
shorter field b j h =
    test_piece-front field (b ∷ []) [] j h ∙ ap (λ f. test_piece f j) (append-nil field)

module _ (w : ℕ → Bool) (i : ℕ) (field : List ℕ) (known : Written w i field) where
  abbrev changed : List ℕ
  changed = known.front ++ (assign_bit known.last (i % 8) (w i) ∷ [])

  changed_right : (j : ℕ) → j < suc i → test_piece changed j ≡ ok (w j)
  changed_right j h = elim (place i j h) [
    | inl before ↦
        test_piece-front known.front _ (known.last ∷ []) j (omega (arith, before, known.bytes))
        ∙ known.right j (omega (arith, before))
    | inr (same, inl here) ↦
        subst (λ k. test_piece changed k ≡ ok (w k)) (sym here)
          (test_piece-last known.front _ i (sym known.bytes)
            ∙ ap ok (test_bit-assigned known.last (i % 8) (w i) known.unset))
    | inr (same, inr lower) ↦
        let at : j / 8 ≡ length known.front = omega (arith, same, known.bytes) in
        test_piece-last known.front _ j at
        ∙ ap ok (test_bit-kept known.last (i % 8) (j % 8) (w i) known.unset lower)
        ∙ sym (test_piece-last known.front known.last j at)
        ∙ known.right j (omega (arith, same, lower))
  ]

  changed-Written : Written w (suc i) changed
  changed-Written =
      let size : length changed ≡ i / 8 + 1 = omega (
        arith,
        length-append known.front (assign_bit known.last (i % 8) (w i) ∷ []),
        known.bytes,
      ) in
      elim (grow_cases (suc i) changed) [
        | inl (zero_mod, e) ↦ record {
          front = changed;
          last = 0;
          grown = e;
          bytes = omega (arith, size, zero_mod);
          unset = pow_pos (suc i % 8);
          right = λ j h. shorter changed 0 j (omega (arith, size, zero_mod, h)) ∙ changed_right j h;
        }
        | inr (more, e) ↦
            let up : suc i % 8 ≡ suc (i % 8) = ground (arith, more) in
            record {
              front = known.front;
              last = assign_bit known.last (i % 8) (w i);
              grown = e;
              bytes = ground (arith, known.bytes, more);
              unset =
                  subst (λ k. assign_bit known.last (i % 8) (w i) < 2 ^ k) (sym up)
                    (assign_bit-lt known.last (i % 8) (w i) known.unset);
              right = changed_right;
            }
      ]

  field_right : (j : ℕ) → j < i → test_piece field j ≡ ok (w j)
  field_right j h = elim (grow_cases i field) [
    | inl (zero_mod, e) ↦
        let size : length field + 1 ≡ length known.front + 1 =
          sym (length-append field (0 ∷ []))
          ∙ ap length (sym e ∙ known.grown)
          ∙ length-append known.front (known.last ∷ []) in
        sym (shorter field 0 j (omega (arith, size, known.bytes, zero_mod, h)))
        ∙ ap (λ f. test_piece f j) (sym e ∙ known.grown)
        ∙ known.right j h
    | inr (more, e) ↦ ap (λ f. test_piece f j) (sym e ∙ known.grown) ∙ known.right j h
  ]

bit_field_from-Written :
    (w : ℕ → Bool) (ps : List PieceProgress) (i : ℕ) (field : List ℕ)
    → Written w i field
    → ((k : ℕ) (p : PieceProgress)
        → get_elem? ps k ≡ some p
        → w (i + k) ≡ status_eq p.status verified)
    → (j : ℕ) → j < i + length ps
    → test_piece (bit_field_from i ps field) j ≡ ok (w j)
unfolding bit_field_from
bit_field_from-Written w [] i field known tells j h = field_right w i field known j (omega arith)
bit_field_from-Written w (p ∷ ps) i field known tells j h =
    let first : w i ≡ status_eq p.status verified = ap w i_zero ∙ tells 0 p refl in
    let written : set_back (λ b. assign_bit b (i % 8) (status_eq p.status verified)) (grow i field)
        ≡ changed w i field known =
      ap (set_back (λ b. assign_bit b (i % 8) (status_eq p.status verified))) known.grown
      ∙ set_back-append _ known.front known.last
      ∙ ap (λ v. known.front ++ (assign_bit known.last (i % 8) v ∷ [])) (sym first) in
    bit_field_from-Written w ps (suc i) _
      (subst (Written w (suc i)) (sym written) (changed-Written w i field known))
      (λ k q e. ap w (shift k) ∙ tells (suc k) q e) j (omega (arith, h))
  where
    i_zero : i ≡ i + 0
    i_zero = omega arith

    shift : (k : ℕ) → suc i + k ≡ i + suc k
    shift k = omega arith

abbrev is_verified : List PieceProgress → ℕ → Bool
is_verified ps i = elim (get_elem? ps i) [ none ↦ false | some p ↦ status_eq p.status verified ]

-- The bit field of a download has a bit for each of its pieces, read in the way in which the chooser
-- of another peer reads it, and the bit is set for the pieces that are verified and no others.
pub test_piece-get_bit_field :
    (d : DownloadProgress) (i : ℕ) (p : PieceProgress)
    → get_elem? d.pieces i ≡ some p
    → test_piece (get_bit_field d) i ≡ ok (status_eq p.status verified)
unfolding get_bit_field
test_piece-get_bit_field d i p e =
    bit_field_from-Written (is_verified d.pieces) d.pieces 0 []
      (record {
        front = [];
        last = 0;
        grown = refl;
        bytes = refl;
        unset = pow_pos 0;
        right = λ j h. absurd (omega (arith, h));
      })
      (λ k q f. ap (is_verified d.pieces) (zero_plus k) ∙ tells k q f) i
      (omega (arith, get_elem?-length d.pieces i p e))
    ∙ ap ok (tells i p e)
  where
    tells :
        (k : ℕ) (q : PieceProgress)
        → get_elem? d.pieces k ≡ some q
        → is_verified d.pieces k ≡ status_eq q.status verified
    tells k q f = rw (f, is_verified) refl

    zero_plus : (k : ℕ) → 0 + k ≡ k
    zero_plus k = omega arith
