-- ===== src/Chooser/Rarity/Peers.antt =====
-- The invariant of RarityTrackerChooser under updatePeerBitfield, removePeer and addPeer.
use native.Mathlib.Nat.{zero-div}
use gitabic.Base.{
  length-replicate, replicate, ◌⊎◌, zero, suc, get_elem?, ◌/◌, ◌^◌, false, ◌%◌, ℕ, ◌+◌, ◌-◌, ◌*◌,
  ◌≤◌, ◌≡◌, refl, List, length, Option, some, none, lookup, insert, erase, arith, Option-cases, inl,
  inr, ◌∙◌,
}
use gitabic.Bytes.{ok}
use gitabic.Chooser.Rarity.{
  test_bit, add_peer, BitField, ChooserState, with_rarity, forget_rarity, update_peer_bitfield,
  remove_peer,
}
use gitabic.Chooser.Rarity.Exact.{
  bit_of, holders, Counts, add_rarity_from-Counts, remove_rarity_from-Counts, Counts-ext,
}
use gitabic.Chooser.Rarity.Invariant.{
  Fields, Proper, Proper-insert, Proper-erase, Proper-lookup, holders-insert_new,
  holders-insert_old, holders-ge, holders-erase, erase-absent, contains-none,
}

-- Each count is the number of peers whose bit fields have the piece, modulo 2^8.
pub record IsExact (s : ChooserState) : Type 0 where
  pub sized : length s.rarity ≡ s.piece_count
  pub proper : Proper s.piece_count s.peers_bitfields
  pub exact : Counts (λ i. holders i s.peers_bitfields) 0 s.rarity

-- The counts without a peer that may be known.
others_of : Option BitField → Fields → ℕ → ℕ
others_of none m i = holders i m
others_of (some vec) m i = holders i m - bit_of vec i

others : ℕ → Fields → ℕ → ℕ
others peer m = others_of (lookup peer m) m

forget_rarity-Counts :
    (peer : ℕ) (s : ChooserState)
    → IsExact s
    → (rs : List ℕ) × ((forget_rarity peer s ≡ ok rs)
        × ((length rs ≡ s.piece_count) × Counts (others peer s.peers_bitfields) 0 rs))
unfolding forget_rarity others others_of
forget_rarity-Counts peer s x = elim (Option-cases (lookup peer s.peers_bitfields)) [
  | inl unknown ↦ rw (unknown, forget_rarity, others) (s.rarity, (refl, (x.sized, x.exact)))
  | inr (vec, known) ↦
      let long = Proper-lookup s.piece_count peer vec s.peers_bitfields x.proper known in
      let (rs, (run, (size, counts))) =
        remove_rarity_from-Counts (λ i. holders i s.peers_bitfields)
          (λ i. holders i s.peers_bitfields - bit_of vec i) vec 0 s.rarity
          (λ j. omega (arith, holders-ge j peer vec s.peers_bitfields known))
          (omega (arith, long, x.sized)) x.exact in
      rw (known, forget_rarity, others) (rs, (run, (size ∙ x.sized, counts)))
]

others-insert :
    (peer : ℕ) (vec : BitField) (m : Fields) (i : ℕ)
    → holders i (insert peer vec m) ≡ others peer m i + bit_of vec i
unfolding others others_of
others-insert peer vec m i = elim (Option-cases (lookup peer m)) [
  | inl unknown ↦ rw (unknown, others) (holders-insert_new i peer vec m unknown)
  | inr (old, known) ↦
      rw (known, others)
        (omega (arith, holders-insert_old i peer vec old m known, holders-ge i peer old m known))
]

others-erase :
    (n peer : ℕ) (m : Fields) (i : ℕ) → Proper n m → others peer m i ≡ holders i (erase peer m)
unfolding others others_of
others-erase n peer m i p = elim (Option-cases (lookup peer m)) [
  | inl unknown ↦ rw (unknown, others, erase-absent peer m (contains-none peer m unknown)) refl
  | inr (old, known) ↦ rw (known, others) (omega (arith, holders-erase n i peer old m p known))
]

-- Where the counts are exact, a bit field that covers all the pieces, from a peer that is known or
-- not, is taken without an access out of bounds, and the counts stay exact.
pub update_peer_bitfield-IsExact :
    (peer : ℕ) (vec : BitField) (s : ChooserState)
    → IsExact s
    → s.piece_count ≤ 8 * length vec
    → (s' : ChooserState) × ((update_peer_bitfield peer vec s ≡ ok s') × IsExact s')
unfolding update_peer_bitfield with_rarity
update_peer_bitfield-IsExact peer vec s x long =
    let (rs, (forgot, (size, counts))) = forget_rarity-Counts peer s x in
    let (rs', (added, (size', counts'))) =
      add_rarity_from-Counts (others peer s.peers_bitfields)
        (λ i. holders i (insert peer vec s.peers_bitfields)) vec 0 rs
        (λ j. others-insert peer vec s.peers_bitfields j) (omega (arith, long, size)) counts in
    (
      with_rarity rs' (insert peer vec s.peers_bitfields) s,
      (
        rw (forgot, added) refl,
        record {
          sized = size' ∙ size;
          proper = Proper-insert s.piece_count peer vec s.peers_bitfields long x.proper;
          exact = counts';
        },
      ),
    )

-- Where the counts are exact, a peer is removed without an access out of bounds, and the counts
-- stay exact.
remove_peer-IsExact :
    (peer : ℕ) (s : ChooserState)
    → IsExact s
    → (s' : ChooserState) × ((remove_peer peer s ≡ ok s') × IsExact s')
unfolding remove_peer
remove_peer-IsExact peer s x =
    let (rs, (forgot, (size, counts))) = forget_rarity-Counts peer s x in
    let s' : ChooserState = record {
      piece_count = s.piece_count;
      rarity = rs;
      peers_bitfields = erase peer s.peers_bitfields;
      peer_windows = erase peer s.peer_windows;
      active_requests = erase peer s.active_requests;
    } in
    (
      s',
      (
        rw forgot refl,
        record {
          sized = size;
          proper = Proper-erase s.piece_count peer s.peers_bitfields x.proper;
          exact =
              Counts-ext (others peer s.peers_bitfields)
                (λ i. holders i (erase peer s.peers_bitfields)) 0 rs
                (λ j. others-erase s.piece_count peer s.peers_bitfields j x.proper) counts;
        },
      ),
    )

zeros : ℕ → BitField
zeros n = replicate n 0

get_elem?-zeros : (n i : ℕ) → (get_elem? (zeros n) i ≡ none) ⊎ (get_elem? (zeros n) i ≡ some 0)
unfolding zeros
get_elem?-zeros zero i = inl refl
get_elem?-zeros (suc n) zero = inr refl
get_elem?-zeros (suc n) (suc i) = get_elem?-zeros n i

test_bit-zero : (i : ℕ) → test_bit 0 i ≡ false
unfolding test_bit
test_bit-zero i = rw (zero-div (2 ^ i)) refl

bit_of-zeros : (n i : ℕ) → bit_of (zeros n) i ≡ 0
unfolding bit_of
bit_of-zeros n i = elim (get_elem?-zeros n (i / 8)) [
  | inl e ↦ rw (e, bit_of) refl
  | inr e ↦ rw (e, bit_of) (rw (test_bit-zero (i % 8)) refl)
]

-- Where the counts are exact, a peer that is not known yet is added with no piece, and the counts
-- stay exact.
add_peer-IsExact :
    (peer : ℕ) (s : ChooserState)
    → IsExact s
    → lookup peer s.peers_bitfields ≡ none
    → IsExact (add_peer peer s)
unfolding add_peer zeros
add_peer-IsExact peer s x unknown = record {
  sized = x.sized;
  proper =
      Proper-insert s.piece_count peer (zeros (s.piece_count / 8 + 1)) s.peers_bitfields
        (omega (arith, length-replicate {A = ℕ} (s.piece_count / 8 + 1) 0)) x.proper;
  exact =
      Counts-ext (λ i. holders i s.peers_bitfields)
        (λ i. holders i (insert peer (zeros (s.piece_count / 8 + 1)) s.peers_bitfields)) 0 s.rarity
        (λ j. omega (
          arith,
          holders-insert_new j peer (zeros (s.piece_count / 8 + 1)) s.peers_bitfields unknown,
          bit_of-zeros (s.piece_count / 8 + 1) j,
        ))
        x.exact;
}
