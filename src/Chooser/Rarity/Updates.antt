-- ===== src/Chooser/Rarity/Updates.antt =====
-- The invariant of RarityTrackerChooser under gotPiece and lostPiece
-- (Peer/Torrent/PieceManagement/RarityTrackerChooser.cpp).
use gitabic.Base.{
  ℕ, ◌+◌, ◌-◌, ◌/◌, ◌%◌, ◌^◌, ◌<◌, ◌≡◌, refl, sym, ap, ◌∙◌, Bool, true, false, ◌==◌, ==_refl,
  if◌then◌else◌, Bool-cases, inl, inr, length-set, set, get_elem?, get_elem?-set_self, some, lookup,
  lookup-insert, insert, arith,
}
use gitabic.Bytes.{ok}
use gitabic.Chooser.Rarity.{
  BitField, ChooserState, test_bit, set_bit, reset_bit, test_piece, one_if, with_rarity, has_piece,
  change_piece, got_piece, lost_piece,
}
use gitabic.Chooser.Rarity.Exact.{holders}
use gitabic.Chooser.Rarity.Invariant.{Proper-insert, Proper-lookup, holders-insert_old}
use gitabic.Chooser.Rarity.Peers.{IsExact}
use gitabic.Chooser.Rarity.Flips.{set_bit-Raised, reset_bit-Raised}
use gitabic.Chooser.Rarity.Fields.{
  bit_of-eq, bit_of-set_other, Counts-set, get_elem?_inside, Counts-get_elem?,
}

-- A peer that is known, and a piece of the file: the byte of its bit field with the piece's bit.
record At (peer piece : ℕ) (s : ChooserState) (vec : BitField) (b r : ℕ) : Type 0 where
  known : lookup peer s.peers_bitfields ≡ some vec
  byte : get_elem? vec (piece / 8) ≡ some b
  count : get_elem? s.rarity piece ≡ some r
  counted : r ≡ holders piece s.peers_bitfields % 2 ^ 8

find-At :
    (peer piece : ℕ) (s : ChooserState) (vec : BitField)
    → IsExact s
    → lookup peer s.peers_bitfields ≡ some vec
    → piece < s.piece_count
    → (b : ℕ) × (r : ℕ) × At peer piece s vec b r
find-At peer piece s vec x known h =
    let long = Proper-lookup s.piece_count peer vec s.peers_bitfields x.proper known in
    let (b, byte) = get_elem?_inside vec (piece / 8) (omega (arith, h, long)) in
    let (r, count, counted) =
      Counts-get_elem? (λ i. holders i s.peers_bitfields) 0 piece s.rarity
        (omega (arith, h, x.sized)) x.exact in
    let at : 0 + piece ≡ piece = omega arith in
    (
      b,
      r,
      record {
        known = known;
        byte = byte;
        count = count;
        counted = counted ∙ ap (λ k. holders k s.peers_bitfields % 2 ^ 8) at;
      },
    )

-- The state with another byte and another count.
flipped : ℕ → ℕ → ℕ → ℕ → BitField → ChooserState → ChooserState
flipped peer piece c r vec s =
    with_rarity (set s.rarity piece r) (insert peer (set vec (piece / 8) c) s.peers_bitfields) s

has_piece-At :
    (peer piece : ℕ) (s : ChooserState) (vec : BitField) (b : ℕ)
    → lookup peer s.peers_bitfields ≡ some vec
    → get_elem? vec (piece / 8) ≡ some b
    → has_piece peer piece s ≡ ok (test_bit b (piece % 8))
unfolding has_piece test_piece
has_piece-At peer piece s vec b known byte = rw (known, has_piece) (rw (byte, test_piece) refl)

has_piece-flipped :
    (peer piece c r' : ℕ) (s : ChooserState) (vec : BitField) (b r : ℕ)
    → At peer piece s vec b r
    → has_piece peer piece (flipped peer piece c r' vec s) ≡ ok (test_bit c (piece % 8))
unfolding flipped with_rarity
has_piece-flipped peer piece c r' s vec b r x =
    has_piece-At peer piece (flipped peer piece c r' vec s) (set vec (piece / 8) c) c
      (lookup-insert peer peer (set vec (piece / 8) c) s.peers_bitfields
        ∙ ap (λ k. if k then some (set vec (piece / 8) c) else lookup peer s.peers_bitfields)
            (==_refl peer))
      (get_elem?-set_self vec (piece / 8) b c x.byte)

flipped-IsExact :
    (peer piece c r' : ℕ) (s : ChooserState) (vec : BitField) (b r : ℕ)
    → IsExact s
    → At peer piece s vec b r
    → ((k : ℕ) → (piece % 8 == k) ≡ false → test_bit c k ≡ test_bit b k)
    → r' ≡ holders piece (insert peer (set vec (piece / 8) c) s.peers_bitfields) % 2 ^ 8
    → IsExact (flipped peer piece c r' vec s)
unfolding flipped with_rarity
flipped-IsExact peer piece c r' s vec b r x a same counted = record {
  sized = length-set s.rarity piece r' ∙ x.sized;
  proper =
      Proper-insert s.piece_count peer vec' s.peers_bitfields
        (omega (
          arith,
          Proper-lookup s.piece_count peer vec s.peers_bitfields x.proper a.known,
          length-set vec (piece / 8) c,
        ))
        x.proper;
  exact =
      Counts-set (λ i. holders i s.peers_bitfields)
        (λ i. holders i (insert peer vec' s.peers_bitfields)) 0 piece s.rarity r'
        (λ j apart. omega (
          arith,
          holders-insert_old j peer vec' vec s.peers_bitfields a.known,
          bit_of-set_other vec piece j b c a.byte same (ground (arith, apart)),
        ))
        (counted ∙ ap (λ k. holders k (insert peer vec' s.peers_bitfields) % 2 ^ 8) from_zero)
        x.exact;
}
  where
    vec' : BitField
    vec' = set vec (piece / 8) c

    from_zero : piece ≡ 0 + piece
    from_zero = omega arith

change_piece-At :
    (change : ℕ → ℕ) (flip : ℕ → ℕ → ℕ) (peer piece : ℕ) (s : ChooserState) (vec : BitField)
    (b r : ℕ)
    → At peer piece s vec b r
    → change_piece change flip peer piece s
      ≡ ok (flipped peer piece (flip b (piece % 8)) (change r) vec s)
unfolding change_piece flipped
change_piece-At change flip peer piece s vec b r a =
    rw (a.known, change_piece) (rw a.byte (rw a.count refl))

-- The number of holders where the piece's bit is flipped.
holders-flipped :
    (peer piece c : ℕ) (s : ChooserState) (vec : BitField) (b r : ℕ)
    → At peer piece s vec b r
    → holders piece (insert peer (set vec (piece / 8) c) s.peers_bitfields)
        + one_if (test_bit b (piece % 8))
      ≡ holders piece s.peers_bitfields + one_if (test_bit c (piece % 8))
holders-flipped peer piece c s vec b r a =
    let vec' = set vec (piece / 8) c in
    omega (
      arith,
      holders-insert_old piece peer vec' vec s.peers_bitfields a.known,
      bit_of-eq vec piece b a.byte,
      bit_of-eq vec' piece c (get_elem?-set_self vec (piece / 8) b c a.byte),
    )

-- What a call leaves: the counts are exact, and the peer has the piece, or not.
pub record Known (peer piece : ℕ) (has : Bool) (s : ChooserState) : Type 0 where
  pub exact : IsExact s
  pub bit : has_piece peer piece s ≡ ok has

got_new :
    (peer piece : ℕ) (s : ChooserState) (vec : BitField) (b r : ℕ)
    → IsExact s
    → At peer piece s vec b r
    → test_bit b (piece % 8) ≡ false
    → Known peer piece true (flipped peer piece (set_bit b (piece % 8)) ((r + 1) % 2 ^ 8) vec s)
got_new peer piece s vec b r x a off =
    let c = set_bit b (piece % 8) in
    let raised = set_bit-Raised b (piece % 8) off in
    let more = holders-flipped peer piece c s vec b r a in
    let one : one_if (test_bit c (piece % 8)) ≡ 1 = rw raised.is_set refl in
    let none : one_if (test_bit b (piece % 8)) ≡ 0 = rw off refl in
    record {
      exact =
          flipped-IsExact peer piece c ((r + 1) % 2 ^ 8) s vec b r x a raised.others
            (omega (arith, a.counted, more, one, none));
      bit = has_piece-flipped peer piece c ((r + 1) % 2 ^ 8) s vec b r a ∙ ap ok raised.is_set;
    }

lost_old :
    (peer piece : ℕ) (s : ChooserState) (vec : BitField) (b r : ℕ)
    → IsExact s
    → At peer piece s vec b r
    → test_bit b (piece % 8) ≡ true
    → Known peer piece false
        (flipped peer piece (reset_bit b (piece % 8)) ((r + 2 ^ 8 - 1) % 2 ^ 8) vec s)
lost_old peer piece s vec b r x a on =
    let c = reset_bit b (piece % 8) in
    let raised = reset_bit-Raised b (piece % 8) on in
    let less = holders-flipped peer piece c s vec b r a in
    let none : one_if (test_bit c (piece % 8)) ≡ 0 = rw raised.unset refl in
    let one : one_if (test_bit b (piece % 8)) ≡ 1 = rw on refl in
    record {
      exact =
          flipped-IsExact peer piece c ((r + 2 ^ 8 - 1) % 2 ^ 8) s vec b r x a
            (λ k apart. sym (raised.others k apart)) (omega (arith, a.counted, less, one, none));
      bit =
          has_piece-flipped peer piece c ((r + 2 ^ 8 - 1) % 2 ^ 8) s vec b r a ∙ ap ok raised.unset;
    }

-- Where the counts are exact, the message that a known peer has got a piece, or that it has lost one, is
-- taken without an access out of bounds: the counts stay exact, and the peer then counts as one that has
-- the piece, or that has not.
pub got_piece-lost_piece :
    (peer piece : ℕ) (s : ChooserState) (vec : BitField)
    → IsExact s
    → lookup peer s.peers_bitfields ≡ some vec
    → piece < s.piece_count
    → ((t : ChooserState) × (got_piece peer piece s ≡ ok t) × Known peer piece true t)
      × ((u : ChooserState) × (lost_piece peer piece s ≡ ok u) × Known peer piece false u)
unfolding got_piece lost_piece
got_piece-lost_piece peer piece s vec x known h =
    let (b, r, a) = find-At peer piece s vec x known h in
    let asked = has_piece-At peer piece s vec b known a.byte in
    elim (Bool-cases (test_bit b (piece % 8))) [
      | inl on ↦
          let has : has_piece peer piece s ≡ ok true = asked ∙ ap ok on in
          (
            (s, rw has refl, record { exact = x; bit = has }),
            (
              flipped peer piece (reset_bit b (piece % 8)) ((r + 2 ^ 8 - 1) % 2 ^ 8) vec s,
              rw has
                  (change_piece-At (λ r. (r + 2 ^ 8 - 1) % 2 ^ 8) reset_bit peer piece s vec b r a),
              lost_old peer piece s vec b r x a on,
            ),
          )
      | inr off ↦
          let has : has_piece peer piece s ≡ ok false = asked ∙ ap ok off in
          (
            (
              flipped peer piece (set_bit b (piece % 8)) ((r + 1) % 2 ^ 8) vec s,
              rw has (change_piece-At (λ r. (r + 1) % 2 ^ 8) set_bit peer piece s vec b r a),
              got_new peer piece s vec b r x a off,
            ),
            (s, rw has refl, record { exact = x; bit = has }),
          )
    ]
