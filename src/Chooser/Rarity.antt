-- ===== src/Chooser/Rarity.antt =====
-- What RarityTrackerChooser knows of the peers' pieces: their bit fields, and for each piece the
-- number of peers that have it, in a `uint8_t`.
pub mod Exact
pub mod Invariant
pub mod Peers
pub mod Flips
pub mod Fields
pub mod Updates
use gitabic.Base.{
  ℕ, zero, suc, ◌+◌, ◌-◌, ◌*◌, ◌/◌, ◌%◌, ◌^◌, Bool, true, false, ◌==◌, if◌then◌else◌, List, [], ◌∷◌,
  Option, some, none, get_elem?, set, replicate, lookup, contains, insert, erase,
}
use gitabic.Bytes.{Outcome, Error, ok, raise, fault, out_of_range, bind}
use gitabic.Chooser.Window.{Windows, initial_window}

-- `vector<bitset<8>>`: a byte for each eight pieces, the lowest bit for the first of them.
abbrev pub BitField : Type 0
BitField = List ℕ

pub record RequestTracker : Type 0 where
  pub request_time : ℕ
  pub piece_index : ℕ
  pub block_index : ℕ
  pub received : Bool

-- The fields of RarityTrackerChooser, less `lastRequestTimes` and `peerResponseTimes`.
pub record ChooserState : Type 0 where
  pub piece_count : ℕ
  pub rarity : List ℕ
  pub peers_bitfields : List (ℕ × BitField)
  pub peer_windows : Windows
  pub active_requests : List (ℕ × List RequestTracker)

-- The constructor.
unfoldable pub new_chooser : ℕ → ChooserState
new_chooser piece_count = record {
  piece_count = piece_count;
  rarity = replicate piece_count 0;
  peers_bitfields = [];
  peer_windows = [];
  active_requests = [];
}

-- `bitset<8>::test`, `set` and `reset`, for a position below 8.
unfoldable pub test_bit : ℕ → ℕ → Bool
test_bit b i = (b / 2 ^ i) % 2 == 1

unfoldable pub set_bit : ℕ → ℕ → ℕ
set_bit b i = if test_bit b i then b else b + 2 ^ i

unfoldable pub reset_bit : ℕ → ℕ → ℕ
reset_bit b i = if test_bit b i then b - 2 ^ i else b

-- `vec[i / 8].test(i % 8)`
unfoldable pub test_piece : BitField → ℕ → Outcome Bool
test_piece vec i = elim (get_elem? vec (i / 8)) [ none ↦ fault | some b ↦ ok (test_bit b (i % 8)) ]

-- `? 1 : 0`
abbrev pub one_if : Bool → ℕ
one_if b = if b then 1 else 0

-- The loops of addPeerRarity and removePeerRarity, from piece `i` on.
unfoldable pub add_rarity_from : ℕ → BitField → List ℕ → Outcome (List ℕ)
add_rarity_from i vec [] = ok []
add_rarity_from i vec (r ∷ rs) =
    bind (test_piece vec i) (λ has.
      bind (add_rarity_from (suc i) vec rs) (λ rest. ok (((r + one_if has) % 2 ^ 8) ∷ rest)))

unfoldable pub remove_rarity_from : ℕ → BitField → List ℕ → Outcome (List ℕ)
remove_rarity_from i vec [] = ok []
remove_rarity_from i vec (r ∷ rs) = bind (test_piece vec i) (λ has.
    bind (remove_rarity_from (suc i) vec rs)
      (λ rest. ok (((r + 2 ^ 8 - one_if has) % 2 ^ 8) ∷ rest)))

unfoldable pub with_rarity : List ℕ → List (ℕ × BitField) → ChooserState → ChooserState
with_rarity rarity bitfields s = record {
  piece_count = s.piece_count;
  rarity = rarity;
  peers_bitfields = bitfields;
  peer_windows = s.peer_windows;
  active_requests = s.active_requests;
}

-- `if (_peersBitfields.contains(peer)) removePeerRarity(peer);`
unfoldable pub forget_rarity : ℕ → ChooserState → Outcome (List ℕ)
forget_rarity peer s = elim (lookup peer s.peers_bitfields) [
  | none ↦ ok s.rarity
  | some vec ↦ remove_rarity_from 0 vec s.rarity
]

unfoldable pub update_peer_bitfield : ℕ → BitField → ChooserState → Outcome ChooserState
update_peer_bitfield peer vec s = bind (forget_rarity peer s) (λ rarity.
    bind (add_rarity_from 0 vec rarity)
      (λ rarity'. ok (with_rarity rarity' (insert peer vec s.peers_bitfields) s)))

unfoldable pub remove_peer : ℕ → ChooserState → Outcome ChooserState
remove_peer peer s = bind (forget_rarity peer s) (λ rarity. ok (record {
  piece_count = s.piece_count;
  rarity = rarity;
  peers_bitfields = erase peer s.peers_bitfields;
  peer_windows = erase peer s.peer_windows;
  active_requests = erase peer s.active_requests;
}))

unfoldable pub add_peer : ℕ → ChooserState → ChooserState
add_peer peer s = record {
  piece_count = s.piece_count;
  rarity = s.rarity;
  peers_bitfields = insert peer (replicate (s.piece_count / 8 + 1) 0) s.peers_bitfields;
  peer_windows = insert peer initial_window s.peer_windows;
  active_requests = insert peer [] s.active_requests;
}

-- `_peersBitfields.at(peer)[pieceIndex / 8].test(pieceIndex % 8)`
unfoldable pub has_piece : ℕ → ℕ → ChooserState → Outcome Bool
has_piece peer piece s = elim (lookup peer s.peers_bitfields) [
  | none ↦ raise out_of_range
  | some vec ↦ test_piece vec piece
]

-- What gotPiece and lostPiece do where the peer's bit changes: `change` to the count, `flip` to the
-- byte.
unfoldable pub change_piece : (ℕ → ℕ) → (ℕ → ℕ → ℕ) → ℕ → ℕ → ChooserState → Outcome ChooserState
change_piece change flip peer piece s = elim (lookup peer s.peers_bitfields) [
  | none ↦ raise out_of_range
  | some vec ↦ elim (get_elem? vec (piece / 8)) [
    | none ↦ fault
    | some b ↦ elim (get_elem? s.rarity piece) [
      | none ↦ fault
      | some r ↦ ok (
          with_rarity (set s.rarity piece (change r))
            (insert peer (set vec (piece / 8) (flip b (piece % 8))) s.peers_bitfields) s)
    ]
  ]
]

unfoldable pub got_piece : ℕ → ℕ → ChooserState → Outcome ChooserState
got_piece peer piece s =
    bind (has_piece peer piece s)
      (λ has. if has then ok s else change_piece (λ r. (r + 1) % 2 ^ 8) set_bit peer piece s)

unfoldable pub lost_piece : ℕ → ℕ → ChooserState → Outcome ChooserState
lost_piece peer piece s = bind (has_piece peer piece s) (λ has.
    if has then change_piece (λ r. (r + 2 ^ 8 - 1) % 2 ^ 8) reset_bit peer piece s else ok s)
