-- ===== src/Chooser/Window.antt =====
-- How many requests to one peer may be outstanding: getPeerWindow and adjustPeerWindow of
-- RarityTrackerChooser, and the free slots that ChooseBlocks makes of them.
use gitabic.Base.{
  ℕ, ◌+◌, ◌-◌, ◌%◌, ◌^◌, ◌<◌, ◌≤◌, ◌≡◌, refl, min, max, Bool, true, false, if◌then◌else◌, List, [],
  ◌∷◌, contains, insert, arith, Bool-cases, inl, inr, ◌==◌, ◌⊎◌,
}

abbrev min_window : ℕ
min_window = 2

abbrev max_window : ℕ
max_window = 40

abbrev pub initial_window : ℕ
initial_window = 10

-- `unordered_map<PeerID, uint8_t> peerWindows`
abbrev pub Windows : Type 0
Windows = List (ℕ × ℕ)

-- The window of a peer that is in the map, and what `operator[]` makes of one that is not.
unfoldable pub window_of : ℕ → Windows → ℕ
window_of peer [] = 0
window_of peer ((k, w) ∷ ws) = if k == peer then w else window_of peer ws

unfoldable pub get_peer_window : ℕ → Windows → ℕ × Windows
get_peer_window peer ws =
    let ws' : Windows = if contains peer ws then ws else insert peer initial_window ws in
    (window_of peer ws', ws')

unfoldable pub adjust_peer_window : ℕ → Bool → Windows → Windows
adjust_peer_window peer success ws =
    let window : ℕ = window_of peer ws in
    insert peer (if success then min (window + 1) max_window else max (window - 1) min_window) ws

-- `uint16_t availableSlots = currentWindow - activeRequests[peer].size();`
unfoldable pub available_slots : ℕ → ℕ → ℕ
available_slots window outstanding = (window + 2 ^ 16 - outstanding % 2 ^ 16) % 2 ^ 16

-- Every window that is stored lies between the least and the greatest.
unfoldable pub Bounded : Windows → Type 0
Bounded [] = Unit
Bounded ((k, w) ∷ ws) = ((min_window ≤ w) × (w ≤ max_window)) × Bounded ws

Bounded-insert :
    (peer w : ℕ) (ws : Windows)
    → min_window ≤ w
    → w ≤ max_window
    → Bounded ws
    → Bounded (insert peer w ws)
unfolding Bounded
Bounded-insert peer w [] l u b = ((l, u), tt)
Bounded-insert peer w ((k, v) ∷ ws) l u b = elim (Bool-cases (k == peer)) [
  | inl h ↦ rw (h, insert) ((l, u), b.1)
  | inr h ↦ rw (h, insert) (b.0, Bounded-insert peer w ws l u b.1)
]

window_of_bound : (peer : ℕ) (ws : Windows) → Bounded ws → window_of peer ws ≤ max_window
unfolding window_of Bounded
window_of_bound peer [] b = omega arith
window_of_bound peer ((k, w) ∷ ws) b = ground (arith, b.0.1, window_of_bound peer ws b.1)

get_peer_window-Bounded :
    (peer : ℕ) (ws : Windows) → Bounded ws → Bounded (get_peer_window peer ws).1
unfolding get_peer_window
get_peer_window-Bounded peer ws b = elim (Bool-cases (contains peer ws)) [
  | inl h ↦ rw h b
  | inr h ↦ rw h (Bounded-insert peer initial_window ws (omega arith) (omega arith) b)
]

window_of-contains :
    (peer : ℕ) (ws : Windows)
    → Bounded ws
    → contains peer ws ≡ true
    → min_window ≤ window_of peer ws
unfolding window_of Bounded
window_of-contains peer [] b h = cc
window_of-contains peer ((k, w) ∷ ws) b h = elim (Bool-cases (k == peer)) [
  | inl here ↦ rw here b.0.0
  | inr other ↦ rw other (window_of-contains peer ws b.1 (rw other at h))
]

-- Raising or lowering the window of a peer that has one keeps every window in the bounds.
pub adjust_peer_window-Bounded :
    (peer : ℕ) (success : Bool) (ws : Windows)
    → Bounded ws
    → contains peer ws ≡ true
    → Bounded (adjust_peer_window peer success ws)
unfolding adjust_peer_window
adjust_peer_window-Bounded peer true ws b c =
    let low = window_of-contains peer ws b c in
    Bounded-insert peer _ ws (omega (arith, low)) (omega arith) b
adjust_peer_window-Bounded peer false ws b c =
    Bounded-insert peer _ ws (omega arith) (omega (arith, window_of_bound peer ws b)) b

contains-insert : (peer w : ℕ) (ws : Windows) → contains peer (insert peer w ws) ≡ true
contains-insert peer w [] = ground arith
contains-insert peer w ((k, v) ∷ ws) = ground (arith, contains-insert peer w ws)

contains-get_peer_window :
    (peer : ℕ) (ws : Windows) → contains peer (get_peer_window peer ws).1 ≡ true
unfolding get_peer_window
contains-get_peer_window peer ws = elim (Bool-cases (contains peer ws)) [
  | inl h ↦ rw h h
  | inr h ↦ rw h (contains-insert peer initial_window ws)
]

get_peer_window_lem :
    (peer : ℕ) (ws : Windows)
    → (get_peer_window peer ws).0 ≡ window_of peer (get_peer_window peer ws).1
unfolding get_peer_window
get_peer_window_lem peer ws = refl

-- Once a peer has a window, it is read again as it was.
pub get_peer_window-get_peer_window :
    (peer : ℕ) (ws : Windows)
    → (get_peer_window peer (get_peer_window peer ws).1).0 ≡ (get_peer_window peer ws).0
unfolding get_peer_window
get_peer_window-get_peer_window peer ws = rw (contains-get_peer_window peer ws) refl

-- Where every window stored is in the bounds, the window that ChooseBlocks uses for a peer is, and
-- so are those stored afterwards.
pub get_peer_window_bounds :
    (peer : ℕ) (ws : Windows)
    → Bounded ws
    → let r : ℕ × Windows = get_peer_window peer ws in
      (min_window ≤ r.0) × (r.0 ≤ max_window) × Bounded r.1
get_peer_window_bounds peer ws b =
    let after = get_peer_window-Bounded peer ws b in
    let w = get_peer_window_lem peer ws in
    let low = window_of-contains peer _ after (contains-get_peer_window peer ws) in
    (omega (arith, w, low), omega (arith, w, window_of_bound peer _ after), after)

-- With a window of at most 40 and fewer than 2^15 requests still out, the free slots are what is
-- left of the window, but 2^15 or more of them when more requests are out than the window allows.
pub available_slots_lem :
    (window outstanding : ℕ)
    → window ≤ max_window
    → outstanding < 2 ^ 15
    → ((outstanding ≤ window) × (available_slots window outstanding + outstanding ≡ window))
      ⊎ ((window < outstanding) × (2 ^ 15 ≤ available_slots window outstanding))
unfolding available_slots
available_slots_lem window outstanding w o = ground arith
