-- ===== src/Chooser/Responses.antt =====
-- RarityTrackerChooser::updateBlockReceived: the time that a peer has taken for a block, and the peer's
-- window that follows it (Peer/Torrent/PieceManagement/RarityTrackerChooser.cpp). Times are in
-- milliseconds.
pub mod Pacing
use gitabic.Base.{
  ℕ, zero, suc, ◌+◌, ◌-◌, ◌*◌, Bool, true, false, ◌&&◌, ltb, leb, ◌==◌, if◌then◌else◌, List, [],
  ◌∷◌, take, length, Option, none, some, lookup, insert,
}
use gitabic.Signal.{value}
use gitabic.Chooser.Rarity.{RequestTracker, ChooserState}
use gitabic.Chooser.Window.{Windows, adjust_peer_window}

abbrev pub maximum_requests : ℕ
maximum_requests = 12

abbrev minimum_requests : ℕ
minimum_requests = 5

-- `unordered_map<PeerID, list<long>> peerResponseTimes`, the newest time first.
abbrev pub ResponseTimes : Type 0
ResponseTimes = List (ℕ × List ℕ)

unfoldable pub is_for : ℕ → ℕ → RequestTracker → Bool
is_for piece block r = (r.piece_index == piece) && (r.block_index == block)

-- `find_if`
unfoldable pub find_request : ℕ → ℕ → List RequestTracker → Option RequestTracker
unfolding is_for
find_request piece block [] = none
find_request piece block (r ∷ rs) =
    if is_for piece block r then some r else find_request piece block rs

-- `it->received = true`
unfoldable pub mark_received : ℕ → ℕ → List RequestTracker → List RequestTracker
unfolding is_for
mark_received piece block [] = []
mark_received piece block (r ∷ rs) =
    if is_for piece block r
    then record r { received = true } ∷ rs
    else r ∷ mark_received piece block rs

-- `push_front` and `pop_back`.
unfoldable pub note_response : ℕ → List ℕ → List ℕ
note_response time times =
    if ltb maximum_requests (length times + 1)
    then take (length times) (time ∷ times)
    else time ∷ times

unfoldable pub total : List ℕ → ℕ
total [] = 0
total (t ∷ ts) = t + total ts

-- `avgTime < prevAvgTime`, for two times at least. Both are quotients of a sum and a count of at most
-- twelve, taken as `double`s; as long as a time is below 2^40 they compare as the fractions do.
unfoldable pub is_faster : List ℕ → Bool
unfolding total
is_faster [] = false
is_faster (t ∷ ts) = ltb (total (t ∷ ts) * length ts) (total ts * length (t ∷ ts))

unfoldable pub paced_windows : ℕ → List ℕ → Windows → Windows
unfolding is_faster adjust_peer_window
paced_windows peer times ws =
    if leb minimum_requests (length times) then adjust_peer_window peer (is_faster times) ws else ws

-- With the peer's requests, and the one that is found.
unfoldable pub accept_block :
    ℕ
    → ℕ
    → ℕ
    → ℕ
    → List RequestTracker
    → RequestTracker
    → ChooserState × ResponseTimes
    → ChooserState × ResponseTimes
unfolding note_response paced_windows mark_received
accept_block now peer piece block requests r (s, times) =
    let taken = note_response (now - r.request_time) (value [] peer times) in
    (
      record s {
        peer_windows = paced_windows peer taken s.peer_windows;
        active_requests = insert peer (mark_received piece block requests) s.active_requests;
      },
      insert peer taken times,
    )

unfoldable pub update_block_received :
    ℕ → ℕ → ℕ → ℕ → ChooserState × ResponseTimes → ChooserState × ResponseTimes
unfolding find_request accept_block
update_block_received now peer piece block (s, times) = elim (lookup peer s.active_requests) [
  | none ↦ (s, times)
  | some requests ↦ elim (find_request piece block requests) [
    | none ↦ (s, times)
    | some r ↦ accept_block now peer piece block requests r (s, times)
  ]
]
