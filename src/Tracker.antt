-- ===== src/Tracker.antt =====
-- The tracker of the server: who has announced which file, until when
-- (Server/NetworkUnit/ServerCom/TrackerDataStorage/TrackerDataStorage.cpp) and the handlers on it
-- (Server/Communication/TrackerMessageHandling.cpp). The clock, in seconds, is an argument.
pub mod Listing
pub mod Sweep
use gitabic.Base.{
  ℕ, ◌+◌, ◌-◌, ◌*◌, ◌<◌, ◌≤◌, max, Bool, true, false, not, ◌&&◌, ltb, ◌==◌, if◌then◌else◌, List, [],
  ◌∷◌, filterb, insert,
}
use gitabic.Message.Server.{ServerMessage, users, status, store_success}

abbrev pub ten_minutes : ℕ
ten_minutes = 10 * 60

-- `pair<ID, ID>`: a file, and the peer that has it.
pub record Announcement : Type 0 where
  pub file : ℕ
  pub peer : ℕ

-- `unordered_map<time_t, pair<ID, ID>> savedData`, by the time of expiry.
abbrev pub Store : Type 0
Store = List (ℕ × Announcement)

-- saveData
unfoldable pub save_data : ℕ → ℕ → ℕ → Store → Store
save_data now key value s = insert (now + ten_minutes) (record { file = key; peer = value }) s

-- getRegisteredData
unfoldable pub get_registered_data : ℕ → ℕ → Store → List ℕ
get_registered_data file_id your_id [] = []
get_registered_data file_id your_id ((t, a) ∷ s) =
    let rest = get_registered_data file_id your_id s in
    if (a.file == file_id) && not (a.peer == your_id) then a.peer ∷ rest else rest

-- removePeerData
unfoldable pub remove_peer_data : ℕ → Store → Store
remove_peer_data peer_id = filterb (λ e. not (e.1.peer == peer_id))

-- The first half of a turn of removeOldData: `erase_if(savedData, pair.first < current)`.
unfoldable pub remove_expired : ℕ → Store → Store
remove_expired current = filterb (λ e. not (ltb e.0 current))

-- The second half: the loop for `closest`, and the time to sleep, in seconds.
unfoldable pub closest_expiry : ℕ → Store → ℕ
closest_expiry closest [] = closest
closest_expiry closest ((t, a) ∷ s) = closest_expiry (if ltb t closest then t else closest) s

unfoldable pub sleep_time : ℕ → Store → ℕ
sleep_time current [] = ten_minutes - 1
sleep_time current (e ∷ s) = max 1 (closest_expiry (current + ten_minutes) (e ∷ s) - current)

-- `struct ResultMessage` of the two handlers: whom to answer, and what.
unfoldable pub handle_user_list : ℕ → ℕ → Store → ℕ × ServerMessage
handle_user_list sender file_id s = (sender, users file_id (get_registered_data file_id sender s))

unfoldable pub handle_store : ℕ → ℕ → ℕ → ℕ → Store → (ℕ × ServerMessage) × Store
handle_store now sender file_id my_id s =
    ((sender, status store_success), save_data now file_id my_id s)
