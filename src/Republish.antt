-- ===== src/Republish.antt =====
-- DataRepublish: the files that a peer has announced, announced again before the server forgets them
-- (Peer/NetworkUnit/ServerComm/DataRepublish/DataRepublish.cpp). A pass is taken as one step; the clock,
-- in seconds, and whether the server answers StoreSuccess are arguments.
pub mod Passes
use gitabic.Base.{
  ℕ, ◌+◌, ◌-◌, ◌*◌, Bool, true, false, ltb, if◌then◌else◌, List, [], ◌∷◌, insert, erase,
}

abbrev pub ten_minutes : ℕ
ten_minutes = 10 * 60

abbrev time_retry : ℕ
time_retry = 10

-- `unordered_map<ID, pair<ID, time_t>>`: for a file, the ID that it is announced under and when it is
-- due again.
pub record Saved : Type 0 where
  pub my_id : ℕ
  pub due_at : ℕ

abbrev pub SavedData : Type 0
SavedData = List (ℕ × Saved)

-- With the request that publish sends.
unfoldable pub save_data : ℕ → ℕ → ℕ → SavedData → (ℕ × ℕ) × SavedData
save_data now file my_id s =
    ((file, my_id), insert file (record { my_id = my_id; due_at = now + ten_minutes }) s)

unfoldable stop_republish : ℕ → SavedData → SavedData
stop_republish file s = erase file s

-- The body of the first loop.
unfoldable pub republish_entry : ℕ → Bool → Saved → Saved
republish_entry now stored e =
    if ltb e.due_at now
    then record e { due_at = now + (if stored then ten_minutes else time_retry) }
    else e

-- The first loop: the entries as it leaves them.
unfoldable pub republish_pass : ℕ → (ℕ → Bool) → SavedData → SavedData
unfolding republish_entry
republish_pass now stored [] = []
republish_pass now stored ((file, e) ∷ s) =
    (file, republish_entry now (stored file) e) ∷ republish_pass now stored s

-- The requests that the first loop sends.
unfoldable republish_requests : ℕ → SavedData → List (ℕ × ℕ)
republish_requests now [] = []
republish_requests now ((file, e) ∷ s) =
    let rest = republish_requests now s in if ltb e.due_at now then (file, e.my_id) ∷ rest else rest

-- The second loop.
unfoldable pub closest_due : ℕ → SavedData → ℕ
closest_due closest [] = closest
closest_due closest ((file, e) ∷ s) =
    closest_due (if ltb e.due_at closest then e.due_at else closest) s

-- How long the thread sleeps.
unfoldable pub sleep_time : ℕ → SavedData → ℕ
unfolding closest_due
sleep_time now [] = ten_minutes - 1
sleep_time now (e ∷ s) = closest_due (now + ten_minutes) (e ∷ s) - now
