-- ===== src/Tracker/Listing.antt =====
-- Which peers the tracker lists for a file, from the history of what happened to it.
use gitabic.Base.{
  Bool-cases, filterb, inl, inr, ◌≤◌, insert, ℕ, ◌+◌, ◌<◌, ◌≡◌, refl, max, Bool, false, not, ◌&&◌,
  ◌||◌, ltb, ◌==◌, if◌then◌else◌, List, [], ◌∷◌, All, arith,
}
use gitabic.Tracker.{
  Announcement, Store, ten_minutes, save_data, get_registered_data, remove_peer_data,
  remove_expired,
}

-- What changes the store: an announcement, a peer that disconnects, a turn of removeOldData.
pub data Event : Type 0 where
  saved : (now : ℕ) → (file : ℕ) → (peer : ℕ) → Event
  left : (peer : ℕ) → Event
  swept : (now : ℕ) → Event

abbrev pub step : Event → Store → Store
step (saved now file peer) s = save_data now file peer s
step (left peer) s = remove_peer_data peer s
step (swept now) s = remove_expired now s

-- The last event stands first.
unfoldable pub run : List Event → Store
run [] = []
run (e ∷ es) = step e (run es)

-- Announcements in one second share a key: here each is later than those before it.
unfoldable pub SavedBefore : ℕ → List Event → Type 0
SavedBefore now [] = Unit
SavedBefore now (saved t file peer ∷ es) = (t < now) × SavedBefore t es
SavedBefore now (left peer ∷ es) = SavedBefore now es
SavedBefore now (swept t ∷ es) = SavedBefore now es

-- The promise: a peer has a file if it announced it, has not disconnected since, and no later sweep
-- came after the announcement expired.
unfoldable pub has : (since file peer : ℕ) → List Event → Bool
has since file peer [] = false
has since file peer (saved t f p ∷ es) =
    (not (ltb (t + ten_minutes) since) && (f == file) && (p == peer)) || has since file peer es
has since file peer (left p ∷ es) = if p == peer then false else has since file peer es
has since file peer (swept now ∷ es) = has (max since now) file peer es

unfoldable pub elem : ℕ → List ℕ → Bool
elem x [] = false
elem x (y ∷ ys) = (y == x) || elem x ys

-- The same question put to the store.
unfoldable held : (since file peer : ℕ) → Store → Bool
held since file peer [] = false
held since file peer ((t, a) ∷ s) =
    (not (ltb t since) && (a.file == file) && (a.peer == peer)) || held since file peer s

Below : ℕ → Store → Type 0
Below now s = All (λ (e : ℕ × Announcement). e.0 < now) s

held-remove_peer_data :
    (since file peer p : ℕ) (s : Store)
    → held since file peer (remove_peer_data p s)
      ≡ (if p == peer then false else held since file peer s)
unfolding held remove_peer_data
held-remove_peer_data since file peer p [] = ground arith
held-remove_peer_data since file peer p ((t, a) ∷ s) =
    ground (arith, held-remove_peer_data since file peer p s)

held-remove_expired :
    (since file peer now : ℕ) (s : Store)
    → held since file peer (remove_expired now s) ≡ held (max since now) file peer s
unfolding held remove_expired
held-remove_expired since file peer now [] = refl
held-remove_expired since file peer now ((t, a) ∷ s) =
    ground (arith, held-remove_expired since file peer now s)

held-insert :
    (since file peer k f p : ℕ) (s : Store)
    → Below k s
    → held since file peer (insert k (record { file = f; peer = p }) s)
      ≡ (not (ltb k since) && (f == file) && (p == peer)) || held since file peer s
unfolding held Below
held-insert since file peer k f p [] b = ground arith
held-insert since file peer k f p ((t, a) ∷ s) b =
    ground (arith, held-insert since file peer k f p s b.1, b.0)

elem-get_registered_data :
    (file you peer : ℕ) (s : Store)
    → elem peer (get_registered_data file you s) ≡ not (peer == you) && held 0 file peer s
unfolding elem get_registered_data held
elem-get_registered_data file you peer [] = ground arith
elem-get_registered_data file you peer ((t, a) ∷ s) =
    ground (arith, elem-get_registered_data file you peer s)

-- Keys stay below the time at which the next announcement expires.
Below-insert :
    (now k : ℕ) (a : Announcement) (s : Store) → k < now → Below now s → Below now (insert k a s)
unfolding Below
Below-insert now k a [] h b = (h, tt)
Below-insert now k a ((t, v) ∷ s) h b = elim (Bool-cases (t == k)) [
  | inl e ↦ rw e (h, b.1)
  | inr e ↦ rw e (b.0, Below-insert now k a s h b.1)
]

Below-filterb :
    (now : ℕ) (p : ℕ × Announcement → Bool) (s : Store) → Below now s → Below now (filterb p s)
unfolding Below
Below-filterb now p [] b = tt
Below-filterb now p (e ∷ s) b = elim (Bool-cases (p e)) [
  | inl h ↦ rw (h, filterb) (b.0, Below-filterb now p s b.1)
  | inr h ↦ rw (h, filterb) (Below-filterb now p s b.1)
]

Below-weaken : (m n : ℕ) (s : Store) → m ≤ n → Below m s → Below n s
unfolding Below
Below-weaken m n [] h b = tt
Below-weaken m n (e ∷ s) h b = (omega (arith, h, b.0), Below-weaken m n s h b.1)

run-Below : (now : ℕ) (es : List Event) → SavedBefore now es → Below (now + ten_minutes) (run es)
unfolding run SavedBefore save_data remove_peer_data remove_expired
run-Below now [] h = unfold Below in tt
run-Below now (saved t file peer ∷ es) h =
    let earlier = run-Below t es h.1 in
    Below-insert _ _ _ (run es) (omega (arith, h.0))
      (Below-weaken _ _ (run es) (omega (arith, h.0)) earlier)
run-Below now (left peer ∷ es) h = Below-filterb _ _ (run es) (run-Below now es h)
run-Below now (swept t ∷ es) h = Below-filterb _ _ (run es) (run-Below now es h)

held-save_data :
    (since file peer now f p : ℕ) (s : Store)
    → Below (now + ten_minutes) s
    → held since file peer (save_data now f p s)
      ≡ (not (ltb (now + ten_minutes) since) && (f == file) && (p == peer))
        || held since file peer s
unfolding save_data
held-save_data since file peer now f p s b = held-insert since file peer (now + ten_minutes) f p s b

held-run :
    (now since file peer : ℕ) (es : List Event)
    → SavedBefore now es
    → held since file peer (run es) ≡ has since file peer es
unfolding run has SavedBefore
held-run now since file peer [] h = unfold held in refl
held-run now since file peer (saved t f p ∷ es) h = rw (
  held-save_data since file peer t f p (run es) (run-Below t es h.1),
  held-run t since file peer es h.1,
)
held-run now since file peer (left p ∷ es) h =
    rw (held-remove_peer_data since file peer p (run es), held-run now since file peer es h)
held-run now since file peer (swept t ∷ es) h =
    rw (held-remove_expired since file peer t (run es), held-run now (max since t) file peer es h)

-- The tracker lists a peer for a file to another peer just when the history says that the peer has
-- it, and never lists the one who asks, if no two announcements came in one second.
pub get_registered_data-has :
    (now file you peer : ℕ) (es : List Event)
    → SavedBefore now es
    → elem peer (get_registered_data file you (run es)) ≡ not (peer == you) && has 0 file peer es
get_registered_data-has now file you peer es h =
    rw (elem-get_registered_data file you peer (run es), held-run now 0 file peer es h)

-- The second of two announcements in one second is kept in place of the first.
save_data_same_second :
    (now file peer other_file other_peer : ℕ) (s : Store)
    → save_data now file peer (save_data now other_file other_peer s) ≡ save_data now file peer s
unfolding save_data
save_data_same_second now file peer other_file other_peer s = insert_twice (now + ten_minutes) _ _ s
  where
    insert_twice :
        (k : ℕ) (a b : Announcement) (m : Store) → insert k a (insert k b m) ≡ insert k a m
    insert_twice k a b [] = ground arith
    insert_twice k a b ((j, c) ∷ m) = ground (arith, insert_twice k a b m)
