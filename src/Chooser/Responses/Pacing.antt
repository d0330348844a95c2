-- ===== src/Chooser/Responses/Pacing.antt =====
-- What the chooser keeps of a peer's pace stays in its bounds
-- (Peer/Torrent/PieceManagement/RarityTrackerChooser.cpp).
use gitabic.Base.{
  ℕ, zero, suc, ◌+◌, ◌-◌, ◌≤◌, ◌≡◌, refl, ap, ◌∙◌, sym, subst, true, ltb, leb, ltb→le,
  if◌then◌else◌, ◌==◌, ==_iff, Bool-cases, Option-cases, inl, inr, List, [], ◌∷◌, take, length,
  none, some, lookup, contains, insert, lookup-insert, arith,
}
use gitabic.Signal.{value}
use gitabic.Chooser.Rarity.{RequestTracker, ChooserState}
use gitabic.Chooser.Window.{Windows, Bounded, adjust_peer_window, adjust_peer_window-Bounded}
use gitabic.Chooser.Responses.{
  maximum_requests, ResponseTimes, is_for, find_request, mark_received, note_response, is_faster,
  paced_windows, accept_block, update_block_received,
}

-- No more than the last twelve response times of a peer are kept.
unfoldable pub AreShort : ResponseTimes → Type 0
AreShort [] = Unit
AreShort ((peer, ts) ∷ times) = (length ts ≤ maximum_requests) × AreShort times

-- The windows are in their bounds, a peer that has requests has a window, and no more times are kept than
-- the limit.
pub record IsPaced (s : ChooserState) (times : ResponseTimes) : Type 0 where
  pub windows : Bounded s.peer_windows
  pub windowed :
      (peer : ℕ) → contains peer s.active_requests ≡ true → contains peer s.peer_windows ≡ true
  pub short : AreShort times

-- The requests of a peer that are still out.
unfoldable pub still_out : List RequestTracker → ℕ
still_out [] = 0
still_out (r ∷ rs) = (if r.received then 0 else 1) + still_out rs

length-take_le : (n : ℕ) (xs : List ℕ) → length (take n xs) ≤ n
length-take_le zero xs = omega arith
length-take_le (suc n) [] = omega arith
length-take_le (suc n) (x ∷ xs) = omega (arith, length-take_le n xs)

length-note_response :
    (time : ℕ) (ts : List ℕ)
    → length ts ≤ maximum_requests
    → length (note_response time ts) ≤ maximum_requests
unfolding note_response
length-note_response time ts h = elim (Bool-cases (ltb maximum_requests (length ts + 1))) [
  | inl full ↦ rw full (omega (arith, h, length-take_le (length ts) (time ∷ ts)))
  | inr room ↦ rw room (omega (arith, ltb→le _ _ room))
]

value-AreShort :
    (peer : ℕ) (times : ResponseTimes)
    → AreShort times
    → length (value [] peer times) ≤ maximum_requests
unfolding AreShort
value-AreShort peer [] h = omega arith
value-AreShort peer ((j, ts) ∷ times) h = ground (arith, h.0, value-AreShort peer times h.1)

AreShort-insert :
    (peer : ℕ) (ts : List ℕ) (times : ResponseTimes)
    → length ts ≤ maximum_requests
    → AreShort times
    → AreShort (insert peer ts times)
unfolding AreShort
AreShort-insert peer ts [] h a = (h, tt)
AreShort-insert peer ts ((j, us) ∷ times) h a = elim (Bool-cases (j == peer)) [
  | inl here ↦ rw here (h, a.1)
  | inr other ↦ rw other (a.0, AreShort-insert peer ts times h a.1)
]

contains-insert {ℓ} :
    {V : Type ℓ} (j k : ℕ) (v : V) (m : List (ℕ × V))
    → contains j (insert k v m) ≡ (if k == j then true else contains j m)
contains-insert j k v [] = ground arith
contains-insert j k v ((i, w) ∷ m) = ground (arith, contains-insert j k v m)

contains-kept {ℓ} :
    {V : Type ℓ} (j k : ℕ) (v : V) (m : List (ℕ × V))
    → contains j m ≡ true
    → contains j (insert k v m) ≡ true
contains-kept j k v m h = contains-insert j k v m ∙ ground (arith, h)

contains-lookup {ℓ} :
    {V : Type ℓ} (k : ℕ) (v : V) (m : List (ℕ × V)) → lookup k m ≡ some v → contains k m ≡ true
contains-lookup k v [] h = cc
contains-lookup k v ((i, w) ∷ m) h = ground (arith, contains-lookup k v m, h)

paced_windows-Bounded :
    (peer : ℕ) (ts : List ℕ) (ws : Windows)
    → Bounded ws
    → contains peer ws ≡ true
    → Bounded (paced_windows peer ts ws)
unfolding paced_windows
paced_windows-Bounded peer ts ws b c = elim (Bool-cases (leb 5 (length ts))) [
  | inl many ↦ rw many (adjust_peer_window-Bounded peer (is_faster ts) ws b c)
  | inr few ↦ rw few b
]

contains-paced_windows :
    (j peer : ℕ) (ts : List ℕ) (ws : Windows)
    → contains j ws ≡ true
    → contains j (paced_windows peer ts ws) ≡ true
unfolding paced_windows adjust_peer_window
contains-paced_windows j peer ts ws h = elim (Bool-cases (leb 5 (length ts))) [
  | inl many ↦ rw many (contains-kept j peer _ ws h)
  | inr few ↦ rw few h
]

find_request-received :
    (piece block : ℕ) (rs : List RequestTracker) (r : RequestTracker)
    → find_request piece block rs ≡ some r
    → still_out (mark_received piece block rs) + (if r.received then 0 else 1) ≡ still_out rs
unfolding find_request mark_received still_out
find_request-received piece block [] r e = cc
find_request-received piece block (q ∷ rs) r e = elim (Bool-cases (is_for piece block q)) [
  | inl found ↦
      let same : q ≡ r = cc (rw found at e) in
      rw found (
        subst
          (λ t.
            0 + still_out rs + (if t.received then 0 else 1)
            ≡ (if q.received then 0 else 1) + still_out rs)
          same (omega arith))
  | inr other ↦ rw other (omega (arith, find_request-received piece block rs r (rw other at e)))
]

accept_block-IsPaced :
    (now peer piece block : ℕ) (requests : List RequestTracker) (r : RequestTracker)
    (s : ChooserState) (times : ResponseTimes)
    → lookup peer s.active_requests ≡ some requests
    → IsPaced s times
    → let t = accept_block now peer piece block requests r (s, times) in IsPaced t.0 t.1
unfolding accept_block
accept_block-IsPaced now peer piece block requests r s times known p =
    let taken = note_response (now - r.request_time) (value [] peer times) in
    let asked = contains-lookup peer requests s.active_requests known in
    record {
      windows = paced_windows-Bounded peer taken s.peer_windows p.windows (p.windowed peer asked);
      windowed = λ j h.
          contains-paced_windows j peer taken s.peer_windows (p.windowed j (older j asked h));
      short =
          AreShort-insert peer taken times
            (length-note_response (now - r.request_time) (value [] peer times)
              (value-AreShort peer times p.short))
            p.short;
    }
  where
    older :
        (j : ℕ)
        → contains peer s.active_requests ≡ true
        → contains j (insert peer (mark_received piece block requests) s.active_requests) ≡ true
        → contains j s.active_requests ≡ true
    older j asked h = elim (Bool-cases (peer == j)) [
      | inl same ↦ subst (λ k. contains k s.active_requests ≡ true) ((==_iff peer j).0 same) asked
      | inr other ↦ ground (
        arith,
        other,
        h,
        contains-insert j peer (mark_received piece block requests) s.active_requests,
      )
    ]

update_block_received_unknown :
    (now peer piece block : ℕ) (s : ChooserState) (times : ResponseTimes)
    → lookup peer s.active_requests ≡ none
    → update_block_received now peer piece block (s, times) ≡ (s, times)
unfolding update_block_received
update_block_received_unknown now peer piece block s times unknown =
    rw (unknown, update_block_received) refl

update_block_received_unasked :
    (now peer piece block : ℕ) (s : ChooserState) (times : ResponseTimes)
    (requests : List RequestTracker)
    → lookup peer s.active_requests ≡ some requests
    → find_request piece block requests ≡ none
    → update_block_received now peer piece block (s, times) ≡ (s, times)
unfolding update_block_received
update_block_received_unasked now peer piece block s times requests known unasked =
    rw (known, update_block_received) (rw unasked refl)

update_block_received_asked :
    (now peer piece block : ℕ) (s : ChooserState) (times : ResponseTimes)
    (requests : List RequestTracker) (r : RequestTracker)
    → lookup peer s.active_requests ≡ some requests
    → find_request piece block requests ≡ some r
    → update_block_received now peer piece block (s, times)
      ≡ accept_block now peer piece block requests r (s, times)
unfolding update_block_received
update_block_received_asked now peer piece block s times requests r known asked =
    rw (known, update_block_received) (rw asked refl)

pub update_block_received-IsPaced :
    (now peer piece block : ℕ) (s : ChooserState) (times : ResponseTimes)
    → IsPaced s times
    → let t = update_block_received now peer piece block (s, times) in IsPaced t.0 t.1
update_block_received-IsPaced now peer piece block s times p =
    elim (Option-cases (lookup peer s.active_requests)) [
      | inl unknown ↦ back (update_block_received_unknown now peer piece block s times unknown) p
      | inr (requests, known) ↦ elim (Option-cases (find_request piece block requests)) [
        | inl unasked ↦
            back (update_block_received_unasked now peer piece block s times requests known unasked)
              p
        | inr (r, asked) ↦
            back (update_block_received_asked now peer piece block s times requests r known asked)
              (accept_block-IsPaced now peer piece block requests r s times known p)
      ]
    ]
  where
    back : {t u : ChooserState × ResponseTimes} → t ≡ u → IsPaced u.0 u.1 → IsPaced t.0 t.1
    back e q = subst (λ (v : ChooserState × ResponseTimes). IsPaced v.0 v.1) (sym e) q

-- Where the windows are in their bounds, the peers with requests have windows and no more than twelve times
-- are kept of a peer, all of this stays so when a block arrives from a peer that it was asked of; the peer
-- has one request less that is out if the block was still out, and as many as before if it had come already.
pub update_block_received_lem :
    (now peer piece block : ℕ) (s : ChooserState) (times : ResponseTimes)
    (requests : List RequestTracker) (r : RequestTracker)
    → IsPaced s times
    → lookup peer s.active_requests ≡ some requests
    → find_request piece block requests ≡ some r
    → let t = update_block_received now peer piece block (s, times) in
      IsPaced t.0 t.1
      × ((left : List RequestTracker) × (lookup peer t.0.active_requests ≡ some left)
          × (still_out left + (if r.received then 0 else 1) ≡ still_out requests))
unfolding accept_block
update_block_received_lem now peer piece block s times requests r p known asked =
    let left = mark_received piece block requests in
    (
      update_block_received-IsPaced now peer piece block s times p,
      (
        left,
        ap (λ (t : ChooserState × ResponseTimes). lookup peer t.0.active_requests)
              (update_block_received_asked now peer piece block s times requests r known asked)
            ∙ lookup-insert peer peer left s.active_requests
            ∙ ground arith,
        find_request-received piece block requests r asked,
      ),
    )
