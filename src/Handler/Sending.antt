-- ===== src/Handler/Sending.antt =====
-- The queue of messages to other peers: the inner loop of sendMessages
-- (Peer/Torrent/TorrentFileHandler/TorrentFileHandler.cpp). `guard` is a `unique_lock`, whose `unlock`
-- throws when it is not locked.
use gitabic.Base.{
  ℕ, ◌≡◌, refl, sym, ap, Bool, true, false, List, [], ◌∷◌, ◌++◌, append_assoc, append-nil, none,
  some, lookup, All, Option-cases, inl, inr, ◌⊎◌, subst,
}
use gitabic.Bytes.{Outcome, ok, raise, fault, bind, runtime_error, system_error}
use gitabic.Peers.Connections.{ConnectionState, send_message, is_connected}
use gitabic.Peers.Sending.{
  is_connected_on, is_connected-lookup, send_message_absent, send_message_on, send_message_off,
}
use gitabic.Handler.{Reply}

-- A message with the peer that it is for.
abbrev Addressed : Type 0
Addressed = ℕ × Reply

-- `sent` has the messages that the connections have taken, in order.
pub record SendState : Type 0 where
  pub connections : ConnectionState
  pub sent : List Addressed

-- The try block: whether the guard is locked after it.
unfoldable after_attempt :
    Outcome (Unit {0}) × ConnectionState → Addressed → SendState → Outcome (Bool × SendState)
after_attempt (ok t, c) message s =
    ok (true, record { connections = c; sent = s.sent ++ (message ∷ []) })
after_attempt (raise e, c) message s = ok (false, record s { connections = c })
after_attempt (fault, c) message s = fault

unfoldable attempt : Addressed → SendState → Outcome (Bool × SendState)
unfolding after_attempt send_message
attempt message s = after_attempt (send_message message.0 s.connections) message s

-- The loop, with whether the guard is locked.
unfoldable pub send_queue : Bool → List Addressed → SendState → Outcome (Bool × SendState)
unfolding attempt
send_queue locked [] s = ok (locked, s)
send_queue true (message ∷ queue) s = bind (attempt message s) (λ r. send_queue r.0 queue r.1)
send_queue false (message ∷ queue) s = raise system_error

-- The messages of a queue are for connected peers.
unfoldable pub Connected : ConnectionState → List Addressed → Type 0
Connected c queue = All (λ m. is_connected m.0 c ≡ true) queue

attempt_on :
    (message : Addressed) (s : SendState)
    → is_connected message.0 s.connections ≡ true
    → attempt message s ≡ ok (true, record s { sent = s.sent ++ (message ∷ []) })
unfolding attempt after_attempt
attempt_on message s h =
    ap (λ r. after_attempt r message s)
      (send_message_on message.0 s.connections (is_connected-lookup message.0 s.connections h))

attempt_off :
    (message : Addressed) (s : SendState)
    → lookup message.0 s.connections.peer_connections ≡ some false
    → (t : ConnectionState) × (attempt message s ≡ ok (false, record s { connections = t }))
unfolding attempt after_attempt
attempt_off message s h =
    after (send_message message.0 s.connections) (send_message_off message.0 s.connections h)
  where
    after :
        (r : Outcome (Unit {0}) × ConnectionState)
        → r.0 ≡ raise runtime_error
        → (t : ConnectionState) × (after_attempt r message s
            ≡ ok (false, record s { connections = t }))
    after (ok t, c) e = cc
    after (raise e', c) e = (c, refl)
    after (fault, c) e = cc

attempt_absent :
    (message : Addressed) (s : SendState)
    → lookup message.0 s.connections.peer_connections ≡ none
    → attempt message s ≡ fault
unfolding attempt after_attempt
attempt_absent message s h =
    ap (λ r. after_attempt r message s) (send_message_absent message.0 s.connections h)

-- How the loop ends on a queue whose first message, if there is one, is not for a connected peer.
unfoldable pub Ends : List Addressed → SendState → Outcome (Bool × SendState) → Type 0
Ends [] s r = r ≡ ok (true, s)
Ends (message ∷ []) s r =
    ((lookup message.0 s.connections.peer_connections ≡ some false)
      × ((t : ConnectionState) × (r ≡ ok (false, record s { connections = t }))))
    ⊎ ((lookup message.0 s.connections.peer_connections ≡ none) × (r ≡ fault))
Ends (message ∷ next ∷ rest) s r =
    ((lookup message.0 s.connections.peer_connections ≡ some false) × (r ≡ raise system_error))
    ⊎ ((lookup message.0 s.connections.peer_connections ≡ none) × (r ≡ fault))

-- The messages up to the first that is not for a connected peer are handed over in order.
pub record QueueEnds (queue : List Addressed) (s : SendState) : Type 0 where
  pub front : List Addressed
  pub behind : List Addressed
  pub split : queue ≡ front ++ behind
  pub reached : Connected s.connections front
  pub ends : Ends behind (record s { sent = s.sent ++ front }) (send_queue true queue s)

off-Ends :
    (message : Addressed) (queue : List Addressed) (s : SendState)
    → lookup message.0 s.connections.peer_connections ≡ some false
    → Ends (message ∷ queue) s (send_queue true (message ∷ queue) s)
unfolding Ends send_queue
off-Ends message [] s h =
    let (t, e) = attempt_off message s h in
    inl (h, (t, ap (λ o. bind o (λ r. send_queue r.0 [] r.1)) e))
off-Ends message (next ∷ rest) s h =
    let (t, e) = attempt_off message s h in
    inl (h, ap (λ o. bind o (λ r. send_queue r.0 (next ∷ rest) r.1)) e)

absent-Ends :
    (message : Addressed) (queue : List Addressed) (s : SendState)
    → lookup message.0 s.connections.peer_connections ≡ none
    → Ends (message ∷ queue) s (send_queue true (message ∷ queue) s)
unfolding Ends send_queue
absent-Ends message [] s h =
    inr (h, ap (λ o. bind o (λ r. send_queue r.0 [] r.1)) (attempt_absent message s h))
absent-Ends message (next ∷ rest) s h =
    inr (h, ap (λ o. bind o (λ r. send_queue r.0 (next ∷ rest) r.1)) (attempt_absent message s h))

here-QueueEnds :
    (queue : List Addressed) (s : SendState)
    → Ends queue s (send_queue true queue s)
    → QueueEnds queue s
unfolding Connected
here-QueueEnds queue s h = record {
  front = [];
  behind = queue;
  split = refl;
  reached = tt;
  ends =
      subst (λ l. Ends queue (record s { sent = l }) (send_queue true queue s))
        (sym (append-nil s.sent)) h;
}

next-QueueEnds :
    (message : Addressed) (queue : List Addressed) (s : SendState)
    → lookup message.0 s.connections.peer_connections ≡ some true
    → QueueEnds queue (record s { sent = s.sent ++ (message ∷ []) })
    → QueueEnds (message ∷ queue) s
unfolding Connected send_queue
next-QueueEnds message queue s h q =
    let on = is_connected_on message.0 s.connections h in
    let first = ap (λ o. bind o (λ r. send_queue r.0 queue r.1)) (attempt_on message s on) in
    record {
      front = message ∷ q.front;
      behind = q.behind;
      split = ap (◌∷◌ message) q.split;
      reached = (on, q.reached);
      ends = subst (Ends q.behind (record s { sent = s.sent ++ (message ∷ q.front) })) (sym first) (
          subst
            (λ l.
              Ends q.behind (record s { sent = l })
                (send_queue true queue (record s { sent = s.sent ++ (message ∷ []) })))
            (append_assoc s.sent (message ∷ []) q.front) q.ends);
    }

-- For every queue, with the guard locked: the messages in front of the first one that is not for a connected
-- peer are handed over in order. If there is no such message, the loop ends with the guard locked. If it
-- is for a peer that has disconnected and the last one, the loop ends with the guard unlocked; if another
-- is behind it, the loop ends by an exception of the lock, which the code does not catch. If it is for a
-- peer without an entry, the code reads outside of the map.
pub send_queue_lem : (queue : List Addressed) (s : SendState) → QueueEnds queue s
unfolding Ends send_queue
send_queue_lem [] s = here-QueueEnds [] s refl
send_queue_lem (message ∷ queue) s =
    elim (Option-cases (lookup message.0 s.connections.peer_connections)) [
      | inl absent ↦ here-QueueEnds (message ∷ queue) s (absent-Ends message queue s absent)
      | inr (true, found) ↦ next-QueueEnds message queue s found (send_queue_lem queue _)
      | inr (false, found) ↦ here-QueueEnds (message ∷ queue) s (off-Ends message queue s found)
    ]
