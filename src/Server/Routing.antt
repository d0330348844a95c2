-- ===== src/Server/Routing.antt =====
-- Where the answers of the server go, over the messages that its threads hand to the handlers.
use gitabic.Base.{
  ℕ, suc, ◌∙◌, ◌+◌, ◌%◌, ◌^◌, ◌<◌, ◌≤◌, ◌≡◌, ◌≢◌, refl, false, List, [], ◌∷◌, Option, some, none,
  lookup, lookup-insert, arith, length, All, Bool-cases, inl, inr, ◌⊎◌, ==_refl,
}
use gitabic.Message.Client.{
  ClientMessage, ask_ice, announce, ask_users, debug, authorize, refuse_connected, refuse_full,
}
use gitabic.Message.Server.{ask_authorization, ice_data}
use gitabic.Tracker.{Store}
use gitabic.Signal.{
  Pair, IceState, find_recent, handle_ask_ice, handle_authorize, handle_already_connected,
  handle_full_capacity, take_request, no_pair,
}
use gitabic.Signal.Pending.{lookup-handle_ask_ice, lookup-take_request, value-lookup}
use gitabic.Server.{Handlers, Clock, Reply, respond}

-- A message that a thread took from its socket, the clock and the bytes under `res` at that time.
pub record Heard : Type 0 where
  pub now : Clock
  pub uninitialised : ℕ
  pub sender : ℕ
  pub message : Option ClientMessage

abbrev hear_one : Heard → Handlers → Handlers
hear_one e h = (respond e.now e.uninitialised e.sender e.message h).1

-- One after the other, the first first.
unfoldable pub hear_all : List Heard → Handlers → Handlers
hear_all [] h = h
hear_all (e ∷ es) h = hear_all es (hear_one e h)

-- The message does not answer the request with the number `id`.
unfoldable pub IsOther : ℕ → Option ClientMessage → Type 0
IsOther id (some (authorize info j)) = j ≢ id
IsOther id (some (refuse_connected j)) = j ≢ id
IsOther id (some (refuse_full j)) = j ≢ id
IsOther id m = Unit

-- The request waits, and the counter is not round at its number before `n` more requests.
record Waits (id n : ℕ) (p : Pair) (h : Handlers) : Type 0 where
  id_fits : id < 2 ^ 16
  stored : lookup id h.ice.waits_for_response ≡ some p
  ahead : ℕ
  counter : h.ice.wait_ids ≡ (id + ahead) % 2 ^ 16
  some_ahead : 1 ≤ ahead
  room : ahead + n < 2 ^ 16

counter-handle_ask_ice :
    (now sender user : ℕ) (info : List ℕ) (s : IceState)
    → ((handle_ask_ice now sender user info s).1.wait_ids ≡ s.wait_ids)
      ⊎ ((handle_ask_ice now sender user info s).1.wait_ids ≡ (s.wait_ids + 1) % 2 ^ 16)
unfolding handle_ask_ice
counter-handle_ask_ice now sender user info s =
    elim (Bool-cases (find_recent now sender user s.waits_for_response s.requests_time).0) [
      | inl h ↦ rw h (inl refl)
      | inr h ↦ rw h (inr refl)
    ]

-- With one number less to go.
Waits-weaken : (id n : ℕ) (p : Pair) (h : Handlers) → Waits id (suc n) p h → Waits id n p h
Waits-weaken id n p h w = record {
  id_fits = w.id_fits;
  stored = w.stored;
  ahead = w.ahead;
  counter = w.counter;
  some_ahead = w.some_ahead;
  room = omega (arith, w.room);
}

Waits-ask_ice :
    (id n : ℕ) (p : Pair) (h : Handlers) (now : Clock) (u sender user : ℕ) (info : List ℕ)
    → Waits id (suc n) p h
    → Waits id n p (respond now u sender (some (ask_ice user info)) h).1
unfolding respond
Waits-ask_ice id n p h now u sender user info w =
    let apart : h.ice.wait_ids ≢ id =
      λ e. omega (arith, e, w.counter, w.id_fits, w.some_ahead, w.room) in
    let still = lookup-handle_ask_ice now.nanoseconds sender user id p info h.ice w.stored apart in
    elim (counter-handle_ask_ice now.nanoseconds sender user info h.ice) [
      | inl same ↦ record {
        id_fits = w.id_fits;
        stored = still;
        ahead = w.ahead;
        counter = same ∙ w.counter;
        some_ahead = w.some_ahead;
        room = omega (arith, w.room);
      }
      | inr next ↦ record {
        id_fits = w.id_fits;
        stored = still;
        ahead = w.ahead + 1;
        counter = omega (arith, next, w.counter);
        some_ahead = omega arith;
        room = omega (arith, w.room);
      }
    ]

Waits-answer :
    (id n : ℕ) (p : Pair) (h : Handlers) (j : ℕ) (store : Store)
    → j ≢ id
    → Waits id (suc n) p h
    → Waits id n p (record { store = store; ice = (take_request j h.ice).1 })
Waits-answer id n p h j store other w = record {
  id_fits = w.id_fits;
  stored = lookup-take_request id j p h.ice w.stored other;
  ahead = w.ahead;
  counter = unfold take_request in w.counter;
  some_ahead = w.some_ahead;
  room = omega (arith, w.room);
}

Waits-same :
    (id n : ℕ) (p : Pair) (h : Handlers) (store : Store)
    → Waits id n p h
    → Waits id n p (record { store = store; ice = h.ice })
Waits-same id n p h store w = record {
  id_fits = w.id_fits;
  stored = w.stored;
  ahead = w.ahead;
  counter = w.counter;
  some_ahead = w.some_ahead;
  room = w.room;
}

Waits-respond :
    (id n : ℕ) (p : Pair) (now : Clock) (u sender : ℕ) (m : Option ClientMessage) (h : Handlers)
    → IsOther id m
    → Waits id (suc n) p h
    → Waits id n p (respond now u sender m h).1
unfolding respond IsOther handle_authorize handle_already_connected handle_full_capacity
Waits-respond id n p now u sender (some (ask_ice user info)) h o w =
    Waits-ask_ice id n p h now u sender user info w
Waits-respond id n p now u sender (some (announce my_id file_id)) h o w =
    Waits-same id n p h _ (Waits-weaken id n p h w)
Waits-respond id n p now u sender (some (ask_users file_id)) h o w =
    Waits-same id n p h _ (Waits-weaken id n p h w)
Waits-respond id n p now u sender (some (authorize info j)) h o w =
    Waits-answer id n p h j h.store o w
Waits-respond id n p now u sender (some (refuse_connected j)) h o w =
    Waits-answer id n p h j h.store o w
Waits-respond id n p now u sender (some (refuse_full j)) h o w = Waits-answer id n p h j h.store o w
Waits-respond id n p now u sender (some (debug message)) h o w = Waits-weaken id n p h w
Waits-respond id n p now u sender none h o w = Waits-weaken id n p h w

Waits-hear_all :
    (id : ℕ) (p : Pair) (es : List Heard) (h : Handlers)
    → All (λ (e : Heard). IsOther id e.message) es
    → Waits id (length es) p h
    → Waits id 0 p (hear_all es h)
unfolding hear_all
Waits-hear_all id p [] h o w = w
Waits-hear_all id p (e ∷ es) h o w =
    Waits-hear_all id p es (hear_one e h) o.1
      (Waits-respond id (length es) p e.now e.uninitialised e.sender e.message h o.0 w)

-- A request that is not refused waits under the counter's number, and is passed to the other peer.
respond-ask_ice :
    (now : Clock) (u sender user : ℕ) (info : List ℕ) (h : Handlers) (n : ℕ)
    → h.ice.wait_ids < 2 ^ 16
    → (find_recent now.nanoseconds sender user h.ice.waits_for_response h.ice.requests_time).0
      ≡ false
    → n < 65535
    → let r : Reply × Handlers = respond now u sender (some (ask_ice user info)) h in
      (r.0 ≡ (user, some (ask_authorization info h.ice.wait_ids sender)))
      × Waits h.ice.wait_ids n (record { first = sender; second = user }) r.1
unfolding respond handle_ask_ice
respond-ask_ice now u sender user info h n fits free few = rw free (
  refl,
  record {
    id_fits = fits;
    stored =
        rw
          (
            lookup-insert h.ice.wait_ids h.ice.wait_ids _ h.ice.waits_for_response,
            ==_refl h.ice.wait_ids,
          )
          refl;
    ahead = 1;
    counter = refl;
    some_ahead = omega arith;
    room = omega (arith, few);
  },
)

respond-authorize :
    (now : Clock) (u sender id : ℕ) (p : Pair) (info : List ℕ) (h : Handlers)
    → Waits id 0 p h
    → (respond now u sender (some (authorize info id)) h).0 ≡ (p.first, some (ice_data info))
unfolding respond handle_authorize take_request
respond-authorize now u sender id p info h w =
    rw (value-lookup no_pair id p h.ice.waits_for_response w.stored) refl

-- A request for a connection that is not refused goes to the other peer under the counter's number,
-- and the answer to that number goes back to the one who asked, whatever else is heard in between:
-- any messages but an answer to the same number, and fewer than 65535 of them.
pub respond-answer :
    (asked answered : Clock) (u v sender user answerer : ℕ) (info answer : List ℕ) (es : List Heard)
    (h : Handlers)
    → h.ice.wait_ids < 2 ^ 16
    → (find_recent asked.nanoseconds sender user h.ice.waits_for_response h.ice.requests_time).0
      ≡ false
    → All (λ (e : Heard). IsOther h.ice.wait_ids e.message) es
    → length es < 65535
    → let id : ℕ = h.ice.wait_ids in
      let r : Reply × Handlers = respond asked u sender (some (ask_ice user info)) h in
      let s : Reply × Handlers =
        respond answered v answerer (some (authorize answer id)) (hear_all es r.1) in
      (r.0 ≡ (user, some (ask_authorization info id sender)))
      × (s.0 ≡ (sender, some (ice_data answer)))
respond-answer asked answered u v sender user answerer info answer es h fits free others few =
    let id : ℕ = h.ice.wait_ids in
    let p : Pair = record { first = sender; second = user } in
    let (passed, waits) = respond-ask_ice asked u sender user info h (length es) fits free few in
    (
      passed,
      respond-authorize answered v answerer id p answer _ (Waits-hear_all id p es _ others waits),
    )
