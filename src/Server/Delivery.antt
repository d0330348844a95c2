-- ===== src/Server/Delivery.antt =====
-- The order in which a client's messages are delivered, over the interleaved turns of all clients'
-- threads (Server/Communication/MultiThreadedServer.cpp).
use gitabic.Base.{
  ℕ, ◌<◌, ◌≡◌, inl, inr, sym, ap, ◌∙◌, Bool, true, false, ◌==◌, ==_iff, ==_refl, if◌then◌else◌,
  Bool-cases, List, [], ◌∷◌, ◌++◌, map, append_assoc, append-nil, Option, none, some, length,
  get_elem?, insert, lookup-insert, arith,
}
use gitabic.Bytes.{Outcome, ok, fault, bind}
use gitabic.Bytes.Ensures.{bind-eq_ok}
use gitabic.Message.Frame.{Received}
use gitabic.Message.Server.{ServerMessage}
use gitabic.Signal.{value}
use gitabic.Server.{
  Clock, Reply, Handlers, Queues, ServerState, handle, push_reply, send_front, serve_turn,
}

-- The queue of a client.
abbrev queue_of : ℕ → Queues → List (Option ServerMessage)
queue_of id q = value [] id q

queue_of-insert :
    (k id : ℕ) (v : List (Option ServerMessage)) (q : Queues)
    → queue_of id (insert k v q) ≡ (if k == id then v else queue_of id q)
queue_of-insert k id v q = elim (Bool-cases (k == id)) [
  | inl same ↦ rw (lookup-insert k id v q, value) (rw same)
  | inr other ↦ rw (lookup-insert k id v q, value) (rw other)
]

-- Pushing a reply only adds behind what waits in a queue.
push_reply_adds :
    (r : Reply) (q : Queues) (id : ℕ)
    → (extra : List (Option ServerMessage)) × (queue_of id (push_reply r q)
        ≡ queue_of id q ++ extra)
unfolding push_reply
push_reply_adds r q id = elim (Bool-cases (r.0 == 0)) [
  | inl nobody ↦ ([], rw nobody (sym (append-nil _)))
  | inr somebody ↦ elim (Bool-cases (r.0 == id)) [
    | inl same ↦
        let e : r.0 ≡ id = (==_iff _ _).0 same in
        (
          r.1 ∷ [],
          rw somebody (
              queue_of-insert r.0 id (queue_of r.0 q ++ (r.1 ∷ [])) q
              ∙ rw same (ap (λ k. queue_of k q ++ (r.1 ∷ [])) e)),
        )
    | inr other ↦ (
      [],
      rw somebody
          (queue_of-insert r.0 id (queue_of r.0 q ++ (r.1 ∷ [])) q ∙ rw other (sym (append-nil _))),
    )
  ]
]

-- What a thread sends from a queue that is not empty, and what is left there.
send_front_own :
    (id : ℕ) (q : Queues) (x : ServerMessage) (rest : List (Option ServerMessage))
    (sent : Option ServerMessage) (q' : Queues)
    → queue_of id q ≡ some x ∷ rest
    → send_front id q ≡ ok (sent, q')
    → (sent ≡ some x) × (queue_of id q' ≡ rest)
unfolding send_front
send_front_own id q x rest sent q' e h =
    let h1 : send_front id q ≡ ok (some x, insert id rest q) = rw (e, send_front) in
    let h2 : ◌≡◌ {A = Outcome (Option ServerMessage × Queues)} (ok (some x, insert id rest q))
        (ok (sent, q')) =
      sym h1 ∙ h in
    let same : insert id rest q ≡ q' = cc in
    let it : sent ≡ some x = cc in
    (it, ap (queue_of id) (sym same) ∙ queue_of-insert id id rest q ∙ rw (==_refl id))

-- Sending only writes the thread's own queue.
send_front_writes :
    (k : ℕ) (q : Queues) (sent : Option ServerMessage) (q' : Queues)
    → send_front k q ≡ ok (sent, q')
    → (v : List (Option ServerMessage)) × (q' ≡ insert k v q)
unfolding send_front
send_front_writes k q sent q' h = front (queue_of k q) h
  where
    front :
        (l : List (Option ServerMessage))
        → (elim l as (λ l'. Outcome (Option ServerMessage × Queues)) [
          | [] ↦ ok (none, insert k [] q)
          | m ∷ rest ↦ elim m [ none ↦ fault | some x ↦ ok (some x, insert k rest q) ]
        ])
          ≡ ok (sent, q')
        → (v : List (Option ServerMessage)) × (q' ≡ insert k v q)
    front [] e = ([], cc)
    front (none ∷ rest) e = cc
    front (some x ∷ rest) e = (rest, cc)

send_front_other :
    (k id : ℕ) (q : Queues) (sent : Option ServerMessage) (q' : Queues)
    → (k == id) ≡ false
    → send_front k q ≡ ok (sent, q')
    → queue_of id q' ≡ queue_of id q
send_front_other k id q sent q' other h =
    let (v, e) = send_front_writes k q sent q' h in
    ap (queue_of id) e ∙ queue_of-insert k id v q ∙ rw other

-- The second half of a turn, after `x` was sent and `q` left.
second_half :
    (now : Clock) (u k : ℕ) (msg : Received) (h : Handlers) (x sent : Option ServerMessage)
    (q : Queues) (s' : ServerState) (id : ℕ) (quiet : Bool)
    → if◌then◌else◌ {A = Outcome (Option ServerMessage × ServerState)} quiet
        (ok (x, record { queues = q; handlers = h }))
        (bind
          (handle now u k msg h)
          λ r. ok (x, record { queues = push_reply r.0 q; handlers = r.1 }))
      ≡ ok (sent, s')
    → (extra : List (Option ServerMessage)) × (x ≡ sent)
      × (queue_of id s'.queues ≡ queue_of id q ++ extra)
second_half now u k msg h x sent q s' id true e =
    let state : record { queues = q; handlers = h } ≡ s' = cc in
    ([], cc, ap (λ t. queue_of id t.queues) (sym state) ∙ sym (append-nil _))
second_half now u k msg h x sent q s' id false e =
    let (r, e1, e2) = bind-eq_ok (handle now u k msg h) _ (sent, s') e in
    let state : record { queues = push_reply r.0 q; handlers = r.1 } ≡ s' = cc in
    let (extra, added) = push_reply_adds r.0 q id in
    (extra, cc, ap (λ t. queue_of id t.queues) (sym state) ∙ added)

-- A turn sends what its first half takes, and then at most adds behind what waits.
serve_turn_adds :
    (now : Clock) (u k : ℕ) (msg : Received) (s s' : ServerState) (sent : Option ServerMessage)
    (id : ℕ)
    → serve_turn now u k msg s ≡ ok (sent, s')
    → (q : Queues) × (extra : List (Option ServerMessage)) × (send_front k s.queues ≡ ok (sent, q))
      × (queue_of id s'.queues ≡ queue_of id q ++ extra)
unfolding serve_turn
serve_turn_adds now u k msg s s' sent id h =
    let (f, e, h1) = bind-eq_ok (send_front k s.queues) _ (sent, s') h in
    let (extra, same, added) =
      second_half now u k msg s.handlers f.0 sent f.1 s' id (msg.code == 0) h1 in
    (f.1, extra, e ∙ ap (λ x. ok (x, f.1)) same, added)

-- A run of the server: the turns of its threads in any order, with what each of them sent.
pub data Runs : ServerState → List (ℕ × Option ServerMessage) → Type 0 where
  stop : (s : ServerState) → Runs s []
  turn :
      (now : Clock) (u id : ℕ) (msg : Received) (s s' : ServerState) (sent : Option ServerMessage)
      (trace : List (ℕ × Option ServerMessage))
      → serve_turn now u id msg s ≡ ok (sent, s')
      → Runs s' trace
      → Runs s ((id, sent) ∷ trace)

-- What the turns of one client sent, one after the other.
unfoldable pub sends : ℕ → List (ℕ × Option ServerMessage) → List (Option ServerMessage)
sends id [] = []
sends id ((k, x) ∷ trace) = let rest = sends id trace in if k == id then x ∷ rest else rest

-- A turn of the client's own thread, and a turn of another.
own_turn :
    (now : Clock) (u k : ℕ) (msg : Received) (s s' : ServerState) (sent : Option ServerMessage)
    (id : ℕ) (x : ServerMessage) (rest : List (Option ServerMessage))
    → (k == id) ≡ true
    → serve_turn now u k msg s ≡ ok (sent, s')
    → queue_of id s.queues ≡ some x ∷ rest
    → (sent ≡ some x)
      × (extra : List (Option ServerMessage)) × (queue_of id s'.queues ≡ rest ++ extra)
own_turn now u k msg s s' sent id x rest same done e =
    let (q, extra, taken, added) = serve_turn_adds now u k msg s s' sent id done in
    let taken' : send_front id s.queues ≡ ok (sent, q) =
      ap (λ j. send_front j s.queues) (sym ((==_iff k id).0 same)) ∙ taken in
    let (it, left) = send_front_own id s.queues x rest sent q e taken' in
    (it, extra, added ∙ ap (λ l. l ++ extra) left)

other_turn :
    (now : Clock) (u k : ℕ) (msg : Received) (s s' : ServerState) (sent : Option ServerMessage)
    (id : ℕ)
    → (k == id) ≡ false
    → serve_turn now u k msg s ≡ ok (sent, s')
    → (extra : List (Option ServerMessage)) × (queue_of id s'.queues
        ≡ queue_of id s.queues ++ extra)
other_turn now u k msg s s' sent id other done =
    let (q, extra, taken, added) = serve_turn_adds now u k msg s s' sent id done in
    (extra, added ∙ ap (λ l. l ++ extra) (send_front_other k id s.queues sent q other taken))

-- A message waits in a client's queue behind messages, none of them a null pointer. In every run in
-- which the client's thread has more turns than there are messages in front, the message is sent, by
-- the turn of that thread that comes after as many of its turns as there were messages in front.
pub sends-Runs :
    (id : ℕ) (front : List ServerMessage) (m : ServerMessage) (back : List (Option ServerMessage))
    (s : ServerState) (trace : List (ℕ × Option ServerMessage))
    → Runs s trace
    → queue_of id s.queues ≡ map some front ++ (some m ∷ back)
    → length front < length (sends id trace)
    → get_elem? (sends id trace) (length front) ≡ some (some m)
unfolding sends
sends-Runs id front m back s [] (stop _) e h = absurd (omega arith)
sends-Runs id front m back s ((k, x) ∷ trace) (turn now u _ msg _ s' sent _ done rest) e h =
    elim (Bool-cases (k == id)) [
      | inl same ↦
          rw same
            (own same (λ f b q l. sends-Runs id f m b s' trace rest q l) front e (rw same at h))
      | inr other ↦
          let (extra, added) = other_turn now u k msg s s' x id other done in
          rw other (
            sends-Runs id front m (back ++ extra) s' trace rest
              (added ∙ ap (λ l. l ++ extra) e ∙ append_assoc (map some front) (some m ∷ back) extra)
              (rw other at h))
    ]
  where
    own :
        (k == id) ≡ true
        → ((f : List ServerMessage) (b : List (Option ServerMessage))
            → queue_of id s'.queues ≡ map some f ++ (some m ∷ b)
            → length f < length (sends id trace)
            → get_elem? (sends id trace) (length f) ≡ some (some m))
        → (front : List ServerMessage) → queue_of id s.queues ≡ map some front ++ (some m ∷ back)
        → length front < length (x ∷ sends id trace)
        → get_elem? (x ∷ sends id trace) (length front) ≡ some (some m)
    own same next [] e h = ap some (own_turn now u k msg s s' x id m back same done e).0
    own same next (f ∷ fs) e h =
        let (it, extra, left) =
          own_turn now u k msg s s' x id f (map some fs ++ (some m ∷ back)) same done e in
        next fs (back ++ extra) (left ∙ append_assoc (map some fs) (some m ∷ back) extra)
          (omega (arith, h))
