-- ===== src/Server/Unknown.antt =====
-- A message that the switch on the code does not know.
use gitabic.Base.{
  ℕ, ◌≡◌, ◌≢◌, refl, false, ◌==◌, ==_refl, List, [], ◌∷◌, Option, none, insert, lookup-insert,
  Bool-cases, inl, inr, arith,
}
use gitabic.Bytes.{ok, fault, bind}
use gitabic.Message.Frame.{Received}
use gitabic.Message.Client.{read_client}
use gitabic.Message.Server.{ServerMessage}
use gitabic.Signal.{value}
use gitabic.Server.{Queues, ServerState, Clock, respond, handle, push_reply, send_front, serve_turn}

abbrev Pointer : Type 0
Pointer = Option ServerMessage

==_no : (a b : ℕ) → a ≢ b → (a == b) ≡ false
==_no a b h = ground arith

value-insert : (k : ℕ) (q : List Pointer) (qs : Queues) → value [] k (insert k q qs) ≡ q
value-insert k q qs = rw (value, lookup-insert k k q qs, ==_refl k) refl

-- An empty queue stays empty when a queue is set to be empty.
value-insert_empty : (k j : ℕ) (qs : Queues) → value [] j qs ≡ [] → value [] j (insert k [] qs) ≡ []
value-insert_empty k j qs e = elim (Bool-cases (k == j)) [
  | inl same ↦ rw (value, lookup-insert k j [] qs, same) refl
  | inr other ↦ rw (value, lookup-insert k j [] qs, other) e
]

send_front-empty :
    (id : ℕ) (qs : Queues) → value [] id qs ≡ [] → send_front id qs ≡ ok (none, insert id [] qs)
unfolding send_front
send_front-empty id qs e = rw (e, send_front) refl

send_front-null :
    (id : ℕ) (qs : Queues) (rest : List Pointer)
    → value [] id qs ≡ none ∷ rest
    → send_front id qs ≡ fault
unfolding send_front
send_front-null id qs rest e = rw (e, send_front) refl

handle-unknown :
    (now : Clock) (u id : ℕ) (m : Received) (s : ServerState)
    → read_client m ≡ ok none
    → handle now u id m s.handlers ≡ ok ((u, none), s.handlers)
unfolding handle respond
handle-unknown now u id m s e = rw e refl

push_reply-null :
    (u : ℕ) (qs : Queues)
    → u ≢ 0
    → value [] u qs ≡ []
    → value [] u (push_reply (u, none) qs) ≡ none ∷ []
unfolding push_reply
push_reply-null u qs h e = rw (==_no u 0 h, e) (value-insert u (none ∷ []) qs)

-- A message with a code that the switch does not handle, other than 0, is answered by a null
-- pointer to the ID in the uninitialised bytes of the result. If that is the ID of a client, and the
-- queues of the two clients are empty, the next turn of that client dereferences it.
pub serve_turn-unknown :
    (now later : Clock) (u v id : ℕ) (m next : Received) (s : ServerState)
    → read_client m ≡ ok none
    → m.code ≢ 0
    → u ≢ 0
    → value [] id s.queues ≡ []
    → value [] u s.queues ≡ []
    → bind (serve_turn now u id m s) (λ r. serve_turn later v u next r.1) ≡ fault
unfolding serve_turn
serve_turn-unknown now later u v id m next s unknown code nonzero e f =
    let idle = value-insert_empty id u s.queues f in
    rw
      (
        send_front-empty id s.queues e,
        ==_no m.code 0 code,
        handle-unknown now u id m s unknown,
        send_front-null u (push_reply (u, none) (insert id [] s.queues)) []
            (push_reply-null u (insert id [] s.queues) nonzero idle),
      )
      refl
