-- ===== src/Ice/Outgoing.antt =====
-- What a connection sends: the messages that are queued and the end of the connection
-- (Peer/ICEConnection/ICEConnection.cpp).
use gitabic.Base.{
  length-map, ℕ, suc, ◌+◌, ◌≡◌, refl, sym, ap, ◌∙◌, Bool, true, false, if◌then◌else◌, Bool-cases,
  inl, inr, List, [], ◌∷◌, ◌++◌, map, append_assoc, append-nil, length, All, arith,
}
use gitabic.Message.Frame.{Received, serialize_base}
use gitabic.Ice.{
  IceConnection, disconnect_code, disconnect, system_send_message, send_message, send_all_queued,
  sending_turn,
}
use gitabic.Ice.Datagrams.{datagram}

-- The messages handed to sendMessage one after the other.
unfoldable pub send_each : List Received → IceConnection → IceConnection
unfolding send_message
send_each [] s = s
send_each (m ∷ ms) s = send_each ms (send_message (datagram m) s)

send_each-queue :
    (ms : List Received) (s : IceConnection)
    → send_each ms s ≡ record s { messages_to_send = s.messages_to_send ++ map datagram ms }
unfolding send_each send_message
send_each-queue [] s =
    ap (λ l. record s { messages_to_send = l }) (sym (append-nil s.messages_to_send))
send_each-queue (m ∷ ms) s =
    send_each-queue ms (send_message (datagram m) s)
    ∙ ap (λ l. record s { messages_to_send = l })
        (append_assoc s.messages_to_send (datagram m ∷ []) (map datagram ms))

-- Those of the messages that the agent takes, when the first is its call of number `n`.
unfoldable pub taken {ℓ} : {A : Type ℓ} → (ℕ → Bool) → ℕ → List A → List A
taken agent n [] = []
taken agent n (m ∷ ms) = let rest = taken agent (suc n) ms in if agent n then m ∷ rest else rest

taken-map {ℓ κ} :
    {A : Type ℓ} {B : Type κ} (f : A → B) (agent : ℕ → Bool) (n : ℕ) (ms : List A)
    → taken agent n (map f ms) ≡ map f (taken agent n ms)
unfolding taken
taken-map f agent n [] = refl
taken-map f agent n (m ∷ ms) = elim (Bool-cases (agent n)) [
  | inl good ↦ rw good (ap (◌∷◌ (f m)) (taken-map f agent (suc n) ms))
  | inr lost ↦ rw lost (taken-map f agent (suc n) ms)
]

append-taken :
    (agent : ℕ → Bool) (n : ℕ) (bytes : List ℕ) (before queue : List (List ℕ))
    → (if agent n then before ++ (bytes ∷ []) else before) ++ taken agent (suc n) queue
      ≡ before ++ taken agent n (bytes ∷ queue)
unfolding taken
append-taken agent n bytes before queue = elim (Bool-cases (agent n)) [
  | inl good ↦ rw good (append_assoc before (bytes ∷ []) (taken agent (suc n) queue))
  | inr lost ↦ rw lost refl
]

send_all_queued-sent :
    (queue : List (List ℕ)) (s : IceConnection)
    → s.messages_to_send ≡ queue
    → send_all_queued queue s ≡ record s {
      messages_to_send = [];
      attempts = s.attempts + length queue;
      sent = s.sent ++ taken s.agent_send s.attempts queue;
    }
unfolding send_all_queued system_send_message taken
send_all_queued-sent [] s e =
    let same : s.attempts ≡ s.attempts + 0 = omega arith in
    ap (λ l. record s { messages_to_send = l }) e
    ∙ ap (λ l. record s { messages_to_send = []; sent = l }) (sym (append-nil s.sent))
    ∙ ap (λ k. record s { messages_to_send = []; attempts = k; sent = s.sent ++ [] }) same
send_all_queued-sent (bytes ∷ queue) s e =
    let t = system_send_message bytes (record s { messages_to_send = queue }) in
    let count : suc s.attempts + length queue ≡ s.attempts + suc (length queue) = omega arith in
    send_all_queued-sent queue t refl
    ∙ ap
        (λ l. record s {
          messages_to_send = [];
          attempts = suc s.attempts + length queue;
          sent = l;
        })
        (append-taken s.agent_send s.attempts bytes s.sent queue)
    ∙ ap
        (λ k. record s {
          messages_to_send = [];
          attempts = k;
          sent = s.sent ++ taken s.agent_send s.attempts (bytes ∷ queue);
        })
        count

sending_turn-on :
    (s : IceConnection)
    → s.is_connected ≡ true
    → sending_turn s ≡ send_all_queued s.messages_to_send s
unfolding sending_turn
sending_turn-on s on = ap (λ t. if t then send_all_queued s.messages_to_send s else s) on

abbrev pub farewell : List ℕ
farewell = serialize_base disconnect_code 0

-- A list of one datagram, or of none where the agent does not take it.
abbrev pub taken_one : Bool → List ℕ → List (List ℕ)
taken_one good bytes = if good then bytes ∷ [] else []

append-taken_one :
    (good : Bool) (bytes : List ℕ) (before : List (List ℕ))
    → (if good then before ++ (bytes ∷ []) else before) ≡ before ++ taken_one good bytes
append-taken_one true bytes before = refl
append-taken_one false bytes before = sym (append-nil before)

disconnect-on :
    (s : IceConnection)
    → s.is_connected ≡ true
    → ((disconnect s).is_connected ≡ false)
      × ((disconnect s).sent ≡ s.sent ++ taken_one (s.agent_send s.attempts) farewell)
unfolding disconnect system_send_message
disconnect-on s on = rw on (refl, append-taken_one (s.agent_send s.attempts) farewell s.sent)

-- The sender's datagrams, and its end.
pub sender_sent :
    (ms : List Received) (a : IceConnection)
    → a.is_connected ≡ true
    → a.messages_to_send ≡ []
    → a.sent ≡ []
    → let a' = disconnect (sending_turn (send_each ms a)) in
      (a'.is_connected ≡ false)
      × (a'.sent
          ≡ map datagram (taken a.agent_send a.attempts ms)
            ++ taken_one (a.agent_send (a.attempts + length ms)) farewell)
sender_sent ms a on idle fresh =
    let queued : send_each ms a ≡ record a { messages_to_send = map datagram ms } =
      send_each-queue ms a ∙ ap (λ l. record a { messages_to_send = l ++ map datagram ms }) idle in
    let loaded : IceConnection = record a { messages_to_send = map datagram ms } in
    let turned = sending_turn-on loaded on ∙ send_all_queued-sent (map datagram ms) loaded refl in
    let t : IceConnection = record a {
      messages_to_send = [];
      attempts = a.attempts + length (map datagram ms);
      sent = a.sent ++ taken a.agent_send a.attempts (map datagram ms);
    } in
    let run : sending_turn (send_each ms a) ≡ t = ap sending_turn queued ∙ turned in
    let (off, last) = disconnect-on t on in
    (
      ap (λ s. (disconnect s).is_connected) run ∙ off,
      ap (λ s. (disconnect s).sent) run
          ∙ last
          ∙ ap
              (λ l.
                (l ++ taken a.agent_send a.attempts (map datagram ms))
                ++ taken_one (a.agent_send (a.attempts + length (map datagram ms))) farewell)
              fresh
          ∙ ap (λ l. l ++ taken_one (a.agent_send (a.attempts + length (map datagram ms))) farewell)
              (taken-map datagram a.agent_send a.attempts ms)
          ∙ ap
              (λ n.
                map datagram (taken a.agent_send a.attempts ms)
                ++ taken_one (a.agent_send (a.attempts + n)) farewell)
              (length-map datagram ms),
    )

pub All-taken {ℓ κ} :
    {A : Type ℓ} (P : A → Type κ) (agent : ℕ → Bool) (n : ℕ) (ms : List A)
    → All P ms
    → All P (taken agent n ms)
unfolding taken
All-taken P agent n [] h = tt
All-taken P agent n (m ∷ ms) h = elim (Bool-cases (agent n)) [
  | inl good ↦ rw good (h.0, All-taken P agent (suc n) ms h.1)
  | inr lost ↦ rw lost (All-taken P agent (suc n) ms h.1)
]
