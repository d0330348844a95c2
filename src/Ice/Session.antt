-- ===== src/Ice/Session.antt =====
-- A session of two connected peers: what one sends and the other is given
-- (Peer/ICEConnection/ICEConnection.cpp).
use gitabic.Base.{
  ℕ, ◌+◌, ◌^◌, ◌<◌, ◌≤◌, ◌≡◌, ◌≢◌, ◌⊎◌, refl, sym, ap, ◌∙◌, subst, Bool, true, false, ◌==◌,
  if◌then◌else◌, Bool-cases, inl, inr, List, [], ◌∷◌, ◌++◌, map, append_assoc, append-nil, length,
  All, arith,
}
use gitabic.Bytes.{le, read_le}
use gitabic.Message.Frame.{Received, serialize_base}
use gitabic.Ice.{
  IceConnection, disconnect_code, deserialize_message, disconnect, system_send_message,
  accept_message, accept_outcome, is_end_mark, callback_receive, sending_turn,
  received_messages_count, receive_message, receive_messages,
}
use gitabic.Ice.Outgoing.{send_each, taken, taken_one, farewell, sender_sent, All-taken}
use gitabic.Ice.Datagrams.{datagram, length-datagram, deserialize_message-datagram}

-- A message that fits a datagram and does not ask to disconnect.
pub record Ordinary (m : Received) : Type 0 where
  pub code_fits : m.code < 256
  pub size_fits : length m.payload < 2 ^ 32
  pub stays : m.code ≢ disconnect_code

-- The datagrams handed to the callback one after the other.
unfoldable pub deliver : List (List ℕ) → IceConnection → IceConnection
unfolding callback_receive
deliver [] s = s
deliver (bytes ∷ more) s = deliver more (callback_receive bytes s)

is_end_mark-datagram : (bytes : List ℕ) → 5 ≤ length bytes → is_end_mark bytes ≡ false
unfolding is_end_mark
is_end_mark-datagram [] h = refl
is_end_mark-datagram (b ∷ []) h = absurd (omega arith)
is_end_mark-datagram (b ∷ c ∷ bytes) h = refl

callback-Ordinary :
    (m : Received) (s : IceConnection)
    → Ordinary m
    → s.is_connected ≡ true
    → callback_receive (datagram m) s
      ≡ record s { received_messages = s.received_messages ++ (m ∷ []) }
unfolding callback_receive accept_outcome accept_message
callback-Ordinary m s h on =
    let message = deserialize_message-datagram m h.code_fits h.size_fits in
    let body : is_end_mark (datagram m) ≡ false =
      is_end_mark-datagram (datagram m) (omega (arith, length-datagram m)) in
    let stays : (m.code == disconnect_code) ≡ false = ground (arith, h.stays) in
    rw (on, body, message, stays)

receive_messages-all :
    (ms : List Received) (s : IceConnection)
    → s.received_messages ≡ ms
    → (receive_messages (length ms) s).0 ≡ ms
unfolding receive_messages receive_message
receive_messages-all [] s e = refl
receive_messages-all (m ∷ ms) s e =
    rw (e, receive_message)
      (ap (◌∷◌ m) (receive_messages-all ms (record s { received_messages = ms }) refl))

callback_end :
    (s : IceConnection)
    → s.is_connected ≡ true
    → callback_receive (serialize_base disconnect_code 0) s ≡ disconnect s
unfolding callback_receive accept_outcome accept_message deserialize_message is_end_mark
    serialize_base le read_le
callback_end s on = rw on

disconnect_ends :
    (s : IceConnection)
    → ((disconnect s).is_connected ≡ false)
      × ((disconnect s).received_messages ≡ s.received_messages)
unfolding disconnect system_send_message
disconnect_ends s = elim (Bool-cases s.is_connected) [
  | inl on ↦ rw on (refl, refl)
  | inr off ↦ rw off (refl, refl)
]

-- An element of a list.
unfoldable pub IsIn : {A : Type 0} → List A → A → Type 0
IsIn [] x = ⊥
IsIn (y ∷ ys) x = (x ≡ y) ⊎ IsIn ys x

-- A datagram that was sent is that of a message or the farewell.
IsIn-sent :
    (ms : List Received) (good : Bool) (bytes : List ℕ)
    → All Ordinary ms
    → IsIn (map datagram ms ++ taken_one good farewell) bytes
    → ((m : Received) × Ordinary m × IsIn ms m × (bytes ≡ datagram m)) ⊎ (bytes ≡ farewell)
unfolding IsIn
IsIn-sent [] true bytes h (inl e) = inr e
IsIn-sent [] true bytes h (inr inside) = absurd inside
IsIn-sent [] false bytes h inside = absurd inside
IsIn-sent (m ∷ ms) good bytes h (inl e) = inl (m, h.0, inl refl, e)
IsIn-sent (m ∷ ms) good bytes h (inr later) = elim (IsIn-sent ms good bytes h.1 later) [
  | inl (m', ordinary, inside, e) ↦ inl (m', ordinary, inr inside, e)
  | inr e ↦ inr e
]

-- The datagrams that arrive are those of the messages in `got`; the receiver stays connected, or the farewell
-- has come behind them, and it does not.
abbrev EndsSo : List Received → List (List ℕ) → IceConnection → Type 0
EndsSo got arrived b =
    ((b.is_connected ≡ true) × (arrived ≡ map datagram got))
    ⊎ ((b.is_connected ≡ false)
        × ((more : List (List ℕ)) × (arrived ≡ map datagram got ++ (farewell ∷ more))))

deliver-off :
    (more : List (List ℕ)) (s : IceConnection) → s.is_connected ≡ false → deliver more s ≡ s
unfolding deliver callback_receive
deliver-off [] s off = refl
deliver-off (bytes ∷ more) s off =
    ap
      (λ t. deliver more (
        if t
        then if is_end_mark bytes
          then disconnect s
          else accept_outcome (deserialize_message bytes) s
        else s))
      off
    ∙ deliver-off more s off

EndsSo-next :
    (m : Received) (got : List Received) (bytes : List ℕ) (more : List (List ℕ)) (b : IceConnection)
    → bytes ≡ datagram m
    → EndsSo got more b
    → EndsSo (m ∷ got) (bytes ∷ more) b
EndsSo-next m got bytes more b e (inl (on, all)) =
    inl (on, ap (λ l. l ∷ more) e ∙ ap (◌∷◌ (datagram m)) all)
EndsSo-next m got bytes more b e (inr (off, (rest, all))) =
    inr (off, (rest, ap (λ l. l ∷ more) e ∙ ap (◌∷◌ (datagram m)) all))

arrives :
    (ms : List Received) (good : Bool) (arrived : List (List ℕ)) (b : IceConnection)
    → All Ordinary ms
    → All (IsIn (map datagram ms ++ taken_one good farewell)) arrived
    → b.is_connected ≡ true
    → (got : List Received) × All (IsIn ms) got
      × ((deliver arrived b).received_messages ≡ b.received_messages ++ got)
      × EndsSo got arrived (deliver arrived b)
unfolding deliver
arrives ms good [] b h inside on = ([], tt, sym (append-nil b.received_messages), inl (on, refl))
arrives ms good (bytes ∷ more) b h inside on = elim (IsIn-sent ms good bytes h inside.0) [
  | inl (m, ordinary, among, e) ↦
      let next : IceConnection = record b { received_messages = b.received_messages ++ (m ∷ []) } in
      let step : callback_receive bytes b ≡ next =
        ap (λ l. callback_receive l b) e ∙ callback-Ordinary m b ordinary on in
      let (got, genuine, kept, ends) = arrives ms good more next h inside.1 on in
      let back : deliver more next ≡ deliver more (callback_receive bytes b) =
        ap (deliver more) (sym step) in
      (
        m ∷ got,
        (among, genuine),
        ap (λ s. s.received_messages) (sym back)
            ∙ kept
            ∙ append_assoc b.received_messages (m ∷ []) got,
        subst (EndsSo (m ∷ got) (bytes ∷ more)) back
            (EndsSo-next m got bytes more (deliver more next) e ends),
      )
  | inr e ↦
      let (off, kept) = disconnect_ends b in
      let step : deliver more (callback_receive bytes b) ≡ disconnect b =
        ap (λ l. deliver more (callback_receive l b)) e
        ∙ ap (deliver more) (callback_end b on)
        ∙ deliver-off more (disconnect b) off in
      (
        [],
        tt,
        ap (λ s. s.received_messages) step ∙ kept ∙ sym (append-nil b.received_messages),
        inr (ap (λ s. s.is_connected) step ∙ off, (more, ap (λ l. l ∷ more) e)),
      )
]

-- What a peer has after datagrams have arrived: in the order of arrival messages of `ms`, which receiveMessage
-- gives; it is connected unless the farewell has come, behind which nothing counts.
pub record Arrived (ms : List Received) (arrived : List (List ℕ)) (b : IceConnection) : Type 0 where
  pub got : List Received
  pub genuine : All (IsIn ms) got
  pub received : (receive_messages (received_messages_count b) b).0 ≡ got
  pub ends : EndsSo got arrived b

-- A session of two connected peers, the one with nothing to send yet and nothing sent, the other with
-- nothing received. Messages that fit a datagram and have another code than the one that asks to
-- disconnect are handed to sendMessage, sent by a turn of the sending thread and followed by disconnect.
-- Then the sender is disconnected, and what the agent has taken is one datagram for each message, in
-- order, without those whose send failed, which are lost, and the farewell, the datagram of disconnect, if
-- its send did not fail.
-- Whichever datagrams of these arrive, in any order and number: the other peer receives the messages of
-- those in front of the first farewell, each as it was sent and in the order of arrival, and is
-- disconnected when a farewell has arrived, else connected.
pub session_delivers :
    (ms : List Received) (a b : IceConnection) (arrived : List (List ℕ))
    → All Ordinary ms
    → a.is_connected ≡ true
    → b.is_connected ≡ true
    → a.messages_to_send ≡ []
    → a.sent ≡ []
    → b.received_messages ≡ []
    → All (IsIn (disconnect (sending_turn (send_each ms a))).sent) arrived
    → let a' = disconnect (sending_turn (send_each ms a)) in
      (a'.is_connected ≡ false)
      × (a'.sent
          ≡ map datagram (taken a.agent_send a.attempts ms)
            ++ taken_one (a.agent_send (a.attempts + length ms)) farewell)
      × Arrived (taken a.agent_send a.attempts ms) arrived (deliver arrived b)
unfolding received_messages_count
session_delivers ms a b arrived h on_a on_b idle fresh empty inside =
    let (off, sent) = sender_sent ms a on_a idle fresh in
    let got_out = taken a.agent_send a.attempts ms in
    let good = a.agent_send (a.attempts + length ms) in
    let (got, genuine, kept, ends) =
      arrives got_out good arrived b (All-taken Ordinary a.agent_send a.attempts ms h)
        (subst (λ l. All (IsIn l) arrived) sent inside) on_b in
    let exact : (deliver arrived b).received_messages ≡ got = kept ∙ ap (λ l. l ++ got) empty in
    (
      off,
      sent,
      record {
        got = got;
        genuine = genuine;
        received =
            ap (λ l. (receive_messages (length l) (deliver arrived b)).0) exact
            ∙ receive_messages-all got (deliver arrived b) exact;
        ends = ends;
      },
    )
