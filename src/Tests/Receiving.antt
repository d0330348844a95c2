-- ===== src/Tests/Receiving.antt =====
-- Messages from the server for two threads, datagrams between two peers, and announcements.
use gitabic.Base.{
  ℕ, not, map, ◌++◌, inl, inr, All, List, ◌+◌, ◌<◌, ◌≤◌, ◌≡◌, ◌↔◌, refl, true, false, ◌==◌, [], ◌∷◌,
  some, lookup, arith,
}
use gitabic.Bytes.{ok, le}
use gitabic.Message.Frame.{Received, serialize_base}
use gitabic.Socket.{SocketState, pick, receive}
use gitabic.Socket.Mailbox.{Fits, frames, HoldsMail, receive-HoldsMail}
use gitabic.Ice.{IceConnection, deserialize_message, disconnect, sending_turn}
use gitabic.Ice.Datagrams.{datagram, deserialize_message_iff}
use gitabic.Ice.Outgoing.{send_each, taken, taken_one, farewell}
use gitabic.Ice.Session.{Ordinary, deliver, IsIn, Arrived, session_delivers}
use gitabic.Ice.{send_message, send_all_queued, system_send_message}
use gitabic.Republish.{SavedData, republish_pass, sleep_time}
use gitabic.Republish.Passes.{NoneDue, republish_pass_lem}

abbrev hello : Received
hello = record { code = 11; payload = 7 ∷ 8 ∷ [] }

abbrev reply : Received
reply = record { code = 13; payload = 9 ∷ [] }

-- The first message is queued for another thread, the second is still on its way.
abbrev socket : SocketState
socket = record { messages = hello ∷ []; stream = frames (reply ∷ []) }

reply-Fits : Fits reply
reply-Fits = record { code_fits = omega arith; size_fits = omega arith }

socket-HoldsMail : HoldsMail socket (hello ∷ reply ∷ [])
socket-HoldsMail = record {
  coming = reply ∷ [];
  framed = refl;
  fitting = (reply-Fits, tt);
  order = refl;
}

receive-HoldsMail_example :
    (t : SocketState) × (receive 7 (λ code. code == 13) socket ≡ ok (some reply, t))
    × HoldsMail t (hello ∷ [])
unfolding frames serialize_base le pick
receive-HoldsMail_example =
    receive-HoldsMail 7 (λ code. code == 13) socket (hello ∷ reply ∷ []) socket-HoldsMail
      (omega arith)

deserialize_message_iff_example :
    (deserialize_message (11 ∷ 2 ∷ 0 ∷ 0 ∷ 0 ∷ 7 ∷ 8 ∷ []) ≡ ok hello)
    ↔ ((11 < 256) × ((11 ∷ 2 ∷ 0 ∷ 0 ∷ 0 ∷ 7 ∷ 8 ∷ []) ≡ datagram hello))
deserialize_message_iff_example =
    deserialize_message_iff (11 ∷ 2 ∷ 0 ∷ 0 ∷ 0 ∷ 7 ∷ 8 ∷ []) hello
      (
        omega arith,
        (
          omega arith,
          (omega arith, (omega arith, (omega arith, (omega arith, (omega arith, tt))))),
        ),
      )
      (omega arith)

abbrev connection : IceConnection
connection = record {
  is_connected = true;
  received_messages = [];
  messages_to_send = [];
  agent_send = λ n. not (n == 1);
  attempts = 0;
  sent = [];
}

hello-Ordinary : Ordinary hello
hello-Ordinary = record {
  code_fits = omega arith;
  size_fits = omega arith;
  stays = λ e. omega (arith, e);
}

reply-Ordinary : Ordinary reply
reply-Ordinary = record {
  code_fits = omega arith;
  size_fits = omega arith;
  stays = λ e. omega (arith, e);
}

-- Three messages of which the agent does not take the second; the others arrive in the other order.
abbrev spoken : List Received
spoken = hello ∷ reply ∷ reply ∷ []

abbrev arrivals : List (List ℕ)
arrivals = datagram reply ∷ datagram hello ∷ farewell ∷ []

arrivals-IsIn : All (IsIn (disconnect (sending_turn (send_each spoken connection))).sent) arrivals
unfolding IsIn disconnect sending_turn send_each send_message send_all_queued system_send_message
arrivals-IsIn = (inr (inl refl), (inl refl, (inr (inr (inl refl)), tt)))

session_delivers_example :
    let a' = disconnect (sending_turn (send_each spoken connection)) in
    (a'.is_connected ≡ false)
    × (a'.sent
        ≡ map datagram (taken connection.agent_send 0 spoken)
          ++ taken_one (connection.agent_send 3) farewell)
    × Arrived (taken connection.agent_send 0 spoken) arrivals (deliver arrivals connection)
session_delivers_example =
    session_delivers spoken connection connection arrivals
      (hello-Ordinary, (reply-Ordinary, (reply-Ordinary, tt))) refl refl refl refl refl
      arrivals-IsIn

-- Two files of which the first is due, at time 1000.
abbrev announced : SavedData
announced = (1, record { my_id = 5; due_at = 990 }) ∷ (2, record { my_id = 6; due_at = 1300 }) ∷ []

republish_pass_lem_example :
    let t = republish_pass 1000 (λ file. false) announced in
    (lookup 1 t ≡ some (record { my_id = 5; due_at = 1010 }))
    × NoneDue (1000 + sleep_time 1000 t) t
    × (sleep_time 1000 t ≤ 600)
republish_pass_lem_example = republish_pass_lem 1000 (λ file. false) announced 1
