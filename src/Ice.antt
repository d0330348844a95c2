-- ===== src/Ice.antt =====
-- The messages of a connection between two peers (Peer/ICEConnection/ICEConnection.cpp). libnice carries
-- datagrams: one that arrives is one call of the other side's receive callback. Whether nice_agent_send
-- takes a datagram, and which of those it takes arrive and in which order, are parameters. A message that waits to be sent stands as the bytes that its serialize gives.
pub mod Datagrams
pub mod Outgoing
pub mod Session
use gitabic.Base.{
  ℕ, zero, suc, ◌+◌, ◌-◌, ◌%◌, ◌^◌, Bool, true, false, ltb, ◌==◌, not, if◌then◌else◌, List, [], ◌∷◌,
  ◌++◌, length,
}
use gitabic.Bytes.{Outcome, ok, raise, fault, bind, runtime_error, Reader, ◌>>=◌, return, read_le}
use gitabic.Message.Frame.{Received, serialize_base}

abbrev pub disconnect_code : ℕ
disconnect_code = 60

abbrev code_no_messages_received : ℕ
code_no_messages_received = 255

unfoldable pub read_header : Reader (ℕ × ℕ)
read_header = do code ← read_le 1; size ← read_le 4; return (code, size)

-- The size is a `uint32_t`, which is compared with a `size_t`.
unfoldable pub deserialize_message : List ℕ → Outcome Received
unfolding read_header
deserialize_message bytes =
    if ltb (length bytes) 5
    then raise runtime_error
    else bind (read_header bytes) λ r.
      if r.0.1 == length bytes - 1 - 4
      then ok (record { code = r.0.0; payload = r.1 })
      else raise runtime_error

-- `agent_send` says of each call of nice_agent_send, by how many there were, whether its result is not
-- negative; `attempts` counts the calls, and `sent` has the datagrams that the agent has taken, in order.
pub record IceConnection : Type 0 where
  pub is_connected : Bool
  pub received_messages : List Received
  pub messages_to_send : List (List ℕ)
  pub agent_send : ℕ → Bool
  pub attempts : ℕ
  pub sent : List (List ℕ)

-- A negative result is only logged: the message is gone.
unfoldable pub system_send_message : List ℕ → IceConnection → IceConnection
system_send_message bytes s = record s {
  attempts = suc s.attempts;
  sent = if s.agent_send s.attempts then s.sent ++ (bytes ∷ []) else s.sent;
}

unfoldable pub disconnect : IceConnection → IceConnection
unfolding system_send_message
disconnect s =
    if s.is_connected
    then record (system_send_message (serialize_base disconnect_code 0) s) { is_connected = false }
    else s

unfoldable pub accept_message : Received → IceConnection → IceConnection
unfolding disconnect
accept_message m s =
    if m.code == disconnect_code
    then disconnect s
    else record s { received_messages = s.received_messages ++ (m ∷ []) }

-- An exception of deserializeMessage is caught.
unfoldable pub accept_outcome : Outcome Received → IceConnection → IceConnection
accept_outcome (ok m) s = accept_message m s
accept_outcome (raise e) s = s
accept_outcome fault s = s

unfoldable pub is_end_mark : List ℕ → Bool
is_end_mark [] = false
is_end_mark (b ∷ []) = b == 0
is_end_mark (b ∷ c ∷ bytes) = false

unfoldable pub callback_receive : List ℕ → IceConnection → IceConnection
unfolding accept_outcome is_end_mark deserialize_message
callback_receive bytes s =
    if s.is_connected
    then if is_end_mark bytes then disconnect s else accept_outcome (deserialize_message bytes) s
    else s

unfoldable pub send_message : List ℕ → IceConnection → IceConnection
send_message bytes s = record s { messages_to_send = s.messages_to_send ++ (bytes ∷ []) }

-- The inner loop of messageSendingThread, over the messages that are queued.
unfoldable pub send_all_queued : List (List ℕ) → IceConnection → IceConnection
unfolding system_send_message
send_all_queued [] s = s
send_all_queued (bytes ∷ queue) s =
    send_all_queued queue (system_send_message bytes (record s { messages_to_send = queue }))

-- A turn of messageSendingThread: nothing is sent once the connection has ended.
unfoldable pub sending_turn : IceConnection → IceConnection
unfolding send_all_queued
sending_turn s = if s.is_connected then send_all_queued s.messages_to_send s else s

unfoldable pub received_messages_count : IceConnection → ℕ
received_messages_count s = length s.received_messages

unfoldable pub receive_message : IceConnection → Received × IceConnection
receive_message s = elim s.received_messages [
  | [] ↦ (record { code = code_no_messages_received; payload = [] }, s)
  | m ∷ ms ↦ (m, record s { received_messages = ms })
]

-- The calls of receiveMessage that PeersConnectionManager::routePackets makes for one peer.
unfoldable pub receive_messages : ℕ → IceConnection → List Received × IceConnection
unfolding receive_message
receive_messages zero s = ([], s)
receive_messages (suc n) s =
    let first = receive_message s in
    let rest = receive_messages n first.1 in (first.0 ∷ rest.0, rest.1)
