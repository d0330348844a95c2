-- ===== src/Socket.antt =====
-- TCPSocket: the peer's connection to the server, over which several threads wait for messages of their
-- own (Peer/NetworkUnit/ServerComm/TCPSocket/TCPSocket.cpp). `stream` is what the connection has brought
-- so far, so that a `recv` that gets less than it asks for has come to the end of it. The lock is held
-- through each turn of the loop, so that a turn is one step.
pub mod Mailbox
use gitabic.Base.{
  ℕ, zero, suc, Bool, true, false, ltb, ◌==◌, if◌then◌else◌, List, [], ◌∷◌, ◌++◌, Option, none,
  some, length,
}
use gitabic.Bytes.{
  Outcome, ok, raise, fault, bind, runtime_error, Reader, ◌>>=◌, return, read_le, read_bytes,
}
use gitabic.Message.Frame.{Received}

pub record SocketState : Type 0 where
  pub messages : List Received
  pub stream : List ℕ

-- `recv` of `n` bytes, and the exception for fewer.
unfoldable pub recv {ℓ} : {A : Type ℓ} → ℕ → Reader A → Reader A
recv n read bytes = if ltb (length bytes) n then raise runtime_error else read bytes

unfoldable pub receive_message : Reader Received
unfolding recv
receive_message = do
  code ← recv 1 (read_le 1)
  size ← recv 4 (read_le 4)
  payload ← recv size (read_bytes size)
  return (record { code = code; payload = payload })

-- `find_if` and `erase`: the first message that is relevant, and the others.
unfoldable pub pick : (ℕ → Bool) → List Received → Option Received × List Received
pick is_relevant [] = (none, [])
pick is_relevant (m ∷ ms) =
    let rest = pick is_relevant ms in
    if is_relevant m.code then (some m, ms) else (rest.0, m ∷ rest.1)

-- What is done with a message that has arrived.
unfoldable pub sort_message :
    (ℕ → Bool) → Received × List ℕ → List Received → Option Received × SocketState
sort_message is_relevant (m, stream) messages =
    if is_relevant m.code
    then (some m, record { messages = messages; stream = stream })
    else (none, record { messages = messages ++ (m ∷ []); stream = stream })

-- The second half of a turn, for a queue without a relevant message.
unfoldable pub read_turn : (ℕ → Bool) → SocketState → Outcome (Option Received × SocketState)
unfolding receive_message sort_message
read_turn is_relevant s =
    if length s.stream == 0
    then ok (none, s)
    else bind (receive_message s.stream) (λ r. ok (sort_message is_relevant r s.messages))

-- A turn of the loop of receive: a message, or none and `continue`.
unfoldable pub receive_turn : (ℕ → Bool) → SocketState → Outcome (Option Received × SocketState)
unfolding read_turn pick
receive_turn is_relevant s =
    let picked = pick is_relevant s.messages in
    elim picked.0 [
      | some m ↦ ok (some m, record s { messages = picked.1 })
      | none ↦ read_turn is_relevant s
    ]

-- The loop, for so many turns; `none` says that it still waits then.
unfoldable pub after_turn :
    (SocketState → Outcome (Option Received × SocketState))
    → Option Received × SocketState
    → Outcome (Option Received × SocketState)
after_turn again (some m, s) = ok (some m, s)
after_turn again (none, s) = again s

unfoldable pub receive : ℕ → (ℕ → Bool) → SocketState → Outcome (Option Received × SocketState)
unfolding receive_turn after_turn
receive zero is_relevant s = ok (none, s)
receive (suc fuel) is_relevant s =
    bind (receive_turn is_relevant s) (after_turn (receive fuel is_relevant))
