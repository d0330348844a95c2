-- ===== src/Message/Frame.antt =====
-- The frame of every message: a code byte, four bytes for the size of the data, the data.
-- Sending is `MessageBaseToSend::serialize` (Peer/NetworkUnit/ServerComm/Messages.h and
-- Server/NetworkUnit/ServerCom/Messages.h); receiving is what TCPClientSocket::receive does with the
-- bytes of the stream once they are there.
use gitabic.Base.{ℕ, ◌^◌, ◌<◌, ◌≡◌, List, ◌++◌, append_assoc, length}
use gitabic.Bytes.{ok, Reader, ◌>>=◌, return, le, read_le, read_bytes}
use gitabic.Bytes.RoundTrip.{read_le-le, read_bytes-append}

-- `PreviousSize` is a `uint32_t`: `le` keeps its low 32 bits.
unfoldable pub serialize_base : ℕ → ℕ → List ℕ
serialize_base code previous_size = le 1 code ++ le 4 previous_size

-- `struct MessageBaseReceived`, without the sender.
pub record Received : Type 0 where
  pub code : ℕ
  pub payload : List ℕ

-- Where no whole frame is there, the code throws or returns an empty message, by what it finds: all of this
-- comes to `fault`.
unfoldable pub receive : Reader Received
receive = do
  code ← read_le 1
  size ← read_le 4
  payload ← read_bytes size
  return (record { code = code; payload = payload })

-- A frame whose size field is the length of its payload is received as it was sent.
pub receive_framed :
    (code : ℕ) (payload rest : List ℕ)
    → code < 256
    → length payload < 2 ^ 32
    → receive ((serialize_base code (length payload) ++ payload) ++ rest)
      ≡ ok (record { code = code; payload = payload }, rest)
unfolding receive serialize_base
receive_framed code payload rest hc hp = simp (
  append_assoc,
  read_le-le 1 code _ hc,
  read_le-le 4 (length payload) _ hp,
  read_bytes-append payload,
)
