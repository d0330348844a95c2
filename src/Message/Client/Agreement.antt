-- ===== src/Message/Client/Agreement.antt =====
-- The two sides' codecs for the messages to the server.
use gitabic.Base.{
  ℕ, ◌+◌, ◌-◌, ◌^◌, ◌<◌, ◌≤◌, ◌≡◌, refl, le→ltb, arith, List, [], ◌++◌, length, length-append,
  Option, some, none,
}
use gitabic.Bytes.{ok, Outcome, bind, le}
use gitabic.Bytes.RoundTrip.{read_le-le, length-le, read_bytes-append, read_le_last}
use gitabic.Message.Frame.{serialize_base, receive, receive_framed}
use gitabic.Message.Client.{
  ClientMessage, ask_ice, announce, ask_users, debug, authorize, refuse_connected, refuse_full,
  ushrt_max, id_size, serialize_client, deserialize_ask_ice, deserialize_announce,
  deserialize_ask_users, deserialize_authorize, deserialize_refusal, read_client,
}

-- The fields fit their C++ types, the data fits the frame's size field, and the ICE data of an
-- authorisation is no longer than the sender allows.
unfoldable pub ClientFits : ClientMessage → Type 0
ClientFits (ask_ice user_id info) = (user_id < 256 ^ 32) × (length info < 2 ^ 31)
ClientFits (announce my_id file_id) = (my_id < 256 ^ 32) × (file_id < 256 ^ 32)
ClientFits (ask_users file_id) = file_id < 256 ^ 32
ClientFits (debug message) = length message < 2 ^ 32
ClientFits (authorize info request_id) = (length info ≤ ushrt_max) × (request_id < 256 ^ 2)
ClientFits (refuse_connected request_id) = request_id < 256 ^ 2
ClientFits (refuse_full request_id) = request_id < 256 ^ 2

-- A debugging message is received and not looked at.
abbrev pub heard : ClientMessage → Option ClientMessage
heard (debug message) = none
heard m = some m

-- What the server makes of the front of a stream.
abbrev pub hear : List ℕ → Outcome (Option ClientMessage × List ℕ)
hear bytes = bind (receive bytes) (λ p. bind (read_client p.0) (λ h. ok (h, p.1)))

hear_framed :
    (code n : ℕ) (payload rest : List ℕ) (h : Option ClientMessage)
    → code < 256
    → n < 2 ^ 32
    → n ≡ length payload
    → read_client (record { code = code; payload = payload }) ≡ ok h
    → hear ((serialize_base code n ++ payload) ++ rest) ≡ ok (h, rest)
hear_framed code n payload rest h hc hn e run =
    rw (e, receive_framed code payload rest hc (omega (arith, hn, e)), run)

read_ask_ice :
    (user_id : ℕ) (info : List ℕ)
    → user_id < 256 ^ 32
    → deserialize_ask_ice (le 32 user_id ++ info) ≡ ok (ask_ice user_id info, [])
unfolding deserialize_ask_ice
read_ask_ice user_id info fit =
    let long : id_size ≤ length (le 32 user_id ++ info) =
      omega (arith, length-append (le 32 user_id) info, length-le 32 user_id) in
    rw (le→ltb _ id_size long) (simp (read_le-le 32 user_id info fit))

read_announce :
    (my_id file_id : ℕ)
    → my_id < 256 ^ 32
    → file_id < 256 ^ 32
    → deserialize_announce (le 32 my_id ++ le 32 file_id) ≡ ok (announce my_id file_id, [])
unfolding deserialize_announce
read_announce my_id file_id fit fit' =
    simp (read_le-le 32 my_id _ fit, read_le_last 32 file_id fit')

read_authorize :
    (info : List ℕ) (request_id : ℕ)
    → request_id < 256 ^ 2
    → deserialize_authorize (info ++ le 2 request_id) ≡ ok (authorize info request_id, [])
unfolding deserialize_authorize
read_authorize info request_id fit =
    let size : length (info ++ le 2 request_id) ≡ length info + 2 =
      omega (arith, length-append info (le 2 request_id), length-le 2 request_id) in
    let front : length (info ++ le 2 request_id) - 2 ≡ length info = omega (arith, size) in
    let long : 2 ≤ length (info ++ le 2 request_id) = omega (arith, size) in
    rw (le→ltb _ 2 long, front) (simp (read_bytes-append info, read_le_last 2 request_id fit))

-- The server hears each message that a peer sends, of fields that fit, as the one that was sent (a
-- debugging message as none), and the rest of the stream is left.
pub hear-serialize_client :
    (m : ClientMessage) (rest : List ℕ)
    → ClientFits m
    → bind (serialize_client 0 m) (λ bytes. hear (bytes ++ rest)) ≡ ok (heard m, rest)
unfolding serialize_client read_client ClientFits
hear-serialize_client (ask_ice user_id info) rest f =
    let size : 0 + id_size + length info ≡ length (le 32 user_id ++ info) =
      omega (arith, length-append (le 32 user_id) info, length-le 32 user_id) in
    hear_framed 1 _ _ rest _ (omega arith) (omega (arith, f.1)) size
      (rw (read_ask_ice user_id info f.0))
hear-serialize_client (announce my_id file_id) rest f =
    let size : 0 + id_size + id_size ≡ length (le 32 my_id ++ le 32 file_id) =
      simp (length-append, length-le) in
    hear_framed 5 _ _ rest _ (omega arith) (omega arith) size
      (rw (read_announce my_id file_id f.0 f.1))
hear-serialize_client (ask_users file_id) rest f =
    let size : 0 + id_size ≡ length (le 32 file_id) = simp length-le in
    hear_framed 6 _ _ rest _ (omega arith) (omega arith) size
      (unfold deserialize_ask_users in rw (read_le_last 32 file_id f))
hear-serialize_client (debug message) rest f =
    hear_framed 10 (0 + length message) message rest none (omega arith) (omega (arith, f))
      (omega arith) refl
hear-serialize_client (authorize info request_id) rest f =
    let size : 0 + 2 + length info ≡ length (info ++ le 2 request_id) =
      omega (arith, length-append info (le 2 request_id), length-le 2 request_id) in
    rw (le→ltb ushrt_max _ f.0) (
      hear_framed 11 _ _ rest _ (omega arith) (omega (arith, f.0)) size
        (rw (read_authorize info request_id f.1)))
hear-serialize_client (refuse_connected request_id) rest f =
    hear_framed 12 _ _ rest _ (omega arith) (omega arith) (simp length-le)
      (unfold deserialize_refusal in rw (read_le_last 2 request_id f))
hear-serialize_client (refuse_full request_id) rest f =
    hear_framed 13 _ _ rest _ (omega arith) (omega arith) (simp length-le)
      (unfold deserialize_refusal in rw (read_le_last 2 request_id f))
