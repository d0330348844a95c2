-- ===== src/Message/Server/Agreement.antt =====
-- The two sides' codecs for the messages from the server, and data of a bad length.
use gitabic.Base.{
  append_assoc, ℕ, zero, suc, ◌+◌, ◌-◌, ◌*◌, ◌%◌, ◌^◌, ◌<◌, ◌≤◌, ◌≡◌, ◌≢◌, refl, arith, List, [],
  ◌∷◌, ◌++◌, length, length-append, All, inl, inr, ◌⊎◌,
}
use gitabic.Bytes.{ok, fault, bind, le, read_le}
use gitabic.Message.Frame.{Received, serialize_base}
use gitabic.Bytes.RoundTrip.{
  read_bytes_long, read_le-le, read_le_last, read_le-short, read_le_long, length-le,
  read_bytes-append,
}
use gitabic.Message.Frame.{serialize_base, receive, receive_framed}
use gitabic.Message.Torrent.{decode}
use gitabic.Message.Client.{id_size}
use gitabic.Message.Server.{
  users, ask_authorization, serialize_ids, serialize_server, read_ids, deserialize_users,
  deserialize_ask_authorization,
}

abbrev IsId : ℕ → Type 0
IsId id = id < 256 ^ 32

length-serialize_ids : (ids : List ℕ) → length (serialize_ids ids) ≡ length ids * id_size
unfolding serialize_ids
length-serialize_ids [] = refl
length-serialize_ids (id ∷ ids) =
    omega (
      arith,
      length-append (le 32 id) (serialize_ids ids),
      length-le 32 id,
      length-serialize_ids ids,
    )

-- One turn of the loop, on a buffer that is not at its end.
read_ids_turn :
    (n : ℕ) (bytes : List ℕ)
    → 0 < length bytes
    → read_ids (suc n) bytes
      ≡ bind (read_le 32 bytes) (λ p. bind (read_ids n p.1) (λ q. ok (p.0 ∷ q.0, q.1)))
unfolding read_ids
read_ids_turn n [] h = absurd (omega arith)
read_ids_turn n (b ∷ bytes) h = refl

read_ids-serialize_ids :
    (n : ℕ) (ids : List ℕ)
    → All IsId ids
    → length ids ≤ n
    → read_ids n (serialize_ids ids) ≡ ok (ids, [])
unfolding serialize_ids read_ids
read_ids-serialize_ids zero [] a h = refl
read_ids-serialize_ids (suc n) [] a h = refl
read_ids-serialize_ids zero (id ∷ ids) a h = absurd (omega arith)
read_ids-serialize_ids (suc n) (id ∷ ids) a h =
    let some_byte : 0 < length (le 32 id ++ serialize_ids ids) =
      omega (arith, length-append (le 32 id) (serialize_ids ids), length-le 32 id) in
    rw (
      read_ids_turn n (le 32 id ++ serialize_ids ids) some_byte,
      read_le-le 32 id (serialize_ids ids) a.0,
      read_ids-serialize_ids n ids a.1 (omega arith),
    )

-- A list of fewer than 2^26 users, each ID of 32 bytes, arrives as it was sent, and the rest of the
-- stream is left.
decode-users :
    (file_id : ℕ) (ids rest : List ℕ)
    → IsId file_id
    → All IsId ids
    → length ids < 2 ^ 26
    → decode (λ _. deserialize_users) (receive (serialize_server 0 (users file_id ids) ++ rest))
      ≡ ok (users file_id ids, rest)
unfolding serialize_server deserialize_users
decode-users file_id ids rest hf a h =
    let size : length (le 32 file_id ++ serialize_ids ids) ≡ length ids * id_size + id_size =
      omega (
        arith,
        length-append (le 32 file_id) (serialize_ids ids),
        length-le 32 file_id,
        length-serialize_ids ids,
      ) in
    let enough : length ids ≤ length (le 32 file_id ++ serialize_ids ids) = omega (arith, size) in
    rw
      (
        ← size,
        receive_framed 223 (le 32 file_id ++ serialize_ids ids) rest (omega arith)
            (omega (arith, size)),
      )
      (simp (read_le-le 32 file_id _ hf, read_ids-serialize_ids _ ids a enough))

short_or_long : (n : ℕ) → (n < id_size) ⊎ (id_size ≤ n)
short_or_long n = ground arith

-- Bytes behind the last full ID are read past the end of the vector.
read_ids-ragged :
    (n : ℕ) (bytes : List ℕ)
    → length bytes % id_size ≢ 0
    → length bytes ≤ n
    → read_ids n bytes ≡ fault
unfolding read_ids
read_ids-ragged zero [] h fuel = absurd (h refl)
read_ids-ragged (suc n) [] h fuel = absurd (h refl)
read_ids-ragged zero (b ∷ bytes) h fuel = absurd (omega arith)
read_ids-ragged (suc n) (b ∷ bytes) h fuel = elim (short_or_long (length (b ∷ bytes))) [
  | inl short ↦ rw (read_le-short 32 (b ∷ bytes) short)
  | inr long ↦
      let (id, rest, run, len) = read_le_long 32 (b ∷ bytes) long in
      rw (run, read_ids-ragged n rest (λ e. h (omega (arith, e, len))) (omega (arith, len, fuel)))
]

-- Data whose length is not a multiple of an ID's 32 bytes makes the reading of a user list leave
-- the vector.
deserialize_users_ragged :
    (bytes : List ℕ) → length bytes % id_size ≢ 0 → deserialize_users bytes ≡ fault
unfolding deserialize_users
deserialize_users_ragged bytes h = elim (short_or_long (length bytes)) [
  | inl short ↦ rw (read_le-short 32 bytes short)
  | inr long ↦
      let (id, rest, run, len) = read_le_long 32 bytes long in
      rw (
        run,
        read_ids-ragged (length bytes) rest (λ e. h (omega (arith, e, len))) (omega (arith, len)),
      )
]

-- The data that the server puts in a request for authorisation.
request_data : ℕ → List ℕ → ℕ → List ℕ
request_data sender info request_id = le 32 sender ++ (info ++ le 2 request_id)

length-request_data :
    (sender : ℕ) (info : List ℕ) (request_id : ℕ)
    → length (request_data sender info request_id) ≡ length info + 34
unfolding request_data
length-request_data sender info request_id = omega (
  arith,
  length-append (le 32 sender) (info ++ le 2 request_id),
  length-append info (le 2 request_id),
  length-le 32 sender,
  length-le 2 request_id,
)

read_request_data :
    (sender : ℕ) (info : List ℕ) (request_id : ℕ)
    → IsId sender
    → request_id < 256 ^ 2
    → deserialize_ask_authorization (request_data sender info request_id)
      ≡ ok (ask_authorization info request_id sender, [])
unfolding request_data deserialize_ask_authorization
read_request_data sender info request_id hs hr =
    let front : length (info ++ le 2 request_id) - 2 ≡ length info =
      omega (arith, length-append info (le 2 request_id), length-le 2 request_id) in
    simp (read_le-le 32 sender _ hs, front, read_bytes-append info, read_le_last 2 request_id hr)

request_data_lem :
    (n : ℕ) (info : List ℕ) (request_id sender : ℕ)
    → serialize_server n (ask_authorization info request_id sender)
      ≡ serialize_base 20 (n + 2 + length info % 2 ^ 16 + id_size)
        ++ request_data sender info request_id
unfolding serialize_server request_data
request_data_lem n info request_id sender = refl

-- A request for authorisation arrives as it was sent, and the rest of the stream is left, when its
-- ICE data is shorter than 2^16 bytes and its fields fit their types.
decode-ask_authorization :
    (info : List ℕ) (request_id sender : ℕ) (rest : List ℕ)
    → IsId sender
    → request_id < 256 ^ 2
    → length info < 2 ^ 16
    → decode
        (λ _. deserialize_ask_authorization)
        (receive (serialize_server 0 (ask_authorization info request_id sender) ++ rest))
      ≡ ok (ask_authorization info request_id sender, rest)
decode-ask_authorization info request_id sender rest hs hr h =
    let size : 0 + 2 + length info % 2 ^ 16 + id_size
        ≡ length (request_data sender info request_id) =
      omega (arith, h, length-request_data sender info request_id) in
    rw (
      request_data_lem,
      size,
      receive_framed 20 (request_data sender info request_id) rest (omega arith)
          (omega (arith, size)),
      read_request_data sender info request_id hs hr,
    )

-- With ICE data of at least 2^16 and fewer than 2^17 bytes the size in the frame wraps: 2^16 bytes
-- of the message stay in the stream, where the next frame is expected.
pub receive-ask_authorization_torn :
    (info : List ℕ) (request_id sender : ℕ) (rest : List ℕ)
    → 2 ^ 16 ≤ length info
    → length info < 2 ^ 17
    → (m : Received) × (behind : List ℕ) × (receive
          (serialize_server 0 (ask_authorization info request_id sender) ++ rest)
        ≡ ok (m, behind))
      × (length behind ≡ length rest + 2 ^ 16)
unfolding receive serialize_base
receive-ask_authorization_torn info request_id sender rest low high =
    let n : ℕ = 0 + 2 + length info % 2 ^ 16 + id_size in
    let bytes : List ℕ = request_data sender info request_id ++ rest in
    let size : length bytes ≡ length info + 34 + length rest = omega (
      arith,
      length-append (request_data sender info request_id) rest,
      length-request_data sender info request_id,
    ) in
    let (front, behind, run, len, left) = read_bytes_long n bytes (omega (arith, size)) in
    (
      record { code = 20; payload = front },
      behind,
      rw request_data_lem (
          simp
            (append_assoc, read_le-le 1 20 _ (omega arith), read_le-le 4 n _ (omega arith), run)),
      omega (arith, left, size, low, high),
    )
