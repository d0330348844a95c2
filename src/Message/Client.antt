-- ===== src/Message/Client.antt =====
-- The messages from a peer to the server: sent by Peer/NetworkUnit/ServerComm/Messages.h and read by
-- Server/NetworkUnit/ServerCom/Messages.h under the switch of MessageHandler::handle
-- (Server/Communication/MessageHandler.cpp).
pub mod Agreement
use gitabic.Base.{ℕ, ◌+◌, ◌-◌, ltb, ◌==◌, if◌then◌else◌, List, ◌++◌, length, Option, some, none}
use gitabic.Bytes.{
  Outcome, ok, raise, runtime_error, invalid_argument, bind, Reader, ◌>>=◌, return, le, read_le,
  read_bytes,
}
use gitabic.Message.Frame.{Received, serialize_base}
use gitabic.Message.Torrent.{read_rest}

abbrev pub id_size : ℕ
id_size = 32

abbrev pub ushrt_max : ℕ
ushrt_max = 65535

-- The kinds of message, ClientRequestCodesToServer and ClientResponseCodesToServer.
pub data ClientCode : Type 0 where
  get_user_ice_info store user_list debugging authorized already_connected full_capacity :
      ClientCode

abbrev client_code : ClientCode → ℕ
client_code get_user_ice_info = 1
client_code store = 5
client_code user_list = 6
client_code debugging = 10
client_code authorized = 11
client_code already_connected = 12
client_code full_capacity = 13

-- ClientRequestGetUserICEInfo, StoreRequest, UserListRequest, DebuggingStringMessageToSend,
-- ClientResponseAuthorizedICEConnection, ClientResponseAlreadyConnected, ClientResponseFullCapacity
pub data ClientMessage : Type 0 where
  ask_ice : (user_id : ℕ) → (info : List ℕ) → ClientMessage
  announce : (my_id : ℕ) → (file_id : ℕ) → ClientMessage
  ask_users : (file_id : ℕ) → ClientMessage
  debug : (message : List ℕ) → ClientMessage
  authorize : (info : List ℕ) → (request_id : ℕ) → ClientMessage
  refuse_connected : (request_id : ℕ) → ClientMessage
  refuse_full : (request_id : ℕ) → ClientMessage

-- `serialize(PreviousSize)` of each of them.
unfoldable pub serialize_client : ℕ → ClientMessage → Outcome (List ℕ)
serialize_client previous_size (ask_ice user_id info) = ok (
    serialize_base (client_code get_user_ice_info) (previous_size + id_size + length info)
    ++ (le 32 user_id ++ info))
serialize_client previous_size (announce my_id file_id) = ok (
    serialize_base (client_code store) (previous_size + id_size + id_size)
    ++ (le 32 my_id ++ le 32 file_id))
serialize_client previous_size (ask_users file_id) =
    ok (serialize_base (client_code user_list) (previous_size + id_size) ++ le 32 file_id)
serialize_client previous_size (debug message) =
    ok (serialize_base (client_code debugging) (previous_size + length message) ++ message)
serialize_client previous_size (authorize info request_id) =
    if ltb ushrt_max (length info)
    then raise runtime_error
    else ok (
        serialize_base (client_code authorized) (previous_size + 2 + length info)
        ++ (info ++ le 2 request_id))
serialize_client previous_size (refuse_connected request_id) =
    ok (serialize_base (client_code already_connected) 2 ++ le 2 request_id)
serialize_client previous_size (refuse_full request_id) =
    ok (serialize_base (client_code full_capacity) 2 ++ le 2 request_id)

-- The constructors that the server applies to the data it received. Each reads the data from its
-- start and leaves what it does not look at.
unfoldable pub deserialize_ask_ice : Reader ClientMessage
deserialize_ask_ice bytes =
    let fields : Reader ClientMessage = do
      user_id ← read_le 32
      info ← read_rest
      return (ask_ice user_id info)
    in if ltb (length bytes) id_size then raise runtime_error else fields bytes

unfoldable pub deserialize_announce : Reader ClientMessage
deserialize_announce = do my_id ← read_le 32; file_id ← read_le 32; return (announce my_id file_id)

unfoldable pub deserialize_ask_users : Reader ClientMessage
deserialize_ask_users = read_le 32 >>= λ file_id. return (ask_users file_id)

unfoldable pub deserialize_authorize : Reader ClientMessage
deserialize_authorize bytes =
    let fields : Reader ClientMessage = do
      info ← read_bytes (length bytes - 2)
      request_id ← read_le 2
      return (authorize info request_id)
    in if ltb (length bytes) 2 then raise invalid_argument else fields bytes

unfoldable pub deserialize_refusal : (ℕ → ClientMessage) → Reader ClientMessage
deserialize_refusal make = read_le 2 >>= λ request_id. return (make request_id)

-- The switch on the code: `none` where it makes no message of the data.
abbrev pub known : Reader ClientMessage → List ℕ → Outcome (Option ClientMessage)
known read bytes = bind (read bytes) (λ p. ok (some p.0))

unfoldable pub read_client : Received → Outcome (Option ClientMessage)
read_client m =
    if m.code == client_code get_user_ice_info
    then known deserialize_ask_ice m.payload
    else if m.code == client_code store
    then known deserialize_announce m.payload
    else if m.code == client_code user_list
    then known deserialize_ask_users m.payload
    else if m.code == client_code authorized
    then known deserialize_authorize m.payload
    else if m.code == client_code already_connected
    then known (deserialize_refusal refuse_connected) m.payload
    else if m.code == client_code full_capacity
    then known (deserialize_refusal refuse_full) m.payload
    else ok none
