-- ===== src/Message/Server.antt =====
-- The messages from the server to a peer: sent by Server/NetworkUnit/ServerCom/Messages.h and read by
-- Peer/NetworkUnit/ServerComm/Messages.h.
pub mod Agreement
use gitabic.Base.{ℕ, zero, suc, ◌+◌, ◌-◌, ◌*◌, ◌%◌, ◌^◌, List, [], ◌∷◌, ◌++◌, length}
use gitabic.Bytes.{ok, bind, Reader, ◌>>=◌, return, le, read_le, read_bytes}
use gitabic.Message.Frame.{serialize_base}
use gitabic.Message.Torrent.{read_rest}
use gitabic.Message.Client.{id_size}

-- enum ServerResponseCodes and enum ServerRequestCodes
pub data ServerCode : Type 0 where
  user_authorized user_already_connected user_full_capacity exists_oposite_request : ServerCode
  new_id store_success store_failure user_list_res authorize_connection : ServerCode

abbrev server_code : ServerCode → ℕ
server_code user_authorized = 11
server_code user_already_connected = 12
server_code user_full_capacity = 13
server_code exists_oposite_request = 14
server_code new_id = 55
server_code store_success = 221
server_code store_failure = 222
server_code user_list_res = 223
server_code authorize_connection = 20

-- ServerResponseNewId, ServerResponseUserList, ServerResponseUserAuthorizedICEData,
-- ServerRequestAuthorizeICEConnection, and MessageBaseToSend itself for a code alone.
pub data ServerMessage : Type 0 where
  assign_id : (id : ℕ) → ServerMessage
  users : (file_id : ℕ) → (ids : List ℕ) → ServerMessage
  ice_data : (info : List ℕ) → ServerMessage
  ask_authorization : (info : List ℕ) → (request_id : ℕ) → (sender : ℕ) → ServerMessage
  status : ServerCode → ServerMessage

unfoldable pub serialize_ids : List ℕ → List ℕ
serialize_ids [] = []
serialize_ids (id ∷ ids) = le 32 id ++ serialize_ids ids

-- The `len` of ServerRequestAuthorizeICEConnection is a `uint16_t`.
unfoldable pub serialize_server : ℕ → ServerMessage → List ℕ
serialize_server previous_size (assign_id id) =
    serialize_base (server_code new_id) id_size ++ le 32 id
serialize_server previous_size (users file_id ids) =
    serialize_base (server_code user_list_res) (length ids * id_size + id_size)
    ++ (le 32 file_id ++ serialize_ids ids)
serialize_server previous_size (ice_data info) =
    serialize_base (server_code user_authorized) (previous_size + length info) ++ info
serialize_server previous_size (ask_authorization info request_id sender) =
    serialize_base (server_code authorize_connection)
      (previous_size + 2 + length info % 2 ^ 16 + id_size)
    ++ (le 32 sender ++ (info ++ le 2 request_id))
serialize_server previous_size (status code) = serialize_base (server_code code) previous_size

unfoldable deserialize_new_id : Reader ServerMessage
deserialize_new_id = read_le 32 >>= λ id. return (assign_id id)

-- `for (size_t i = sizeof(ID); i < data.size(); i += sizeof(ID))`: the fuel is the number of bytes.
unfoldable pub read_ids : ℕ → Reader (List ℕ)
read_ids n [] = ok ([], [])
read_ids zero (b ∷ bytes) = ok ([], b ∷ bytes)
read_ids (suc n) (b ∷ bytes) =
    bind (read_le 32 (b ∷ bytes)) (λ p. bind (read_ids n p.1) (λ q. ok (p.0 ∷ q.0, q.1)))

unfoldable pub deserialize_users : Reader ServerMessage
deserialize_users bytes =
    bind (read_le 32 bytes) (λ p. bind (read_ids (length bytes) p.1) (λ q. ok (users p.0 q.0, q.1)))

unfoldable deserialize_ice_data : Reader ServerMessage
deserialize_ice_data = read_rest >>= λ info. return (ice_data info)

-- A vector of fewer than 34 bytes is read outside its bounds.
unfoldable pub deserialize_ask_authorization : Reader ServerMessage
deserialize_ask_authorization bytes = bind (read_le 32 bytes) (λ p.
    bind (read_bytes (length p.1 - 2) p.1)
      (λ q. bind (read_le 2 q.1) (λ r. ok (ask_authorization q.0 r.0 p.0, r.1))))
