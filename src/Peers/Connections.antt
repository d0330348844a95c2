-- ===== src/Peers/Connections.antt =====
-- PeersConnectionManager: which peers are connected, and for which files
-- (Peer/Torrent/PeersConnectionManager/PeersConnectionManager.cpp). What the server and the ICE
-- library answer is an argument. Each operation is one step, though sendMessage, addFileForPeer and
-- removeFileFromPeer let go of a lock in between: calls that run one after the other are modelled.
use gitabic.Base.{
  ℕ, Bool, true, false, ltb, ◌==◌, if◌then◌else◌, List, [], ◌∷◌, map, none, some, length, lookup,
  contains, insert, erase,
}
use gitabic.Bytes.{Outcome, ok, raise, fault, runtime_error}
use gitabic.Signal.{touch, value}

-- `std::unordered_set<FileID>`: a member stands once.
unfoldable pub has : ℕ → List ℕ → Bool
has k [] = false
has k (x ∷ xs) = if x == k then true else has k xs

unfoldable pub insert_id : ℕ → List ℕ → List ℕ
unfolding has
insert_id k xs = if has k xs then xs else k ∷ xs

unfoldable pub erase_id : ℕ → List ℕ → List ℕ
erase_id k [] = []
erase_id k (x ∷ xs) = if x == k then xs else x ∷ erase_id k xs

-- A connection is entered with whether ICE has it connected.
pub record ConnectionState : Type 0 where
  pub peer_connections : List (ℕ × Bool)
  pub registered_peers_files : List (ℕ × List ℕ)

-- The code of the server's answer to ClientRequestGetUserICEInfo; with the other peer's data comes
-- what connectToPeer then returns.
pub data IceAnswer : Type 0 where
  exists_oposite_request user_already_connected user_full_capacity : IceAnswer
  user_authorized : Bool → IceAnswer

-- `insert` of a pair leaves a map alone that has the key.
unfoldable pub insert_pair : ℕ → List ℕ → List (ℕ × List ℕ) → List (ℕ × List ℕ)
insert_pair k v m = if contains k m then m else insert k v m

-- Both use `_registeredPeersFiles[peer]`.
unfoldable pub add_to_connected : ℕ → ℕ → ConnectionState → Outcome Bool × ConnectionState
unfolding insert_id has
add_to_connected file peer s =
    let registered : List (ℕ × List ℕ) = touch [] peer s.registered_peers_files in
    if has file (value [] peer registered)
    then (ok false, record s { registered_peers_files = registered })
    else (
      ok true,
      record s {
        registered_peers_files = insert peer (insert_id file (value [] peer registered)) registered;
      },
    )

unfoldable pub connect_for_file :
    IceAnswer → ℕ → ℕ → ConnectionState → Outcome Bool × ConnectionState
unfolding insert_pair
connect_for_file exists_oposite_request file peer s = (ok false, s)
connect_for_file user_already_connected file peer s = (raise runtime_error, s)
connect_for_file user_full_capacity file peer s = (ok false, s)
connect_for_file (user_authorized false) file peer s = (ok false, s)
connect_for_file (user_authorized true) file peer s = (
  ok true,
  record {
    peer_connections = insert peer true s.peer_connections;
    registered_peers_files = insert_pair peer (file ∷ []) s.registered_peers_files;
  },
)

unfoldable pub add_file_for_peer :
    IceAnswer → ℕ → ℕ → ConnectionState → Outcome Bool × ConnectionState
unfolding add_to_connected connect_for_file
add_file_for_peer answer file peer s =
    if contains peer s.peer_connections
    then add_to_connected file peer s
    else connect_for_file answer file peer s

-- With the files that the peer is registered for.
unfoldable pub remove_registered :
    ℕ → ℕ → List ℕ → ConnectionState → Outcome (Unit {0}) × ConnectionState
unfolding has erase_id
remove_registered file peer files s =
    if has file files
    then (
      ok tt,
      if length files == 1
          then record {
            peer_connections = erase peer s.peer_connections;
            registered_peers_files = erase peer s.registered_peers_files;
          }
          else record s {
            registered_peers_files = insert peer (erase_id file files) s.registered_peers_files;
          },
    )
    else (raise runtime_error, s)

unfoldable pub remove_file_from_peer :
    ℕ → ℕ → ConnectionState → Outcome (Unit {0}) × ConnectionState
unfolding remove_registered
remove_file_from_peer file peer s = elim (lookup peer s.registered_peers_files) [
  | none ↦ (raise runtime_error, s)
  | some files ↦ remove_registered file peer files s
]

-- The mutex of an entry is locked before the iterator is compared with the end.
unfoldable pub send_message : ℕ → ConnectionState → Outcome (Unit {0}) × ConnectionState
send_message peer s = elim (lookup peer s.peer_connections) [
  | none ↦ (fault, s)
  | some connected ↦
      if connected
      then (ok tt, s)
      else (raise runtime_error, record s { peer_connections = erase peer s.peer_connections })
]

-- What a call on several peers leaves, with the peers whose connections have taken the message, in order.
abbrev pub Sends : Type 0
Sends = (Outcome (Unit {0}) × ConnectionState) × List ℕ

-- The overload on a vector stops at the first exception.
unfoldable pub after_send :
    ℕ → Outcome (Unit {0}) × ConnectionState → (ConnectionState → Sends) → Sends
after_send peer (ok t, s) rest = let r = rest s in (r.0, peer ∷ r.1)
after_send peer (raise e, s) rest = ((raise e, s), [])
after_send peer (fault, s) rest = ((fault, s), [])

unfoldable pub send_all : List ℕ → ConnectionState → Sends
unfolding send_message after_send
send_all [] s = ((ok tt, s), [])
send_all (peer ∷ peers) s = after_send peer (send_message peer s) (send_all peers)

unfoldable broadcast : ConnectionState → Sends
unfolding send_all
broadcast s = send_all (map (λ p. p.0) s.registered_peers_files) s

abbrev maximum_connected_users : ℕ
maximum_connected_users = 50

pub data IceReply : Type 0 where
  already_connected full_capacity authorized_connection : IceReply

-- A turn of the loop of shareIceData, for a request from `peer`; `connects` is what connectToPeer
-- returns.
unfoldable pub share_ice_data : Bool → ℕ → ConnectionState → IceReply × ConnectionState
share_ice_data connects peer s =
    if contains peer s.peer_connections
    then (already_connected, s)
    else if ltb maximum_connected_users (length s.peer_connections)
    then (full_capacity, s)
    else (
      authorized_connection,
      if connects then record s { peer_connections = insert peer true s.peer_connections } else s,
    )

unfoldable pub is_connected : ℕ → ConnectionState → Bool
is_connected peer s = elim (lookup peer s.peer_connections) [
  | none ↦ false
  | some connected ↦ connected
]
