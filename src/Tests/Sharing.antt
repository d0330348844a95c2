-- ===== src/Tests/Sharing.antt =====
-- Peers 5, 6, 7 and 8 and the files 1, 2 and 3 that they share.
use gitabic.Base.{
  ℕ, ◌+◌, ◌≡◌, inl, refl, true, false, if◌then◌else◌, [], ◌∷◌, length, contains, arith,
}
use gitabic.Bytes.{ok, raise, runtime_error}
use gitabic.Peers.Connections.{
  has, ConnectionState, IceAnswer, user_authorized, user_full_capacity, add_file_for_peer,
  add_to_connected, remove_file_from_peer, send_message,
}
use gitabic.Peers.Registry.{files_of, IsDistinct, IsSound}
use gitabic.Peers.Files.{IsRemoved, remove_file_from_peer-IsRemoved}
use gitabic.Peers.Registering.{
  IsRegistered, add_file_for_peer-IsRegistered, add_file_for_peer_stale,
}
use gitabic.Peers.Manager.{
  PeerState, PeerManager, new_peer_state, get_peer_state, add_peer, add_connected_peer, remove_peer,
  update_peer_state, update_connected_peers, sweep_black_list, add_listed, drop_disconnected,
  note_disconnected,
}
use gitabic.Peers.Bound.{IsBounded, update_connected_peers-IsBounded}

abbrev connections : ConnectionState
connections = record {
  peer_connections = (5, true) ∷ (6, false) ∷ [];
  registered_peers_files = (5, 1 ∷ 2 ∷ []) ∷ (6, 1 ∷ []) ∷ [];
}

remove_file_from_peer-IsRemoved_example :
    ((remove_file_from_peer 1 5 connections).0 ≡ ok tt)
    × IsRemoved 1 5 connections (remove_file_from_peer 1 5 connections).1
remove_file_from_peer-IsRemoved_example =
    remove_file_from_peer-IsRemoved 1 5 connections
      (unfold IsSound in
        unfold IsDistinct in
        unfold has in ((omega arith, (refl, (refl, tt))), ((omega arith, (refl, tt)), tt)))
      (unfold files_of in unfold has in refl)

add_file_for_peer-IsRegistered_example :
    IsRegistered 3 5 connections (add_file_for_peer user_full_capacity 3 5 connections).1
add_file_for_peer-IsRegistered_example =
    add_file_for_peer-IsRegistered user_full_capacity 3 5 connections (inl refl)
      (unfold add_file_for_peer in unfold add_to_connected in unfold has in refl)

add_file_for_peer_stale_example :
    let t = (send_message 6 connections).1 in
    let u = (add_file_for_peer (user_authorized true) 3 6 t).1 in
    ((send_message 6 connections).0 ≡ raise runtime_error)
    × ((add_file_for_peer (user_authorized true) 3 6 t).0 ≡ ok true)
    × (u.registered_peers_files ≡ connections.registered_peers_files)
    × ((remove_file_from_peer 3 6 u).0 ≡ raise runtime_error)
add_file_for_peer_stale_example =
    add_file_for_peer_stale 3 6 connections refl refl (unfold has in refl)

-- We are interested in peer 6 and wait for its bit field; peer 7 is a back-up.
abbrev awaited : PeerState
awaited = record new_peer_state { am_interested = true }

abbrev manager : PeerManager
manager = record {
  peer_states = (6, awaited) ∷ [];
  disconnected_peers = 6 ∷ [];
  back_up_peers = 7 ∷ [];
  black_list = [];
  file_id = 1;
  is_seed = false;
  new_peer_list = [];
}

abbrev refuses : (ℕ → IceAnswer)
refuses _ = user_full_capacity

-- Peer 8 is listed as well, and refused; nobody was noted as disconnected.
abbrev calm : PeerManager
calm = record manager { disconnected_peers = [] }

abbrev after_turn : PeerManager × ConnectionState
after_turn = note_disconnected (add_listed 5 refuses (8 ∷ []) (calm, connections))

update_connected_peers-IsBounded_example :
    IsBounded after_turn.0
    × IsBounded (add_peer 5 (refuses 8) 8 (calm, connections)).0
    × IsBounded (add_connected_peer 8 calm)
    × IsBounded (remove_peer 8 (calm, connections)).1
    × IsBounded (update_peer_state 8 awaited calm)
    × (length (get_peer_state 8 calm).1.peer_states ≡ (
        if contains 8 calm.peer_states
        then length calm.peer_states
        else length calm.peer_states + 1))
unfolding add_file_for_peer
update_connected_peers-IsBounded_example =
    update_connected_peers-IsBounded 5 refuses (8 ∷ []) calm connections after_turn 8 awaited
      (omega arith)
      (unfold update_connected_peers in
        unfold sweep_black_list in unfold add_listed in unfold drop_disconnected in refl)

-- Peer 9 was entered in the black list 61 seconds ago.
abbrev suspicious : PeerManager
suspicious = record manager { black_list = (9, 0) ∷ [] }
