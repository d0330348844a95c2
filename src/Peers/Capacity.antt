-- ===== src/Peers/Capacity.antt =====
-- How many connections there are (Peer/Torrent/PeersConnectionManager).
use gitabic.Base.{
  ℕ, ◌+◌, ◌≡◌, inl, inr, refl, true, false, ltb, if◌then◌else◌, Bool-cases, length, contains,
  length-insert_new,
}
use gitabic.Peers.Connections.{
  ConnectionState, user_authorized, connect_for_file, add_file_for_peer, share_ice_data,
  full_capacity, authorized_connection,
}

-- A request from a peer that is not connected yet, which then connects: with 50 connections or fewer,
-- MAXIMUM_CONNECTED_USERS among them, shareIceData makes one connection more; with 51 or more it answers
-- that there is no room, and keeps those that there are. addFileForPeer has no such test: a new peer
-- that the server authorizes and that connects becomes one connection more, however many there are.
share_ice_data_capacity :
    (peer file : ℕ) (s : ConnectionState)
    → contains peer s.peer_connections ≡ false
    → let t = share_ice_data true peer s in
      let full = ltb 50 (length s.peer_connections) in
      (t.0 ≡ (if full then full_capacity else authorized_connection))
      × (length t.1.peer_connections
          ≡ (if full then length s.peer_connections else length s.peer_connections + 1))
      × (length (add_file_for_peer (user_authorized true) file peer s).1.peer_connections
          ≡ length s.peer_connections + 1)
unfolding share_ice_data add_file_for_peer connect_for_file
share_ice_data_capacity peer file s unknown =
    let grown = length-insert_new peer true s.peer_connections unknown in
    elim (Bool-cases (ltb 50 (length s.peer_connections))) [
      | inl full ↦ rw (unknown, full) (refl, refl, grown)
      | inr room ↦ rw (unknown, room) (refl, grown, grown)
    ]
