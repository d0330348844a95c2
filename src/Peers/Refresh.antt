-- ===== src/Peers/Refresh.antt =====
-- Where updateConnectedPeers leaves what C++ defines (Peer/Torrent/PeerManager/PeerManager.cpp).
use gitabic.Base.{
  ℕ, ◌-◌, ◌/◌, ◌^◌, ◌<◌, ◌≡◌, inl, inr, false, lt→ltb, Bool-cases, List, [], ◌∷◌, some, lookup,
  ◌==◌, arith,
}
use gitabic.Bytes.{fault}
use gitabic.Peers.Connections.{ConnectionState, IceAnswer, is_connected}
use gitabic.Peers.Manager.{
  PeerManager, sweep_black_list, next_back_up, drop_disconnected, update_connected_peers, is_empty,
}

sweep_black_list_old :
    (now peer at : ℕ) (entries : List (ℕ × ℕ))
    → lookup peer entries ≡ some at
    → 60 < (now - at) / 10 ^ 9
    → sweep_black_list now entries ≡ fault
unfolding sweep_black_list
sweep_black_list_old now peer at [] e h = cc
sweep_black_list_old now peer at ((j, t) ∷ entries) e h = elim (Bool-cases (j == peer)) [
  | inl same ↦
      let here : t ≡ at = ground (arith, e, same) in
      rw here (rw (lt→ltb 60 ((now - at) / 10 ^ 9) h))
  | inr other ↦
      let behind : lookup peer entries ≡ some at = ground (arith, e, other) in
      ground (arith, sweep_black_list_old now peer at entries behind h)
]

-- Once an entry of the black list is more than sixty seconds old, a turn of updateConnectedPeers has
-- undefined behaviour, whatever the server lists and answers.
update_connected_peers_stale :
    (now : ℕ) (ask : ℕ → IceAnswer) (listed : List ℕ) (m : PeerManager) (c : ConnectionState)
    (peer at : ℕ)
    → lookup peer m.black_list ≡ some at
    → 60 < (now - at) / 10 ^ 9
    → update_connected_peers now ask listed (m, c) ≡ fault
unfolding update_connected_peers
update_connected_peers_stale now ask listed m c peer at e h =
    rw (sweep_black_list_old now peer at m.black_list e h)

-- With an empty black list and nobody listed by the server: if exactly one peer waits as a back-up, and
-- the first peer noted as disconnected still is, a turn of updateConnectedPeers has undefined behaviour.
update_connected_peers_single :
    (now : ℕ) (ask : ℕ → IceAnswer) (m : PeerManager) (c : ConnectionState) (peer spare : ℕ)
    (others : List ℕ)
    → m.black_list ≡ []
    → m.disconnected_peers ≡ peer ∷ others
    → m.back_up_peers ≡ spare ∷ []
    → is_connected peer c ≡ false
    → update_connected_peers now ask [] (m, c) ≡ fault
unfolding update_connected_peers is_empty
update_connected_peers_single now ask m c peer spare others none_listed noted single down =
    rw (none_listed, sweep_black_list)
      (rw (noted, drop_disconnected) (rw down (rw (single, next_back_up))))
