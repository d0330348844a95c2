-- ===== src/Peers/Bound.antt =====
-- The limit of ten peers (Peer/Torrent/PeerManager/PeerManager.cpp).
use gitabic.Base.{
  ℕ, ◌+◌, ◌≤◌, ◌≡◌, inl, inr, subst, true, false, if◌then◌else◌, Bool-cases, Option-cases, List, [],
  ◌∷◌, length, lookup, contains, insert, erase, length-insert_new, length-erase, arith,
}
use gitabic.Bytes.{Outcome, ok, raise, fault, bind}
use gitabic.Bytes.Ensures.{Ensures, Ensures-bind}
use gitabic.Peers.Connections.{ConnectionState, IceAnswer, is_connected}
use gitabic.Peers.Files.{contains-lookup, contains-lookup-some}
use gitabic.Peers.Manager.{
  PeerState, new_peer_state, PeerManager, enter_peer, add_peer, add_connected_peer, remove_peer,
  update_peer_state, get_peer_state, add_listed, next_back_up, replace_peer, drop_disconnected,
  note_disconnected, sweep_black_list, update_connected_peers, is_empty,
}

abbrev pub IsBounded : PeerManager → Type 0
IsBounded m = length m.peer_states ≤ 10

length-insert_old {ℓ} :
    {V : Type ℓ} (k : ℕ) (v : V) (m : List (ℕ × V))
    → contains k m ≡ true
    → length (insert k v m) ≡ length m
length-insert_old k v [] h = cc
length-insert_old k v ((j, w) ∷ m) h = ground (arith, h, length-insert_old k v m)

length-enter_peer :
    (peer : ℕ) (m : PeerManager)
    → contains peer m.peer_states ≡ false
    → length (enter_peer peer m).peer_states ≡ length m.peer_states + 1
unfolding enter_peer
length-enter_peer peer m h = length-insert_new peer _ m.peer_states h

add_peer-IsBounded :
    (now : ℕ) (answer : IceAnswer) (peer : ℕ) (m : PeerManager) (c : ConnectionState)
    → IsBounded m
    → IsBounded (add_peer now answer peer (m, c)).0
unfolding add_peer
add_peer-IsBounded now answer peer m c h = ground (arith, length-enter_peer peer m)

add_connected_peer-IsBounded :
    (peer : ℕ) (m : PeerManager) → IsBounded m → IsBounded (add_connected_peer peer m)
unfolding add_connected_peer
add_connected_peer-IsBounded peer m h = ground (arith, length-enter_peer peer m)

add_listed-IsBounded :
    (now : ℕ) (ask : ℕ → IceAnswer) (peers : List ℕ) (s : PeerManager × ConnectionState)
    → IsBounded s.0
    → IsBounded (add_listed now ask peers s).0
unfolding add_listed
add_listed-IsBounded now ask [] s h = h
add_listed-IsBounded now ask (peer ∷ peers) s h =
    add_listed-IsBounded now ask peers _ (elim (Bool-cases (contains peer s.0.black_list)) [
      | inl listed ↦ rw listed h
      | inr new ↦ rw new (add_peer-IsBounded now (ask peer) peer s.0 s.1 h)
    ])

-- A result, if there is one, has at most ten peers.
abbrev Keeps : Outcome (PeerManager × ConnectionState) → Type 0
Keeps o = Ensures (λ t. IsBounded t.0) o

added_next :
    (now : ℕ) (ask : ℕ → IceAnswer) (m : PeerManager) (c : ConnectionState)
    (next : Outcome (ℕ × List ℕ))
    → IsBounded m
    → Keeps (bind next λ n. ok (add_peer now (ask n.0) n.0 (record m { back_up_peers = n.1 }, c)))
added_next now ask m c (ok n) h =
    add_peer-IsBounded now (ask n.0) n.0 (record m { back_up_peers = n.1 }) c h
added_next now ask m c (raise e) h = tt
added_next now ask m c fault h = tt

replace_peer-IsBounded :
    (now : ℕ) (ask : ℕ → IceAnswer) (peer : ℕ) (s : PeerManager × ConnectionState)
    → IsBounded s.0
    → Keeps (replace_peer now ask peer s)
unfolding replace_peer
replace_peer-IsBounded now ask peer (m, c) h =
    let left = record m { peer_states = erase peer m.peer_states } in
    let small : IsBounded left = omega (arith, length-erase peer m.peer_states) in
    elim (Bool-cases (is_empty m.back_up_peers)) [
      | inl none_left ↦ rw none_left small
      | inr some_left ↦
          rw some_left (added_next now ask left c (next_back_up m.back_up_peers) small)
    ]

drop_disconnected-IsBounded :
    (now : ℕ) (ask : ℕ → IceAnswer) (peers : List ℕ) (s : PeerManager × ConnectionState)
    → IsBounded s.0
    → Keeps (drop_disconnected now ask peers s)
unfolding drop_disconnected
drop_disconnected-IsBounded now ask [] s h = h
drop_disconnected-IsBounded now ask (peer ∷ peers) s h =
    Ensures-bind (λ t. IsBounded t.0) (λ t. IsBounded t.0) _ _
      (elim (Bool-cases (is_connected peer s.1)) [
        | inl up ↦ rw up h
        | inr down ↦ rw down (replace_peer-IsBounded now ask peer s h)
      ])
      (drop_disconnected-IsBounded now ask peers)

rest_of_turn-IsBounded :
    (now : ℕ) (ask : ℕ → IceAnswer) (s : PeerManager × ConnectionState)
    → IsBounded s.0
    → Keeps
        (bind (drop_disconnected now ask s.0.disconnected_peers s) (λ u. ok (note_disconnected u)))
unfolding note_disconnected
rest_of_turn-IsBounded now ask s h =
    Ensures-bind (λ t. IsBounded t.0) (λ t. IsBounded t.0) _ _
      (drop_disconnected-IsBounded now ask _ s h) (λ u k. k)

turn-IsBounded :
    (now : ℕ) (ask : ℕ → IceAnswer) (listed : List ℕ) (m : PeerManager) (c : ConnectionState)
    → IsBounded m
    → Keeps (update_connected_peers now ask listed (m, c))
unfolding update_connected_peers
turn-IsBounded now ask listed m c h = after (sweep_black_list now m.black_list)
  where
    after :
        (o : Outcome (Unit {0}))
        → Keeps (
            bind o λ x.
              bind
                (drop_disconnected now ask
                  (add_listed now ask listed (m, c)).0.disconnected_peers
                  (add_listed now ask listed (m, c)))
                (λ u. ok (note_disconnected u)))
    after (ok t) =
        rest_of_turn-IsBounded now ask (add_listed now ask listed (m, c))
          (add_listed-IsBounded now ask listed (m, c) h)
    after (raise e) = tt
    after fault = tt

remove_peer-IsBounded :
    (peer : ℕ) (m : PeerManager) (c : ConnectionState)
    → IsBounded m
    → IsBounded (remove_peer peer (m, c)).1
unfolding remove_peer
remove_peer-IsBounded peer m c h = ground (arith, length-erase peer m.peer_states)

update_peer_state-IsBounded :
    (peer : ℕ) (state : PeerState) (m : PeerManager)
    → IsBounded m
    → IsBounded (update_peer_state peer state m)
unfolding update_peer_state
update_peer_state-IsBounded peer state m h =
    ground (arith, length-insert_old peer state m.peer_states)

length-get_peer_state :
    (peer : ℕ) (m : PeerManager)
    → length (get_peer_state peer m).1.peer_states
      ≡ (if contains peer m.peer_states then length m.peer_states else length m.peer_states + 1)
unfolding get_peer_state
length-get_peer_state peer m = elim (Option-cases (lookup peer m.peer_states)) [
  | inl e ↦
      let unknown = contains-lookup peer m.peer_states e in
      rw (e, get_peer_state)
        (rw unknown (length-insert_new peer new_peer_state m.peer_states unknown))
  | inr (state, e) ↦ rw (e, get_peer_state) (rw (contains-lookup-some peer state m.peer_states e))
]

-- Where there are at most ten peers, a turn of updateConnectedPeers that comes to an end leaves at most
-- ten, whatever the server lists and answers; so do addPeer, addConnectedPeer, removePeer and
-- updatePeerState. getPeerState has no such bound: for a peer that it does not know it makes one more.
pub update_connected_peers-IsBounded :
    (now : ℕ) (ask : ℕ → IceAnswer) (listed : List ℕ) (m : PeerManager) (c : ConnectionState)
    (t : PeerManager × ConnectionState) (peer : ℕ) (state : PeerState)
    → IsBounded m
    → update_connected_peers now ask listed (m, c) ≡ ok t
    → IsBounded t.0
      × IsBounded (add_peer now (ask peer) peer (m, c)).0
      × IsBounded (add_connected_peer peer m)
      × IsBounded (remove_peer peer (m, c)).1
      × IsBounded (update_peer_state peer state m)
      × (length (get_peer_state peer m).1.peer_states ≡ (
          if contains peer m.peer_states then length m.peer_states else length m.peer_states + 1))
update_connected_peers-IsBounded now ask listed m c t peer state h e = (
  subst Keeps e (turn-IsBounded now ask listed m c h),
  add_peer-IsBounded now (ask peer) peer m c h,
  add_connected_peer-IsBounded peer m h,
  remove_peer-IsBounded peer m c h,
  update_peer_state-IsBounded peer state m h,
  length-get_peer_state peer m,
)
