-- ===== src/Peers/Manager.antt =====
-- PeerManager: the peers of one file (Peer/Torrent/PeerManager/PeerManager.cpp), together with the
-- connections that all files share. The clock, the server's and the ICE library's answers and the
-- list of peers that the server sends are arguments; times are in nanoseconds. The order of a set or map
-- is that of the list, which stands for an order that C++ leaves open.
use gitabic.Base.{
  ℕ, ◌-◌, ◌/◌, ◌^◌, Bool, true, false, ◌&&◌, not, ltb, leb, if◌then◌else◌, List, [], ◌∷◌, ◌++◌, map,
  none, some, length, filterb, lookup, contains, insert, erase,
}
use gitabic.Bytes.{Outcome, ok, raise, fault, bind}
use gitabic.Peers.Connections.{
  insert_id, erase_id, ConnectionState, IceAnswer, add_file_for_peer, remove_file_from_peer,
  is_connected,
}

pub record PeerState : Type 0 where
  pub am_choking : Bool
  pub am_interested : Bool
  pub peer_choking : Bool
  pub peer_interested : Bool
  pub download_speed : ℕ
  pub upload_speed : ℕ
  pub bitfield : List ℕ
  pub last_unchoke_time : ℕ

-- `PeerState()`
abbrev pub new_peer_state : PeerState
new_peer_state = record {
  am_choking = false;
  am_interested = false;
  peer_choking = false;
  peer_interested = false;
  download_speed = 0;
  upload_speed = 0;
  bitfield = [];
  last_unchoke_time = 0;
}

abbrev max_peers : ℕ
max_peers = 10

pub record PeerManager : Type 0 where
  pub peer_states : List (ℕ × PeerState)
  pub disconnected_peers : List ℕ
  pub back_up_peers : List ℕ
  pub black_list : List (ℕ × ℕ)
  pub file_id : ℕ
  pub is_seed : Bool
  pub new_peer_list : List ℕ

-- The entry of a peer that is taken in, by addPeer as by addConnectedPeer.
unfoldable pub enter_peer : ℕ → PeerManager → PeerManager
enter_peer peer m = record m {
  peer_states = insert peer (record new_peer_state { am_interested = not m.is_seed }) m.peer_states;
  new_peer_list = if m.is_seed then m.new_peer_list else m.new_peer_list ++ (peer ∷ []);
}

-- The result of addFileForPeer, false if it has thrown.
unfoldable pub entered : Outcome Bool → Bool
entered (ok added) = added
entered (raise e) = false
entered fault = false

unfoldable pub add_peer :
    ℕ → IceAnswer → ℕ → PeerManager × ConnectionState → PeerManager × ConnectionState
unfolding enter_peer entered insert_id
add_peer now answer peer (m, c) =
    if leb max_peers (length m.peer_states)
    then (record m { back_up_peers = insert_id peer m.back_up_peers }, c)
    else if contains peer m.peer_states
    then (m, c)
    else let added : Outcome Bool × ConnectionState = add_file_for_peer answer m.file_id peer c in
      if entered added.0
      then (enter_peer peer m, added.1)
      else (record m { black_list = insert peer now m.black_list }, added.1)

unfoldable pub add_connected_peer : ℕ → PeerManager → PeerManager
unfolding enter_peer insert_id
add_connected_peer peer m =
    if leb max_peers (length m.peer_states)
    then record m { back_up_peers = insert_id peer m.back_up_peers }
    else if contains peer m.peer_states
    then m
    else enter_peer peer m

-- removeFileFromPeer throws out of removePeer, when the peer's state is gone already.
unfoldable pub remove_peer :
    ℕ → PeerManager × ConnectionState → Outcome (Unit {0}) × PeerManager × ConnectionState
unfolding erase_id
remove_peer peer (m, c) =
    if contains peer m.peer_states
    then (let removed : Outcome (Unit {0}) × ConnectionState =
          remove_file_from_peer m.file_id peer c in
        (removed.0, record m { peer_states = erase peer m.peer_states }, removed.1))
    else (ok tt, record m { back_up_peers = erase_id peer m.back_up_peers }, c)

unfoldable get_new_peer_list : PeerManager → List ℕ × PeerManager
get_new_peer_list m = (m.new_peer_list, record m { new_peer_list = [] })

unfoldable pub is_empty : List ℕ → Bool
is_empty [] = true
is_empty (x ∷ xs) = false

unfoldable pub is_requestable : PeerState → Bool
unfolding is_empty
is_requestable p = p.am_interested && not p.peer_choking && not (is_empty p.bitfield)

-- The loops over `_peerStates` that collect the peers with a property.
unfoldable pub peers_where : (PeerState → Bool) → List (ℕ × PeerState) → List ℕ
peers_where p [] = []
peers_where p ((peer, state) ∷ states) =
    let rest : List ℕ = peers_where p states in if p state then peer ∷ rest else rest

unfoldable pub get_requestable_peers : PeerManager → List ℕ
unfolding peers_where is_requestable
get_requestable_peers m = peers_where is_requestable m.peer_states

unfoldable pub get_interested_peers : PeerManager → List ℕ
unfolding peers_where
get_interested_peers m = peers_where (λ p. p.peer_interested) m.peer_states

unfoldable pub update_peer_state : ℕ → PeerState → PeerManager → PeerManager
update_peer_state peer state m =
    if contains peer m.peer_states
    then record m { peer_states = insert peer state m.peer_states }
    else m

-- getPeerState returns a reference: what it refers to, the state that it leaves, and an assignment
-- through the reference.
unfoldable pub get_peer_state : ℕ → PeerManager → PeerState × PeerManager
get_peer_state peer m = elim (lookup peer m.peer_states) [
  | none ↦ (new_peer_state, record m { peer_states = insert peer new_peer_state m.peer_states })
  | some state ↦ (state, m)
]

unfoldable pub change_peer_state : ℕ → (PeerState → PeerState) → PeerManager → PeerManager
unfolding get_peer_state
change_peer_state peer change m =
    let got : PeerState × PeerManager = get_peer_state peer m in
    record got.1 { peer_states = insert peer (change got.0) got.1.peer_states }

unfoldable finished_file : PeerManager → PeerManager
finished_file m = record m { is_seed = true }

-- A turn of updateConnectedPeers. The first loop erases from the map that it goes through, which
-- makes its iterator invalid.
unfoldable pub sweep_black_list : ℕ → List (ℕ × ℕ) → Outcome (Unit {0})
sweep_black_list now [] = ok tt
sweep_black_list now ((peer, at) ∷ entries) =
    let rest : Outcome (Unit {0}) = sweep_black_list now entries in
    if ltb 60 ((now - at) / 10 ^ 9) then fault else rest

unfoldable pub add_listed :
    ℕ → (ℕ → IceAnswer) → List ℕ → PeerManager × ConnectionState → PeerManager × ConnectionState
unfolding add_peer
add_listed now ask [] s = s
add_listed now ask (peer ∷ peers) s =
    add_listed now ask peers
      (if contains peer s.0.black_list then s else add_peer now (ask peer) peer s)

-- `*_backUpPeers.erase(_backUpPeers.begin())`: `erase` returns the iterator behind the erased peer.
unfoldable pub next_back_up : List ℕ → Outcome (ℕ × List ℕ)
next_back_up [] = fault
next_back_up (first ∷ []) = fault
next_back_up (first ∷ second ∷ rest) = ok (second, second ∷ rest)

unfoldable pub replace_peer :
    ℕ
    → (ℕ → IceAnswer)
    → ℕ
    → PeerManager × ConnectionState
    → Outcome (PeerManager × ConnectionState)
unfolding next_back_up add_peer
replace_peer now ask peer (m, c) =
    let left : PeerManager = record m { peer_states = erase peer m.peer_states } in
    if is_empty m.back_up_peers
    then ok (left, c)
    else bind (next_back_up m.back_up_peers)
        λ next. ok (add_peer now (ask next.0) next.0 (record left { back_up_peers = next.1 }, c))

unfoldable pub drop_disconnected :
    ℕ
    → (ℕ → IceAnswer)
    → List ℕ
    → PeerManager × ConnectionState
    → Outcome (PeerManager × ConnectionState)
unfolding replace_peer
drop_disconnected now ask [] s = ok s
drop_disconnected now ask (peer ∷ peers) s =
    bind (if is_connected peer s.1 then ok s else replace_peer now ask peer s)
      (drop_disconnected now ask peers)

unfoldable pub note_disconnected : PeerManager × ConnectionState → PeerManager × ConnectionState
note_disconnected (m, c) = (
  record m {
    disconnected_peers = filterb (λ peer. not (is_connected peer c)) (map (λ p. p.0) m.peer_states);
  },
  c,
)

unfoldable pub update_connected_peers :
    ℕ
    → (ℕ → IceAnswer)
    → List ℕ
    → PeerManager × ConnectionState
    → Outcome (PeerManager × ConnectionState)
unfolding sweep_black_list add_listed drop_disconnected note_disconnected
update_connected_peers now ask listed s = bind (sweep_black_list now s.0.black_list) λ _.
    let t : PeerManager × ConnectionState = add_listed now ask listed s in
    bind (drop_disconnected now ask t.0.disconnected_peers t) (λ u. ok (note_disconnected u))
