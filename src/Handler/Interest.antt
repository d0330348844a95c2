-- ===== src/Handler/Interest.antt =====
-- What a peer's interest leads to (Peer/Torrent/TorrentFileHandler/TorrentFileHandler.cpp and
-- Peer/Torrent/PeerManager/PeerManager.cpp).
use gitabic.Base.{
  ℕ, ◌≡◌, inl, inr, refl, sym, ap, ◌∙◌, subst, Bool, true, false, not, ==_refl, if◌then◌else◌,
  Bool-cases, Option-cases, List, some, lookup, contains, insert, lookup-insert, arith,
}
use gitabic.Peers.Connections.{has}
use gitabic.Peers.Files.{contains-insert, contains-lookup-some}
use gitabic.Peers.Manager.{
  PeerState, new_peer_state, PeerManager, get_peer_state, change_peer_state, add_connected_peer,
  get_requestable_peers, is_requestable,
}
use gitabic.Peers.Adding.{
  IsKeyed, change_peer_state-IsKeyed, change_peer_state_states,
  get_requestable_peers-change_peer_state, insert-IsKeyed,
}
use gitabic.Handler.{handle_interested}

get_unknown :
    (peer : ℕ) (m : PeerManager)
    → contains peer m.peer_states ≡ false
    → get_peer_state peer m
      ≡ (new_peer_state, record m { peer_states = insert peer new_peer_state m.peer_states })
unfolding get_peer_state
get_unknown peer m h = elim (Option-cases (lookup peer m.peer_states)) [
  | inl e ↦ rw (e, get_peer_state)
  | inr (state, e) ↦ cc (contains-lookup-some peer state m.peer_states e)
]

-- For a peer that is entered already, addConnectedPeer changes no state and lists no new peer.
add_known :
    (peer : ℕ) (m : PeerManager)
    → contains peer m.peer_states ≡ true
    → ((add_connected_peer peer m).peer_states ≡ m.peer_states)
      × ((add_connected_peer peer m).new_peer_list ≡ m.new_peer_list)
unfolding add_connected_peer
add_known peer m h = ground (arith, h)

get_known :
    (peer : ℕ) (state : PeerState) (m : PeerManager)
    → lookup peer m.peer_states ≡ some state
    → get_peer_state peer m ≡ (state, m)
unfolding get_peer_state
get_known peer state m e = rw (e, get_peer_state)

-- The entry that fileInterested from an unknown peer leaves.
abbrev pub interested_state : PeerState
interested_state = record new_peer_state { peer_interested = true }

module _ (is_seed : Bool) (own : List ℕ) (peer : ℕ) (m : PeerManager) where
  -- The manager once the peer's state has been asked for.
  abbrev entered_manager : PeerManager
  entered_manager = record m { peer_states = insert peer new_peer_state m.peer_states }

  -- The manager after addConnectedPeer, if it is called.
  abbrev asked_manager : PeerManager
  asked_manager = if not is_seed then add_connected_peer peer entered_manager else entered_manager

  asked_same :
      (asked_manager.peer_states ≡ insert peer new_peer_state m.peer_states)
      × (asked_manager.new_peer_list ≡ m.new_peer_list)
  asked_same = elim (Bool-cases is_seed) [
    | inl seed ↦ rw seed (refl, refl)
    | inr other ↦
        rw other
          (add_known peer entered_manager (contains-insert peer new_peer_state m.peer_states))
  ]

  asked_lookup : lookup peer asked_manager.peer_states ≡ some new_peer_state
  asked_lookup =
      ap (lookup peer) asked_same.0
      ∙ lookup-insert peer peer new_peer_state m.peer_states
      ∙ rw (==_refl peer)

  module _ (unknown : contains peer m.peer_states ≡ false) where
    handle_interested_manager :
        (handle_interested is_seed own peer m).1
        ≡ change_peer_state peer (λ p. record p { peer_interested = true }) asked_manager
    unfolding handle_interested
    handle_interested_manager = rw (get_unknown peer m unknown)

    interested_lookup :
        lookup peer (handle_interested is_seed own peer m).1.peer_states ≡ some interested_state
    interested_lookup =
        ap (λ t. lookup peer t.peer_states) handle_interested_manager
        ∙ change_peer_state_states peer (λ p. record p { peer_interested = true }) asked_manager
            peer
        ∙ rw (==_refl peer, get_known peer new_peer_state asked_manager asked_lookup)

    interested_list : (handle_interested is_seed own peer m).1.new_peer_list ≡ m.new_peer_list
    unfolding change_peer_state
    interested_list =
        ap (λ t. t.new_peer_list) handle_interested_manager
        ∙ ap (λ g. g.1.new_peer_list) (get_known peer new_peer_state asked_manager asked_lookup)
        ∙ asked_same.1

    interested-IsKeyed :
        IsKeyed m.peer_states → IsKeyed (handle_interested is_seed own peer m).1.peer_states
    interested-IsKeyed h =
        subst (λ t. IsKeyed t.peer_states) (sym handle_interested_manager)
          (change_peer_state-IsKeyed peer (λ p. record p { peer_interested = true }) asked_manager
            (subst IsKeyed (sym asked_same.0) (insert-IsKeyed peer new_peer_state m.peer_states h)))

-- When a peer that the manager does not know says that it is interested, the peer is entered, but not as
-- one that we are interested in, also where the handler is no seed and answers with an interest of its
-- own, and it is not listed as a new peer; and whatever bit field the peer then sends, it is none of
-- those that can be asked for blocks.
pub handle_interested_unknown :
    (is_seed : Bool) (own field : List ℕ) (peer : ℕ) (m : PeerManager)
    → IsKeyed m.peer_states
    → contains peer m.peer_states ≡ false
    → let s = (handle_interested is_seed own peer m).1 in
      (lookup peer s.peer_states ≡ some interested_state)
      × (s.new_peer_list ≡ m.new_peer_list)
      × (has peer
            (get_requestable_peers (change_peer_state peer (λ p. record p { bitfield = field }) s))
          ≡ false)
unfolding is_requestable
handle_interested_unknown is_seed own field peer m keyed unknown =
    let s = (handle_interested is_seed own peer m).1 in
    let at = interested_lookup is_seed own peer m unknown in
    (
      at,
      interested_list is_seed own peer m unknown,
      get_requestable_peers-change_peer_state peer (λ p. record p { bitfield = field }) s peer
            (interested-IsKeyed is_seed own peer m unknown keyed)
          ∙ rw (==_refl peer, get_known peer interested_state s at),
    )
