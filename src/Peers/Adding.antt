-- ===== src/Peers/Adding.antt =====
-- Which peers can be asked for blocks (Peer/Torrent/PeerManager/PeerManager.cpp).
use gitabic.Base.{
  ℕ, ◌≡◌, inl, inr, refl, sym, ap, ◌∙◌, subst, Bool, true, false, ◌==◌, ==_iff, if◌then◌else◌,
  Bool-cases, Option-cases, List, [], ◌∷◌, Option, none, some, lookup, contains, insert,
  lookup-insert, arith,
}
use gitabic.Peers.Connections.{has}
use gitabic.Peers.Manager.{
  PeerState, new_peer_state, PeerManager, peers_where, is_requestable, get_requestable_peers,
  get_peer_state, change_peer_state,
}

-- No key stands twice.
unfoldable pub IsKeyed {ℓ} : {V : Type ℓ} → List (ℕ × V) → Type 0
IsKeyed [] = Unit
IsKeyed ((k, v) ∷ m) = (contains k m ≡ false) × IsKeyed m

contains-insert_other {ℓ} :
    {V : Type ℓ} (j k : ℕ) (v : V) (m : List (ℕ × V))
    → contains j (insert k v m) ≡ (if k == j then true else contains j m)
contains-insert_other j k v [] = refl
contains-insert_other j k v ((i, w) ∷ m) = ground (arith, contains-insert_other j k v m)

pub insert-IsKeyed {ℓ} :
    {V : Type ℓ} (k : ℕ) (v : V) (m : List (ℕ × V)) → IsKeyed m → IsKeyed (insert k v m)
unfolding IsKeyed
insert-IsKeyed k v [] h = (refl, tt)
insert-IsKeyed k v ((j, w) ∷ m) h = elim (Bool-cases (j == k)) [
  | inl same ↦
      let e : j ≡ k = (==_iff j k).0 same in rw same (subst (λ x. contains x m ≡ false) e h.0, h.1)
  | inr other ↦
      rw other
        (contains-insert_other j k v m ∙ ground (arith, h.0, other), insert-IsKeyed k v m h.1)
]

-- A property of the state that is entered for a peer, false if none is.
unfoldable holds_at : (PeerState → Bool) → Option PeerState → Bool
holds_at p none = false
holds_at p (some state) = p state

lookup_missing {ℓ} :
    {V : Type ℓ} (k : ℕ) (m : List (ℕ × V)) → contains k m ≡ false → lookup k m ≡ none
lookup_missing k [] h = refl
lookup_missing k ((j, w) ∷ m) h = ground (arith, h, lookup_missing k m)

has-peers_where :
    (p : PeerState → Bool) (q : ℕ) (m : List (ℕ × PeerState))
    → IsKeyed m
    → has q (peers_where p m) ≡ holds_at p (lookup q m)
unfolding has peers_where holds_at IsKeyed
has-peers_where p q [] h = refl
has-peers_where p q ((j, state) ∷ m) h = elim (Bool-cases (j == q)) [
  | inl same ↦
      let e : j ≡ q = (==_iff j q).0 same in
      let gone : has q (peers_where p m) ≡ false =
        has-peers_where p q m h.1
        ∙ ap (holds_at p) (lookup_missing q m (subst (λ x. contains x m ≡ false) e h.0)) in
      elim (Bool-cases (p state)) [
        | inl in_it ↦ rw (in_it, same) (sym in_it)
        | inr not_in_it ↦ rw (not_in_it, same) (gone ∙ sym not_in_it)
      ]
  | inr other ↦
      let behind : lookup q ((j, state) ∷ m) ≡ lookup q m = rw other in
      elim (Bool-cases (p state)) [
        | inl in_it ↦ rw in_it (rw (other, has) (has-peers_where p q m h.1))
        | inr not_in_it ↦ rw not_in_it (has-peers_where p q m h.1 ∙ ap (holds_at p) (sym behind))
      ]
]

get_peer_state_states :
    (peer : ℕ) (m : PeerManager) (q : ℕ)
    → lookup q (get_peer_state peer m).1.peer_states
      ≡ (if peer == q then some (get_peer_state peer m).0 else lookup q m.peer_states)
unfolding get_peer_state
get_peer_state_states peer m q = elim (Option-cases (lookup peer m.peer_states)) [
  | inl e ↦ rw (e, get_peer_state) (lookup-insert peer q new_peer_state m.peer_states)
  | inr (state, e) ↦
      rw (e, get_peer_state)
        (elim (Bool-cases (peer == q)) [
          | inl same ↦ rw same (ap (λ x. lookup x m.peer_states) (sym ((==_iff peer q).0 same)) ∙ e)
          | inr other ↦ rw other
        ])
]

get_peer_state-IsKeyed :
    (peer : ℕ) (m : PeerManager)
    → IsKeyed m.peer_states
    → IsKeyed (get_peer_state peer m).1.peer_states
unfolding get_peer_state
get_peer_state-IsKeyed peer m h = elim (Option-cases (lookup peer m.peer_states)) [
  | inl e ↦ rw (e, get_peer_state) (insert-IsKeyed peer new_peer_state m.peer_states h)
  | inr (state, e) ↦ rw (e, get_peer_state) h
]

pub change_peer_state_states :
    (peer : ℕ) (f : PeerState → PeerState) (m : PeerManager) (q : ℕ)
    → lookup q (change_peer_state peer f m).peer_states
      ≡ (if peer == q then some (f (get_peer_state peer m).0) else lookup q m.peer_states)
unfolding change_peer_state
change_peer_state_states peer f m q =
    lookup-insert peer q (f (get_peer_state peer m).0) (get_peer_state peer m).1.peer_states
    ∙ elim (Bool-cases (peer == q)) [
      | inl same ↦ rw same
      | inr other ↦ rw other (get_peer_state_states peer m q ∙ rw other)
    ]

pub change_peer_state-IsKeyed :
    (peer : ℕ) (f : PeerState → PeerState) (m : PeerManager)
    → IsKeyed m.peer_states
    → IsKeyed (change_peer_state peer f m).peer_states
unfolding change_peer_state
change_peer_state-IsKeyed peer f m h =
    insert-IsKeyed peer (f (get_peer_state peer m).0) (get_peer_state peer m).1.peer_states
      (get_peer_state-IsKeyed peer m h)

-- A peer can be asked for blocks exactly if the state that is entered for it says that we are
-- interested, that it does not choke us, and that it has sent a bit field.
has-get_requestable_peers :
    (q : ℕ) (m : PeerManager)
    → IsKeyed m.peer_states
    → has q (get_requestable_peers m) ≡ holds_at is_requestable (lookup q m.peer_states)
unfolding get_requestable_peers
has-get_requestable_peers q m h = has-peers_where is_requestable q m.peer_states h

-- After an assignment through getPeerState a peer can be asked exactly if its new state allows it;
-- for every other peer nothing has changed.
pub get_requestable_peers-change_peer_state :
    (peer : ℕ) (f : PeerState → PeerState) (m : PeerManager) (q : ℕ)
    → IsKeyed m.peer_states
    → has q (get_requestable_peers (change_peer_state peer f m)) ≡ (
        if peer == q
        then is_requestable (f (get_peer_state peer m).0)
        else has q (get_requestable_peers m))
unfolding holds_at
get_requestable_peers-change_peer_state peer f m q h =
    has-get_requestable_peers q (change_peer_state peer f m) (change_peer_state-IsKeyed peer f m h)
    ∙ ap (holds_at is_requestable) (change_peer_state_states peer f m q)
    ∙ elim (Bool-cases (peer == q)) [
      | inl same ↦ rw same
      | inr other ↦ rw other (sym (has-get_requestable_peers q m h))
    ]
