-- ===== src/Peers/Sending.antt =====
-- A message to several peers: PeersConnectionManager::sendMessage on a vector
-- (Peer/Torrent/PeersConnectionManager/PeersConnectionManager.cpp).
use gitabic.Base.{
  ℕ, ◌≡◌, refl, ap, ◌∙◌, subst, true, false, List, [], ◌∷◌, ◌++◌, Option-cases, inl, inr, none,
  some, lookup, All,
}
use gitabic.Bytes.{Outcome, ok, raise, fault, runtime_error}
use gitabic.Peers.Connections.{
  ConnectionState, Sends, send_message, after_send, send_all, is_connected,
}

pub send_message_absent :
    (peer : ℕ) (c : ConnectionState)
    → lookup peer c.peer_connections ≡ none
    → send_message peer c ≡ (fault, c)
unfolding send_message
send_message_absent peer c absent = rw (absent, send_message) refl

pub send_message_on :
    (peer : ℕ) (c : ConnectionState)
    → lookup peer c.peer_connections ≡ some true
    → send_message peer c ≡ (ok tt, c)
unfolding send_message
send_message_on peer c found = rw (found, send_message) refl

pub send_message_off :
    (peer : ℕ) (c : ConnectionState)
    → lookup peer c.peer_connections ≡ some false
    → (send_message peer c).0 ≡ raise runtime_error
unfolding send_message
send_message_off peer c found = rw (found, send_message) refl

pub is_connected_on :
    (peer : ℕ) (c : ConnectionState)
    → lookup peer c.peer_connections ≡ some true
    → is_connected peer c ≡ true
unfolding is_connected
is_connected_on peer c found = rw (found, is_connected) refl

-- Everyone is sent the message, all of them connected.
unfoldable pub IsSent : List ℕ → ConnectionState → Sends → Type 0
IsSent peers c r = (r.0.1 ≡ c) × (r.1 ≡ peers) × All (λ peer. is_connected peer c ≡ true) peers

pub send_all-IsSent :
    (peers : List ℕ) (c : ConnectionState)
    → (send_all peers c).0.0 ≡ ok tt
    → IsSent peers c (send_all peers c)
unfolding send_all after_send IsSent
send_all-IsSent [] c h = (refl, refl, tt)
send_all-IsSent (peer ∷ peers) c h = elim (Option-cases (lookup peer c.peer_connections)) [
  | inl absent ↦ cc (
      subst (λ r. (after_send peer r (send_all peers)).0.0 ≡ ok tt)
        (send_message_absent peer c absent) h)
  | inr (true, found) ↦
      let on = send_message_on peer c found in
      let later =
        send_all-IsSent peers c
          (subst (λ r. (after_send peer r (send_all peers)).0.0 ≡ ok tt) on h) in
      (
        ap (λ r. (after_send peer r (send_all peers)).0.1) on ∙ later.0,
        ap (λ r. (after_send peer r (send_all peers)).1) on ∙ ap (◌∷◌ peer) later.1,
        (is_connected_on peer c found, later.2),
      )
  | inr (false, found) ↦ absurd (stopped (send_message peer c) (send_message_off peer c found) h)
]
  where
    stopped :
        (r : Outcome (Unit {0}) × ConnectionState)
        → r.0 ≡ raise runtime_error
        → (after_send peer r (send_all peers)).0.0 ≡ ok tt
        → ⊥
    stopped (ok t, d) e g = cc
    stopped (raise e', d) e g = cc
    stopped (fault, d) e g = cc

is_connected_absent :
    (peer : ℕ) (c : ConnectionState)
    → lookup peer c.peer_connections ≡ none
    → is_connected peer c ≡ false
unfolding is_connected
is_connected_absent peer c absent = rw (absent, is_connected) refl

is_connected_off :
    (peer : ℕ) (c : ConnectionState)
    → lookup peer c.peer_connections ≡ some false
    → is_connected peer c ≡ false
unfolding is_connected
is_connected_off peer c found = rw (found, is_connected) refl

pub is_connected-lookup :
    (peer : ℕ) (c : ConnectionState)
    → is_connected peer c ≡ true
    → lookup peer c.peer_connections ≡ some true
is_connected-lookup peer c h = elim (Option-cases (lookup peer c.peer_connections)) [
  | inl absent ↦ cc (is_connected_absent peer c absent)
  | inr (true, found) ↦ found
  | inr (false, found) ↦ cc (is_connected_off peer c found)
]

-- Connected peers are told, and what is left is done for the peers behind them.
pub send_all_connected :
    (peers rest : List ℕ) (c : ConnectionState)
    → All (λ peer. is_connected peer c ≡ true) peers
    → send_all (peers ++ rest) c ≡ ((send_all rest c).0, peers ++ (send_all rest c).1)
unfolding send_all after_send
send_all_connected [] rest c h = refl
send_all_connected (peer ∷ peers) rest c h =
    ap (λ r. after_send peer r (send_all (peers ++ rest)))
      (send_message_on peer c (is_connected-lookup peer c h.0))
    ∙ ap (λ (r : Sends). (r.0, peer ∷ r.1)) (send_all_connected peers rest c h.1)

pub send_all_disconnected :
    (peer : ℕ) (rest : List ℕ) (c : ConnectionState)
    → lookup peer c.peer_connections ≡ some false
    → ((send_all (peer ∷ rest) c).0.0 ≡ raise runtime_error) × ((send_all (peer ∷ rest) c).1 ≡ [])
unfolding send_all after_send
send_all_disconnected peer rest c found =
    raised (send_message peer c) (send_message_off peer c found)
  where
    raised :
        (r : Outcome (Unit {0}) × ConnectionState)
        → r.0 ≡ raise runtime_error
        → ((after_send peer r (send_all rest)).0.0 ≡ raise runtime_error)
          × ((after_send peer r (send_all rest)).1 ≡ [])
    raised (ok t, d) e = cc
    raised (raise e', d) e = (e, refl)
    raised (fault, d) e = cc
