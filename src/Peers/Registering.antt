-- ===== src/Peers/Registering.antt =====
-- Connections made for a file: what they register (Peer/Torrent/PeersConnectionManager).
use gitabic.Base.{
  ℕ, ◌≡◌, ◌⊎◌, inl, inr, refl, sym, ap, ◌∙◌, subst, true, false, ◌==◌, ==_refl, if◌then◌else◌,
  Bool-cases, Option-cases, List, [], ◌∷◌, none, some, lookup, contains, insert, lookup-insert,
  arith,
}
use gitabic.Bytes.{ok, raise, runtime_error}
use gitabic.Signal.{touch, value}
use gitabic.Peers.Connections.{
  has, insert_id, ConnectionState, IceAnswer, exists_oposite_request, user_already_connected,
  user_full_capacity, user_authorized, insert_pair, add_to_connected, connect_for_file,
  add_file_for_peer, remove_file_from_peer, send_message, is_connected,
}
use gitabic.Peers.Registry.{files_of, has-insert_id}
use gitabic.Peers.Files.{
  contains-lookup, contains-lookup-some, contains-erase, files_of-none, files_of-some,
  remove_missing,
}

lookup-insert_self {ℓ} :
    {V : Type ℓ} (k : ℕ) (v : V) (m : List (ℕ × V)) → lookup k (insert k v m) ≡ some v
lookup-insert_self k v m = lookup-insert k k v m ∙ rw (==_refl k)

-- What `_registeredPeersFiles[peer]` returns.
value-files_of :
    (peer : ℕ) (s : ConnectionState)
    → value [] peer (touch [] peer s.registered_peers_files) ≡ files_of peer s
value-files_of peer s = elim (Option-cases (lookup peer s.registered_peers_files)) [
  | inl e ↦
      rw (contains-lookup peer s.registered_peers_files e, files_of-none peer s e)
        (rw (lookup-insert_self peer [] s.registered_peers_files, value))
  | inr (files, e) ↦
      rw (contains-lookup-some peer files s.registered_peers_files e, files_of-some peer files s e)
        (rw (e, value))
]

module _ (file peer : ℕ) (s : ConnectionState) where
  abbrev with_file : ConnectionState
  with_file = record s {
    registered_peers_files =
        insert peer (insert_id file (files_of peer s)) (touch [] peer s.registered_peers_files);
  }

  add_old : has file (files_of peer s) ≡ true → (add_to_connected file peer s).0 ≡ ok false
  unfolding add_to_connected
  add_old h = rw (value-files_of peer s) (rw h)

  add_new : has file (files_of peer s) ≡ false → add_to_connected file peer s ≡ (ok true, with_file)
  unfolding add_to_connected
  add_new h = rw (value-files_of peer s) (rw h)

  with_file_files :
      (j : ℕ)
      → has j (files_of peer with_file) ≡ (if file == j then true else has j (files_of peer s))
  with_file_files j =
      ap (has j) (
        files_of-some peer (insert_id file (files_of peer s)) with_file (
          lookup-insert_self peer (insert_id file (files_of peer s))
            (touch [] peer s.registered_peers_files)))
      ∙ has-insert_id j file (files_of peer s)

  -- What a call leaves that returns true: a peer without an entry is connected, an entry is as it was,
  -- and the file is registered for the peer, beside the files that were.
  abbrev pub IsRegistered : ConnectionState → Type 0
  IsRegistered t =
      (is_connected peer t
        ≡ (if contains peer s.peer_connections then is_connected peer s else true))
      × ((j : ℕ) → has j (files_of peer t) ≡ (if file == j then true else has j (files_of peer s)))

  abbrev new_connection : ConnectionState
  new_connection = record {
    peer_connections = insert peer true s.peer_connections;
    registered_peers_files = insert peer (file ∷ []) s.registered_peers_files;
  }

  new_connection-IsRegistered :
      contains peer s.peer_connections ≡ false
      → lookup peer s.registered_peers_files ≡ none
      → IsRegistered new_connection
  unfolding has is_connected
  new_connection-IsRegistered absent e = (
    rw absent (rw (lookup-insert_self peer true s.peer_connections, is_connected) refl),
    λ j.
        rw
          (
            files_of-some peer (file ∷ []) new_connection
                (lookup-insert_self peer (file ∷ []) s.registered_peers_files),
            files_of-none peer s e,
          )
          refl,
  )

  connecting :
      (a : IceAnswer)
      → contains peer s.peer_connections ≡ false
      → lookup peer s.registered_peers_files ≡ none
      → (connect_for_file a file peer s).0 ≡ ok true
      → IsRegistered (connect_for_file a file peer s).1
  unfolding connect_for_file insert_pair
  connecting exists_oposite_request absent e done = cc
  connecting user_already_connected absent e done = cc
  connecting user_full_capacity absent e done = cc
  connecting (user_authorized false) absent e done = cc
  connecting (user_authorized true) absent e done =
      rw (contains-lookup peer s.registered_peers_files e) (new_connection-IsRegistered absent e)

  connected :
      contains peer s.peer_connections ≡ true
      → (add_to_connected file peer s).0 ≡ ok true
      → IsRegistered (add_to_connected file peer s).1
  unfolding is_connected
  connected known done = elim (Bool-cases (has file (files_of peer s))) [
    | inl old ↦ cc (add_old old)
    | inr new ↦ subst (λ t. IsRegistered t.1) (sym (add_new new)) (rw known refl, with_file_files)
  ]

-- For a peer that has an entry among the connections, or that no file is registered for: when the call
-- returns true, the file is registered for it, beside the files that were; a peer that had no entry is
-- connected, and one that had an entry is connected if it was, so that an entry that ICE has
-- disconnected stays so.
pub add_file_for_peer-IsRegistered :
    (answer : IceAnswer) (file peer : ℕ) (s : ConnectionState)
    → (contains peer s.peer_connections ≡ true) ⊎ (lookup peer s.registered_peers_files ≡ none)
    → (add_file_for_peer answer file peer s).0 ≡ ok true
    → IsRegistered file peer s (add_file_for_peer answer file peer s).1
unfolding add_file_for_peer
add_file_for_peer-IsRegistered answer file peer s fresh =
    elim (Bool-cases (contains peer s.peer_connections)) [
      | inl known ↦
          rw known λ done. let r = connected file peer s known done in (r.0 ∙ rw known refl, r.1)
      | inr unknown ↦ rw unknown λ done.
          let r = connecting file peer s answer unknown (ground (arith, fresh, unknown)) done in
          (r.0 ∙ rw unknown refl, r.1)
    ]

-- A peer that sendMessage has found disconnected keeps its registration: a new connection for a file
-- that it was not registered for returns true and registers nothing, so that the file can then not be
-- taken off.
pub add_file_for_peer_stale :
    (file peer : ℕ) (s : ConnectionState) {files : List ℕ}
    → lookup peer s.peer_connections ≡ some false
    → lookup peer s.registered_peers_files ≡ some files
    → has file files ≡ false
    → let t = (send_message peer s).1 in
      let u = (add_file_for_peer (user_authorized true) file peer t).1 in
      ((send_message peer s).0 ≡ raise runtime_error)
      × ((add_file_for_peer (user_authorized true) file peer t).0 ≡ ok true)
      × (u.registered_peers_files ≡ s.registered_peers_files)
      × ((remove_file_from_peer file peer u).0 ≡ raise runtime_error)
unfolding add_file_for_peer connect_for_file insert_pair send_message
add_file_for_peer_stale file peer s {files} down old missing =
    rw (down, send_message)
      (rw (contains-erase peer s.peer_connections) (
        rw (contains-lookup-some peer files s.registered_peers_files old)
          (refl, refl, refl, ap (λ t. t.0) (remove_missing file peer files _ old missing))))
