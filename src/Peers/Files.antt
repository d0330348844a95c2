-- ===== src/Peers/Files.antt =====
-- Adding a file to a peer's connection and taking it off (Peer/Torrent/PeersConnectionManager).
use gitabic.Base.{
  ℕ, ◌≡◌, ◌≢◌, ◌⊎◌, inl, inr, refl, sym, ap, ◌∙◌, subst, Bool, true, false, ◌==◌, ==_iff, ==_refl,
  not, if◌then◌else◌, Bool-cases, Option-cases, List, [], ◌∷◌, none, some, length, lookup, contains,
  insert, erase, lookup-insert, lookup-erase, arith,
}
use gitabic.Bytes.{ok, raise, runtime_error}
use gitabic.Peers.Connections.{
  has, erase_id, ConnectionState, remove_registered, remove_file_from_peer,
}
use gitabic.Peers.Registry.{files_of, IsDistinct, IsSound, has-erase_id, lookup-IsSound}

pub contains-lookup {ℓ} :
    {V : Type ℓ} (k : ℕ) (m : List (ℕ × V)) → lookup k m ≡ none → contains k m ≡ false
contains-lookup k [] e = refl
contains-lookup k ((j, v) ∷ m) e = ground (arith, e, contains-lookup k m)

pub contains-lookup-some {ℓ} :
    {V : Type ℓ} (k : ℕ) (v : V) (m : List (ℕ × V)) → lookup k m ≡ some v → contains k m ≡ true
contains-lookup-some k v [] e = cc
contains-lookup-some k v ((j, w) ∷ m) e = ground (arith, e, contains-lookup-some k v m)

pub contains-insert {ℓ} :
    {V : Type ℓ} (k : ℕ) (v : V) (m : List (ℕ × V)) → contains k (insert k v m) ≡ true
contains-insert k v [] = ground arith
contains-insert k v ((j, w) ∷ m) = ground (arith, contains-insert k v m)

pub contains-erase {ℓ} : {V : Type ℓ} (k : ℕ) (m : List (ℕ × V)) → contains k (erase k m) ≡ false
contains-erase k [] = refl
contains-erase k ((j, w) ∷ m) = ground (arith, contains-erase k m)

-- What a removal leaves: just this file is gone from the peer's files, other peers keep theirs, and
-- the peer's registration and its connection are dropped exactly if the file was its last.
pub record IsRemoved (file peer : ℕ) (s t : ConnectionState) : Type 0 where
  pub gone :
      (j : ℕ) → has j (files_of peer t) ≡ (if file == j then false else has j (files_of peer s))
  pub others :
      (q : ℕ) → (q ≡ peer) ⊎ (lookup q t.registered_peers_files ≡ lookup q s.registered_peers_files)
  pub registered : contains peer t.registered_peers_files ≡ not (length (files_of peer s) == 1)
  pub connections : t.peer_connections ≡ (
      if length (files_of peer s) == 1 then erase peer s.peer_connections else s.peer_connections)

has_none : (j : ℕ) → has j [] ≡ false
unfolding has
has_none j = refl

has_single :
    (j k : ℕ) (xs : List ℕ)
    → has k xs ≡ true
    → length xs ≡ 1
    → has j xs ≡ (if k == j then true else false)
unfolding has
has_single j k [] h e = cc
has_single j k (x ∷ []) h e = ground (arith, h)
has_single j k (x ∷ y ∷ xs) h e = absurd (omega arith)

==_other : (k j : ℕ) → j ≢ k → (k == j) ≡ false
==_other k j h = ground (arith, h)

pub files_of-none :
    (peer : ℕ) (s : ConnectionState)
    → lookup peer s.registered_peers_files ≡ none
    → files_of peer s ≡ []
unfolding files_of
files_of-none peer s e = rw (e, files_of)

pub files_of-some :
    (peer : ℕ) (files : List ℕ) (s : ConnectionState)
    → lookup peer s.registered_peers_files ≡ some files
    → files_of peer s ≡ files
unfolding files_of
files_of-some peer files s e = rw (e, files_of)

module _ (file peer : ℕ) (files : List ℕ) (s : ConnectionState) where
  -- The states that the two branches of a removal leave.
  abbrev without_peer : ConnectionState
  without_peer = record {
    peer_connections = erase peer s.peer_connections;
    registered_peers_files = erase peer s.registered_peers_files;
  }

  abbrev without_file : ConnectionState
  without_file = record s {
    registered_peers_files = insert peer (erase_id file files) s.registered_peers_files;
  }

  module _ (found : files_of peer s ≡ files) (member : has file files ≡ true) where
    without_peer-IsRemoved : length files ≡ 1 → IsRemoved file peer s without_peer
    without_peer-IsRemoved one = record {
      gone = λ j.
          ap (has j) (
            files_of-none peer without_peer
              (lookup-erase peer peer s.registered_peers_files ∙ rw (==_refl peer)))
          ∙ has_none j
          ∙ split (file == j)
          ∙ ap (λ b. if file == j then false else b) (sym (has_single j file files member one))
          ∙ ap (λ l. if file == j then false else has j l) (sym found);
      others = λ q. elim (Bool-cases (peer == q)) [
        | inl same ↦ inl (sym ((==_iff peer q).0 same))
        | inr other ↦ inr (lookup-erase peer q s.registered_peers_files ∙ rw other)
      ];
      registered = contains-erase peer s.registered_peers_files ∙ rw (found, one);
      connections = rw (found, one);
    }
      where
        split : (b : Bool) → false ≡ (if b then false else if b then true else false)
        split true = refl
        split false = refl

    without_file-IsRemoved :
        IsDistinct files → length files ≢ 1 → IsRemoved file peer s without_file
    without_file-IsRemoved distinct many =
        let not_one : (length files == 1) ≡ false =
          ==_other (length files) 1 (λ one. many (sym one)) in
        record {
          gone = λ j.
              ap (has j) (
                files_of-some peer (erase_id file files) without_file (
                  lookup-insert peer peer (erase_id file files) s.registered_peers_files
                  ∙ rw (==_refl peer)))
              ∙ has-erase_id j file files distinct
              ∙ ap (λ l. if file == j then false else has j l) (sym found);
          others = λ q. elim (Bool-cases (peer == q)) [
            | inl same ↦ inl (sym ((==_iff peer q).0 same))
            | inr other ↦
                inr (lookup-insert peer q (erase_id file files) s.registered_peers_files ∙ rw other)
          ];
          registered =
              contains-insert peer (erase_id file files) s.registered_peers_files
              ∙ rw (found, not_one);
          connections = rw (found, not_one);
        }

  module _ (e : lookup peer s.registered_peers_files ≡ some files) where
    remove_last :
        has file files ≡ true
        → length files ≡ 1
        → remove_file_from_peer file peer s ≡ (ok tt, without_peer)
    unfolding remove_file_from_peer remove_registered
    remove_last h one = rw (e, remove_file_from_peer) (rw h (rw one))

    remove_one :
        has file files ≡ true
        → length files ≢ 1
        → remove_file_from_peer file peer s ≡ (ok tt, without_file)
    unfolding remove_file_from_peer remove_registered
    remove_one h many =
        rw (e, remove_file_from_peer)
          (rw h (rw (==_other (length files) 1 (λ one. many (sym one)))))

    pub remove_missing :
        has file files ≡ false → remove_file_from_peer file peer s ≡ (raise runtime_error, s)
    unfolding remove_file_from_peer remove_registered
    remove_missing h = rw (e, remove_file_from_peer) (rw h)

-- Taking a file off a peer, where the sets of registered files are sound and the peer is registered for
-- the file: the call succeeds, just this file is gone from the peer's files, other peers keep theirs, and
-- the peer's registration and its connection are dropped exactly if the file was its last.
pub remove_file_from_peer-IsRemoved :
    (file peer : ℕ) (s : ConnectionState)
    → IsSound s.registered_peers_files
    → has file (files_of peer s) ≡ true
    → ((remove_file_from_peer file peer s).0 ≡ ok tt)
      × IsRemoved file peer s (remove_file_from_peer file peer s).1
remove_file_from_peer-IsRemoved file peer s sound h =
    elim (Option-cases (lookup peer s.registered_peers_files)) [
      | inl e ↦ cc (ap (has file) (files_of-none peer s e), has_none file)
      | inr (files, e) ↦
          let found = files_of-some peer files s e in
          removed files e found (lookup-IsSound peer files s.registered_peers_files sound e).1
            (ap (has file) (sym found) ∙ h)
    ]
  where
    removed :
        (files : List ℕ)
        → lookup peer s.registered_peers_files ≡ some files
        → files_of peer s ≡ files
        → IsDistinct files
        → has file files ≡ true
        → ((remove_file_from_peer file peer s).0 ≡ ok tt)
          × IsRemoved file peer s (remove_file_from_peer file peer s).1
    removed files e found distinct h = elim (Bool-cases (length files == 1)) [
      | inl one ↦
          let last : length files ≡ 1 = (==_iff _ _).0 one in
          subst (λ t. (t.0 ≡ ok tt) × IsRemoved file peer s t.1)
            (sym (remove_last file peer files s e h last))
            (refl, without_peer-IsRemoved file peer files s found h last)
      | inr more ↦
          let many : length files ≢ 1 = λ one. ground (arith, one, more) in
          subst (λ t. (t.0 ≡ ok tt) × IsRemoved file peer s t.1)
            (sym (remove_one file peer files s e h many))
            (refl, without_file-IsRemoved file peer files s found h distinct many)
    ]
