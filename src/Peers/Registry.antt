-- ===== src/Peers/Registry.antt =====
-- The files that a peer is registered for (Peer/Torrent/PeersConnectionManager).
use gitabic.Base.{
  ℕ, ◌+◌, ◌≤◌, ◌≡◌, inl, inr, ◌∙◌, subst, true, false, ◌==◌, if◌then◌else◌, Bool-cases, List, [],
  ◌∷◌, none, some, length, lookup, insert, erase, arith,
}
use gitabic.Peers.Connections.{has, insert_id, erase_id, ConnectionState}

-- The set that a peer is registered with, empty for a peer that is not.
unfoldable pub files_of : ℕ → ConnectionState → List ℕ
files_of peer s = elim (lookup peer s.registered_peers_files) [ none ↦ [] | some files ↦ files ]

-- No file stands twice.
unfoldable pub IsDistinct : List ℕ → Type 0
IsDistinct [] = Unit
IsDistinct (x ∷ xs) = (has x xs ≡ false) × IsDistinct xs

-- Every registered peer has a set of files that is not empty and holds each file once.
unfoldable pub IsSound : List (ℕ × List ℕ) → Type 0
unfolding IsDistinct
IsSound [] = Unit
IsSound ((peer, files) ∷ m) = ((1 ≤ length files) × IsDistinct files) × IsSound m

pub has-insert_id :
    (j k : ℕ) (xs : List ℕ) → has j (insert_id k xs) ≡ (if k == j then true else has j xs)
unfolding has insert_id
has-insert_id j k xs = ground (arith)

pub has-erase_id :
    (j k : ℕ) (xs : List ℕ)
    → IsDistinct xs
    → has j (erase_id k xs) ≡ (if k == j then false else has j xs)
unfolding has erase_id IsDistinct
has-erase_id j k [] h = ground arith
has-erase_id j k (x ∷ xs) h = ground (arith, has-erase_id j k xs h.1)

length-erase_id : (k : ℕ) (xs : List ℕ) → has k xs ≡ true → length (erase_id k xs) + 1 ≡ length xs
unfolding has erase_id
length-erase_id k [] h = cc
length-erase_id k (x ∷ xs) h = ground (arith, length-erase_id k xs)

erase_id-IsDistinct : (k : ℕ) (xs : List ℕ) → IsDistinct xs → IsDistinct (erase_id k xs)
unfolding erase_id IsDistinct
erase_id-IsDistinct k [] h = tt
erase_id-IsDistinct k (x ∷ xs) h = elim (Bool-cases (x == k)) [
  | inl same ↦ rw same h.1
  | inr other ↦
      rw other ((has-erase_id x k xs h.1 ∙ ground (arith, h.0)), erase_id-IsDistinct k xs h.1)
]

insert_id-IsDistinct : (k : ℕ) (xs : List ℕ) → IsDistinct xs → IsDistinct (insert_id k xs)
unfolding insert_id IsDistinct
insert_id-IsDistinct k xs h = elim (Bool-cases (has k xs)) [
  | inl old ↦ rw old h
  | inr new ↦ rw new (new, h)
]

insert-IsSound :
    (peer : ℕ) (files : List ℕ) (m : List (ℕ × List ℕ))
    → 1 ≤ length files
    → IsDistinct files
    → IsSound m
    → IsSound (insert peer files m)
unfolding IsSound
insert-IsSound peer files [] p q h = ((p, q), tt)
insert-IsSound peer files ((j, g) ∷ m) p q h = elim (Bool-cases (j == peer)) [
  | inl same ↦ rw same ((p, q), h.1)
  | inr other ↦ rw other (h.0, insert-IsSound peer files m p q h.1)
]

erase-IsSound : (peer : ℕ) (m : List (ℕ × List ℕ)) → IsSound m → IsSound (erase peer m)
unfolding IsSound
erase-IsSound peer [] h = tt
erase-IsSound peer ((j, g) ∷ m) h = elim (Bool-cases (j == peer)) [
  | inl same ↦ rw same (erase-IsSound peer m h.1)
  | inr other ↦ rw other (h.0, erase-IsSound peer m h.1)
]

pub lookup-IsSound :
    (peer : ℕ) (files : List ℕ) (m : List (ℕ × List ℕ))
    → IsSound m
    → lookup peer m ≡ some files
    → (1 ≤ length files) × IsDistinct files
unfolding IsSound
lookup-IsSound peer files [] h e = cc
lookup-IsSound peer files ((j, g) ∷ m) h e = elim (Bool-cases (j == peer)) [
  | inl same ↦
      let found : g ≡ files = ground (arith, e, same) in
      subst (λ x. (1 ≤ length x) × IsDistinct x) found h.0
  | inr other ↦
      let behind : lookup peer m ≡ some files = ground (arith, e, other) in
      lookup-IsSound peer files m h.1 behind
]
