-- ===== src/Signal/Pending.antt =====
-- Requests that wait for an answer: how each handler changes them, and when a request is refused.
use gitabic.Base.{
  lookup-erase, ◌≢◌, subst, sym, ℕ, ◌≡◌, refl, Bool, true, false, ◌&&◌, ◌==◌, if◌then◌else◌, List,
  [], ◌∷◌, some, lookup, contains, lookup-insert, arith, Bool-cases, ==_iff, inl, inr,
}
use gitabic.Message.Server.{status, exists_oposite_request}
use gitabic.Signal.{
  take_request, no_pair, Pair, IceState, touch, value, same_peers, is_recent, find_recent,
  handle_ask_ice,
}

-- Asking again, or being asked, does not change the times of the requests that wait.
contains-lookup {ℓ} :
    {V : Type ℓ} (k : ℕ) (v : V) (m : List (ℕ × V)) → lookup k m ≡ some v → contains k m ≡ true
contains-lookup k v [] e = cc
contains-lookup k v ((j, w) ∷ m) e = elim (Bool-cases (j == k)) [
  | inl same ↦ rw same refl
  | inr other ↦ rw other (contains-lookup k v m (rw other at e))
]

lookup-touch :
    (k id d t : ℕ) (m : List (ℕ × ℕ)) → lookup k m ≡ some t → lookup k (touch d id m) ≡ some t
lookup-touch k id d t m e = elim (Bool-cases (contains id m)) [
  | inl h ↦ rw (h, e) refl
  | inr h ↦ elim (Bool-cases (id == k)) [
    | inl same ↦
        let i : id ≡ k = (==_iff id k).0 same in
        let there : contains id m ≡ true = rw i (contains-lookup k t m e) in cc
    | inr other ↦ rw (h, lookup-insert id k d m, other, e) refl
  ]
]

lookup-touch_if :
    (b : Bool) (k id t : ℕ) (m : List (ℕ × ℕ))
    → lookup k m ≡ some t
    → lookup k (if b then touch 0 id m else m) ≡ some t
lookup-touch_if true k id t m e = lookup-touch k id 0 t m e
lookup-touch_if false k id t m e = e

pub value-lookup {ℓ} :
    {V : Type ℓ} (d : V) (k : ℕ) (v : V) (m : List (ℕ × V)) → lookup k m ≡ some v → value d k m ≡ v
value-lookup d k v m e = rw (e, value) refl

some_inj {ℓ} : {A : Type ℓ} (x y : A) → some x ≡ some y → x ≡ y
some_inj x y e = cc

-- A request of the same two peers, either way round.
same_peers-own : (a b : ℕ) → same_peers a b (record { first = a; second = b }) ≡ true
unfolding same_peers
same_peers-own a b = ground arith

same_peers-opposite : (a b : ℕ) → same_peers b a (record { first = a; second = b }) ≡ true
unfolding same_peers
same_peers-opposite a b = ground arith

module _ (now sender user id t : ℕ) (p : Pair) (same : same_peers sender user p ≡ true)
    (recent : is_recent now t ≡ true) where
  find_recent-found :
      (waits : List (ℕ × Pair)) (times : List (ℕ × ℕ))
      → lookup id waits ≡ some p
      → lookup id times ≡ some t
      → (find_recent now sender user waits times).0 ≡ true
  unfolding find_recent
  find_recent-found [] times e f = cc
  find_recent-found ((j, q) ∷ waits) times e f =
      let times' : List (ℕ × ℕ) = if same_peers sender user q then touch 0 j times else times in
      let kept = lookup-touch_if (same_peers sender user q) id j t times f in
      elim (Bool-cases (j == id)) [
        | inl here ↦
            let i : j ≡ id = (==_iff j id).0 here in
            let its : q ≡ p = some_inj q p (rw here at e) in
            let time : value 0 j times' ≡ t =
              value-lookup 0 j t times' (subst (λ k. lookup k times' ≡ some t) (sym i) kept) in
            let found : (same_peers sender user q && is_recent now (value 0 j times')) ≡ true =
              rw (time, its, same, recent) refl in
            rw found refl
        | inr other ↦
            elim (Bool-cases (same_peers sender user q && is_recent now (value 0 j times'))) [
              | inl h ↦ rw h refl
              | inr h ↦ rw h (find_recent-found waits times' (rw other at e) kept)
            ]
      ]

-- While a request between two peers waits and is not ten seconds old, a new request between the
-- two, in either direction, is refused to its sender, and neither the waiting requests nor the
-- counter change.
handle_ask_ice_refused :
    (now sender user id t : ℕ) (p : Pair) (info : List ℕ) (s : IceState)
    → lookup id s.waits_for_response ≡ some p
    → lookup id s.requests_time ≡ some t
    → same_peers sender user p ≡ true
    → is_recent now t ≡ true
    → ((handle_ask_ice now sender user info s).0 ≡ (sender, status exists_oposite_request))
      × ((handle_ask_ice now sender user info s).1.waits_for_response ≡ s.waits_for_response)
      × ((handle_ask_ice now sender user info s).1.wait_ids ≡ s.wait_ids)
unfolding handle_ask_ice
handle_ask_ice_refused now sender user id t p info s e f same recent =
    let found =
      find_recent-found now sender user id t p same recent s.waits_for_response s.requests_time e
        f in
    (rw found refl, rw found refl, rw found refl)

==_differs : (a b : ℕ) → a ≢ b → (a == b) ≡ false
==_differs a b h = ground arith

lookup-touch_other :
    (id other : ℕ) (d : Pair) {p : Pair} (m : List (ℕ × Pair))
    → lookup id m ≡ some p
    → (other == id) ≡ false
    → lookup id (touch d other m) ≡ some p
lookup-touch_other id other d m e o = elim (Bool-cases (contains other m)) [
  | inl h ↦ rw h e
  | inr h ↦ rw h (rw (lookup-insert other id d m, o) e)
]

-- A request that waits goes on waiting when another is made, unless the counter has come round to
-- its number.
pub lookup-handle_ask_ice :
    (now sender user id : ℕ) (p : Pair) (info : List ℕ) (s : IceState)
    → lookup id s.waits_for_response ≡ some p
    → s.wait_ids ≢ id
    → lookup id (handle_ask_ice now sender user info s).1.waits_for_response ≡ some p
unfolding handle_ask_ice
lookup-handle_ask_ice now sender user id p info s e fresh =
    elim (Bool-cases (find_recent now sender user s.waits_for_response s.requests_time).0) [
      | inl h ↦ rw h e
      | inr h ↦ rw h (
          rw (lookup-insert s.wait_ids id _ s.waits_for_response, ==_differs s.wait_ids id fresh) e)
    ]

-- Or when another is answered.
pub lookup-take_request :
    (id other : ℕ) (p : Pair) (s : IceState)
    → lookup id s.waits_for_response ≡ some p
    → other ≢ id
    → lookup id (take_request other s).1.waits_for_response ≡ some p
unfolding take_request
lookup-take_request id other p s e differs =
    let o = ==_differs other id differs in
    rw (lookup-erase other id (touch no_pair other s.waits_for_response), o)
      (lookup-touch_other id other no_pair s.waits_for_response e o)
