-- ===== src/Signal.antt =====
-- Signalling: the server passes ICE data between two peers that want to connect
-- (Server/Communication/IceMessagesHandler.cpp). The clock, in nanoseconds, is an argument.
pub mod Pending
use gitabic.Base.{
  ℕ, ◌+◌, ◌-◌, ◌/◌, ◌%◌, ◌^◌, Bool, true, false, ◌&&◌, ◌||◌, ltb, ◌==◌, if◌then◌else◌, List, [],
  ◌∷◌, some, none, lookup, contains, insert, erase,
}
use gitabic.Message.Server.{
  ServerMessage, ask_authorization, ice_data, status, exists_oposite_request,
  user_already_connected, user_full_capacity,
}

-- `pair<ID, ID>`: who asked, and for whom.
pub record Pair : Type 0 where
  pub first : ℕ
  pub second : ℕ

-- The fields of IceMessagesHandler. `wait_ids` is a `uint16_t`.
pub record IceState : Type 0 where
  pub waits_for_response : List (ℕ × Pair)
  pub requests_time : List (ℕ × ℕ)
  pub wait_ids : ℕ

-- What `operator[]` leaves behind and returns: a missing key gets a default value.
abbrev pub touch {ℓ} : {V : Type ℓ} → V → ℕ → List (ℕ × V) → List (ℕ × V)
touch default k m = if contains k m then m else insert k default m

abbrev pub value {ℓ} : {V : Type ℓ} → V → ℕ → List (ℕ × V) → V
value default k m = elim (lookup k m) [ none ↦ default | some v ↦ v ]

-- `opositeRequest == requestIDs || sameRequest == requestIDs`
unfoldable pub same_peers : ℕ → ℕ → Pair → Bool
same_peers sender user p =
    ((p.first == user) && (p.second == sender)) || ((p.first == sender) && (p.second == user))

-- `duration_cast<seconds>(now() - t) < seconds(10)`
unfoldable pub is_recent : ℕ → ℕ → Bool
is_recent now t = ltb ((now - t) / 10 ^ 9) 10

-- The loop over `waitsForResponse`: whether it returns, and `requestsTime` after it.
unfoldable pub find_recent : ℕ → ℕ → ℕ → List (ℕ × Pair) → List (ℕ × ℕ) → Bool × List (ℕ × ℕ)
find_recent now sender user [] times = (false, times)
find_recent now sender user ((id, p) ∷ waits) times =
    let times' : List (ℕ × ℕ) = if same_peers sender user p then touch 0 id times else times in
    if same_peers sender user p && is_recent now (value 0 id times')
    then (true, times')
    else find_recent now sender user waits times'

-- handle(ClientRequestGetUserICEInfo)
unfoldable pub handle_ask_ice : ℕ → ℕ → ℕ → List ℕ → IceState → (ℕ × ServerMessage) × IceState
handle_ask_ice now sender user info s =
    let found : Bool × List (ℕ × ℕ) =
      find_recent now sender user s.waits_for_response s.requests_time in
    if found.0
    then (
      (sender, status exists_oposite_request),
      record {
        waits_for_response = s.waits_for_response;
        requests_time = found.1;
        wait_ids = s.wait_ids;
      },
    )
    else (
      (user, ask_authorization info s.wait_ids sender),
      record {
        waits_for_response =
            insert s.wait_ids (record { first = sender; second = user }) s.waits_for_response;
        requests_time = insert s.wait_ids now found.1;
        wait_ids = (s.wait_ids + 1) % 2 ^ 16;
      },
    )

-- `waitsForResponse[id].first`, and the two `erase` calls: the ID zero stands for no such request.
abbrev pub no_pair : Pair
no_pair = record { first = 0; second = 0 }

unfoldable pub take_request : ℕ → IceState → ℕ × IceState
take_request id s = (
  (value no_pair id s.waits_for_response).first,
  record {
    waits_for_response = erase id (touch no_pair id s.waits_for_response);
    requests_time = erase id s.requests_time;
    wait_ids = s.wait_ids;
  },
)

-- handle(ClientResponseAuthorizedICEConnection), handle(ClientResponseAlreadyConnected) and
-- handle(ClientResponseFullCapacity)
unfoldable pub handle_authorize : List ℕ → ℕ → IceState → (ℕ × ServerMessage) × IceState
handle_authorize info id s = ((((take_request id s).0), ice_data info), (take_request id s).1)

unfoldable pub handle_already_connected : ℕ → IceState → (ℕ × ServerMessage) × IceState
handle_already_connected id s =
    (((take_request id s).0, status user_already_connected), (take_request id s).1)

unfoldable pub handle_full_capacity : ℕ → IceState → (ℕ × ServerMessage) × IceState
handle_full_capacity id s =
    (((take_request id s).0, status user_full_capacity), (take_request id s).1)
