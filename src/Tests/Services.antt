-- ===== src/Tests/Services.antt =====
-- The server with two or three clients.
use gitabic.Bytes.{bind, fault}
use gitabic.Message.Frame.{Received}
use gitabic.Server.Unknown.{serve_turn-unknown}
use gitabic.Base.{◌+◌, ◌-◌, ◌≡◌, refl, not, ◌&&◌, ◌==◌, List, [], ◌∷◌, some, arith}
use gitabic.Message.Client.{read_client, ask_ice, announce, refuse_full, authorize}
use gitabic.Message.Server.{ask_authorization, ice_data}
use gitabic.Tracker.{
  Store, save_data, get_registered_data, remove_peer_data, remove_expired, sleep_time,
}
use gitabic.Tracker.Listing.{
  Event, saved, left, swept, run, SavedBefore, has, elem, get_registered_data-has,
}
use gitabic.Tracker.Sweep.{NotBefore, remove_expired_fresh}
use gitabic.Signal.{IceState, find_recent, is_recent, same_peers}
use gitabic.Server.{ServerState, serve_turn, Handlers, Clock, Reply, respond}
use gitabic.Server.Routing.{Heard, IsOther, hear_all, respond-answer}

-- Peers 5 and 6 announce file 7; peer 5 leaves; a sweep comes after nine minutes.
abbrev history : List Event
history = swept 1541 ∷ left 5 ∷ saved 1001 7 6 ∷ saved 1000 7 5 ∷ []

listed_test : get_registered_data 7 9 (run history) ≡ 6 ∷ []
unfolding run get_registered_data save_data remove_peer_data remove_expired
listed_test = refl

get_registered_data-has_example :
    elem 6 (get_registered_data 7 9 (run history)) ≡ not (6 == 9) && has 0 7 6 history
get_registered_data-has_example =
    get_registered_data-has 1002 7 9 6 history
      (unfold SavedBefore in (omega arith, (omega arith, tt)))

abbrev store : Store
store = (1600, record { file = 7; peer = 5 }) ∷ (1700, record { file = 7; peer = 6 }) ∷ []

remove_expired_fresh_example :
    let kept : Store = remove_expired 1650 store in NotBefore (1650 + sleep_time 1650 kept - 1) kept
remove_expired_fresh_example = remove_expired_fresh 1650 store

-- Peer 5 asked for peer 6 at the time 20 seconds, under the number 3.
abbrev ice : IceState
ice = record {
  waits_for_response = (3, record { first = 5; second = 6 }) ∷ [];
  requests_time = (3, 20000000000) ∷ [];
  wait_ids = 4;
}

abbrev handlers : Handlers
handlers = record { store = store; ice = ice }

abbrev clock : Clock
clock = record { seconds = 40; nanoseconds = 40000000000 }

-- In between, peer 9 announces a file, and peer 6 refuses the older request.
abbrev between : List Heard
between =
    record { now = clock; uninitialised = 0; sender = 9; message = some (announce 9 7) }
    ∷ record { now = clock; uninitialised = 0; sender = 6; message = some (refuse_full 3) }
    ∷ []

respond-answer_example :
    let r : Reply × Handlers = respond clock 0 5 (some (ask_ice 6 (97 ∷ []))) handlers in
    let s : Reply × Handlers =
      respond clock 0 6 (some (authorize (98 ∷ []) 4)) (hear_all between r.1) in
    (r.0 ≡ (6, some (ask_authorization (97 ∷ []) 4 5))) × (s.0 ≡ (5, some (ice_data (98 ∷ []))))
respond-answer_example =
    respond-answer clock clock 0 0 5 6 6 (97 ∷ []) (98 ∷ []) between handlers (omega arith)
      (unfold find_recent in unfold same_peers in unfold is_recent in refl)
      (unfold IsOther in (tt, ((λ e. cc), tt))) (omega arith)

abbrev unknown : Received
unknown = record { code = 99; payload = [] }

abbrev server : ServerState
server = record { queues = (5, []) ∷ (6, []) ∷ []; handlers = handlers }

serve_turn-unknown_example :
    bind (serve_turn clock 6 5 unknown server) (λ r. serve_turn clock 0 6 unknown r.1) ≡ fault
serve_turn-unknown_example =
    serve_turn-unknown clock clock 6 0 5 unknown unknown server (unfold read_client in refl)
      (λ e. cc) (λ e. cc) refl refl
