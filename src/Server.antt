-- ===== src/Server.antt =====
-- The server: the switch of MessageHandler::handle (Server/Communication/MessageHandler.cpp) and the
-- loop of one client's thread, MultiThreadedServer::handleClient
-- (Server/Communication/MultiThreadedServer.cpp), a turn of it at a time.
pub mod Routing
pub mod Unknown
pub mod Delivery
use gitabic.Base.{ℕ, ◌==◌, if◌then◌else◌, List, [], ◌∷◌, ◌++◌, Option, some, none, insert, erase}
use gitabic.Bytes.{Outcome, ok, fault, bind}
use gitabic.Message.Frame.{Received}
use gitabic.Message.Client.{
  ClientMessage, ask_ice, announce, ask_users, debug, authorize, refuse_connected, refuse_full,
  read_client,
}
use gitabic.Message.Server.{ServerMessage, assign_id}
use gitabic.Tracker.{Store, handle_user_list, handle_store, remove_peer_data}
use gitabic.Signal.{
  IceState, value, handle_ask_ice, handle_authorize, handle_already_connected, handle_full_capacity,
}

-- The singletons TrackerDataStorage and IceMessagesHandler.
pub record Handlers : Type 0 where
  pub store : Store
  pub ice : IceState

-- `struct ResultMessage`: the pointer is null where no case of the switch sets it.
abbrev pub Reply : Type 0
Reply = ℕ × Option ServerMessage

-- The clock of a moment, in seconds and in nanoseconds.
pub record Clock : Type 0 where
  pub seconds : ℕ
  pub nanoseconds : ℕ

abbrev tracked : Handlers → (ℕ × ServerMessage) × Store → Reply × Handlers
tracked h r = ((r.0.0, some r.0.1), record { store = r.1; ice = h.ice })

abbrev signalled : Handlers → (ℕ × ServerMessage) × IceState → Reply × Handlers
signalled h r = ((r.0.0, some r.0.1), record { store = h.store; ice = r.1 })

-- The cases of the switch, on the message that the data holds. `uninitialised` is what the bytes of
-- `ResultMessage res` hold before anything is written to them.
unfoldable pub respond : Clock → ℕ → ℕ → Option ClientMessage → Handlers → Reply × Handlers
respond now uninitialised sender (some (ask_ice user info)) h =
    signalled h (handle_ask_ice now.nanoseconds sender user info h.ice)
respond now uninitialised sender (some (announce my_id file_id)) h =
    tracked h (handle_store now.seconds sender file_id my_id h.store)
respond now uninitialised sender (some (ask_users file_id)) h =
    tracked h (handle_user_list sender file_id h.store, h.store)
respond now uninitialised sender (some (authorize info id)) h =
    signalled h (handle_authorize info id h.ice)
respond now uninitialised sender (some (refuse_connected id)) h =
    signalled h (handle_already_connected id h.ice)
respond now uninitialised sender (some (refuse_full id)) h =
    signalled h (handle_full_capacity id h.ice)
respond now uninitialised sender (some (debug message)) h = ((uninitialised, none), h)
respond now uninitialised sender none h = ((uninitialised, none), h)

-- MessageHandler::handle
unfoldable pub handle : Clock → ℕ → ℕ → Received → Handlers → Outcome (Reply × Handlers)
handle now uninitialised sender m h =
    bind (read_client m) (λ heard. ok (respond now uninitialised sender heard h))

-- `messagesToSend`, a queue of pointers for each ID, beside the handlers.
abbrev pub Queues : Type 0
Queues = List (ℕ × List (Option ServerMessage))

pub record ServerState : Type 0 where
  pub queues : Queues
  pub handlers : Handlers

-- The start of handleClient: a queue of its own, and the ID is sent.
unfoldable pub connect : ℕ → ServerState → ServerMessage × ServerState
connect id s = (assign_id id, record { queues = insert id [] s.queues; handlers = s.handlers })

-- `messagesToSend[response.id].push(response.msg)`, unless the ID is zero.
unfoldable pub push_reply : Reply → Queues → Queues
push_reply r q = if r.0 == 0 then q else insert r.0 (value [] r.0 q ++ (r.1 ∷ [])) q

-- The first half of a turn: the front of the queue is sent. A null pointer is dereferenced.
unfoldable pub send_front : ℕ → Queues → Outcome (Option ServerMessage × Queues)
send_front id q = elim (value [] id q) [
  | [] ↦ ok (none, insert id [] q)
  | m ∷ rest ↦ elim m [ none ↦ fault | some sent ↦ ok (some sent, insert id rest q) ]
]

-- A turn of the loop, with the message that the socket received: what is sent, and the new state.
unfoldable pub serve_turn :
    Clock → ℕ → ℕ → Received → ServerState → Outcome (Option ServerMessage × ServerState)
serve_turn now uninitialised id m s = bind (send_front id s.queues) (λ sent.
    if m.code == 0
    then ok (sent.0, record { queues = sent.1; handlers = s.handlers })
    else bind (handle now uninitialised id m s.handlers)
        (λ r. ok (sent.0, record { queues = push_reply r.0 sent.1; handlers = r.1 })))

-- The end of handleClient, after an exception too.
unfoldable disconnect : ℕ → ServerState → ServerState
disconnect id s = record {
  queues = erase id s.queues;
  handlers = record { store = remove_peer_data id s.handlers.store; ice = s.handlers.ice };
}
