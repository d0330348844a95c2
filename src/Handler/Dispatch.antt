-- ===== src/Handler/Dispatch.antt =====
-- The messages that a handler has in its queues (Peer/Torrent/TorrentFileHandler), and the handlers of
-- all files (Peer/Torrent/TorrentManager/TorrentManager.cpp). `load` is FileIO::loadBlock and `own` the
-- handler's bit field.
use gitabic.Base.{ℕ, false, if◌then◌else◌, List, [], ◌∷◌, ◌++◌, Option, none, some, lookup, insert}
use gitabic.Bytes.{Outcome, ok, raise, fault, bind, runtime_error}
use gitabic.Message.Frame.{Received}
use gitabic.Message.Torrent.{
  DataRequest, deserialize_torrent, deserialize_request, deserialize_ownership,
  deserialize_bit_field,
}
use gitabic.Chooser.Rarity.{update_peer_bitfield}
use gitabic.Peers.Connections.{ConnectionState}
use gitabic.Peers.Manager.{PeerState, PeerManager, get_peer_state, change_peer_state, remove_peer}
use gitabic.Handler.{
  Reply, RequestKind, base_kind, ownership_kind, cancel_kind, data_kind, request_kind, HandlerState,
  handle_base, handle_ownership, handle_cancel_request, handle_data_request, add_message,
}

-- The result of a loop that may not end.
unfoldable with_replies :
    HandlerState → Option (List Reply) → Option (Outcome (List Reply × HandlerState))
with_replies s none = none
with_replies s (some replies) = some (ok (replies, s))

unfoldable answer_data :
    (ℕ → ℕ → List ℕ)
    → ℕ
    → HandlerState
    → Outcome (DataRequest × List ℕ)
    → Option (Outcome (List Reply × HandlerState))
unfolding with_replies handle_data_request
answer_data load fuel s (ok r) = with_replies s (handle_data_request load fuel r.0)
answer_data load fuel s (raise e) = some (raise e)
answer_data load fuel s fault = some fault

-- A case of the switch of handleRequests: the messages to send and the state.
unfoldable handle_request :
    (ℕ → ℕ → List ℕ)
    → ℕ
    → List ℕ
    → RequestKind
    → ℕ
    → Received
    → HandlerState
    → Option (Outcome (List Reply × HandlerState))
unfolding answer_data handle_base handle_ownership handle_cancel_request
handle_request load fuel own base_kind sender msg s = some (
    bind (deserialize_torrent msg.code msg.payload) λ b.
      bind (handle_base s.is_seed own b.0.code sender s.peers)
        λ r. ok (r.0, record s { peers = r.1 }))
handle_request load fuel own ownership_kind sender msg s = some (
    bind (deserialize_ownership msg.code msg.payload)
      λ u. bind (handle_ownership sender u.0 s.chooser) λ c. ok ([], record s { chooser = c }))
handle_request load fuel own cancel_kind sender msg s = some (
    bind (deserialize_request msg.code msg.payload) λ r.
      bind (handle_cancel_request s.messages_to_send)
        λ q. ok ([], record s { messages_to_send = q }))
handle_request load fuel own data_kind sender msg s =
    answer_data load fuel s (deserialize_request msg.code msg.payload)

-- The messages are pushed to those that wait to be sent.
unfoldable push_replies :
    Option (Outcome (List Reply × HandlerState)) → Option (Outcome HandlerState)
push_replies none = none
push_replies (some (ok (replies, s))) =
    some (ok (record s { messages_to_send = s.messages_to_send ++ replies }))
push_replies (some (raise e)) = some (raise e)
push_replies (some fault) = some fault

unfoldable dispatch_request :
    (ℕ → ℕ → List ℕ)
    → ℕ
    → List ℕ
    → Option RequestKind
    → ℕ
    → Received
    → HandlerState
    → Option (Outcome HandlerState)
unfolding handle_request push_replies
dispatch_request load fuel own none sender msg s = some (raise runtime_error)
dispatch_request load fuel own (some kind) sender msg s =
    push_replies (handle_request load fuel own kind sender msg s)

-- A turn of the inner loop of handleRequests.
unfoldable pub take_request :
    (ℕ → ℕ → List ℕ)
    → ℕ
    → List ℕ
    → List (ℕ × Received)
    → HandlerState
    → Option (Outcome HandlerState)
unfolding dispatch_request request_kind
take_request load fuel own [] s = some (ok s)
take_request load fuel own ((sender, msg) ∷ rest) s =
    dispatch_request load fuel own (request_kind msg.code) sender msg
      (record s { received_requests = rest })

unfoldable request_turn :
    (ℕ → ℕ → List ℕ) → ℕ → List ℕ → HandlerState → Option (Outcome HandlerState)
unfolding take_request
request_turn load fuel own s = take_request load fuel own s.received_requests s

-- The case bitField of handleResponses.
unfoldable handle_bit_field : ℕ → Received → HandlerState → Outcome HandlerState
handle_bit_field sender msg s = bind (deserialize_bit_field msg.code msg.payload) λ f.
    bind (update_peer_bitfield sender f.0.field s.chooser) λ c. ok (record s {
      chooser = c;
      peers = change_peer_state sender (λ p. record p { bitfield = f.0.field }) s.peers;
    })

-- The case missingFile; what removePeer throws goes out of the thread.
unfoldable handle_missing_file : ℕ → HandlerState → Outcome (Unit {0}) × HandlerState
handle_missing_file sender s =
    let got : PeerState × PeerManager = get_peer_state sender s.peers in
    if got.0.peer_interested
    then (
      ok tt,
      record s { peers = change_peer_state sender (λ p. record p { am_interested = false }) got.1 },
    )
    else (let removed : Outcome (Unit {0}) × PeerManager × ConnectionState =
          remove_peer sender (got.1, s.connections) in
        (removed.0, record s { peers = removed.1; connections = removed.2 }))

-- TorrentManager::handleMessage, with the handlers by their files' IDs, and what `find` gives for the
-- message's file.
unfoldable pub route_message :
    ℕ
    → Received
    → ℕ
    → Option HandlerState
    → List (ℕ × HandlerState)
    → Outcome (List (ℕ × HandlerState))
unfolding add_message
route_message sender msg file none handlers = raise runtime_error
route_message sender msg file (some h) handlers =
    bind (add_message sender msg h) (λ h'. ok (insert file h' handlers))

unfoldable pub handle_message :
    ℕ → Received → List (ℕ × HandlerState) → Outcome (List (ℕ × HandlerState))
unfolding route_message
handle_message sender msg handlers =
    bind (deserialize_torrent msg.code msg.payload)
      λ b. route_message sender msg b.0.file_id (lookup b.0.file_id handlers) handlers
