-- ===== src/Handler.antt =====
-- The handler of a file's messages (Peer/Torrent/TorrentFileHandler/TorrentFileHandler.cpp). A lock is
-- held through each operation, so that it is one step.
pub mod Blocks
pub mod Interest
pub mod Dispatch
pub mod Queues
pub mod Responses
pub mod Sending
use gitabic.Base.{
  ℕ, zero, suc, ◌+◌, ◌%◌, ◌^◌, Bool, true, false, ◌&&◌, ◌||◌, not, ltb, ◌==◌, if◌then◌else◌, List,
  [], ◌∷◌, ◌++◌, Option, none, some,
}
use gitabic.Bytes.{Outcome, ok, raise, fault, bind, runtime_error}
use gitabic.Message.Frame.{Received}
use gitabic.Message.Torrent.{
  TorrentBase, DataRequest, PieceOwnershipUpdate, FileBitField, BlockResponse, deserialize_torrent,
  deserialize_request, deserialize_ownership, deserialize_bit_field, deserialize_block_response,
}
use gitabic.Chooser.Rarity.{ChooserState, got_piece, lost_piece, update_peer_bitfield}
use gitabic.Peers.Connections.{ConnectionState}
use gitabic.Peers.Manager.{
  PeerState, PeerManager, get_peer_state, change_peer_state, add_connected_peer, remove_peer,
}

-- The codes of BitTorrentRequestCodes and BitTorrentResponseCodes.
abbrev keep_alive : ℕ
keep_alive = 101

abbrev keep_alive_res : ℕ
keep_alive_res = 102

abbrev file_interested : ℕ
file_interested = 110

abbrev file_not_interested : ℕ
file_not_interested = 111

abbrev bit_field : ℕ
bit_field = 112

abbrev missing_file : ℕ
missing_file = 113

abbrev pub data_request : ℕ
data_request = 121

abbrev cancel_data_request : ℕ
cancel_data_request = 122

abbrev block_response : ℕ
block_response = 123

abbrev missing_data_response : ℕ
missing_data_response = 124

abbrev pub choke : ℕ
choke = 130

abbrev unchoke : ℕ
unchoke = 131

abbrev has_piece_update : ℕ
has_piece_update = 140

abbrev lost_piece_update : ℕ
lost_piece_update = 141

-- A message of ResultMessages: its code, or the code with what it carries.
pub data Reply : Type 0 where
  base_reply : ℕ → Reply
  bit_field_reply : List ℕ → Reply
  block_reply : ℕ → ℕ → List ℕ → Reply

-- handle(const DataRequest &). The counter has the type of `blockIndex`, a `uint16_t`; the sum is an
-- `int`. `none` says that the loop was not over when the fuel was.
unfoldable pub data_loop : (ℕ → ℕ → List ℕ) → ℕ → ℕ → ℕ → ℕ → Option (List Reply)
data_loop load zero piece last i = none
data_loop load (suc fuel) piece last i =
    let rest : Option (List Reply) = data_loop load fuel piece last ((i + 1) % 2 ^ 16) in
    if ltb i last
    then elim rest [
      | none ↦ none
      | some replies ↦ some (block_reply piece i (load piece i) ∷ replies)
    ]
    else some []

unfoldable pub handle_data_request : (ℕ → ℕ → List ℕ) → ℕ → DataRequest → Option (List Reply)
unfolding data_loop
handle_data_request load fuel r =
    data_loop load fuel r.piece_index (r.block_index + r.blocks_count) r.block_index

-- handle(const CancelDataRequest &). The address of a shared pointer in the queue is taken for that of
-- a message, and the memory behind the pointer for the message's file ID.
unfoldable pub handle_cancel_request : List Reply → Outcome (List Reply)
handle_cancel_request [] = ok []
handle_cancel_request (message ∷ messages) = fault

-- handle(const PieceOwnershipUpdate &)
unfoldable pub handle_ownership : ℕ → PieceOwnershipUpdate → ChooserState → Outcome ChooserState
handle_ownership sender update s =
    if update.base.code == has_piece_update
    then got_piece sender update.piece_index s
    else if update.base.code == lost_piece_update
    then lost_piece sender update.piece_index s
    else ok s

-- The case fileInterested of handle(const TorrentMessageBase &); `own` is the handler's bit field.
unfoldable pub handle_interested : Bool → List ℕ → ℕ → PeerManager → List Reply × PeerManager
handle_interested is_seed own sender m =
    let got : PeerState × PeerManager = get_peer_state sender m in
    let asks : Bool = not got.0.am_interested && not is_seed in
    let m' : PeerManager = if asks then add_connected_peer sender got.1 else got.1 in
    (
      (if asks then base_reply file_interested ∷ [] else []) ++ (bit_field_reply own ∷ []),
      change_peer_state sender (λ p. record p { peer_interested = true }) m',
    )

-- handle(const TorrentMessageBase &)
unfoldable pub handle_base :
    Bool → List ℕ → ℕ → ℕ → PeerManager → Outcome (List Reply × PeerManager)
unfolding handle_interested
handle_base is_seed own code sender m =
    if code == keep_alive
    then ok (base_reply keep_alive_res ∷ [], m)
    else if code == file_interested
    then ok (handle_interested is_seed own sender m)
    else if code == file_not_interested
    then ok ([], change_peer_state sender (λ p. record p { peer_interested = false }) m)
    else if code == choke
    then ok ([], change_peer_state sender (λ p. record p { peer_choking = true }) m)
    else if code == unchoke
    then ok ([], change_peer_state sender (λ p. record p { peer_choking = false }) m)
    else raise runtime_error

-- The fields that the messages change. A message stands in a queue with its sender.
pub record HandlerState : Type 0 where
  pub peers : PeerManager
  pub connections : ConnectionState
  pub chooser : ChooserState
  pub is_seed : Bool
  pub received_requests : List (ℕ × Received)
  pub received_responses : List (ℕ × Received)
  pub messages_to_send : List Reply

-- Which handler the switch of handleRequests calls.
pub data RequestKind : Type 0 where
  base_kind ownership_kind cancel_kind data_kind : RequestKind

unfoldable pub request_kind : ℕ → Option RequestKind
request_kind code =
    if (code == keep_alive || code == file_interested)
      || (code == file_not_interested || (code == unchoke || code == choke))
    then some base_kind
    else if code == has_piece_update || code == lost_piece_update
    then some ownership_kind
    else if code == cancel_data_request
    then some cancel_kind
    else if code == data_request
    then some data_kind
    else none

-- What the switch of handleResponses does.
pub data ResponseKind : Type 0 where
  ignored bit_field_kind missing_file_kind block_kind : ResponseKind

unfoldable pub response_kind : ℕ → Option ResponseKind
response_kind code =
    if code == keep_alive_res || code == missing_data_response
    then some ignored
    else if code == bit_field
    then some bit_field_kind
    else if code == missing_file
    then some missing_file_kind
    else if code == block_response
    then some block_kind
    else none

unfoldable pub is_request : ℕ → Bool
is_request code =
    ((code == keep_alive || code == file_interested)
      || (code == file_not_interested || code == data_request))
    || ((code == cancel_data_request || code == choke)
        || (code == unchoke || (code == has_piece_update || code == lost_piece_update)))

unfoldable pub is_response : ℕ → Bool
is_response code =
    (code == keep_alive_res || code == bit_field)
    || (code == missing_file || (code == block_response || code == missing_data_response))

unfoldable pub add_message : ℕ → Received → HandlerState → Outcome HandlerState
unfolding is_request is_response
add_message sender msg s =
    if is_request msg.code
    then ok (record s { received_requests = s.received_requests ++ ((sender, msg) ∷ []) })
    else if is_response msg.code
    then ok (record s { received_responses = s.received_responses ++ ((sender, msg) ∷ []) })
    else raise runtime_error
