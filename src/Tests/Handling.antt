-- ===== src/Tests/Handling.antt =====
-- Messages and blocks that reach the handler of a file, and a client's messages on their way.
use gitabic.Base.{
  ℕ, ◌+◌, ◌^◌, ◌≡◌, refl, sym, ◌∙◌, Bool, false, ltb, ◌==◌, if◌then◌else◌, List, [], ◌∷◌, length,
  get_elem?, replicate, length-replicate, Option, none, some, lookup, arith,
}
use gitabic.Bytes.{Outcome, ok, raise, fault, read_le}
use gitabic.Splitter.{block_size}
use gitabic.Message.Frame.{Received}
use gitabic.Message.Torrent.{TorrentBase, DataRequest, deserialize_torrent}
use gitabic.Message.Server.{ServerMessage, assign_id}
use gitabic.Server.{Clock, ServerState, Handlers, serve_turn, send_front}
use gitabic.Server.Delivery.{Runs, stop, turn, sends, sends-Runs}
use gitabic.Peers.Connections.{has}
use gitabic.Peers.Manager.{PeerManager, get_requestable_peers, change_peer_state}
use gitabic.Peers.Adding.{IsKeyed}
use gitabic.Chooser.Rarity.{new_chooser}
use gitabic.Handler.{HandlerState, handle_data_request, handle_interested, add_message, is_request}
use gitabic.Handler.Blocks.{replies_from, handle_data_request_ends}
use gitabic.Handler.Interest.{interested_state, handle_interested_unknown}
use gitabic.Handler.Dispatch.{handle_message, route_message}
use gitabic.Handler.Queues.{IsQueued, handle_message-IsQueued}
use gitabic.Progress.Piece.{downloaded_block, all_downloaded}
use gitabic.Progress.Download.{
  on_downloaded_block, get_piece, update_piece_status, get_piece_offset_in_progress_file,
}
use gitabic.FileIo.{FileIo, save_block, load_block}
use gitabic.FileIo.Verified.{IsVerified, save_block-IsVerified}
use gitabic.FileIo.Transfer.{save_block-load_block}
use gitabic.Tests.Downloads.{download}

abbrev no_base : TorrentBase
no_base = record { code = 121; file_id = 0; hash = 0; init_vector = 0 }

abbrev loaded : ℕ → ℕ → List ℕ
loaded piece block = piece ∷ block ∷ []

-- The last block of piece 3 is at the index 2 ^ 16 - 1, where the counter goes back to zero.
abbrev last_block : DataRequest
last_block = record { base = no_base; piece_index = 3; block_index = 65535; blocks_count = 1 }

handle_data_request_ends_example :
    handle_data_request loaded (1 + 1 + 5) last_block
    ≡ (if ltb (65535 + 1) (2 ^ 16) then some (replies_from loaded 3 1 65535) else none)
handle_data_request_ends_example = handle_data_request_ends loaded last_block 5 (omega arith)

abbrev pub manager : PeerManager
manager = record {
  peer_states = [];
  disconnected_peers = [];
  back_up_peers = [];
  black_list = [];
  file_id = 0;
  is_seed = false;
  new_peer_list = [];
}

handle_interested_unknown_example :
    let s = (handle_interested false (1 ∷ []) 5 manager).1 in
    (lookup 5 s.peer_states ≡ some interested_state)
    × (s.new_peer_list ≡ [])
    × (has 5 (get_requestable_peers (change_peer_state 5 (λ p. record p { bitfield = 3 ∷ [] }) s))
        ≡ false)
handle_interested_unknown_example =
    handle_interested_unknown false (1 ∷ []) (3 ∷ []) 5 manager (unfold IsKeyed in tt) refl

abbrev handler : HandlerState
handler = record {
  peers = manager;
  connections = record { peer_connections = []; registered_peers_files = [] };
  chooser = new_chooser 1;
  is_seed = false;
  received_requests = [];
  received_responses = [];
  messages_to_send = [];
}

-- A choke, of the file with the ID 0.
abbrev choking : Received
choking = record { code = 130; payload = replicate 80 0 }

abbrev queued : HandlerState
queued = record handler { received_requests = (5, choking) ∷ [] }

handle_message-IsQueued_example :
    (b : TorrentBase × List ℕ) × (h : HandlerState) × (h' : HandlerState) × (deserialize_torrent 130
        (replicate 80 0)
      ≡ ok b)
    × (lookup b.0.file_id ((0, handler) ∷ []) ≡ some h)
    × IsQueued 5 choking h h'
    × ((q : ℕ)
        → lookup q ((0, queued) ∷ [])
          ≡ (if b.0.file_id == q then some h' else lookup q ((0, handler) ∷ [])))
unfolding deserialize_torrent read_le
handle_message-IsQueued_example =
    handle_message-IsQueued 5 choking ((0, handler) ∷ []) ((0, queued) ∷ []) (
      unfold handle_message in
      unfold route_message in unfold add_message in unfold is_request in refl)

-- A file of one block; the piece counts as good because of its length.
abbrev pub long_hash : List ℕ → ℕ
long_hash bytes = length bytes + 6

abbrev pub files : FileIo
files = record {
  file = 0 ∷ 0 ∷ 0 ∷ 0 ∷ 0 ∷ [];
  progress_file = [];
  download_progress = download;
  piece_size = 5;
}

abbrev result : Outcome (FileIo × Bool) → FileIo × Bool
result outcome = elim outcome [ ok t ↦ t | raise e ↦ (files, false) | fault ↦ (files, false) ]

abbrev pub saved : FileIo
saved = (result (save_block long_hash files 0 0 (1 ∷ 2 ∷ 3 ∷ 4 ∷ 5 ∷ []) 110)).0

save_block-IsVerified_example : IsVerified long_hash 5 0 saved
unfolding on_downloaded_block save_block downloaded_block all_downloaded get_piece
    update_piece_status get_piece_offset_in_progress_file
save_block-IsVerified_example =
    save_block-IsVerified long_hash files saved 0 0 (1 ∷ 2 ∷ 3 ∷ 4 ∷ 5 ∷ []) 110 refl

-- A file as long as a block, and the same file at another peer, who has it all.
abbrev blank : FileIo
blank = record files { file = replicate block_size 0 }

abbrev complete : FileIo
complete = record files { file = replicate block_size 1 }

abbrev copied : FileIo × Bool
copied = result (save_block long_hash blank 0 0 (load_block complete 0 0) 110)

save_block-load_block_example : get_elem? copied.0.file 12287 ≡ get_elem? complete.file 12287
unfolding on_downloaded_block save_block downloaded_block all_downloaded get_piece
    update_piece_status get_piece_offset_in_progress_file
save_block-load_block_example =
    save_block-load_block long_hash blank complete 0 0 110 copied (omega arith) refl
      (length-replicate {A = ℕ} block_size 0 ∙ sym (length-replicate {A = ℕ} block_size 1))
      (omega (arith, length-replicate {A = ℕ} block_size 0))
      (omega (arith, length-replicate {A = ℕ} block_size 0)) refl 12287

abbrev clock : Clock
clock = record { seconds = 40; nanoseconds = 40000000000 }

abbrev quiet : Received
quiet = record { code = 0; payload = [] }

-- Two messages wait for client 5, whose thread has two turns; in between, client 6 has one.
abbrev handlers : Handlers
handlers = record {
  store = [];
  ice = record { waits_for_response = []; requests_time = []; wait_ids = 0 };
}

abbrev state : List (Option ServerMessage) → ServerState
state waiting = record { queues = (5, waiting) ∷ (6, []) ∷ []; handlers = handlers }

abbrev trace : List (ℕ × Option ServerMessage)
trace = (5, some (assign_id 1)) ∷ (6, none) ∷ (5, some (assign_id 2)) ∷ []

two_turns : Runs (state (some (assign_id 1) ∷ some (assign_id 2) ∷ [])) trace
unfolding serve_turn send_front
two_turns = turn clock 0 5 quiet _ (state (some (assign_id 2) ∷ [])) _ _ refl (
    turn clock 0 6 quiet _ (state (some (assign_id 2) ∷ [])) _ _ refl
      (turn clock 0 5 quiet _ (state []) _ _ refl (stop _)))

sends-Runs_example : get_elem? (sends 5 trace) 1 ≡ some (some (assign_id 2))
sends-Runs_example =
    sends-Runs 5 (assign_id 1 ∷ []) (assign_id 2) []
      (state (some (assign_id 1) ∷ some (assign_id 2) ∷ [])) trace two_turns refl
      (unfold sends in omega arith)
