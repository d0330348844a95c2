-- ===== src/Tests/Blocks.antt =====
-- A block that completes its piece, the peers that are told of it, and a file that is checked.
use gitabic.Base.{
  if◌then◌else◌, leb, none, ℕ, Bool, ◌+◌, ◌≡◌, ◌⊎◌, refl, true, false, List, [], ◌∷◌, some, lookup,
  All, arith,
}
use gitabic.Bytes.{ok, raise, runtime_error, length_error}
use gitabic.Progress.Status.{empty}
use gitabic.Progress.Piece.{set_status, downloaded_block, all_downloaded}
use gitabic.Progress.Download.{
  on_downloaded_block, get_piece, update_piece_status, get_piece_offset_in_progress_file,
}
use gitabic.FileIo.{FileIo, read_file_chunk, save_block}
use gitabic.FileIo.Damaged.{get_damaged_pieces, verify_file}
use gitabic.FileIo.Damaged.Fresh.{holding, get_damaged_pieces-create_meta_data}
use gitabic.MetaData.Creation.{StoredKey, create_meta_data}
use gitabic.Tests.Downloads.{blank}
use gitabic.Progress.Download.{DownloadProgress, init}
use gitabic.FileIo.Damaged.Cleared.{IsSound}
use gitabic.FileIo.Damaged.Reading.{Disk, verify_file_reading, verify_file_reading_lem}
use gitabic.Peers.Connections.{ConnectionState, is_connected}
use gitabic.Peers.Manager.{PeerState, new_peer_state, get_interested_peers}
use gitabic.Chooser.Rarity.{RequestTracker, ChooserState}
use gitabic.Chooser.Window.{Bounded}
use gitabic.Chooser.Responses.{ResponseTimes, find_request, update_block_received}
use gitabic.Chooser.Responses.Pacing.{IsPaced, AreShort, still_out, update_block_received_lem}
use gitabic.Handler.{base_reply}
use gitabic.Handler.Sending.{SendState, QueueEnds, send_queue_lem}
use gitabic.Handler.Responses.{BlockState, handle_block_response}
use gitabic.Handler.Responses.Told.{
  Told, handle_block_response_lem, handle_block_response_disconnected,
}
use gitabic.Tests.Handling.{files, long_hash, manager, saved}

-- Peer 5 has been asked for the block; it has taken six times so far.
abbrev request : RequestTracker
request = record { request_time = 100; piece_index = 0; block_index = 0; received = false }

abbrev chooser : ChooserState
chooser = record {
  piece_count = 1;
  rarity = 1 ∷ [];
  peers_bitfields = (5, 1 ∷ []) ∷ [];
  peer_windows = (5, 40) ∷ [];
  active_requests = (5, request ∷ []) ∷ [];
}

abbrev times : ResponseTimes
times = (5, 9 ∷ 9 ∷ 9 ∷ 9 ∷ 9 ∷ 9 ∷ []) ∷ []

chooser-IsPaced : IsPaced chooser times
unfolding Bounded AreShort
chooser-IsPaced = record {
  windows = ((omega arith, omega arith), tt);
  windowed = λ j h. h;
  short = (omega arith, tt);
}

update_block_received_lem_example :
    let t = update_block_received 105 5 0 0 (chooser, times) in
    IsPaced t.0 t.1
    × ((left : List RequestTracker) × (lookup 5 t.0.active_requests ≡ some left)
        × (still_out left + (if request.received then 0 else 1) ≡ still_out (request ∷ [])))
unfolding find_request
update_block_received_lem_example =
    update_block_received_lem 105 5 0 0 chooser times (request ∷ []) request chooser-IsPaced refl
      refl

-- Peers 6 and 7 are interested, of whom 7 has disconnected.
abbrev interested : PeerState
interested = record new_peer_state { peer_interested = true }

abbrev connections : ConnectionState
connections = record { peer_connections = (6, true) ∷ (7, false) ∷ []; registered_peers_files = [] }

abbrev alone : BlockState
alone = record {
  file_io = files;
  chooser = chooser;
  response_times = times;
  peers = record manager { peer_states = (6, interested) ∷ [] };
  connections = connections;
}

abbrev after_block : BlockState
after_block = record alone {
  file_io = saved;
  chooser = (update_block_received 105 5 0 0 (chooser, times)).0;
  response_times = (update_block_received 105 5 0 0 (chooser, times)).1;
}

abbrev told : List ℕ
told = 6 ∷ []

handle_block_response_lem_example :
    IsPaced after_block.chooser after_block.response_times
    × ((told ≡ []) ⊎ Told long_hash 0 alone after_block told)
unfolding handle_block_response save_block get_interested_peers is_connected on_downloaded_block
    downloaded_block all_downloaded get_piece update_piece_status get_piece_offset_in_progress_file
handle_block_response_lem_example =
    handle_block_response_lem long_hash 105 110 5 0 0 (1 ∷ 2 ∷ 3 ∷ 4 ∷ 5 ∷ []) alone after_block
      told chooser-IsPaced refl

abbrev together : BlockState
together = record alone {
  peers = record manager { peer_states = (6, interested) ∷ (7, interested) ∷ [] };
}

handle_block_response_disconnected_example :
    handle_block_response long_hash 105 110 5 0 0 (1 ∷ 2 ∷ 3 ∷ 4 ∷ 5 ∷ []) together
    ≡ (raise runtime_error, 6 ∷ [])
unfolding save_block get_interested_peers is_connected on_downloaded_block downloaded_block
    all_downloaded get_piece update_piece_status get_piece_offset_in_progress_file
handle_block_response_disconnected_example =
    handle_block_response_disconnected long_hash 105 110 5 0 0 (1 ∷ 2 ∷ 3 ∷ 4 ∷ 5 ∷ []) together
      saved (6 ∷ []) 7 [] refl refl (refl, tt) refl

abbrev sending : SendState
sending = record { connections = connections; sent = [] }

send_queue_lem_example :
    QueueEnds ((6, base_reply 102) ∷ (7, base_reply 102) ∷ (6, base_reply 110) ∷ []) sending
send_queue_lem_example =
    send_queue_lem ((6, base_reply 102) ∷ (7, base_reply 102) ∷ (6, base_reply 110) ∷ []) sending

-- A disk that has vectors of up to 100 bytes.
abbrev disk : Disk
disk = record { opens = true; refused = λ size. if leb size 100 then none else some length_error }

verify_file_reading_lem_example :
    ((true ≡ false) × (verify_file_reading disk long_hash saved 120 ≡ raise runtime_error))
    ⊎ ((t : FileIo) × (good : Bool) × (verify_file_reading disk long_hash saved 120 ≡ ok (t, good))
        × (t.file ≡ saved.file)
        × (((good ≡ true)
              × (t ≡ saved)
              × (long_hash (read_file_chunk saved.file 0 saved.download_progress.file_size)
                  ≡ saved.download_progress.file_hash))
            ⊎ ((good ≡ false)
                × All
                    (λ p. (p.status ≡ empty) ⊎ IsSound long_hash t.file p)
                    t.download_progress.pieces)))
unfolding save_block on_downloaded_block downloaded_block all_downloaded get_piece
    update_piece_status get_piece_offset_in_progress_file set_status
verify_file_reading_lem_example =
    verify_file_reading_lem disk long_hash saved 120 (omega arith)
      (record { whole = refl; each = (refl, tt) })

abbrev stored_key : StoredKey
stored_key = record { has_password = false; key = 3; key_salt = 0 }

get_damaged_pieces-create_meta_data_example :
    (e : DownloadProgress) × (init blank
        (create_meta_data long_hash
          (102 ∷ [])
          (1 ∷ 2 ∷ 3 ∷ 4 ∷ 5 ∷ [])
          []
          (record { ip = 0; port = 0 })
          stored_key
          0)
        100
      ≡ ok e)
    × (get_damaged_pieces long_hash (holding (1 ∷ 2 ∷ 3 ∷ 4 ∷ 5 ∷ []) [] 5 e) ≡ [])
    × (verify_file long_hash (holding (1 ∷ 2 ∷ 3 ∷ 4 ∷ 5 ∷ []) [] 5 e) 120
        ≡ ok (holding (1 ∷ 2 ∷ 3 ∷ 4 ∷ 5 ∷ []) [] 5 e, true))
get_damaged_pieces-create_meta_data_example =
    get_damaged_pieces-create_meta_data long_hash (102 ∷ []) (1 ∷ 2 ∷ 3 ∷ 4 ∷ 5 ∷ []) []
      (record { ip = 0; port = 0 }) stored_key 0 blank 100 120 [] 5 refl (omega arith) (omega arith)
