-- ===== src/Chooser/Filling.antt =====
-- RarityTrackerChooser::ChooseBlocks: the requests that time out, and the filling of each peer's window
-- (Peer/Torrent/PieceManagement/RarityTrackerChooser.cpp). The sorts of pieces and of requests, one of
-- them by random numbers, are arguments, and so are the clocks, in milliseconds and in seconds.
use gitabic.Base.{ℕ, ◌-◌, false, ltb, ◌==◌, if◌then◌else◌, List, [], ◌∷◌, ◌++◌, length, insert, map}
use gitabic.Bytes.{Outcome, ok, bind}
use gitabic.Signal.{value}
use gitabic.Progress.Status.{empty, downloading}
use gitabic.Progress.Block.{BlockInfo}
use gitabic.Progress.Piece.{
  PieceProgress, get_block_index, get_blocks_statused, update_block_status,
}
use gitabic.Progress.Download.{
  DownloadProgress, on_block_status, get_piece_index, get_pieces_statused,
}
use gitabic.Chooser.Rarity.{RequestTracker, ChooserState, has_piece}
use gitabic.Chooser.Window.{get_peer_window, available_slots}
use gitabic.Chooser.Requests.{Request, join_requests}

abbrev request_timeout_ms : ℕ
request_timeout_ms = 5000

-- The loop over the requests of one peer.
unfoldable expire_requests :
    ℕ
    → ℕ
    → List RequestTracker
    → DownloadProgress
    → Outcome (List RequestTracker × DownloadProgress)
expire_requests now seconds [] d = ok ([], d)
expire_requests now seconds (r ∷ rs) d =
    let keep = bind (expire_requests now seconds rs d) (λ t. ok (r ∷ t.0, t.1)) in
    let skip = expire_requests now seconds rs d in
    let changed = on_block_status d r.piece_index r.block_index empty seconds in
    let expired = bind changed.1 (λ _. expire_requests now seconds rs changed.0) in
    if r.received
    then skip
    else if ltb request_timeout_ms (now - r.request_time)
    then expired
    else keep

unfoldable expire_all :
    ℕ
    → ℕ
    → List (ℕ × List RequestTracker)
    → DownloadProgress
    → Outcome (List (ℕ × List RequestTracker) × DownloadProgress)
unfolding expire_requests
expire_all now seconds [] d = ok ([], d)
expire_all now seconds ((peer, rs) ∷ active) d =
    bind (expire_requests now seconds rs d)
      λ t. bind (expire_all now seconds active t.1) λ u. ok ((peer, t.0) ∷ u.0, u.1)

-- What the loops over the pieces change for one peer: the download, availableSlots, the peer's
-- messages and its active requests.
pub record Filling : Type 0 where
  pub download : DownloadProgress
  pub slots : ℕ
  pub messages : List Request
  pub outstanding : List RequestTracker

-- The status of a block in the copy of its piece: the loop over the pieces that are being downloaded
-- changes it, that over the empty ones does not.
abbrev pub Mark : Type 0
Mark = PieceProgress → ℕ → Outcome PieceProgress

unfoldable pub mark_copy : ℕ → Mark
mark_copy seconds piece block = update_block_status piece block downloading seconds

unfoldable pub leave_copy : Mark
leave_copy piece block = ok piece

-- The body of the loops over the blocks; `index` is the piece's, which its offset and the file's size
-- determine.
unfoldable pub ask_block :
    Mark → ℕ → ℕ → ℕ → ℕ → PieceProgress → Filling → Outcome (PieceProgress × Filling)
ask_block mark now seconds index block piece s =
    let changed = on_block_status s.download index block downloading seconds in
    bind (mark piece block) λ marked. bind changed.1 λ _. ok (
      marked,
      record {
        download = changed.0;
        slots = s.slots - 1;
        messages =
            s.messages
            ++ (record { piece_index = index; block_index = block; blocks_count = 1 } ∷ []);
        outstanding =
            s.outstanding
            ++ (record {
              request_time = now;
              piece_index = index;
              block_index = block;
              received = false;
            }
                ∷ []);
      },
    )

unfoldable pub ask_blocks :
    Mark → ℕ → ℕ → ℕ → List BlockInfo → PieceProgress → Filling → Outcome (PieceProgress × Filling)
unfolding ask_block
ask_blocks mark now seconds index [] piece s = ok (piece, s)
ask_blocks mark now seconds index (b ∷ bs) piece s =
    if s.slots == 0
    then ok (piece, s)
    else bind (ask_block mark now seconds index (get_block_index b.offset) piece s)
        λ t. ask_blocks mark now seconds index bs t.0 t.1

unfoldable pub fill_piece :
    Mark → ℕ → ℕ → ChooserState → ℕ → PieceProgress → Filling → Outcome (PieceProgress × Filling)
unfolding ask_blocks
fill_piece mark now seconds c peer piece s = bind (get_piece_index s.download piece.offset) λ index.
    bind (has_piece peer index c) λ has.
      if has
      then ask_blocks mark now seconds index (get_blocks_statused piece empty) piece s
      else ok (piece, s)

-- A loop over the pieces, with their copies as it leaves them.
unfoldable pub fill_pieces :
    Mark
    → ℕ
    → ℕ
    → ChooserState
    → ℕ
    → List PieceProgress
    → Filling
    → Outcome (List PieceProgress × Filling)
unfolding fill_piece
fill_pieces mark now seconds c peer [] s = ok ([], s)
fill_pieces mark now seconds c peer (p ∷ ps) s =
    if s.slots == 0
    then ok (p ∷ ps, s)
    else bind (fill_piece mark now seconds c peer p s)
        λ t. bind (fill_pieces mark now seconds c peer ps t.1) λ u. ok (t.0 ∷ u.0, u.1)

-- Both loops.
unfoldable pub fill_window :
    ℕ
    → ℕ
    → ChooserState
    → ℕ
    → List PieceProgress
    → List PieceProgress
    → Filling
    → Outcome (List PieceProgress × Filling)
unfolding fill_pieces mark_copy leave_copy
fill_window now seconds c peer begun untouched s =
    bind (fill_pieces (mark_copy seconds) now seconds c peer begun s)
      λ t. bind (fill_pieces leave_copy now seconds c peer untouched t.1) λ u. ok (t.0, u.1)

-- What one peer's turn leaves: the chooser, the download, the copies of the pieces that are being
-- downloaded, and the peer's messages.
pub record Turn : Type 0 where
  pub chooser : ChooserState
  pub progress : DownloadProgress
  pub begun_pieces : List PieceProgress
  pub chosen : List Request

-- With no free slot, fill_window leaves everything as it is, as `continue` does.
unfoldable pub choose_for_peer : ℕ → ℕ → List PieceProgress → ℕ → Turn → Outcome Turn
unfolding fill_window
choose_for_peer now seconds untouched peer t =
    let window = get_peer_window peer t.chooser.peer_windows in
    let before = value [] peer t.chooser.active_requests in
    bind
      (fill_window now seconds t.chooser peer t.begun_pieces untouched (record {
        download = t.progress;
        slots = available_slots window.0 (length before);
        messages = [];
        outstanding = before;
      }))
      λ u. ok (record {
        chooser = record t.chooser {
          peer_windows = window.1;
          active_requests = insert peer u.1.outstanding t.chooser.active_requests;
        };
        progress = u.1.download;
        begun_pieces = u.0;
        chosen = u.1.messages;
      })

-- The loop over the peers; the peers without messages are left out.
unfoldable choose_for_peers :
    ℕ → ℕ → List PieceProgress → List ℕ → Turn → Outcome (List (ℕ × List Request) × Turn)
unfolding choose_for_peer
choose_for_peers now seconds untouched [] t = ok ([], t)
choose_for_peers now seconds untouched (peer ∷ peers) t =
    bind (choose_for_peer now seconds untouched peer t) λ u.
      bind (choose_for_peers now seconds untouched peers u)
        λ v. ok ((if length u.chosen == 0 then v.0 else (peer, u.chosen) ∷ v.0), v.1)

unfoldable choose_blocks :
    (List PieceProgress → List PieceProgress)
    → (List PieceProgress → List PieceProgress)
    → (List Request → List Request)
    → ℕ
    → ℕ
    → List ℕ
    → ChooserState
    → DownloadProgress
    → Outcome (List (ℕ × List Request) × ChooserState × DownloadProgress)
unfolding expire_all choose_for_peers
choose_blocks by_bytes by_rarity by_block now seconds peers c d =
    bind (expire_all now seconds c.active_requests d) λ e.
      bind
        (choose_for_peers now seconds (by_rarity (get_pieces_statused e.1 empty)) peers (record {
          chooser = record c { active_requests = e.0 };
          progress = e.1;
          begun_pieces = by_bytes (get_pieces_statused e.1 downloading);
          chosen = [];
        }))
        λ t. ok (map (λ r. (r.0, join_requests (by_block r.1))) t.0, t.1.chooser, t.1.progress)
