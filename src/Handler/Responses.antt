-- ===== src/Handler/Responses.antt =====
-- A block that another peer has sent (handleResponse of
-- Peer/Torrent/TorrentFileHandler/TorrentFileHandler.cpp). Each part runs under a lock of its own and is
-- one step; the clocks, in milliseconds for the chooser and in seconds for the file, are arguments.
pub mod Told
use gitabic.Base.{
  ℕ, ◌≡◌, refl, sym, ap, ◌∙◌, subst, Bool, true, false, if◌then◌else◌, List, [], ◌∷◌, ◌++◌,
  append-nil, Option-cases, Bool-cases, inl, inr, none, some, lookup, All, ◌⊎◌,
}
use gitabic.Bytes.{Outcome, ok, raise, fault, bind, runtime_error}
use gitabic.Bytes.Ensures.{bind-eq_ok}
use gitabic.Peers.Connections.{ConnectionState, send_message, after_send, send_all, is_connected}
use gitabic.Peers.Manager.{PeerManager, get_interested_peers}
use gitabic.Chooser.Rarity.{ChooserState}
use gitabic.Chooser.Responses.{ResponseTimes, update_block_received}
use gitabic.Chooser.Responses.Pacing.{IsPaced, update_block_received-IsPaced}
use gitabic.FileIo.{FileIo, save_block}
use gitabic.FileIo.Verified.{IsVerified, save_block-IsVerified}

-- What the handling of a block works on.
pub record BlockState : Type 0 where
  pub file_io : FileIo
  pub chooser : ChooserState
  pub response_times : ResponseTimes
  pub peers : PeerManager
  pub connections : ConnectionState

-- What a call leaves, if it does not throw, and in either case the peers that it has told of the piece.
abbrev pub Telling : Type 0
Telling = Outcome BlockState × List ℕ

unfoldable pub tell_interested : BlockState → Telling
unfolding get_interested_peers send_all
tell_interested s =
    let sent = send_all (get_interested_peers s.peers) s.connections in
    (bind sent.0.0 (λ _. ok (record s { connections = sent.0.1 })), sent.1)

unfoldable pub after_save : ℕ → ℕ → ℕ → ℕ → BlockState → FileIo × Bool → Telling
unfolding update_block_received tell_interested
after_save now sender piece block s (io, piece_finished) =
    let chosen = update_block_received now sender piece block (s.chooser, s.response_times) in
    let t : BlockState = record s { file_io = io; chooser = chosen.0; response_times = chosen.1 } in
    if piece_finished then tell_interested t else (ok t, [])

-- No peer is told when saveBlock throws.
unfoldable pub then_tell : Outcome (FileIo × Bool) → (FileIo × Bool → Telling) → Telling
then_tell (ok saved) tell = tell saved
then_tell (raise e) tell = (raise e, [])
then_tell fault tell = (fault, [])

unfoldable pub handle_block_response :
    (List ℕ → ℕ) → ℕ → ℕ → ℕ → ℕ → ℕ → List ℕ → BlockState → Telling
unfolding after_save save_block then_tell
handle_block_response sha256 now seconds sender piece block bytes s =
    then_tell (save_block sha256 s.file_io piece block bytes seconds)
      (after_save now sender piece block s)
