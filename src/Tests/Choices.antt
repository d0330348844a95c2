-- ===== src/Tests/Choices.antt =====
-- The choice of blocks for a file of three pieces.
use gitabic.Base.{◌+◌, ◌^◌, ◌<◌, ◌≤◌, ◌≡◌, ◌⊎◌, refl, List, [], ◌∷◌, All, length, arith}
use gitabic.Bytes.{Outcome, ok, raise, fault}
use gitabic.Splitter.{piece_size}
use gitabic.Progress.Piece.{get_blocks_statused, update_block_status, get_block_index}
use gitabic.Progress.Download.{get_piece_index, on_block_status}
use gitabic.Signal.{value}
use gitabic.Chooser.Filling.{Turn, choose_for_peer}
use gitabic.Chooser.Filled.{IsHeld, tracker_of, choose_for_peer_window}
use gitabic.BitField.{get_bit_field}
use gitabic.BitField.Pieces.{test_piece-get_bit_field}
use gitabic.Tests.Downloads.{piece, download}
use gitabic.Base.{false, true, map, ◌++◌}
use gitabic.Chooser.Requests.{Request, IsSingle, asked, join_requests, asked-join_requests}
use gitabic.Chooser.Window.{
  Windows, Bounded, get_peer_window, window_of, available_slots, available_slots_lem,
}
use gitabic.Chooser.Rarity.{
  test_piece, has_piece, ChooserState, test_bit, update_peer_bitfield, got_piece, lost_piece,
}
use gitabic.Chooser.Rarity.Exact.{Counts, holders, bit_of}
use gitabic.Chooser.Rarity.Invariant.{Proper}
use gitabic.Chooser.Rarity.Peers.{IsExact, update_peer_bitfield-IsExact}
use gitabic.Chooser.Rarity.Updates.{Known, got_piece-lost_piece}

abbrev requests : List Request
requests =
    record { piece_index = 1; block_index = 0; blocks_count = 1 }
    ∷ record { piece_index = 1; block_index = 1; blocks_count = 1 }
    ∷ record { piece_index = 2; block_index = 2; blocks_count = 1 }
    ∷ []

asked-join_requests_example : asked (join_requests requests) ≡ asked requests
asked-join_requests_example =
    asked-join_requests requests (unfold IsSingle in (refl, (refl, (refl, tt)))) (omega arith)

abbrev windows : Windows
windows = (5, 2) ∷ (6, 40) ∷ []

windows-Bounded : Bounded windows
unfolding Bounded
windows-Bounded = ((omega arith, omega arith), ((omega arith, omega arith), tt))

available_slots_lem_example :
    ((12 ≤ 10) × (available_slots 10 12 + 12 ≡ 10)) ⊎ ((10 < 12) × (2 ^ 15 ≤ available_slots 10 12))
available_slots_lem_example = available_slots_lem 10 12 (omega arith) (omega arith)

-- Peer 5 has pieces 0 and 2.
abbrev chooser : ChooserState
chooser = record {
  piece_count = 3;
  rarity = 1 ∷ 0 ∷ 1 ∷ [];
  peers_bitfields = (5, 5 ∷ []) ∷ [];
  peer_windows = windows;
  active_requests = [];
}

chooser-IsExact : IsExact chooser
unfolding Proper Counts holders bit_of test_bit
chooser-IsExact = record {
  sized = refl;
  proper = (refl, omega arith, tt);
  exact = (refl, (refl, (refl, tt)));
}

update_peer_bitfield-IsExact_example :
    (s : ChooserState) × ((update_peer_bitfield 6 (7 ∷ []) chooser ≡ ok s) × IsExact s)
update_peer_bitfield-IsExact_example =
    update_peer_bitfield-IsExact 6 (7 ∷ []) chooser chooser-IsExact (omega arith)

got_piece-lost_piece_example :
    ((t : ChooserState) × (got_piece 5 1 chooser ≡ ok t) × Known 5 1 true t)
    × ((u : ChooserState) × (lost_piece 5 1 chooser ≡ ok u) × Known 5 1 false u)
got_piece-lost_piece_example =
    got_piece-lost_piece 5 1 chooser (5 ∷ []) chooser-IsExact refl (omega arith)

-- The download of a file of five bytes, whose only piece is not verified.
test_piece-get_bit_field_example : test_piece (get_bit_field download) 0 ≡ ok false
test_piece-get_bit_field_example = test_piece-get_bit_field download 0 piece refl

-- Peer 5 has the one piece of the download, and two free slots.
abbrev start : Turn
start = record {
  chooser = record {
    piece_count = 1;
    rarity = 1 ∷ [];
    peers_bitfields = (5, 1 ∷ []) ∷ [];
    peer_windows = windows;
    active_requests = [];
  };
  progress = download;
  begun_pieces = [];
  chosen = [];
}

abbrev result : Outcome Turn → Turn
result outcome = elim outcome [ ok t ↦ t | raise e ↦ start | fault ↦ start ]

abbrev chosen_turn : Turn
chosen_turn = result (choose_for_peer 1000 107 (piece ∷ []) 5 start)

chosen_turn-ok : choose_for_peer 1000 107 (piece ∷ []) 5 start ≡ ok chosen_turn
unfolding choose_for_peer available_slots get_peer_window window_of get_piece_index piece_size
    has_piece test_piece test_bit get_blocks_statused on_block_status update_block_status
    get_block_index
chosen_turn-ok = refl

choose_for_peer_window_example :
    (length (value [] 5 chosen_turn.chooser.active_requests)
      ≤ (get_peer_window 5 chosen_turn.chooser.peer_windows).0)
    × Bounded chosen_turn.chooser.peer_windows
    × ((get_peer_window 5 chosen_turn.chooser.peer_windows).0 ≡ (get_peer_window 5 windows).0)
    × (value [] 5 chosen_turn.chooser.active_requests
        ≡ [] ++ map (tracker_of 1000) chosen_turn.chosen)
    × All (IsHeld start.chooser 5) chosen_turn.chosen
choose_for_peer_window_example =
    choose_for_peer_window 1000 107 (piece ∷ []) 5 start chosen_turn windows-Bounded
      (unfold get_peer_window in unfold window_of in omega arith) chosen_turn-ok
