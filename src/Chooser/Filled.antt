-- ===== src/Chooser/Filled.antt =====
-- What the filling of a peer's window adds (Peer/Torrent/PieceManagement/RarityTrackerChooser.cpp).
use gitabic.Base.{
  length-map, map-append, ℕ, ◌+◌, ◌-◌, ◌≤◌, ◌≡◌, ◌≢◌, refl, sym, ap, ◌∙◌, subst, true, false, ◌==◌,
  Bool-cases, inl, inr, ==_iff, List, [], ◌∷◌, ◌++◌, All, length, insert, append_assoc, append-nil,
  length-append, lookup-insert, ==_refl, arith, map,
}
use gitabic.Bytes.{ok}
use gitabic.Bytes.Ensures.{bind-eq_ok}
use gitabic.Signal.{value}
use gitabic.Progress.Status.{empty, downloading}
use gitabic.Progress.Block.{BlockInfo}
use gitabic.Progress.Piece.{PieceProgress, get_block_index, get_blocks_statused}
use gitabic.Progress.Download.{on_block_status, get_piece_index}
use gitabic.Chooser.Rarity.{ChooserState, RequestTracker, has_piece}
use gitabic.Chooser.Window.{
  Bounded, get_peer_window, available_slots, available_slots_lem, get_peer_window_bounds,
  get_peer_window-get_peer_window,
}
use gitabic.Chooser.Requests.{Request}
use gitabic.Chooser.Filling.{
  Filling, Mark, ask_block, ask_blocks, fill_piece, fill_pieces, fill_window, mark_copy, leave_copy,
  Turn, choose_for_peer,
}

-- A request for a piece that the peer has.
abbrev pub IsHeld : ChooserState → ℕ → Request → Type 0
IsHeld c peer r = has_piece peer r.piece_index c ≡ ok true

-- The entry of a request that is sent at time `now`.
abbrev pub tracker_of : ℕ → Request → RequestTracker
tracker_of now r = record {
  request_time = now;
  piece_index = r.piece_index;
  block_index = r.block_index;
  received = false;
}

-- From `s` to `t`, requests for pieces that the peer has were added, each of which takes a slot.
pub record IsFilled (c : ChooserState) (peer now : ℕ) (s t : Filling) : Type 0 where
  pub extra : List Request
  pub added : t.messages ≡ s.messages ++ extra
  pub tracked : t.outstanding ≡ s.outstanding ++ map (tracker_of now) extra
  pub taken : t.slots + length extra ≡ s.slots
  pub held : All (IsHeld c peer) extra

All-append {ℓ κ} :
    {A : Type ℓ} (P : A → Type κ) (xs ys : List A) → All P xs → All P ys → All P (xs ++ ys)
All-append P [] ys p q = q
All-append P (x ∷ xs) ys p q = (p.0, All-append P xs ys p.1 q)

module _ (c : ChooserState) (peer now : ℕ) where
  IsFilled-same : (s : Filling) → IsFilled c peer now s s
  IsFilled-same s = record {
    extra = [];
    added = sym (append-nil s.messages);
    tracked = sym (append-nil s.outstanding);
    taken = omega arith;
    held = tt;
  }

  IsFilled-next :
      (s t u : Filling)
      → IsFilled c peer now s t
      → IsFilled c peer now t u
      → IsFilled c peer now s u
  IsFilled-next s t u p q =
      let size = length-append p.extra q.extra in
      record {
        extra = p.extra ++ q.extra;
        added = q.added ∙ ap (λ l. l ++ q.extra) p.added ∙ append_assoc s.messages p.extra q.extra;
        tracked =
            q.tracked
            ∙ ap (λ l. l ++ map (tracker_of now) q.extra) p.tracked
            ∙ append_assoc s.outstanding (map (tracker_of now) p.extra)
                (map (tracker_of now) q.extra)
            ∙ ap (◌++◌ s.outstanding) (sym (map-append (tracker_of now) p.extra q.extra));
        taken = omega (arith, size, p.taken, q.taken);
        held = All-append (IsHeld c peer) p.extra q.extra p.held q.held;
      }

  module _ (mark : Mark) (seconds : ℕ) where
    ask_block-IsFilled :
        (index block : ℕ) (piece : PieceProgress) (s : Filling) (t : PieceProgress × Filling)
        → (s.slots == 0) ≡ false
        → has_piece peer index c ≡ ok true
        → ask_block mark now seconds index block piece s ≡ ok t
        → IsFilled c peer now s t.1
    unfolding ask_block
    ask_block-IsFilled index block piece s t free has h =
        let changed = on_block_status s.download index block downloading seconds in
        let (marked, e1, h1) = bind-eq_ok (mark piece block) _ t h in
        let (u, e2, h2) = bind-eq_ok changed.1 _ t h1 in
        let asked : Request = record {
          piece_index = index;
          block_index = block;
          blocks_count = 1;
        } in
        let tracker : RequestTracker = record {
          request_time = now;
          piece_index = index;
          block_index = block;
          received = false;
        } in
        let after : Filling = record {
          download = changed.0;
          slots = s.slots - 1;
          messages = s.messages ++ (asked ∷ []);
          outstanding = s.outstanding ++ (tracker ∷ []);
        } in
        let same : after ≡ t.1 = cc in
        let some_free : s.slots ≢ 0 = λ e. cc ((==_iff s.slots 0).1 e) in
        subst (IsFilled c peer now s) same (record {
          extra = asked ∷ [];
          added = refl;
          tracked = refl;
          taken = omega (arith, some_free);
          held = (has, tt);
        })

    ask_blocks-IsFilled :
        (index : ℕ) (bs : List BlockInfo) (piece : PieceProgress) (s : Filling)
        (t : PieceProgress × Filling)
        → has_piece peer index c ≡ ok true
        → ask_blocks mark now seconds index bs piece s ≡ ok t
        → IsFilled c peer now s t.1
    unfolding ask_blocks
    ask_blocks-IsFilled index [] piece s t has h =
        let same : s ≡ t.1 = cc in subst (IsFilled c peer now s) same (IsFilled-same s)
    ask_blocks-IsFilled index (b ∷ bs) piece s t has h = elim (Bool-cases (s.slots == 0)) [
      | inl full ↦
          let h0 : ok (piece, s) ≡ ok t = rw full at h in
          let same : s ≡ t.1 = cc in subst (IsFilled c peer now s) same (IsFilled-same s)
      | inr free ↦
          let (u, e1, h1) =
            bind-eq_ok (ask_block mark now seconds index (get_block_index b.offset) piece s) _ t
              (rw free at h) in
          IsFilled-next s u.1 t.1 (ask_block-IsFilled index _ piece s u free has e1)
            (ask_blocks-IsFilled index bs u.0 u.1 t has h1)
    ]

    fill_piece-IsFilled :
        (piece : PieceProgress) (s : Filling) (t : PieceProgress × Filling)
        → fill_piece mark now seconds c peer piece s ≡ ok t
        → IsFilled c peer now s t.1
    unfolding fill_piece
    fill_piece-IsFilled piece s t h =
        let (index, e1, h1) = bind-eq_ok (get_piece_index s.download piece.offset) _ t h in
        let (has, e2, h2) = bind-eq_ok (has_piece peer index c) _ t h1 in
        elim (Bool-cases has) [
          | inl holds ↦
              ask_blocks-IsFilled index (get_blocks_statused piece empty) piece s t
                (e2 ∙ ap ok holds) (rw holds at h2)
          | inr lacks ↦
              let h3 : ok (piece, s) ≡ ok t = rw lacks at h2 in
              let same : s ≡ t.1 = cc in subst (IsFilled c peer now s) same (IsFilled-same s)
        ]

    fill_pieces-IsFilled :
        (ps : List PieceProgress) (s : Filling) (t : List PieceProgress × Filling)
        → fill_pieces mark now seconds c peer ps s ≡ ok t
        → IsFilled c peer now s t.1
    unfolding fill_pieces
    fill_pieces-IsFilled [] s t h =
        let same : s ≡ t.1 = cc in subst (IsFilled c peer now s) same (IsFilled-same s)
    fill_pieces-IsFilled (p ∷ ps) s t h = elim (Bool-cases (s.slots == 0)) [
      | inl full ↦
          let h0 : ok (p ∷ ps, s) ≡ ok t = rw full at h in
          let same : s ≡ t.1 = cc in subst (IsFilled c peer now s) same (IsFilled-same s)
      | inr free ↦
          let (u, e1, h1) =
            bind-eq_ok (fill_piece mark now seconds c peer p s) _ t (rw free at h) in
          let (v, e2, h2) = bind-eq_ok (fill_pieces mark now seconds c peer ps u.1) _ t h1 in
          let same : v.1 ≡ t.1 = cc in
          IsFilled-next s u.1 t.1 (fill_piece-IsFilled p s u e1)
            (subst (IsFilled c peer now u.1) same (fill_pieces-IsFilled ps u.1 v e2))
    ]

  fill_window-IsFilled :
      (seconds : ℕ) (begun untouched : List PieceProgress) (s : Filling)
      (t : List PieceProgress × Filling)
      → fill_window now seconds c peer begun untouched s ≡ ok t
      → IsFilled c peer now s t.1
  unfolding fill_window
  fill_window-IsFilled seconds begun untouched s t h =
      let (u, e1, h1) =
        bind-eq_ok (fill_pieces (mark_copy seconds) now seconds c peer begun s) _ t h in
      let (v, e2, h2) =
        bind-eq_ok (fill_pieces leave_copy now seconds c peer untouched u.1) _ t h1 in
      let same : v.1 ≡ t.1 = cc in
      IsFilled-next s u.1 t.1 (fill_pieces-IsFilled (mark_copy seconds) seconds begun s u e1) (
        subst (IsFilled c peer now u.1) same
          (fill_pieces-IsFilled leave_copy seconds untouched u.1 v e2))

value-insert :
    (peer : ℕ) (rs : List RequestTracker) (active : List (ℕ × List RequestTracker))
    → value [] peer (insert peer rs active) ≡ rs
value-insert peer rs active = rw (lookup-insert peer peer rs active, value) (rw (==_refl peer))

-- Where every window stored is in the bounds and no more requests to a peer are out than its window
-- allows: after the peer's turn of ChooseBlocks, when it ends without an exception, both are still so, and
-- the peer's window is the one that it had; the requests that are out are those that were, and behind
-- them one for each message to the peer, in order, for the message's piece and block at the time of the
-- turn; and each message asks for a block of a piece that the peer has by its bit field.
pub choose_for_peer_window :
    (now seconds : ℕ) (untouched : List PieceProgress) (peer : ℕ) (t u : Turn)
    → Bounded t.chooser.peer_windows
    → length (value [] peer t.chooser.active_requests)
      ≤ (get_peer_window peer t.chooser.peer_windows).0
    → choose_for_peer now seconds untouched peer t ≡ ok u
    → (length (value [] peer u.chooser.active_requests)
        ≤ (get_peer_window peer u.chooser.peer_windows).0)
      × Bounded u.chooser.peer_windows
      × ((get_peer_window peer u.chooser.peer_windows).0
          ≡ (get_peer_window peer t.chooser.peer_windows).0)
      × (value [] peer u.chooser.active_requests
          ≡ value [] peer t.chooser.active_requests ++ map (tracker_of now) u.chosen)
      × All (IsHeld t.chooser peer) u.chosen
unfolding choose_for_peer
choose_for_peer_window now seconds untouched peer t u bounded small h =
    let window = get_peer_window peer t.chooser.peer_windows in
    let before = value [] peer t.chooser.active_requests in
    let start : Filling = record {
      download = t.progress;
      slots = available_slots window.0 (length before);
      messages = [];
      outstanding = before;
    } in
    let (w, e, h1) =
      bind-eq_ok (fill_window now seconds t.chooser peer t.begun_pieces untouched start) _ u h in
    let filled =
      fill_window-IsFilled t.chooser peer now seconds t.begun_pieces untouched start w e in
    let same : w.1.messages ≡ u.chosen = cc in
    let windows : window.1 ≡ u.chooser.peer_windows = cc in
    let active : insert peer w.1.outstanding t.chooser.active_requests ≡ u.chooser.active_requests =
      cc in
    let out : value [] peer u.chooser.active_requests ≡ w.1.outstanding =
      ap (value [] peer) (sym active)
      ∙ value-insert peer w.1.outstanding t.chooser.active_requests in
    let size : length (value [] peer u.chooser.active_requests) ≡ length w.1.outstanding =
      ap length out in
    let chosen : filled.extra ≡ u.chosen = sym filled.added ∙ same in
    let more : length w.1.outstanding ≡ length before + length filled.extra =
      ap length filled.tracked
      ∙ length-append before (map (tracker_of now) filled.extra)
      ∙ ap (◌+◌ (length before)) (length-map (tracker_of now) filled.extra) in
    let again : (get_peer_window peer u.chooser.peer_windows).0 ≡ window.0 =
      ap (λ ws. (get_peer_window peer ws).0) (sym windows)
      ∙ get_peer_window-get_peer_window peer t.chooser.peer_windows in
    let bounds = get_peer_window_bounds peer t.chooser.peer_windows bounded in
    let free =
      available_slots_lem window.0 (length before) bounds.1 (omega (arith, small, bounds.1)) in
    (
      elim free [
        | inl p ↦ omega (arith, size, more, filled.taken, p.1, again)
        | inr q ↦ absurd (omega (arith, small, q.0))
      ],
      subst Bounded windows bounds.2,
      again,
      out ∙ filled.tracked ∙ ap (λ l. before ++ map (tracker_of now) l) chosen,
      subst (All (IsHeld t.chooser peer)) chosen filled.held,
    )
