-- ===== src/Handler/Responses/Told.antt =====
-- Which peers are told of a piece, and when
-- (handleResponse of Peer/Torrent/TorrentFileHandler/TorrentFileHandler.cpp).
use gitabic.Base.{
  ℕ, ◌≡◌, refl, sym, ap, ◌∙◌, subst, Bool, true, false, if◌then◌else◌, List, [], ◌∷◌, ◌++◌,
  append-nil, inl, inr, some, lookup, All, ◌⊎◌,
}
use gitabic.Bytes.{Outcome, ok, raise, fault, bind, runtime_error}
use gitabic.Bytes.Ensures.{bind-eq_ok}
use gitabic.Peers.Connections.{Sends, send_all, is_connected}
use gitabic.Peers.Sending.{IsSent, send_all-IsSent, send_all_connected, send_all_disconnected}
use gitabic.Handler.Responses.{
  BlockState, Telling, tell_interested, after_save, then_tell, handle_block_response,
}
use gitabic.Peers.Manager.{get_interested_peers}
use gitabic.Chooser.Rarity.{ChooserState}
use gitabic.Chooser.Responses.{ResponseTimes, update_block_received}
use gitabic.Chooser.Responses.Pacing.{IsPaced, update_block_received-IsPaced}
use gitabic.FileIo.{FileIo, save_block}
use gitabic.FileIo.Verified.{IsVerified, save_block-IsVerified}

-- What has been told to whom.
pub record Told (sha256 : List ℕ → ℕ) (piece : ℕ) (s t : BlockState) (told : List ℕ) : Type 0 where
  pub everyone : told ≡ get_interested_peers s.peers
  pub reached : All (λ peer. is_connected peer s.connections ≡ true) told
  pub good : IsVerified sha256 s.file_io.piece_size piece t.file_io

tell_interested-eq_ok :
    (s t : BlockState) (told : List ℕ)
    → tell_interested s ≡ (ok t, told)
    → (told ≡ get_interested_peers s.peers)
      × All (λ peer. is_connected peer s.connections ≡ true) told
      × (t.file_io ≡ s.file_io)
      × (t.chooser ≡ s.chooser)
      × (t.response_times ≡ s.response_times)
unfolding tell_interested IsSent
tell_interested-eq_ok s t told h =
    let interested = get_interested_peers s.peers in
    let (u, e, h1) =
      bind-eq_ok (send_all interested s.connections).0.0 _ t (ap (λ (r : Telling). r.0) h) in
    let sent = send_all-IsSent interested s.connections e in
    let same : told ≡ interested = sym (ap (λ (r : Telling). r.1) h) ∙ sent.1 in
    let left : (record s { connections = (send_all interested s.connections).0.1 }) ≡ t = cc in
    (
      same,
      subst (λ ps. All (λ peer. is_connected peer s.connections ≡ true) ps) (sym same) sent.2,
      ap (λ (v : BlockState). v.file_io) (sym left),
      ap (λ (v : BlockState). v.chooser) (sym left),
      ap (λ (v : BlockState). v.response_times) (sym left),
    )

then_tell-eq_ok :
    (o : Outcome (FileIo × Bool)) (tell : FileIo × Bool → Telling) (t : BlockState) (told : List ℕ)
    → then_tell o tell ≡ (ok t, told)
    → (saved : FileIo × Bool) × (o ≡ ok saved) × (tell saved ≡ (ok t, told))
unfolding then_tell
then_tell-eq_ok (ok saved) tell t told h = (saved, refl, h)
then_tell-eq_ok (raise e) tell t told h = cc (ap (λ (r : Telling). r.0) h)
then_tell-eq_ok fault tell t told h = cc (ap (λ (r : Telling). r.0) h)

-- Where the chooser keeps its bounds, whatever bytes arrive for a block: after a call that does not throw
-- it keeps them, and either no peer is told of the piece, or the interested peers are, all of them
-- connected, and the bytes of the piece in the file have the piece's hash.
pub handle_block_response_lem :
    (sha256 : List ℕ → ℕ) (now seconds sender piece block : ℕ) (bytes : List ℕ) (s t : BlockState)
    (told : List ℕ)
    → IsPaced s.chooser s.response_times
    → handle_block_response sha256 now seconds sender piece block bytes s ≡ (ok t, told)
    → IsPaced t.chooser t.response_times × ((told ≡ []) ⊎ Told sha256 piece s t told)
unfolding handle_block_response after_save
handle_block_response_lem sha256 now seconds sender piece block bytes s t told p h =
    let ((io, finished), saved, h1) =
      then_tell-eq_ok (save_block sha256 s.file_io piece block bytes seconds)
        (after_save now sender piece block s) t told h in
    after io finished saved h1
  where
    chosen : ChooserState × ResponseTimes
    chosen = update_block_received now sender piece block (s.chooser, s.response_times)

    paced : IsPaced chosen.0 chosen.1
    paced = update_block_received-IsPaced now sender piece block s.chooser s.response_times p

    next : FileIo → BlockState
    next io = record s { file_io = io; chooser = chosen.0; response_times = chosen.1 }

    after :
        (io : FileIo) (finished : Bool)
        → save_block sha256 s.file_io piece block bytes seconds ≡ ok (io, finished)
        → (if finished then tell_interested (next io) else (ok (next io), [])) ≡ (ok t, told)
        → IsPaced t.chooser t.response_times × ((told ≡ []) ⊎ Told sha256 piece s t told)
    after io false saved h1 =
        let nobody : [] ≡ told = ap (λ (r : Telling). r.1) h1 in
        let done : ok (next io) ≡ ok t = ap (λ (r : Telling). r.0) h1 in
        let left : next io ≡ t = cc in
        (
          subst (λ (v : BlockState). IsPaced v.chooser v.response_times) left paced,
          inl (sym nobody),
        )
    after io true saved h1 =
        let (everyone, reached, file, chooser, times) = tell_interested-eq_ok (next io) t told h1 in
        (
          subst (λ c. IsPaced c t.response_times) (sym chooser)
              (subst (λ r. IsPaced chosen.0 r) (sym times) paced),
          inr (record {
            everyone = everyone;
            reached = reached;
            good =
                subst (λ f. IsVerified sha256 s.file_io.piece_size piece f) (sym file)
                  (save_block-IsVerified sha256 s.file_io io piece block bytes seconds saved);
          }),
        )

tell_interested_disconnected :
    (s : BlockState) (front : List ℕ) (peer : ℕ) (rest : List ℕ)
    → get_interested_peers s.peers ≡ front ++ (peer ∷ rest)
    → All (λ p. is_connected p s.connections ≡ true) front
    → lookup peer s.connections.peer_connections ≡ some false
    → tell_interested s ≡ (raise runtime_error, front)
unfolding tell_interested
tell_interested_disconnected s front peer rest split h found =
    let (thrown, nobody) = send_all_disconnected peer rest s.connections found in
    ap (λ ps. told_of (send_all ps s.connections)) split
    ∙ ap told_of (send_all_connected front (peer ∷ rest) s.connections h)
    ∙ ap
        (λ o. (
          bind o (λ _. ok (left (send_all (peer ∷ rest) s.connections))),
          front ++ (send_all (peer ∷ rest) s.connections).1,
        ))
        thrown
    ∙ ap (λ l. (raise runtime_error, front ++ l)) nobody
    ∙ ap (λ l. (raise runtime_error, l)) (append-nil front)
  where
    left : Sends → BlockState
    left r = record s { connections = r.0.1 }

    told_of : Sends → Telling
    told_of r = (bind r.0.0 (λ _. ok (left r)), r.1)

after_save_finished :
    (now sender piece block : ℕ) (s : BlockState) (io : FileIo)
    → let c = update_block_received now sender piece block (s.chooser, s.response_times) in
      after_save now sender piece block s (io, true)
      ≡ tell_interested (record s { file_io = io; chooser = c.0; response_times = c.1 })
unfolding after_save
after_save_finished now sender piece block s io = refl

-- When a block has been saved that completes its piece, and `front` are the interested peers before the first
-- one that has disconnected, all of them connected: the call ends by an exception, and exactly the peers
-- of `front` have been told of the piece, so that those behind the disconnected one have not.
pub handle_block_response_disconnected :
    (sha256 : List ℕ → ℕ) (now seconds sender piece block : ℕ) (bytes : List ℕ) (s : BlockState)
    (io : FileIo) (front : List ℕ) (peer : ℕ) (rest : List ℕ)
    → save_block sha256 s.file_io piece block bytes seconds ≡ ok (io, true)
    → get_interested_peers s.peers ≡ front ++ (peer ∷ rest)
    → All (λ p. is_connected p s.connections ≡ true) front
    → lookup peer s.connections.peer_connections ≡ some false
    → handle_block_response sha256 now seconds sender piece block bytes s
      ≡ (raise runtime_error, front)
unfolding handle_block_response then_tell
handle_block_response_disconnected sha256 now seconds sender piece block bytes s io front peer rest
      saved split h found =
    let c = update_block_received now sender piece block (s.chooser, s.response_times) in
    let t : BlockState = record s { file_io = io; chooser = c.0; response_times = c.1 } in
    ap (λ o. then_tell o (after_save now sender piece block s)) saved
    ∙ after_save_finished now sender piece block s io
    ∙ tell_interested_disconnected t front peer rest split h found
