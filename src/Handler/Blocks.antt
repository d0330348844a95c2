-- ===== src/Handler/Blocks.antt =====
-- The loop over the blocks of a data request (Peer/Torrent/TorrentFileHandler/TorrentFileHandler.cpp).
use gitabic.Base.{
  ℕ, zero, suc, ◌+◌, ◌%◌, ◌^◌, ◌≤◌, ◌<◌, ◌≡◌, refl, ap, ◌∙◌, ltb, lt→ltb, le→ltb, ltb→lt, ltb→le,
  Bool-cases, inl, inr, if◌then◌else◌, List, [], ◌∷◌, none, some, arith,
}
use gitabic.Message.Torrent.{DataRequest}
use gitabic.Handler.{Reply, block_reply, data_loop, handle_data_request}

-- One reply for each of `n` blocks from block `i` on.
unfoldable pub replies_from : (ℕ → ℕ → List ℕ) → ℕ → ℕ → ℕ → List Reply
replies_from load piece zero i = []
replies_from load piece (suc n) i =
    block_reply piece i (load piece i) ∷ replies_from load piece n (i + 1)

data_loop_ends :
    (load : ℕ → ℕ → List ℕ) (piece n extra i last : ℕ)
    → i + n ≡ last
    → last < 2 ^ 16
    → data_loop load (suc n + extra) piece last i ≡ some (replies_from load piece n i)
unfolding data_loop replies_from
data_loop_ends load piece zero extra i last e h =
    let fuel : suc zero + extra ≡ suc extra = omega arith in
    ap (λ f. data_loop load f piece last i) fuel ∙ rw (le→ltb i last (omega arith))
data_loop_ends load piece (suc n) extra i last e h =
    let fuel : suc (suc n) + extra ≡ suc (suc n + extra) = omega arith in
    let next : (i + 1) % 2 ^ 16 ≡ i + 1 = omega arith in
    ap (λ f. data_loop load f piece last i) fuel
    ∙ rw (next, data_loop_ends load piece n extra (i + 1) last (omega arith) h)
        (rw (lt→ltb i last (omega arith)))

data_loop_goes_on :
    (load : ℕ → ℕ → List ℕ) (piece fuel i last : ℕ)
    → i < 2 ^ 16
    → 2 ^ 16 ≤ last
    → data_loop load fuel piece last i ≡ none
unfolding data_loop
data_loop_goes_on load piece zero i last h k = refl
data_loop_goes_on load piece (suc fuel) i last h k = rw (
  lt→ltb i last (omega arith),
  data_loop_goes_on load piece fuel ((i + 1) % 2 ^ 16) last (omega arith) k,
)

-- For a request with a 16-bit first index: if the index behind its last block is below 2^16, the loop
-- ends, with fuel for one round more than it asks for blocks and with any more, and there is exactly one
-- reply for each block, in their order; otherwise it does not end on that fuel or on any more, since the
-- counter goes back to zero before it reaches the end.
pub handle_data_request_ends :
    (load : ℕ → ℕ → List ℕ) (r : DataRequest) (extra : ℕ)
    → r.block_index < 2 ^ 16
    → handle_data_request load (suc r.blocks_count + extra) r ≡ (
        if ltb (r.block_index + r.blocks_count) (2 ^ 16)
        then some (replies_from load r.piece_index r.blocks_count r.block_index)
        else none)
unfolding handle_data_request
handle_data_request_ends load r extra h =
    elim (Bool-cases (ltb (r.block_index + r.blocks_count) (2 ^ 16))) [
      | inl small ↦ rw small (
          data_loop_ends load r.piece_index r.blocks_count extra r.block_index _ refl
            (ltb→lt _ _ small))
      | inr large ↦
          rw large (data_loop_goes_on load r.piece_index _ r.block_index _ h (ltb→le _ _ large))
    ]
