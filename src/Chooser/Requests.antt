-- ===== src/Chooser/Requests.antt =====
-- The last part of RarityTrackerChooser::ChooseBlocks, which joins requests for consecutive blocks.
use gitabic.Base.{
  subst, sym, ℕ, zero, suc, ◌+◌, ◌%◌, ◌^◌, ◌<◌, ◌≡◌, refl, Bool, true, false, ◌&&◌, ◌==◌, List, [],
  ◌∷◌, ◌++◌, length, All, arith, Bool-cases, inl, inr, ap, ◌∙◌,
}

-- The fields of a DataRequest that ChooseBlocks sets; the others are the same in every request to
-- one peer. `blocks_count` is a `uint16_t`.
pub record Request : Type 0 where
  pub piece_index : ℕ
  pub block_index : ℕ
  pub blocks_count : ℕ

-- `req.pieceIndex == nextReq.pieceIndex && req.blockIndex + req.blocksCount == nextReq.blockIndex`
unfoldable pub follows : Request → Request → Bool
follows r next =
    (r.piece_index == next.piece_index) && (r.block_index + r.blocks_count == next.block_index)

-- `req.blocksCount++`
abbrev pub longer : Request → Request
longer r = record {
  piece_index = r.piece_index;
  block_index = r.block_index;
  blocks_count = (r.blocks_count + 1) % 2 ^ 16;
}

-- The two loops over the sorted requests, `r` being the one that `it` stands at.
unfoldable pub join_from : Request → List Request → List Request
join_from r [] = r ∷ []
join_from r (next ∷ rs) = elim (follows r next) [
  | true ↦ join_from (longer r) rs
  | false ↦ r ∷ join_from next rs
]

unfoldable pub join_requests : List Request → List Request
join_requests [] = []
join_requests (r ∷ rs) = join_from r rs

-- The blocks that a peer is asked for, in order.
abbrev pub Block : Type 0
Block = ℕ × ℕ

unfoldable pub blocks_from : ℕ → ℕ → ℕ → List Block
blocks_from piece block zero = []
blocks_from piece block (suc n) = (piece, block) ∷ blocks_from piece (suc block) n

unfoldable pub asked : List Request → List Block
asked [] = []
asked (r ∷ rs) = blocks_from r.piece_index r.block_index r.blocks_count ++ asked rs

unfoldable pub IsSingle : Request → Type 0
IsSingle r = r.blocks_count ≡ 1

blocks_from-last :
    (piece block n : ℕ) (rest : List Block)
    → blocks_from piece block (suc n) ++ rest
      ≡ blocks_from piece block n ++ ((piece, block + n) ∷ rest)
unfolding blocks_from
blocks_from-last piece block zero rest = ap (λ b. (piece, b) ∷ rest) (omega arith)
blocks_from-last piece block (suc n) rest = ap (◌∷◌ (piece, block)) (
    blocks_from-last piece (suc block) n rest
    ∙ ap (λ b. blocks_from piece (suc block) n ++ ((piece, b) ∷ rest)) (omega arith))

follows_lem :
    (r next : Request)
    → follows r next ≡ true
    → (r.piece_index ≡ next.piece_index) × (r.block_index + r.blocks_count ≡ next.block_index)
unfolding follows
follows_lem r next h = ground (arith, h)

asked-longer :
    (r next : Request) (rs : List Request)
    → follows r next ≡ true
    → next.blocks_count ≡ 1
    → r.blocks_count + 1 < 2 ^ 16
    → asked (longer r ∷ rs) ≡ asked (r ∷ next ∷ rs)
unfolding asked
asked-longer r next rs joins one h =
    let (piece, block) = follows_lem r next joins in
    let count : (r.blocks_count + 1) % 2 ^ 16 ≡ suc r.blocks_count = omega (arith, h) in
    rw (count, one, ← piece, ← block)
      (unfold blocks_from in blocks_from-last r.piece_index r.block_index r.blocks_count (asked rs))

join_from-follows :
    (r next : Request) (rs : List Request)
    → follows r next ≡ true
    → join_from r (next ∷ rs) ≡ join_from (longer r) rs
unfolding join_from
join_from-follows r next rs h = rw (h, join_from) refl

join_from-apart :
    (r next : Request) (rs : List Request)
    → follows r next ≡ false
    → join_from r (next ∷ rs) ≡ r ∷ join_from next rs
unfolding join_from
join_from-apart r next rs h = rw (h, join_from) refl

asked-cons :
    (r : Request) (xs ys : List Request) → asked xs ≡ asked ys → asked (r ∷ xs) ≡ asked (r ∷ ys)
unfolding asked
asked-cons r xs ys e = ap (λ bs. blocks_from r.piece_index r.block_index r.blocks_count ++ bs) e

asked-join_from :
    (r : Request) (rs : List Request)
    → All IsSingle rs
    → r.blocks_count + length rs < 2 ^ 16
    → asked (join_from r rs) ≡ asked (r ∷ rs)
unfolding IsSingle
asked-join_from r [] a h = unfold join_from in refl
asked-join_from r (next ∷ rs) a h = elim (Bool-cases (follows r next)) [
  | inl joins ↦
      let count : (longer r).blocks_count + length rs < 2 ^ 16 = omega (arith, h) in
      ap asked (join_from-follows r next rs joins)
      ∙ asked-join_from (longer r) rs a.1 count
      ∙ asked-longer r next rs joins a.0 (omega (arith, h))
  | inr apart ↦
      let count : next.blocks_count + length rs < 2 ^ 16 = omega (arith, h, a.0) in
      ap asked (join_from-apart r next rs apart)
      ∙ asked-cons r (join_from next rs) (next ∷ rs) (asked-join_from next rs a.1 count)
]

-- Joining fewer than 2^16 requests to a peer, each for one block, asks for the same blocks in the
-- same order.
pub asked-join_requests :
    (rs : List Request) → All IsSingle rs → length rs < 2 ^ 16 → asked (join_requests rs) ≡ asked rs
unfolding join_requests
asked-join_requests [] a h = refl
asked-join_requests (r ∷ rs) a h =
    asked-join_from r rs a.1 (unfold IsSingle in omega (arith, h, a.0))

-- No request follows the one before it.
Apart : List Request → Type 0
Apart [] = Unit
Apart (r ∷ []) = Unit
Apart (r ∷ next ∷ rs) = (follows r next ≡ false) × Apart (next ∷ rs)

Starts : Request → List Request → Type 0
Starts q [] = Unit
Starts q (r ∷ rs) = follows q r ≡ false

Apart-cons : (q : Request) (rs : List Request) → Starts q rs → Apart rs → Apart (q ∷ rs)
unfolding Apart Starts
Apart-cons q [] s a = tt
Apart-cons q (r ∷ rs) s a = (s, a)

follows-longer : (q r : Request) → follows q (longer r) ≡ follows q r
unfolding follows
follows-longer q r = refl

Starts-join_from :
    (q r : Request) (rs : List Request) → follows q r ≡ false → Starts q (join_from r rs)
Starts-join_from q r [] h = unfold join_from Starts in h
Starts-join_from q r (next ∷ rs) h = elim (Bool-cases (follows r next)) [
  | inl joins ↦
      subst (Starts q) (sym (join_from-follows r next rs joins))
        (Starts-join_from q (longer r) rs (follows-longer q r ∙ h))
  | inr apart ↦ subst (Starts q) (sym (join_from-apart r next rs apart)) (unfold Starts in h)
]

join_from-Apart : (r : Request) (rs : List Request) → Apart (join_from r rs)
join_from-Apart r [] = unfold join_from Apart in tt
join_from-Apart r (next ∷ rs) = elim (Bool-cases (follows r next)) [
  | inl joins ↦
      subst Apart (sym (join_from-follows r next rs joins)) (join_from-Apart (longer r) rs)
  | inr apart ↦ subst Apart (sym (join_from-apart r next rs apart)) (
      Apart-cons r (join_from next rs) (Starts-join_from r next rs apart) (join_from-Apart next rs))
]

-- What is sent cannot be joined any further: no request follows the one before it.
join_requests-Apart : (rs : List Request) → Apart (join_requests rs)
unfolding join_requests
join_requests-Apart [] = unfold Apart in tt
join_requests-Apart (r ∷ rs) = join_from-Apart r rs
