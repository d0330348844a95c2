-- ===== src/Progress/Piece/Marking.antt =====
-- The operations on one block of a piece, and the bytes that they count.
use gitabic.Base.{
  ℕ, zero, suc, ◌+◌, ◌^◌, ◌≤◌, ◌<◌, ◌≡◌, ◌≢◌, refl, sym, ◌∙◌, ◌⊎◌, List, [], ◌∷◌, arith,
  if◌then◌else◌, get_elem?, set, some, Bool-cases, Option-cases, inl, inr, true, false, All,
}
use gitabic.Bytes.{ok}
use gitabic.Progress.Status.{
  DownloadStatus, empty, downloading, downloaded, verified, unnamed, is_counted, is_missing,
  IsNamed,
}
use gitabic.Progress.Block.{BlockInfo}
use gitabic.Progress.Piece.{PieceProgress, all_downloaded, downloaded_block, update_block_status}
use gitabic.Progress.Piece.Accounting.{
  counted-missing, counted_bytes, missing_bytes, all_bytes, BlockNamed, Consistent,
}

abbrev counted_size : BlockInfo → ℕ
counted_size b = if is_counted b.status then b.size else 0

abbrev missing_size : BlockInfo → ℕ
missing_size b = if is_missing b.status then b.size else 0

module _ (s : DownloadStatus) where
  counted-set :
      (bs : List BlockInfo) (i : ℕ) (b : BlockInfo)
      → get_elem? bs i ≡ some b
      → counted_bytes (set bs i (record b { status = s })) + counted_size b
        ≡ counted_bytes bs + (if is_counted s then b.size else 0)
  unfolding counted_bytes
  counted-set [] i b e = cc
  counted-set (x ∷ bs) zero b e = ground arith
  counted-set (x ∷ bs) (suc i) b e = omega (arith, counted-set bs i b e)

  missing-set :
      (bs : List BlockInfo) (i : ℕ) (b : BlockInfo)
      → get_elem? bs i ≡ some b
      → missing_bytes (set bs i (record b { status = s })) + missing_size b
        ≡ missing_bytes bs + (if is_missing s then b.size else 0)
  unfolding missing_bytes
  missing-set [] i b e = cc
  missing-set (x ∷ bs) zero b e = ground arith
  missing-set (x ∷ bs) (suc i) b e = omega (arith, missing-set bs i b e)

  all-set :
      (bs : List BlockInfo) (i : ℕ) (b : BlockInfo)
      → get_elem? bs i ≡ some b
      → all_bytes (set bs i (record b { status = s })) ≡ all_bytes bs
  unfolding all_bytes
  all-set [] i b e = cc
  all-set (x ∷ bs) zero b e = ground arith
  all-set (x ∷ bs) (suc i) b e = omega (arith, all-set bs i b e)

  named-set :
      (bs : List BlockInfo) (i : ℕ) (b : BlockInfo)
      → IsNamed s
      → All BlockNamed bs
      → All BlockNamed (set bs i (record b { status = s }))
  named-set [] i b h a = tt
  named-set (x ∷ bs) zero b h (ax, as') = (h, as')
  named-set (x ∷ bs) (suc i) b h (ax, as') = (ax, named-set bs i b h as')

all_downloaded-missing : (bs : List BlockInfo) → all_downloaded bs ≡ true → missing_bytes bs ≡ 0
unfolding all_downloaded missing_bytes
all_downloaded-missing [] h = refl
all_downloaded-missing (b ∷ bs) h = ground (arith, all_downloaded-missing bs)

-- Where `downloadedBlock` returns, the bytes counted in the piece grow by just what it returns,
-- which is the block's size or nothing when it was counted before, and no size changes.
pub downloaded_block_accounting :
    (p q : PieceProgress) (i now n : ℕ)
    → downloaded_block p i now ≡ ok (q, n)
    → (counted_bytes q.blocks ≡ counted_bytes p.blocks + n)
      × (all_bytes q.blocks ≡ all_bytes p.blocks)
unfolding downloaded_block
downloaded_block_accounting p q i now n e = elim (Option-cases (get_elem? p.blocks i)) [
  | inl missing ↦ ground (arith, missing)
  | inr (b, found) ↦
      ground
        (arith, counted-set downloaded p.blocks i b found, all-set downloaded p.blocks i b found)
]

downloaded_block-blocks :
    (p q : PieceProgress) (i now n : ℕ) (b : BlockInfo)
    → get_elem? p.blocks i ≡ some b
    → downloaded_block p i now ≡ ok (q, n)
    → (q.blocks ≡ set p.blocks i (record b { status = downloaded }))
      × (q.status ≡ (if all_downloaded q.blocks then downloaded else p.status))
unfolding downloaded_block
downloaded_block-blocks p q i now n b found e = ground (arith, found)

downloaded_block-named :
    (p q : PieceProgress) (i now n : ℕ)
    → All BlockNamed p.blocks
    → downloaded_block p i now ≡ ok (q, n)
    → All BlockNamed q.blocks
downloaded_block-named p q i now n c e = elim (Option-cases (get_elem? p.blocks i)) [
  | inl missing ↦ unfold downloaded_block in ground (arith, missing)
  | inr (b, found) ↦
      rw (downloaded_block-blocks p q i now n b found e).0 (named-set downloaded p.blocks i b tt c)
]

downloaded_block-status :
    (p q : PieceProgress) (i now n : ℕ)
    → downloaded_block p i now ≡ ok (q, n)
    → ((q.status ≡ downloaded) × (missing_bytes q.blocks ≡ 0))
      ⊎ ((q.status ≡ p.status) × (missing_bytes q.blocks ≤ missing_bytes p.blocks))
downloaded_block-status p q i now n e = elim (Option-cases (get_elem? p.blocks i)) [
  | inl missing ↦ unfold downloaded_block in ground (arith, missing)
  | inr (b, found) ↦
      let (blocks, status) = downloaded_block-blocks p q i now n b found e in
      elim (Bool-cases (all_downloaded q.blocks)) [
        | inl whole ↦ inl (rw whole at status, all_downloaded-missing q.blocks whole)
        | inr part ↦ inr (
          rw part at status,
          rw blocks (omega (arith, missing-set downloaded p.blocks i b found)),
        )
      ]
]

-- A piece that is not empty stays consistent when one of its blocks is downloaded.
pub downloaded_block-Consistent :
    (p q : PieceProgress) (i now n : ℕ)
    → Consistent p
    → p.status ≢ empty
    → downloaded_block p i now ≡ ok (q, n)
    → Consistent q
downloaded_block-Consistent p q i now n c started e = elim (downloaded_block-status p q i now n e) [
  | inl (status, full) ↦ record {
    status_named = rw status tt;
    blocks_named = named;
    empty_uncounted = λ x. cc;
    counted_full = λ _. full;
    small = small;
  }
  | inr (status, less) ↦ record {
    status_named = rw status c.status_named;
    blocks_named = named;
    empty_uncounted = λ x. absurd (started (sym status ∙ x));
    counted_full = λ x. omega (arith, c.counted_full (rw status at x));
    small = small;
  }
]
  where
    named : All BlockNamed q.blocks
    named = downloaded_block-named p q i now n c.blocks_named e

    small : all_bytes q.blocks < 2 ^ 31
    small = omega (arith, downloaded_block_accounting p q i now n e, c.small)

-- `updateBlockStatus` moves the bytes counted by the block that it changes, and reports nothing.
update_block_status_accounting :
    (p q : PieceProgress) (i now : ℕ) (s : DownloadStatus) (b : BlockInfo)
    → get_elem? p.blocks i ≡ some b
    → update_block_status p i s now ≡ ok q
    → counted_bytes q.blocks + counted_size b
      ≡ counted_bytes p.blocks + (if is_counted s then b.size else 0)
unfolding update_block_status
update_block_status_accounting p q i now s b found e =
    ground (arith, counted-set s p.blocks i b found)

-- The piece's status after `updateBlockStatus` to one that is not counted.
update_block_status-uncounted :
    (p q : PieceProgress) (i now : ℕ) (s : DownloadStatus) (b : BlockInfo)
    → get_elem? p.blocks i ≡ some b
    → is_counted s ≡ false
    → update_block_status p i s now ≡ ok q
    → (q.blocks ≡ set p.blocks i (record b { status = s }))
      × ((q.status ≡ downloading) ⊎ (q.status ≡ p.status))
unfolding update_block_status
update_block_status-uncounted p q i now s b found u e = ground (arith, found)

missing_uncounted : (s : DownloadStatus) → is_missing s ≡ true → is_counted s ≡ false
missing_uncounted empty h = refl
missing_uncounted downloading h = refl
missing_uncounted downloaded h = cc
missing_uncounted verified h = cc
missing_uncounted (unnamed n) h = cc

-- A piece stays consistent, and its sizes and the bytes that it counts stay, when a block that is not
-- counted is marked as empty or as being downloaded.
pub update_block_status-Consistent :
    (p q : PieceProgress) (i now : ℕ) (s : DownloadStatus) (b : BlockInfo)
    → Consistent p
    → get_elem? p.blocks i ≡ some b
    → is_counted b.status ≡ false
    → is_missing s ≡ true
    → IsNamed s
    → update_block_status p i s now ≡ ok q
    → Consistent q
      × (counted_bytes q.blocks ≡ counted_bytes p.blocks)
      × (all_bytes q.blocks ≡ all_bytes p.blocks)
update_block_status-Consistent p q i now s b c found old new named e =
    let u : is_counted s ≡ false = missing_uncounted s new in
    let (blocks, status) = update_block_status-uncounted p q i now s b found u e in
    let counted : counted_bytes q.blocks ≡ counted_bytes p.blocks =
      rw blocks (ground (arith, counted-set s p.blocks i b found)) in
    let bytes : all_bytes q.blocks ≡ all_bytes p.blocks =
      rw blocks (all-set s p.blocks i b found) in
    let named_q : All BlockNamed q.blocks =
      rw blocks (named-set s p.blocks i b named c.blocks_named) in
    let missing : missing_bytes q.blocks ≡ missing_bytes p.blocks = omega (
      arith,
      counted,
      bytes,
      counted-missing q.blocks named_q,
      counted-missing p.blocks c.blocks_named,
    ) in
    let small : all_bytes q.blocks < 2 ^ 31 = omega (arith, bytes, c.small) in
    (
      elim status [
        | inl down ↦ record {
          status_named = rw down tt;
          blocks_named = named_q;
          empty_uncounted = λ x. cc;
          counted_full = λ x. cc;
          small = small;
        }
        | inr kept ↦ record {
          status_named = rw kept c.status_named;
          blocks_named = named_q;
          empty_uncounted = λ x. counted ∙ c.empty_uncounted (sym kept ∙ x);
          counted_full = λ x. missing ∙ c.counted_full (rw kept at x);
          small = small;
        }
      ],
      counted,
      bytes,
    )
