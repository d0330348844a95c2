-- ===== src/Progress/Piece/Accounting.antt =====
-- What the operations on a piece report to the download, against the blocks that they change.
use gitabic.Base.{
  ℕ, ◌+◌, ◌-◌, ◌%◌, ◌^◌, ◌≤◌, ◌<◌, ◌≡◌, refl, sym, List, [], ◌∷◌, arith, ltb, if◌then◌else◌, Bool,
  true, false, All, ◌&&◌, not,
}
use gitabic.Progress.Status.{
  DownloadStatus, empty, downloading, downloaded, verified, unnamed, status_eq, is_counted,
  is_missing, IsNamed,
}
use gitabic.Progress.Block.{BlockInfo}
use gitabic.Progress.Piece.{PieceProgress, set_blocks, set_status, add32, sub32}

-- The bytes of the blocks that are downloaded or verified, of those that are empty or being
-- downloaded, and of all.
unfoldable pub counted_bytes : List BlockInfo → ℕ
counted_bytes [] = 0
counted_bytes (b ∷ bs) = (if is_counted b.status then b.size else 0) + counted_bytes bs

unfoldable pub missing_bytes : List BlockInfo → ℕ
missing_bytes [] = 0
missing_bytes (b ∷ bs) = (if is_missing b.status then b.size else 0) + missing_bytes bs

unfoldable pub all_bytes : List BlockInfo → ℕ
all_bytes [] = 0
all_bytes (b ∷ bs) = b.size + all_bytes bs

abbrev pub BlockNamed : BlockInfo → Type 0
BlockNamed b = IsNamed b.status

-- The status of a piece agrees with those of its blocks, so far as `setStatus` relies on it.
pub record Consistent (p : PieceProgress) : Type 0 where
  pub status_named : IsNamed p.status
  pub blocks_named : All BlockNamed p.blocks
  pub empty_uncounted : p.status ≡ empty → counted_bytes p.blocks ≡ 0
  pub counted_full : is_counted p.status ≡ true → missing_bytes p.blocks ≡ 0
  pub small : all_bytes p.blocks < 2 ^ 31

named_cases : (s : DownloadStatus) → IsNamed s → is_missing s ≡ not (is_counted s)
named_cases empty h = refl
named_cases downloading h = refl
named_cases downloaded h = refl
named_cases verified h = refl
named_cases (unnamed n) h = absurd h

pub counted-missing :
    (bs : List BlockInfo) → All BlockNamed bs → counted_bytes bs + missing_bytes bs ≡ all_bytes bs
unfolding counted_bytes missing_bytes all_bytes
counted-missing [] h = refl
counted-missing (b ∷ bs) (hb, hs) =
    rw (named_cases b.status hb) (ground (arith, counted-missing bs hs))

pub counted-le-all : (bs : List BlockInfo) → counted_bytes bs ≤ all_bytes bs
unfolding counted_bytes all_bytes
counted-le-all [] = omega arith
counted-le-all (b ∷ bs) = ground (arith, counted-le-all bs)

-- The sum that `setStatus` returns.
set_blocks-removed :
    (s : DownloadStatus) (bs : List BlockInfo) (acc : ℕ)
    → acc < 2 ^ 32
    → counted_bytes bs < 2 ^ 32
    → (set_blocks true false s bs acc).1 ≡ (acc + 2 ^ 32 - counted_bytes bs) % 2 ^ 32
unfolding set_blocks counted_bytes
set_blocks-removed s [] acc h k = omega arith
set_blocks-removed s (b ∷ bs) acc h k =
    ground (arith, set_blocks-removed s bs acc, set_blocks-removed s bs (sub32 acc b.size))

set_blocks-added :
    (s : DownloadStatus) (bs : List BlockInfo) (acc : ℕ)
    → acc + missing_bytes bs < 2 ^ 32
    → (set_blocks false true s bs acc).1 ≡ acc + missing_bytes bs
unfolding set_blocks missing_bytes
set_blocks-added s [] acc h = omega arith
set_blocks-added s (b ∷ bs) acc h =
    ground (arith, set_blocks-added s bs acc, set_blocks-added s bs (add32 acc b.size))

set_blocks-unchanged :
    (s : DownloadStatus) (bs : List BlockInfo) (acc : ℕ) → (set_blocks false false s bs acc).1 ≡ acc
unfolding set_blocks
set_blocks-unchanged s [] acc = refl
set_blocks-unchanged s (b ∷ bs) acc = set_blocks-unchanged s bs acc

-- Every block has the new status.
pub record Repainted (s : DownloadStatus) (bs cs : List BlockInfo) : Type 0 where
  pub counted : counted_bytes cs ≡ (if is_counted s then all_bytes bs else 0)
  pub missing : missing_bytes cs ≡ (if is_missing s then all_bytes bs else 0)
  pub same_bytes : all_bytes cs ≡ all_bytes bs
  pub named : All BlockNamed cs

set_blocks-Repainted :
    (r a : Bool) (s : DownloadStatus) (bs : List BlockInfo) (acc : ℕ)
    → IsNamed s
    → Repainted s bs (set_blocks r a s bs acc).0
unfolding set_blocks counted_bytes missing_bytes all_bytes
set_blocks-Repainted r a s [] acc h = record {
  counted = ground arith;
  missing = ground arith;
  same_bytes = refl;
  named = tt;
}
set_blocks-Repainted r a s (b ∷ bs) acc h =
    let removed = if r && is_counted b.status then sub32 acc b.size else acc in
    let added = if a && is_missing b.status then add32 removed b.size else removed in
    let rest = set_blocks-Repainted r a s bs added h in
    record {
      counted = ground (arith, rest.counted);
      missing = ground (arith, rest.missing);
      same_bytes = ground (arith, rest.same_bytes);
      named = (h, rest.named);
    }

-- `_totalDownloadBytes += sizeChanged`: the `int32_t` is sign-extended to a `uint64_t`.
abbrev sign_extend : ℕ → ℕ
sign_extend d = if ltb d (2 ^ 31) then d else d + 2 ^ 64 - 2 ^ 32

abbrev pub add_change : ℕ → ℕ → ℕ
add_change total d = (total + sign_extend d) % 2 ^ 64

eq_empty : (s : DownloadStatus) → not (status_eq s empty) ≡ false → s ≡ empty
eq_empty empty h = refl
eq_empty downloading h = cc
eq_empty downloaded h = cc
eq_empty verified h = cc
eq_empty (unnamed n) h = cc

-- The two sums, whatever the piece's status is.
removed_bytes :
    (p : PieceProgress) (now : ℕ)
    → Consistent p
    → (r : Bool) → r ≡ not (status_eq p.status empty)
    → (set_blocks r false empty p.blocks 0).1 ≡ (2 ^ 32 - counted_bytes p.blocks) % 2 ^ 32
removed_bytes p now c true e =
    omega (arith, set_blocks-removed empty p.blocks 0, counted-le-all p.blocks, c.small)
removed_bytes p now c false e =
    omega
      (arith, set_blocks-unchanged empty p.blocks 0, c.empty_uncounted (eq_empty p.status (sym e)))

added_bytes :
    (p : PieceProgress) (s : DownloadStatus)
    → Consistent p
    → (a : Bool) → a ≡ is_missing p.status
    → (set_blocks false a s p.blocks 0).1 ≡ missing_bytes p.blocks
added_bytes p s c true e =
    omega (arith, set_blocks-added s p.blocks 0, counted-missing p.blocks c.blocks_named, c.small)
added_bytes p s c false e =
    ground (
      arith,
      set_blocks-unchanged s p.blocks 0,
      named_cases p.status c.status_named,
      c.counted_full,
    )

sign_extended :
    (c total : ℕ)
    → c < 2 ^ 31
    → c ≤ total
    → total < 2 ^ 64
    → add_change total ((2 ^ 32 - c) % 2 ^ 32) + c ≡ total
sign_extended c total h le k = ground arith

counted_accounting :
    (p : PieceProgress) (s : DownloadStatus) (total : ℕ)
    → Consistent p
    → IsNamed s
    → is_counted s ≡ true
    → total + all_bytes p.blocks < 2 ^ 64
    → let changed = set_blocks false (is_missing p.status) s p.blocks 0 in
      (add_change total changed.1 + counted_bytes p.blocks ≡ total + counted_bytes changed.0)
      × (missing_bytes changed.0 ≡ 0)
      × (all_bytes changed.0 ≡ all_bytes p.blocks)
counted_accounting p s total c h k fits =
    let a = is_missing p.status in
    let painted = set_blocks-Repainted false a s p.blocks 0 h in
    (
      ground (
        arith,
        added_bytes p s c a refl,
        painted.counted,
        counted-missing p.blocks c.blocks_named,
        c.small,
      ),
      ground (arith, painted.missing, named_cases s h),
      painted.same_bytes,
    )

-- On a consistent piece, whose counted bytes a total includes without coming near 2^64, what
-- `setStatus` returns for a named status moves the total by the change in the bytes counted, and
-- the piece stays consistent.
pub set_status_accounting :
    (p : PieceProgress) (s : DownloadStatus) (now total : ℕ)
    → Consistent p
    → IsNamed s
    → counted_bytes p.blocks ≤ total
    → total + all_bytes p.blocks < 2 ^ 64
    → (add_change total (set_status p s now).1 + counted_bytes p.blocks
        ≡ total + counted_bytes (set_status p s now).0.blocks)
      × Consistent (set_status p s now).0
unfolding set_status
set_status_accounting p empty now total c h le fits =
    let r = not (status_eq p.status empty) in
    let painted = set_blocks-Repainted r false empty p.blocks 0 tt in
    (
      rw (removed_bytes p now c r refl, painted.counted)
          (omega (
            arith,
            sign_extended (counted_bytes p.blocks) total,
            counted-le-all p.blocks,
            c.small,
          )),
      record {
        status_named = tt;
        blocks_named = painted.named;
        empty_uncounted = λ _. painted.counted;
        counted_full = λ e. cc;
        small = omega (arith, painted.same_bytes, c.small);
      },
    )
set_status_accounting p downloading now total c h le fits = (
  omega (arith, le),
  record {
    status_named = tt;
    blocks_named = c.blocks_named;
    empty_uncounted = λ e. cc;
    counted_full = λ e. cc;
    small = c.small;
  },
)
set_status_accounting p downloaded now total c h le fits =
    let painted = set_blocks-Repainted false (is_missing p.status) downloaded p.blocks 0 tt in
    let sums = counted_accounting p downloaded total c tt refl fits in
    (
      sums.0,
      record {
        status_named = tt;
        blocks_named = painted.named;
        empty_uncounted = λ e. cc;
        counted_full = λ _. sums.1;
        small = omega (arith, sums.2, c.small);
      },
    )
set_status_accounting p verified now total c h le fits =
    let painted = set_blocks-Repainted false (is_missing p.status) verified p.blocks 0 tt in
    let sums = counted_accounting p verified total c tt refl fits in
    (
      sums.0,
      record {
        status_named = tt;
        blocks_named = painted.named;
        empty_uncounted = λ e. cc;
        counted_full = λ _. sums.1;
        small = omega (arith, sums.2, c.small);
      },
    )
set_status_accounting p (unnamed n) now total c h le fits = absurd h

pub all_bytes-set_status :
    (p : PieceProgress) (s : DownloadStatus) (now : ℕ)
    → IsNamed s
    → all_bytes (set_status p s now).0.blocks ≡ all_bytes p.blocks
unfolding set_status
all_bytes-set_status p empty now h = (set_blocks-Repainted _ _ empty p.blocks 0 h).same_bytes
all_bytes-set_status p downloading now h = refl
all_bytes-set_status p downloaded now h =
    (set_blocks-Repainted _ _ downloaded p.blocks 0 h).same_bytes
all_bytes-set_status p verified now h = (set_blocks-Repainted _ _ verified p.blocks 0 h).same_bytes
all_bytes-set_status p (unnamed n) now h = absurd h
