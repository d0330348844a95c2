-- ===== src/Progress/Status.antt =====
-- `enum class DownloadStatus` (Peer/Utils/DowndloadProgress/DownloadProgress.h).
use gitabic.Base.{ℕ, ◌^◌, ◌<◌, ◌≡◌, refl, Bool, true, false, ◌||◌, ◌==◌, if◌then◌else◌, arith}

-- The enumerators, and `unnamed n` for another value `n` of the underlying `int`, which a read of
-- raw bytes can give.
pub data DownloadStatus : Type 0 where
  empty downloading downloaded verified : DownloadStatus
  unnamed : ℕ → DownloadStatus

unfoldable pub to_code : DownloadStatus → ℕ
to_code empty = 0
to_code downloading = 1
to_code downloaded = 2
to_code verified = 3
to_code (unnamed n) = n

unfoldable pub of_code : ℕ → DownloadStatus
of_code n =
    if n == 0
    then empty
    else if n == 1
    then downloading
    else if n == 2
    then downloaded
    else if n == 3
    then verified
    else unnamed n

-- `==` on the enumeration.
abbrev pub status_eq : DownloadStatus → DownloadStatus → Bool
status_eq empty empty = true
status_eq downloading downloading = true
status_eq downloaded downloaded = true
status_eq verified verified = true
status_eq (unnamed n) (unnamed m) = n == m
status_eq s t = false

abbrev pub IsNamed : DownloadStatus → Type 0
IsNamed (unnamed n) = ⊥
IsNamed s = Unit

-- The blocks that `_totalDownloadBytes` is meant to count.
abbrev pub is_counted : DownloadStatus → Bool
is_counted s = status_eq s downloaded || status_eq s verified

abbrev pub is_missing : DownloadStatus → Bool
is_missing s = status_eq s empty || status_eq s downloading

pub of_code-to_code : (s : DownloadStatus) → IsNamed s → of_code (to_code s) ≡ s
unfolding of_code to_code
of_code-to_code empty h = refl
of_code-to_code downloading h = refl
of_code-to_code downloaded h = refl
of_code-to_code verified h = refl
of_code-to_code (unnamed n) h = absurd h

pub to_code-lt : (s : DownloadStatus) → IsNamed s → to_code s < 256 ^ 4
unfolding to_code
to_code-lt empty h = omega arith
to_code-lt downloading h = omega arith
to_code-lt downloaded h = omega arith
to_code-lt verified h = omega arith
to_code-lt (unnamed n) h = absurd h
