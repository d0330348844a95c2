-- ===== src/Progress/Block.antt =====
-- `struct BlockInfo` (Peer/Utils/DowndloadProgress/DownloadProgress.cpp and .h).
use gitabic.Base.{
  ℕ, ◌^◌, ◌<◌, ◌≡◌, refl, Bool, true, false, not, ◌==◌, List, ◌++◌, append_assoc, arith, length,
  length-append,
}
use gitabic.Bytes.{Reader, ok, ◌>>=◌, return, le, read_le}
use gitabic.Bytes.RoundTrip.{read_le-le, length-le}
use gitabic.Progress.Status.{DownloadStatus, to_code, of_code, IsNamed, of_code-to_code, to_code-lt}

pub record BlockInfo : Type 0 where
  pub offset : ℕ
  pub size : ℕ
  pub is_last_block : Bool
  pub status : DownloadStatus

-- `sizeof(bool)` is 1 and `sizeof(DownloadStatus)` is 4.
abbrev pub bool_byte : Bool → ℕ
bool_byte true = 1
bool_byte false = 0

abbrev pub of_bool_byte : ℕ → Bool
of_bool_byte b = not (b == 0)

unfoldable pub serialize_block : BlockInfo → List ℕ
serialize_block b =
    le 4 b.offset ++ (le 2 b.size ++ (le 1 (bool_byte b.is_last_block) ++ le 4 (to_code b.status)))

unfoldable pub deserialize_block : Reader BlockInfo
deserialize_block = do
  offset ← read_le 4
  size ← read_le 2
  last ← read_le 1
  status ← read_le 4
  return (record {
    offset = offset;
    size = size;
    is_last_block = of_bool_byte last;
    status = of_code status;
  })

-- The fields fit their C++ types.
pub record BlockFits (b : BlockInfo) : Type 0 where
  pub offset_fits : b.offset < 256 ^ 4
  pub size_fits : b.size < 256 ^ 2
  pub status_named : IsNamed b.status

pub length-serialize_block : (b : BlockInfo) → length (serialize_block b) ≡ 11
unfolding serialize_block
length-serialize_block b = simp (length-append, length-le)

pub of_bool_byte-bool_byte : (b : Bool) → of_bool_byte (bool_byte b) ≡ b
of_bool_byte-bool_byte true = refl
of_bool_byte-bool_byte false = refl

pub bool_byte-lt : (b : Bool) → bool_byte b < 256 ^ 1
bool_byte-lt true = omega arith
bool_byte-lt false = omega arith

-- A block is read back from its 11 bytes, whatever follows them.
pub deserialize-serialize_block :
    (b : BlockInfo) (rest : List ℕ)
    → BlockFits b
    → deserialize_block (serialize_block b ++ rest) ≡ ok (b, rest)
unfolding serialize_block deserialize_block
deserialize-serialize_block b rest f = simp (
  append_assoc,
  read_le-le 4 b.offset _ f.offset_fits,
  read_le-le 2 b.size _ f.size_fits,
  read_le-le 1 (bool_byte b.is_last_block) _ (bool_byte-lt b.is_last_block),
  read_le-le 4 (to_code b.status) _ (to_code-lt b.status f.status_named),
  of_bool_byte-bool_byte,
  of_code-to_code b.status f.status_named,
)
