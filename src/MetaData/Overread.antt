-- ===== src/MetaData/Overread.antt =====
-- String sizes near 2^32 in a metadata file.
use gitabic.Base.{
  ℕ, ◌+◌, ◌-◌, ◌%◌, ◌^◌, ◌≤◌, ◌<◌, ◌≡◌, refl, arith, le→ltb, List, ◌++◌, length, length-append,
}
use gitabic.Bytes.{fault, le}
use gitabic.Bytes.RoundTrip.{length-le, read_bytes-short}
use gitabic.MetaData.{MetaDataFile, read_chars, read_string, read_meta, deserialize}
use gitabic.MetaData.Cursor.{At, At-append, read_field-At}

-- The sum of the index, 12, and the size wraps below 12, and the characters are read far past the end.
read_chars-wrapped :
    {bytes : List ℕ} (size : ℕ) (rest : List ℕ)
    → At bytes 12 rest
    → 2 ^ 32 - 12 ≤ size
    → size < 2 ^ 32
    → length rest < size
    → read_chars size bytes 12 ≡ fault
unfolding read_chars
read_chars-wrapped {bytes} size rest at lo hi short =
    let passed : (12 + size) % 2 ^ 32 ≤ length bytes = omega (arith, at.total) in
    rw (le→ltb (length bytes) _ passed, at.behind, read_bytes-short size rest short)

-- A file of at least 12 bytes whose file name claims 2^32 - 12 bytes or more, with fewer behind the
-- claim by more than 12, is not refused with `out_of_range`: its name is read past the end of the
-- buffer.
pub deserialize_overread :
    (m : MetaDataFile) (packed size : ℕ) (rest : List ℕ)
    → packed < 256 ^ 8
    → 2 ^ 32 - 12 ≤ size
    → size < 2 ^ 32
    → length rest + 12 < size
    → deserialize m (le 8 packed ++ (le 4 size ++ rest)) ≡ fault
unfolding deserialize read_meta read_string
deserialize_overread m packed size rest hp lo hi short =
    let bytes : List ℕ = le 8 packed ++ (le 4 size ++ rest) in
    let fits : length bytes < 2 ^ 32 = simp (length-append, length-le) (omega arith) in
    let a0 : At bytes 0 bytes = record { behind = refl; total = omega arith } in
    let a1 = At-append (le 8 packed) _ 8 (length-le 8 _) a0 in
    let a2 = At-append (le 4 size) _ 4 (length-le 4 _) a1 in
    rw (
      read_field-At 8 packed _ fits hp a0,
      read_field-At 4 size _ fits hi a1,
      read_chars-wrapped size rest a2 lo hi (omega arith),
    )
