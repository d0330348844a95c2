-- ===== src/MetaData/Cursor.antt =====
-- Reading one field of a metadata file at a known index.
use gitabic.Base.{
  ℕ, ◌+◌, ◌*◌, ◌%◌, ◌^◌, ◌≤◌, ◌<◌, ◌≡◌, refl, sym, ap, ◌∙◌, arith, le→ltb, List, [], ◌∷◌, ◌++◌,
  append_assoc, length, length-append, take, drop, drop-append, drop-drop, All,
}
use gitabic.Bytes.{ok, le}
use gitabic.Bytes.RoundTrip.{read_le-le, read_bytes-append, length-le}
use gitabic.MetaData.{
  serialize_string, serialize_hashes, read_field, read_chars, read_string, read_hashes,
}

-- The bytes from index `i` on are `xs`.
pub record At (bytes : List ℕ) (i : ℕ) (xs : List ℕ) : Type 0 where
  pub behind : drop i bytes ≡ xs
  pub total : i + length xs ≡ length bytes

pub At-append :
    {bytes : List ℕ} {i : ℕ} (xs rest : List ℕ) (n : ℕ)
    → length xs ≡ n
    → At bytes i (xs ++ rest)
    → At bytes (i + n) rest
At-append {bytes} {i} xs rest n e at = record {
  behind = sym (drop-drop i n bytes) ∙ ap (drop n) at.behind ∙ rw (← e) (drop-append xs rest);
  total = omega (arith, length-append xs rest, at.total);
}

pub read_field-At :
    {bytes : List ℕ} {i : ℕ} (n x : ℕ) (rest : List ℕ)
    → length bytes < 2 ^ 32
    → x < 256 ^ n
    → At bytes i (le n x ++ rest)
    → read_field n bytes i ≡ ok (x, i + n)
unfolding read_field
read_field-At {bytes} {i} n x rest fits h at =
    let end : i + n ≤ length bytes =
      omega (arith, at.total, length-append (le n x) rest, length-le n x) in
    rw (le→ltb (length bytes) (i + n) end, at.behind, read_le-le n x rest h) (ground arith)

read_chars-At :
    {bytes : List ℕ} {i : ℕ} (xs rest : List ℕ)
    → length bytes < 2 ^ 32
    → At bytes i (xs ++ rest)
    → read_chars (length xs) bytes i ≡ ok (xs, i + length xs)
unfolding read_chars
read_chars-At {bytes} {i} xs rest fits at =
    let end : i + length xs ≤ length bytes = omega (arith, at.total, length-append xs rest) in
    let small : (i + length xs) % 2 ^ 32 ≡ i + length xs = omega arith in
    rw (small, le→ltb (length bytes) (i + length xs) end, at.behind, read_bytes-append xs rest)

take-length : (xs : List ℕ) → take (length xs) xs ≡ xs
take-length [] = refl
take-length (x ∷ xs) = ap (◌∷◌ x) (take-length xs)

-- A string that fits: its length and its bytes.
pub serialize_string_lem :
    (xs : List ℕ) → length xs < 2 ^ 32 → serialize_string xs ≡ le 4 (length xs) ++ xs
unfolding serialize_string
serialize_string_lem xs h =
    let small : length xs % 2 ^ 32 ≡ length xs = omega arith in rw (small, take-length xs)

pub read_string-At :
    {bytes : List ℕ} {i : ℕ} (xs rest : List ℕ)
    → length bytes < 2 ^ 32
    → length xs < 2 ^ 32
    → At bytes i ((le 4 (length xs) ++ xs) ++ rest)
    → read_string bytes i ≡ ok (xs, i + (4 + length xs))
unfolding read_string
read_string-At {bytes} {i} xs rest fits h at =
    let start : At bytes i (le 4 (length xs) ++ (xs ++ rest)) = rw append_assoc at at in
    let chars : At bytes (i + 4) (xs ++ rest) =
      At-append (le 4 (length xs)) _ 4 (length-le 4 _) start in
    rw (read_field-At 4 (length xs) _ fits h start, read_chars-At xs rest fits chars) (ground arith)

pub read_hashes-At :
    (hs : List ℕ) {bytes : List ℕ} {i : ℕ} (rest : List ℕ)
    → length bytes < 2 ^ 32
    → All (λ h. h < 256 ^ 32) hs
    → At bytes i (serialize_hashes hs ++ rest)
    → read_hashes (length hs) bytes i ≡ ok (hs, i + length hs * 32)
unfolding read_hashes serialize_hashes
read_hashes-At [] rest fits h at = ground arith
read_hashes-At (x ∷ xs) {bytes} {i} rest fits (hx, hxs) at =
    let start : At bytes i (le 32 x ++ (serialize_hashes xs ++ rest)) = rw append_assoc at at in
    let next : At bytes (i + 32) (serialize_hashes xs ++ rest) =
      At-append (le 32 x) _ 32 (length-le 32 _) start in
    rw (read_field-At 32 x _ fits hx start, read_hashes-At xs rest fits hxs next) (ground arith)

pub length-serialize_hashes : (hs : List ℕ) → length (serialize_hashes hs) ≡ length hs * 32
unfolding serialize_hashes
length-serialize_hashes [] = refl
length-serialize_hashes (h ∷ hs) = omega (
  arith,
  length-append (le 32 h) (serialize_hashes hs),
  length-le 32 h,
  length-serialize_hashes hs,
)
