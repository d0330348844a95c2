-- ===== src/Aes.antt =====
-- AES-128 of Peer/Encryptions/AES/AESHandler.cpp: a block, the expansion of the key, the chaining of
-- blocks and their padding. The random key and the random first block are arguments.
pub mod Tables
pub mod Linear
pub mod Cipher
pub mod Columns
pub mod Rounds
pub mod Keys
pub mod Chain
pub mod Padding
use gitabic.Base.{
  ℕ, zero, suc, ◌+◌, ◌-◌, ◌%◌, ◌^◌, Bool, true, false, ◌&&◌, ◌||◌, not, ltb, ◌==◌, if◌then◌else◌,
  List, [], ◌∷◌, ◌++◌, Option, none, some, length, take, replicate, get_elem?,
}
use gitabic.Base.Xor.{◌⊻◌}
use gitabic.Bytes.{
  Outcome, ok, raise, fault, bind, IsByte, runtime_error, out_of_range, length_error,
}
use gitabic.Aes.Tables.{s_box, s_box_inv, mul2, mul3, mul9, mul11, mul13, mul14}

pub data Word : Type 0 where
  word : ℕ → ℕ → ℕ → ℕ → Word

-- The sixteen bytes of a Matrix4x4, row after row; an AESKey has the same layout.
pub data Matrix4x4 : Type 0 where
  matrix : Word → Word → Word → Word → Matrix4x4

-- `word[i]`, for an index below four.
unfoldable word_at : Word → ℕ → ℕ
word_at (word a b c d) i = if i == 0 then a else if i == 1 then b else if i == 2 then c else d

unfoldable pub map_word : (ℕ → ℕ) → Word → Word
map_word f (word a b c d) = word (f a) (f b) (f c) (f d)

-- An argument of type `int8_t`, as the `size_t` that it becomes in the sum, is a number modulo 2^64.
unfoldable pub rotate : ℕ → Word → Word
unfolding word_at
rotate by w =
    word (word_at w ((0 + by + 4) % 2 ^ 64 % 4)) (word_at w ((1 + by + 4) % 2 ^ 64 % 4))
      (word_at w ((2 + by + 4) % 2 ^ 64 % 4)) (word_at w ((3 + by + 4) % 2 ^ 64 % 4))

unfoldable pub sub_word : Word → Word
unfolding map_word
sub_word w = map_word s_box w

unfoldable pub sub_bytes : Bool → Matrix4x4 → Matrix4x4
unfolding map_word
sub_bytes is_enc (matrix r0 r1 r2 r3) =
    let f : ℕ → ℕ = λ b. if is_enc then s_box b else s_box_inv b in
    matrix (map_word f r0) (map_word f r1) (map_word f r2) (map_word f r3)

-- `isEnc ? i : -i`
unfoldable row_offset : Bool → ℕ → ℕ
row_offset is_enc i = if is_enc then i else (2 ^ 64 - i) % 2 ^ 64

unfoldable pub shift_rows : Bool → Matrix4x4 → Matrix4x4
unfolding rotate row_offset
shift_rows is_enc (matrix r0 r1 r2 r3) =
    matrix (rotate (row_offset is_enc 0) r0) (rotate (row_offset is_enc 1) r1)
      (rotate (row_offset is_enc 2) r2) (rotate (row_offset is_enc 3) r3)

-- What the body of a loop over the columns does, on the four bytes of one column.
abbrev pub transpose : Matrix4x4 → Matrix4x4
transpose (matrix (word a0 a1 a2 a3) (word b0 b1 b2 b3) (word c0 c1 c2 c3) (word d0 d1 d2 d3)) =
    matrix (word a0 b0 c0 d0) (word a1 b1 c1 d1) (word a2 b2 c2 d2) (word a3 b3 c3 d3)

abbrev pub map_rows : (Word → Word) → Matrix4x4 → Matrix4x4
map_rows f (matrix r0 r1 r2 r3) = matrix (f r0) (f r1) (f r2) (f r3)

unfoldable pub mix_column : Word → Word
mix_column (word s0 s1 s2 s3) =
    word (mul2 s0 ⊻ mul3 s1 ⊻ s2 ⊻ s3) (s0 ⊻ mul2 s1 ⊻ mul3 s2 ⊻ s3) (s0 ⊻ s1 ⊻ mul2 s2 ⊻ mul3 s3)
      (mul3 s0 ⊻ s1 ⊻ s2 ⊻ mul2 s3)

unfoldable pub mix_columns : Matrix4x4 → Matrix4x4
unfolding mix_column
mix_columns m = transpose (map_rows mix_column (transpose m))

unfoldable pub mix_column_inv : Word → Word
mix_column_inv (word s0 s1 s2 s3) =
    word (mul14 s0 ⊻ mul11 s1 ⊻ mul13 s2 ⊻ mul9 s3) (mul9 s0 ⊻ mul14 s1 ⊻ mul11 s2 ⊻ mul13 s3)
      (mul13 s0 ⊻ mul9 s1 ⊻ mul14 s2 ⊻ mul11 s3) (mul11 s0 ⊻ mul13 s1 ⊻ mul9 s2 ⊻ mul14 s3)

unfoldable pub mix_columns_inv : Matrix4x4 → Matrix4x4
unfolding mix_column_inv
mix_columns_inv m = transpose (map_rows mix_column_inv (transpose m))

unfoldable pub xor_word : Word → Word → Word
xor_word (word a b c d) (word e f g h) = word (a ⊻ e) (b ⊻ f) (c ⊻ g) (d ⊻ h)

unfoldable pub xor_equal : Matrix4x4 → Matrix4x4 → Matrix4x4
unfolding xor_word
xor_equal (matrix a b c d) (matrix e f g h) =
    matrix (xor_word a e) (xor_word b f) (xor_word c g) (xor_word d h)

-- `keys[round]` of an array that has eleven of them.
abbrev pub zero_matrix : Matrix4x4
zero_matrix = matrix (word 0 0 0 0) (word 0 0 0 0) (word 0 0 0 0) (word 0 0 0 0)

unfoldable pub key_at : List Matrix4x4 → ℕ → Matrix4x4
key_at [] round = zero_matrix
key_at (k ∷ keys) zero = k
key_at (k ∷ keys) (suc round) = key_at keys round

unfoldable pub add_round_key : List Matrix4x4 → ℕ → Matrix4x4 → Matrix4x4
unfolding xor_equal key_at
add_round_key keys round m = xor_equal m (key_at keys round)

abbrev pub rounds : ℕ
rounds = 10

abbrev rcon_table : List ℕ
rcon_table = 0x00 ∷ 0x01 ∷ 0x02 ∷ 0x04 ∷ 0x08 ∷ 0x10 ∷ 0x20 ∷ 0x40 ∷ 0x80 ∷ 0x1b ∷ 0x36 ∷ []

unfoldable pub rcon : ℕ → Outcome ℕ
rcon round =
    if ltb round 1 || ltb rounds round
    then raise out_of_range
    else elim (get_elem? rcon_table round) [ none ↦ fault | some c ↦ ok c ]

-- `temp[0] ^= constant`
unfoldable pub xor_first : ℕ → Word → Word
xor_first constant (word a b c d) = word (a ⊻ constant) b c d

-- What is done to `temp`, the last word of the key that comes before.
unfoldable pub core : ℕ → Word → Word
unfolding xor_first sub_word rotate
core constant temp = xor_first constant (sub_word (rotate 1 temp))

-- The sixteen bytes of `newKey`, for the constant of the round.
unfoldable pub new_key : ℕ → Matrix4x4 → Matrix4x4
unfolding core xor_word
new_key constant (matrix w0 w1 w2 w3) =
    let n0 : Word = xor_word w0 (core constant w3) in
    let n1 : Word = xor_word n0 w1 in
    let n2 : Word = xor_word n1 w2 in matrix n0 n1 n2 (xor_word n2 w3)

unfoldable pub next_key : ℕ → Matrix4x4 → Outcome Matrix4x4
unfolding new_key rcon
next_key round prev = bind (rcon round) (λ constant. ok (new_key constant prev))

-- The loop from `round` on, with so many rounds left.
unfoldable pub expand : ℕ → ℕ → Matrix4x4 → Outcome (List Matrix4x4)
unfolding next_key
expand zero round prev = ok []
expand (suc n) round prev =
    bind (next_key round prev) (λ key. bind (expand n (round + 1) key) (λ keys. ok (key ∷ keys)))

unfoldable pub key_expansion : Matrix4x4 → Outcome (List Matrix4x4)
unfolding expand
key_expansion key = bind (expand rounds 1 key) (λ keys. ok (key ∷ keys))

unfoldable pub get_key : List Matrix4x4 → Matrix4x4
unfolding key_at
get_key keys = key_at keys 0
