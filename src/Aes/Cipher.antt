-- ===== src/Aes/Cipher.antt =====
-- AES-128: encryptMat and decryptMat on a block, encrypt and decrypt on a vector of bytes, and the
-- padding (Peer/Encryptions/AES/AESHandler.cpp).
use gitabic.Base.{
  ℕ, zero, suc, ◌+◌, ◌-◌, ◌%◌, ◌^◌, Bool, true, false, ◌&&◌, not, ltb, ◌==◌, if◌then◌else◌, List,
  [], ◌∷◌, ◌++◌, Option, none, some, length, take, drop, replicate, get_elem?,
}
use gitabic.Bytes.{Outcome, ok, raise, fault, runtime_error, length_error}
use gitabic.Aes.{
  word, Matrix4x4, matrix, sub_bytes, shift_rows, mix_columns, mix_columns_inv, xor_equal,
  add_round_key, rounds, zero_matrix,
}

-- The body of the loop of encryptMat.
unfoldable pub encrypt_round : List Matrix4x4 → ℕ → Matrix4x4 → Matrix4x4
encrypt_round keys i m = add_round_key keys i (mix_columns (shift_rows true (sub_bytes true m)))

-- The loop from round `i` on, with so many rounds left.
unfoldable pub encrypt_rounds : List Matrix4x4 → ℕ → ℕ → Matrix4x4 → Matrix4x4
unfolding encrypt_round
encrypt_rounds keys zero i m = m
encrypt_rounds keys (suc n) i m = encrypt_rounds keys n (suc i) (encrypt_round keys i m)

unfoldable pub encrypt_mat : List Matrix4x4 → Matrix4x4 → Matrix4x4
unfolding encrypt_rounds
encrypt_mat keys m =
    let mixed : Matrix4x4 = encrypt_rounds keys (rounds - 1) 1 (add_round_key keys 0 m) in
    add_round_key keys rounds (shift_rows true (sub_bytes true mixed))

-- The body of the loop of decryptMat.
unfoldable pub decrypt_round : List Matrix4x4 → ℕ → Matrix4x4 → Matrix4x4
decrypt_round keys i m =
    sub_bytes false (shift_rows false (mix_columns_inv (add_round_key keys i m)))

-- The loop from round `i` down to the first.
unfoldable pub decrypt_rounds : List Matrix4x4 → ℕ → Matrix4x4 → Matrix4x4
unfolding decrypt_round
decrypt_rounds keys zero m = m
decrypt_rounds keys (suc i) m = decrypt_rounds keys i (decrypt_round keys (suc i) m)

unfoldable pub decrypt_mat : List Matrix4x4 → Matrix4x4 → Matrix4x4
unfolding decrypt_rounds
decrypt_mat keys m =
    let first : Matrix4x4 = sub_bytes false (shift_rows false (add_round_key keys rounds m)) in
    add_round_key keys 0 (decrypt_rounds keys (rounds - 1) first)

-- `convertToMat(data.data() + i)` for each `i` that the loops visit.
unfoldable pub to_blocks : List ℕ → List Matrix4x4
to_blocks (a0 ∷ a1 ∷ a2 ∷ a3 ∷ b0 ∷ b1 ∷ b2 ∷ b3 ∷ c0 ∷ c1 ∷ c2 ∷ c3 ∷ d0 ∷ d1 ∷ d2 ∷ d3 ∷ bytes) =
    matrix (word a0 a1 a2 a3) (word b0 b1 b2 b3) (word c0 c1 c2 c3) (word d0 d1 d2 d3)
    ∷ to_blocks bytes
to_blocks _ = []

-- The bytes of the blocks, as they lie in the vector.
unfoldable pub of_blocks : List Matrix4x4 → List ℕ
of_blocks [] = []
of_blocks
      (matrix (word a0 a1 a2 a3) (word b0 b1 b2 b3) (word c0 c1 c2 c3) (word d0 d1 d2 d3)
        ∷ blocks) =
    a0 ∷ a1 ∷ a2 ∷ a3 ∷ b0 ∷ b1 ∷ b2 ∷ b3 ∷ c0 ∷ c1 ∷ c2 ∷ c3 ∷ d0 ∷ d1 ∷ d2 ∷ d3 ∷ of_blocks blocks

-- The loop of encrypt, from the block behind `last_mat` on.
unfoldable pub encrypt_blocks : List Matrix4x4 → Bool → Matrix4x4 → List Matrix4x4 → List Matrix4x4
encrypt_blocks keys cbc last_mat [] = []
encrypt_blocks keys cbc last_mat (m ∷ blocks) =
    let mat : Matrix4x4 = encrypt_mat keys (if cbc then xor_equal m last_mat else m) in
    mat ∷ encrypt_blocks keys cbc mat blocks

-- The loop of decrypt: from the last block back, so that the block in front is still encrypted.
unfoldable pub decrypt_blocks : List Matrix4x4 → Bool → Matrix4x4 → List Matrix4x4 → List Matrix4x4
decrypt_blocks keys cbc before [] = []
decrypt_blocks keys cbc before (m ∷ blocks) =
    let rest : List Matrix4x4 = decrypt_blocks keys cbc m blocks in
    (if cbc then xor_equal (decrypt_mat keys m) before else decrypt_mat keys m) ∷ rest

unfoldable pub pad_data : List ℕ → List ℕ
pad_data bytes = let padding : ℕ = 16 - length bytes % 16 in bytes ++ replicate padding padding

-- `resize` to a size below zero asks for more than a vector can hold.
unfoldable pub de_pad_data : List ℕ → Outcome (List ℕ)
de_pad_data bytes = elim (get_elem? bytes (length bytes - 1)) [
  | none ↦ fault
  | some padding ↦
      if ltb (length bytes) padding
      then raise length_error
      else ok (take (length bytes - padding) bytes)
]

unfoldable pub encrypt :
    List Matrix4x4 → Matrix4x4 → List ℕ → Bool → Bool → Outcome (List ℕ × Matrix4x4)
unfolding pad_data encrypt_blocks to_blocks of_blocks
encrypt keys iv bytes to_pad cbc =
    if not to_pad && not (length bytes % 16 == 0)
    then raise runtime_error
    else let padded : List ℕ = if to_pad then pad_data bytes else bytes in
      ok (of_blocks (encrypt_blocks keys cbc iv (to_blocks padded)), iv)

-- The mode is that of CBC when a first block is given.
unfoldable pub decrypt_bytes : List Matrix4x4 → Option Matrix4x4 → List ℕ → List ℕ
unfolding decrypt_blocks to_blocks of_blocks
decrypt_bytes keys none bytes = of_blocks (decrypt_blocks keys false zero_matrix (to_blocks bytes))
decrypt_bytes keys (some iv) bytes = of_blocks (decrypt_blocks keys true iv (to_blocks bytes))

-- How many bytes the loop of decrypt goes back over: `int i = data.size() - BLOCK` keeps 32 bits of the
-- `size_t`, and an index below zero ends the loop before its first round.
unfoldable pub decrypt_reach : ℕ → ℕ
decrypt_reach size =
    let i : ℕ = (size + (2 ^ 32 - 16)) % 2 ^ 32 in if ltb i (2 ^ 31) then i + 16 else 0

unfoldable pub decrypt : List Matrix4x4 → Option Matrix4x4 → List ℕ → Bool → Outcome (List ℕ)
unfolding decrypt_bytes decrypt_reach de_pad_data
decrypt keys iv bytes is_padded =
    if not (length bytes % 16 == 0)
    then raise runtime_error
    else let n : ℕ = decrypt_reach (length bytes) in
      let plain : List ℕ = decrypt_bytes keys iv (take n bytes) ++ drop n bytes in
      if is_padded then de_pad_data plain else ok plain
