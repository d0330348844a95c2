-- ===== src/Aes/Rounds.antt =====
-- The rounds of a block: each step of encryptMat is undone by its inverse in decryptMat
-- (Peer/Encryptions/AES/AESHandler.cpp).
use gitabic.Base.{ℕ, zero, suc, ◌+◌, ◌≡◌, refl, ap, ◌∙◌, true, false, List, [], ◌∷◌, All, arith}
use gitabic.Base.Xor.{bit_xor-lt, bit_xor_cancel}
use gitabic.Aes.{
  Word, word, Matrix4x4, matrix, map_word, shift_rows, sub_bytes, mix_columns_inv, xor_word,
  xor_equal, key_at, add_round_key, rounds,
}
use gitabic.Aes.Tables.{s_box, s_box_inv}
use gitabic.Aes.Linear.{s_box_inv-s_box, s_box-lt}
use gitabic.Aes.Cipher.{
  encrypt_round, encrypt_rounds, encrypt_mat, decrypt_round, decrypt_rounds, decrypt_mat,
}
use gitabic.Aes.Columns.{
  IsBytesWord, IsBytesMatrix, mix_columns-IsBytesMatrix, mix_columns_inv-mix_columns,
}

shift_rows_undone : (m : Matrix4x4) → shift_rows false (shift_rows true m) ≡ m
unfolding shift_rows
shift_rows_undone
      (matrix (word a0 a1 a2 a3) (word b0 b1 b2 b3) (word c0 c1 c2 c3) (word d0 d1 d2 d3)) =
    refl

shift_rows-IsBytesMatrix : (m : Matrix4x4) → IsBytesMatrix m → IsBytesMatrix (shift_rows true m)
unfolding shift_rows
shift_rows-IsBytesMatrix
      (matrix (word a0 a1 a2 a3) (word b0 b1 b2 b3) (word c0 c1 c2 c3) (word d0 d1 d2 d3)) h =
    omega arith

sub_word_undone : (w : Word) → IsBytesWord w → map_word s_box_inv (map_word s_box w) ≡ w
unfolding map_word
sub_word_undone (word a b c d) (p, q, r, s) =
    rw (s_box_inv-s_box a p, s_box_inv-s_box b q, s_box_inv-s_box c r, s_box_inv-s_box d s)

pub sub_word-IsBytesWord : (w : Word) → IsBytesWord w → IsBytesWord (map_word s_box w)
unfolding map_word
sub_word-IsBytesWord (word a b c d) (p, q, r, s) =
    (s_box-lt a p, s_box-lt b q, s_box-lt c r, s_box-lt d s)

sub_bytes_undone : (m : Matrix4x4) → IsBytesMatrix m → sub_bytes false (sub_bytes true m) ≡ m
unfolding sub_bytes
sub_bytes_undone (matrix r0 r1 r2 r3) (p0, p1, p2, p3) =
    rw (sub_word_undone r0 p0, sub_word_undone r1 p1, sub_word_undone r2 p2, sub_word_undone r3 p3)

sub_bytes-IsBytesMatrix : (m : Matrix4x4) → IsBytesMatrix m → IsBytesMatrix (sub_bytes true m)
unfolding sub_bytes
sub_bytes-IsBytesMatrix (matrix r0 r1 r2 r3) (p0, p1, p2, p3) = (
  sub_word-IsBytesWord r0 p0,
  sub_word-IsBytesWord r1 p1,
  sub_word-IsBytesWord r2 p2,
  sub_word-IsBytesWord r3 p3,
)

xor_word_cancel : (w k : Word) → xor_word (xor_word w k) k ≡ w
unfolding xor_word
xor_word_cancel (word a b c d) (word e f g h) =
    rw (bit_xor_cancel a e, bit_xor_cancel b f, bit_xor_cancel c g, bit_xor_cancel d h)

pub xor_word-IsBytesWord : (w k : Word) → IsBytesWord w → IsBytesWord k → IsBytesWord (xor_word w k)
unfolding xor_word
xor_word-IsBytesWord (word a b c d) (word e f g h) p q =
    (bit_xor-lt a e p.0 q.0, bit_xor-lt b f p.1 q.1, bit_xor-lt c g p.2 q.2, bit_xor-lt d h p.3 q.3)

pub xor_equal_cancel : (m k : Matrix4x4) → xor_equal (xor_equal m k) k ≡ m
unfolding xor_equal
xor_equal_cancel (matrix a b c d) (matrix e f g h) =
    rw (xor_word_cancel a e, xor_word_cancel b f, xor_word_cancel c g, xor_word_cancel d h)

pub xor_equal-IsBytesMatrix :
    (m k : Matrix4x4) → IsBytesMatrix m → IsBytesMatrix k → IsBytesMatrix (xor_equal m k)
unfolding xor_equal
xor_equal-IsBytesMatrix (matrix a b c d) (matrix e f g h) p q = (
  xor_word-IsBytesWord a e p.0 q.0,
  xor_word-IsBytesWord b f p.1 q.1,
  xor_word-IsBytesWord c g p.2 q.2,
  xor_word-IsBytesWord d h p.3 q.3,
)

key_at-IsBytesMatrix :
    (keys : List Matrix4x4) (i : ℕ) → All IsBytesMatrix keys → IsBytesMatrix (key_at keys i)
unfolding key_at
key_at-IsBytesMatrix [] i h = omega arith
key_at-IsBytesMatrix (k ∷ keys) zero h = h.0
key_at-IsBytesMatrix (k ∷ keys) (suc i) h = key_at-IsBytesMatrix keys i h.1

add_round_key_cancel :
    (keys : List Matrix4x4) (i : ℕ) (m : Matrix4x4)
    → add_round_key keys i (add_round_key keys i m) ≡ m
unfolding add_round_key
add_round_key_cancel keys i m = xor_equal_cancel m (key_at keys i)

module _ (keys : List Matrix4x4) (good : All IsBytesMatrix keys) where
  add_round_key-IsBytesMatrix :
      (i : ℕ) (m : Matrix4x4) → IsBytesMatrix m → IsBytesMatrix (add_round_key keys i m)
  unfolding add_round_key
  add_round_key-IsBytesMatrix i m h =
      xor_equal-IsBytesMatrix m _ h (key_at-IsBytesMatrix keys i good)

  -- Substitution and rotation, without the mixing that the last round leaves out.
  shifted-IsBytesMatrix :
      (m : Matrix4x4) → IsBytesMatrix m → IsBytesMatrix (shift_rows true (sub_bytes true m))
  shifted-IsBytesMatrix m h = shift_rows-IsBytesMatrix _ (sub_bytes-IsBytesMatrix m h)

  encrypt_round-IsBytesMatrix :
      (i : ℕ) (m : Matrix4x4) → IsBytesMatrix m → IsBytesMatrix (encrypt_round keys i m)
  unfolding encrypt_round
  encrypt_round-IsBytesMatrix i m h =
      add_round_key-IsBytesMatrix i _ (mix_columns-IsBytesMatrix _ (shifted-IsBytesMatrix m h))

  encrypt_rounds-IsBytesMatrix :
      (n i : ℕ) (m : Matrix4x4) → IsBytesMatrix m → IsBytesMatrix (encrypt_rounds keys n i m)
  unfolding encrypt_rounds
  encrypt_rounds-IsBytesMatrix zero i m h = h
  encrypt_rounds-IsBytesMatrix (suc n) i m h =
      encrypt_rounds-IsBytesMatrix n (suc i) _ (encrypt_round-IsBytesMatrix i m h)

  pub encrypt_mat-IsBytesMatrix :
      (m : Matrix4x4) → IsBytesMatrix m → IsBytesMatrix (encrypt_mat keys m)
  unfolding encrypt_mat
  encrypt_mat-IsBytesMatrix m h = add_round_key-IsBytesMatrix rounds _ (
      shifted-IsBytesMatrix _
        (encrypt_rounds-IsBytesMatrix 9 1 _ (add_round_key-IsBytesMatrix 0 m h)))

  shifted_undone :
      (m : Matrix4x4)
      → IsBytesMatrix m
      → sub_bytes false (shift_rows false (shift_rows true (sub_bytes true m))) ≡ m
  shifted_undone m h = ap (sub_bytes false) (shift_rows_undone _) ∙ sub_bytes_undone m h

  decrypt_round-encrypt_round :
      (i : ℕ) (m : Matrix4x4) → IsBytesMatrix m → decrypt_round keys i (encrypt_round keys i m) ≡ m
  unfolding encrypt_round decrypt_round
  decrypt_round-encrypt_round i m h =
      ap (λ t. sub_bytes false (shift_rows false (mix_columns_inv t)))
        (add_round_key_cancel keys i _)
      ∙ ap (λ t. sub_bytes false (shift_rows false t))
          (mix_columns_inv-mix_columns _ (shifted-IsBytesMatrix m h))
      ∙ shifted_undone m h

  -- The loop of decryptMat takes back the last `n` rounds and goes on with the one before them.
  decrypt_rounds-encrypt_rounds :
      (n i : ℕ) (m : Matrix4x4)
      → IsBytesMatrix m
      → decrypt_rounds keys (n + i) (encrypt_rounds keys n (suc i) m) ≡ decrypt_rounds keys i m
  unfolding encrypt_rounds decrypt_rounds
  decrypt_rounds-encrypt_rounds zero i m h =
      let none_left : zero + i ≡ i = omega arith in ap (λ k. decrypt_rounds keys k m) none_left
  decrypt_rounds-encrypt_rounds (suc n) i m h =
      let next = encrypt_round keys (suc i) m in
      let count : suc n + i ≡ n + suc i = omega arith in
      ap (λ k. decrypt_rounds keys k (encrypt_rounds keys n (suc (suc i)) next)) count
      ∙ decrypt_rounds-encrypt_rounds n (suc i) next (encrypt_round-IsBytesMatrix (suc i) m h)
      ∙ ap (decrypt_rounds keys i) (decrypt_round-encrypt_round (suc i) m h)

  -- For round keys of bytes and a block of bytes, decryptMat turns what encryptMat made of the block
  -- back into the block.
  pub decrypt_mat-encrypt_mat :
      (m : Matrix4x4) → IsBytesMatrix m → decrypt_mat keys (encrypt_mat keys m) ≡ m
  unfolding encrypt_mat decrypt_mat
  decrypt_mat-encrypt_mat m h =
      let first = add_round_key keys 0 m in
      let bytes = add_round_key-IsBytesMatrix 0 m h in
      ap (λ t. add_round_key keys 0 (decrypt_rounds keys 9 (sub_bytes false (shift_rows false t))))
        (add_round_key_cancel keys rounds _)
      ∙ ap (λ t. add_round_key keys 0 (decrypt_rounds keys 9 t))
          (shifted_undone _ (encrypt_rounds-IsBytesMatrix 9 1 first bytes))
      ∙ ap (add_round_key keys 0) (decrypt_rounds-encrypt_rounds 9 0 first bytes)
      ∙ add_round_key_cancel keys 0 m
