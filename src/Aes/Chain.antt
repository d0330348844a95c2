-- ===== src/Aes/Chain.antt =====
-- encrypt and decrypt of a vector: blocks cut and joined, their chaining, and the padding
-- (Peer/Encryptions/AES/AESHandler.cpp).
use gitabic.Base.{
  ℕ, zero, suc, ◌*◌, ◌≡◌, refl, ap, ◌∙◌, Bool, true, false, List, [], ◌∷◌, All, length, arith,
}
use gitabic.Bytes.{IsByte}
use gitabic.Aes.{word, Matrix4x4, matrix, xor_equal}
use gitabic.Aes.Cipher.{encrypt_mat, to_blocks, of_blocks, encrypt_blocks, decrypt_blocks}
use gitabic.Aes.Columns.{IsBytesMatrix}
use gitabic.Aes.Rounds.{
  xor_equal_cancel, xor_equal-IsBytesMatrix, encrypt_mat-IsBytesMatrix, decrypt_mat-encrypt_mat,
}

pub to_blocks-of_blocks : (blocks : List Matrix4x4) → to_blocks (of_blocks blocks) ≡ blocks
unfolding to_blocks of_blocks
to_blocks-of_blocks [] = refl
to_blocks-of_blocks
      (matrix (word a0 a1 a2 a3) (word b0 b1 b2 b3) (word c0 c1 c2 c3) (word d0 d1 d2 d3)
        ∷ blocks) =
    ap (◌∷◌ (matrix (word a0 a1 a2 a3) (word b0 b1 b2 b3) (word c0 c1 c2 c3) (word d0 d1 d2 d3)))
      (to_blocks-of_blocks blocks)

-- A vector of whole blocks is cut into them and put together again.
pub of_blocks-to_blocks :
    (n : ℕ) (bytes : List ℕ)
    → length bytes ≡ 16 * n
    → (of_blocks (to_blocks bytes) ≡ bytes) × (length (to_blocks bytes) ≡ n)
unfolding to_blocks of_blocks
of_blocks-to_blocks zero [] h = (refl, refl)
of_blocks-to_blocks zero (x ∷ bytes) h = absurd (omega arith)
of_blocks-to_blocks (suc n)
      (a0 ∷ a1 ∷ a2 ∷ a3 ∷ b0 ∷ b1 ∷ b2 ∷ b3 ∷ c0 ∷ c1 ∷ c2 ∷ c3 ∷ d0 ∷ d1 ∷ d2 ∷ d3 ∷ bytes) h =
    let (joined, count) = of_blocks-to_blocks n bytes (omega arith) in
    (
      ap (λ t. a0 ∷ a1 ∷ a2 ∷ a3 ∷ b0 ∷ b1 ∷ b2 ∷ b3 ∷ c0 ∷ c1 ∷ c2 ∷ c3 ∷ d0 ∷ d1 ∷ d2 ∷ d3 ∷ t)
          joined,
      ap suc count,
    )
of_blocks-to_blocks (suc n) _ h = absurd (omega arith)

pub length-of_blocks : (blocks : List Matrix4x4) → length (of_blocks blocks) ≡ 16 * length blocks
unfolding of_blocks
length-of_blocks [] = refl
length-of_blocks
      (matrix (word a0 a1 a2 a3) (word b0 b1 b2 b3) (word c0 c1 c2 c3) (word d0 d1 d2 d3)
        ∷ blocks) =
    omega (arith, length-of_blocks blocks)

pub to_blocks-IsBytesMatrix :
    (bytes : List ℕ) → All IsByte bytes → All IsBytesMatrix (to_blocks bytes)
unfolding to_blocks
to_blocks-IsBytesMatrix
      (a0 ∷ a1 ∷ a2 ∷ a3 ∷ b0 ∷ b1 ∷ b2 ∷ b3 ∷ c0 ∷ c1 ∷ c2 ∷ c3 ∷ d0 ∷ d1 ∷ d2 ∷ d3 ∷ bytes) h =
    let h4 = h.1.1.1.1 in
    let h8 = h4.1.1.1.1 in
    let h12 = h8.1.1.1.1 in
    (
      (
        (h.0, h.1.0, h.1.1.0, h.1.1.1.0),
        (h4.0, h4.1.0, h4.1.1.0, h4.1.1.1.0),
        (h8.0, h8.1.0, h8.1.1.0, h8.1.1.1.0),
        (h12.0, h12.1.0, h12.1.1.0, h12.1.1.1.0),
      ),
      to_blocks-IsBytesMatrix bytes h12.1.1.1.1,
    )
to_blocks-IsBytesMatrix _ h = tt

module _ (keys : List Matrix4x4) where
  pub length-encrypt_blocks :
      (cbc : Bool) (blocks : List Matrix4x4) (last_mat : Matrix4x4)
      → length (encrypt_blocks keys cbc last_mat blocks) ≡ length blocks
  unfolding encrypt_blocks
  length-encrypt_blocks cbc [] last_mat = refl
  length-encrypt_blocks cbc (m ∷ blocks) last_mat = ap suc (length-encrypt_blocks cbc blocks _)

  module _ (good : All IsBytesMatrix keys) where
    pub decrypt_blocks_ecb :
        (blocks : List Matrix4x4) (last_mat before : Matrix4x4)
        → All IsBytesMatrix blocks
        → decrypt_blocks keys false before (encrypt_blocks keys false last_mat blocks) ≡ blocks
    unfolding encrypt_blocks decrypt_blocks
    decrypt_blocks_ecb [] last_mat before q = refl
    decrypt_blocks_ecb (m ∷ blocks) last_mat before q =
        let mat = encrypt_mat keys m in
        ap (λ t. t ∷ decrypt_blocks keys false mat (encrypt_blocks keys false mat blocks))
          (decrypt_mat-encrypt_mat keys good m q.0)
        ∙ ap (◌∷◌ m) (decrypt_blocks_ecb blocks mat mat q.1)

    pub decrypt_blocks_cbc :
        (blocks : List Matrix4x4) (last_mat : Matrix4x4)
        → IsBytesMatrix last_mat
        → All IsBytesMatrix blocks
        → decrypt_blocks keys true last_mat (encrypt_blocks keys true last_mat blocks) ≡ blocks
    unfolding encrypt_blocks decrypt_blocks
    decrypt_blocks_cbc [] last_mat p q = refl
    decrypt_blocks_cbc (m ∷ blocks) last_mat p q =
        let added = xor_equal m last_mat in
        let bytes = xor_equal-IsBytesMatrix m last_mat q.0 p in
        let mat = encrypt_mat keys added in
        ap
          (λ t.
            xor_equal t last_mat
            ∷ decrypt_blocks keys true mat (encrypt_blocks keys true mat blocks))
          (decrypt_mat-encrypt_mat keys good added bytes)
        ∙ ap (λ t. t ∷ decrypt_blocks keys true mat (encrypt_blocks keys true mat blocks))
            (xor_equal_cancel m last_mat)
        ∙ ap (◌∷◌ m)
            (decrypt_blocks_cbc blocks mat (encrypt_mat-IsBytesMatrix keys good added bytes) q.1)
