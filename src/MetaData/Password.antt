-- ===== src/MetaData/Password.antt =====
-- The key of a file under a password: the encryption in MetaDataFile::createMetaData, and
-- decryptAesKey (Peer/Utils/MetaDataFile/MetaDataFile.cpp).
use gitabic.Base.{ℕ, ◌≡◌, refl, ap, ◌∙◌, false, List, [], ◌∷◌, ◌++◌, All, none, arith}
use gitabic.Bytes.{Outcome, ok, bind}
use gitabic.Sha.{State, state, digest_of, sha2_unpack32}
use gitabic.Sha.Stream.{to_hash_sha256, final}
use gitabic.Aes.{Matrix4x4, matrix, word, zero_matrix, key_expansion}
use gitabic.Aes.Columns.{IsBytesMatrix}
use gitabic.Aes.Keys.{key_expansion_lem}
use gitabic.Aes.Chain.{to_blocks-of_blocks, length-of_blocks, decrypt_blocks_ecb}
use gitabic.Aes.Padding.{decrypt_whole}
use gitabic.Aes.Cipher.{
  to_blocks, of_blocks, encrypt_mat, encrypt_blocks, decrypt_blocks, encrypt, decrypt_bytes,
  decrypt,
}

-- Conversions::cutArray and toKey, on a vector of sixteen bytes at least.
unfoldable to_key : List ℕ → Matrix4x4
unfolding to_blocks
to_key bytes = elim (to_blocks bytes) [ [] ↦ zero_matrix | m ∷ ms ↦ m ]

unfoldable password_key : List ℕ → List ℕ → Matrix4x4
unfolding to_key to_hash_sha256
password_key password salt = to_key (to_hash_sha256 (password ++ salt))

-- The branch of createMetaData for a password, on the key and the block that are drawn at random.
unfoldable pub encrypt_aes_key : List ℕ → List ℕ → Matrix4x4 → Matrix4x4 → Outcome Matrix4x4
unfolding password_key encrypt of_blocks
encrypt_aes_key password salt key random_block =
    bind (key_expansion (password_key password salt)) λ keys.
      bind (encrypt keys random_block (of_blocks (key ∷ [])) false false) λ r. ok (to_key r.0)

unfoldable pub decrypt_aes_key : List ℕ → List ℕ → Matrix4x4 → Outcome Matrix4x4
unfolding password_key decrypt of_blocks
decrypt_aes_key password salt encrypted_key =
    bind (key_expansion (password_key password salt))
      λ keys. bind (decrypt keys none (of_blocks (encrypted_key ∷ [])) false) λ r. ok (to_key r)

to_key-digest_of : (s : State) → IsBytesMatrix (to_key (digest_of s))
unfolding to_key digest_of sha2_unpack32 to_blocks
to_key-digest_of (state a b c d e f g h) = (
  (omega arith, omega arith, omega arith, omega arith),
  (omega arith, omega arith, omega arith, omega arith),
  (omega arith, omega arith, omega arith, omega arith),
  (omega arith, omega arith, omega arith, omega arith),
)

password_key-IsBytesMatrix : (password salt : List ℕ) → IsBytesMatrix (password_key password salt)
unfolding password_key to_hash_sha256 final
password_key-IsBytesMatrix password salt = to_key-digest_of _

to_key-of_blocks : (m : Matrix4x4) → to_key (of_blocks (m ∷ [])) ≡ m
unfolding to_key of_blocks to_blocks
to_key-of_blocks
      (matrix (word a0 a1 a2 a3) (word b0 b1 b2 b3) (word c0 c1 c2 c3) (word d0 d1 d2 d3)) =
    refl

encrypt_one :
    (keys : List Matrix4x4) (iv key : Matrix4x4)
    → encrypt keys iv (of_blocks (key ∷ [])) false false
      ≡ ok (of_blocks (encrypt_mat keys key ∷ []), iv)
unfolding encrypt encrypt_blocks to_blocks of_blocks
encrypt_one keys iv
      (matrix (word a0 a1 a2 a3) (word b0 b1 b2 b3) (word c0 c1 c2 c3) (word d0 d1 d2 d3)) =
    refl

decrypt_one :
    (keys : List Matrix4x4) (key : Matrix4x4)
    → All IsBytesMatrix keys
    → IsBytesMatrix key
    → decrypt keys none (of_blocks (encrypt_mat keys key ∷ [])) false ≡ ok (of_blocks (key ∷ []))
unfolding decrypt_bytes encrypt_blocks
decrypt_one keys key good h =
    let m = encrypt_mat keys key in
    decrypt_whole keys none (of_blocks (m ∷ [])) false (omega (arith, length-of_blocks (m ∷ [])))
      (omega (arith, length-of_blocks (m ∷ [])))
    ∙ ap (λ t. ok (of_blocks (decrypt_blocks keys false zero_matrix t)))
        (to_blocks-of_blocks (m ∷ []))
    ∙ ap (λ t. ok (of_blocks t))
        (decrypt_blocks_ecb keys good (key ∷ []) zero_matrix zero_matrix (h, tt))

-- For any password, salt and key of bytes: the key is encrypted, whatever block is drawn at random, and
-- decryptAesKey with the same password and salt gives it back.
pub decrypt_aes_key-encrypt_aes_key :
    (password salt : List ℕ) (key random_block : Matrix4x4)
    → IsBytesMatrix key
    → (encrypted_key : Matrix4x4) × (encrypt_aes_key password salt key random_block
        ≡ ok encrypted_key)
      × (decrypt_aes_key password salt encrypted_key ≡ ok key)
unfolding encrypt_aes_key decrypt_aes_key
decrypt_aes_key-encrypt_aes_key password salt key random_block h =
    let pass = password_key password salt in
    let (keys, e, size, same, good) =
      key_expansion_lem pass (password_key-IsBytesMatrix password salt) in
    let m = encrypt_mat keys key in
    (
      m,
      ap
            (λ o. bind o (λ ks.
              bind (encrypt ks random_block (of_blocks (key ∷ [])) false false)
                (λ r. ok (to_key r.0))))
            e
          ∙ ap (λ o. bind o (λ (r : List ℕ × Matrix4x4). ok (to_key r.0)))
              (encrypt_one keys random_block key)
          ∙ ap ok (to_key-of_blocks m),
      ap
            (λ o.
              bind o (λ ks. bind (decrypt ks none (of_blocks (m ∷ [])) false) (λ r. ok (to_key r))))
            e
          ∙ ap (λ o. bind o (λ r. ok (to_key r))) (decrypt_one keys key good h)
          ∙ ap ok (to_key-of_blocks key),
    )
