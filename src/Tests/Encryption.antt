-- ===== src/Tests/Encryption.antt =====
-- Three bytes, encrypted under a key of sixteen ones.
use gitabic.Base.{
  ℕ, ◌+◌, ◌*◌, ◌/◌, ◌≡◌, true, if◌then◌else◌, List, [], ◌∷◌, length, none, some, arith,
}
use gitabic.Bytes.{ok}
use gitabic.Aes.{Word, word, Matrix4x4, matrix, key_expansion}
use gitabic.Aes.Columns.{IsBytesWord, IsBytesMatrix}
use gitabic.Aes.Cipher.{encrypt, decrypt}
use gitabic.Aes.Padding.{decrypt-encrypt}
use gitabic.MetaData.Password.{encrypt_aes_key, decrypt_aes_key, decrypt_aes_key-encrypt_aes_key}

abbrev ones : Word
ones = word 1 1 1 1

abbrev key : Matrix4x4
key = matrix ones ones ones ones

ones_bytes : IsBytesWord ones
ones_bytes = (omega arith, omega arith, omega arith, omega arith)

key_bytes : IsBytesMatrix key
key_bytes = (ones_bytes, ones_bytes, ones_bytes, ones_bytes)

decrypt-encrypt_example :
    (keys : List Matrix4x4) × (cipher : List ℕ) × (key_expansion key ≡ ok keys)
    × (encrypt keys key (1 ∷ 2 ∷ 255 ∷ []) true true ≡ ok (cipher, key))
    × (length cipher ≡ 16 * (3 / 16 + 1))
    × (decrypt keys (if true then some key else none) cipher true ≡ ok (1 ∷ 2 ∷ 255 ∷ []))
decrypt-encrypt_example =
    decrypt-encrypt key key (1 ∷ 2 ∷ 255 ∷ []) true key_bytes key_bytes
      (omega arith, (omega arith, (omega arith, tt))) (omega arith)

decrypt_aes_key-encrypt_aes_key_example :
    (encrypted_key : Matrix4x4) × (encrypt_aes_key (112 ∷ 119 ∷ []) (1 ∷ 2 ∷ 3 ∷ []) key key
      ≡ ok encrypted_key)
    × (decrypt_aes_key (112 ∷ 119 ∷ []) (1 ∷ 2 ∷ 3 ∷ []) encrypted_key ≡ ok key)
decrypt_aes_key-encrypt_aes_key_example =
    decrypt_aes_key-encrypt_aes_key (112 ∷ 119 ∷ []) (1 ∷ 2 ∷ 3 ∷ []) key key key_bytes
