-- ===== src/Aes/Padding.antt =====
-- The padding of a vector and encrypt followed by decrypt (Peer/Encryptions/AES/AESHandler.cpp).
use gitabic.Base.{
  ℕ, zero, suc, ◌+◌, ◌-◌, ◌*◌, ◌/◌, ◌%◌, ◌^◌, ◌≤◌, ◌<◌, ◌≡◌, refl, sym, ap, ◌∙◌, Bool, true, false,
  if◌then◌else◌, ==_iff, List, [], ◌∷◌, ◌++◌, All, Option, none, some, length, take, drop,
  replicate, append-nil, get_elem?, length-append, length-replicate, take-append, le→ltb, lt→ltb,
  subst, arith,
}
use gitabic.Bytes.{ok, raise, fault, IsByte, length_error}
use gitabic.Aes.{Matrix4x4, key_expansion, zero_matrix}
use gitabic.Aes.Cipher.{
  to_blocks, of_blocks, encrypt_blocks, decrypt_blocks, pad_data, de_pad_data, encrypt,
  decrypt_bytes, decrypt_reach, decrypt,
}
use gitabic.Aes.Columns.{IsBytesMatrix}
use gitabic.Aes.Keys.{key_expansion_lem}
use gitabic.Aes.Chain.{
  to_blocks-of_blocks, of_blocks-to_blocks, length-of_blocks, to_blocks-IsBytesMatrix,
  length-encrypt_blocks, decrypt_blocks_ecb, decrypt_blocks_cbc,
}

length-pad_data : (bytes : List ℕ) → length (pad_data bytes) ≡ 16 * (length bytes / 16 + 1)
unfolding pad_data
length-pad_data bytes =
    let k : ℕ = 16 - length bytes % 16 in
    omega (arith, length-append bytes (replicate k k), length-replicate k k)

get_elem?-append : (xs ys : List ℕ) (n : ℕ) → get_elem? (xs ++ ys) (length xs + n) ≡ get_elem? ys n
get_elem?-append [] ys n = let e : 0 + n ≡ n = omega arith in ap (get_elem? ys) e
get_elem?-append (x ∷ xs) ys n =
    let e : suc (length xs) + n ≡ suc (length xs + n) = omega arith in
    ap (get_elem? (x ∷ (xs ++ ys))) e ∙ get_elem?-append xs ys n

get_elem?-replicate : (m n v : ℕ) → n < m → get_elem? (replicate m v) n ≡ some v
get_elem?-replicate zero n v h = absurd (omega arith)
get_elem?-replicate (suc m) zero v h = refl
get_elem?-replicate (suc m) (suc n) v h = get_elem?-replicate m n v (omega arith)

All-padding : (n v : ℕ) → v < 256 → All IsByte (replicate n v)
All-padding zero v h = tt
All-padding (suc n) v h = (h, All-padding n v h)

All-append : (xs ys : List ℕ) → All IsByte xs → All IsByte ys → All IsByte (xs ++ ys)
All-append [] ys p q = q
All-append (x ∷ xs) ys p q = (p.0, All-append xs ys p.1 q)

pad_data-IsByte : (bytes : List ℕ) → All IsByte bytes → All IsByte (pad_data bytes)
unfolding pad_data
pad_data-IsByte bytes h = All-append bytes _ h (All-padding _ _ (omega arith))

-- dePadData on every vector: without a byte it reads outside of it; otherwise the last byte, whatever
-- its value, is the count that is taken off, and a count above the size makes resize throw.
de_pad_data_cases :
    (bytes : List ℕ)
    → (bytes ≡ [] → de_pad_data bytes ≡ fault)
      × ((v : ℕ)
          → get_elem? bytes (length bytes - 1) ≡ some v
          → (v ≤ length bytes → de_pad_data bytes ≡ ok (take (length bytes - v) bytes))
            × (length bytes < v → de_pad_data bytes ≡ raise length_error))
unfolding de_pad_data
de_pad_data_cases bytes = (
  λ none_left. subst (λ b. de_pad_data b ≡ fault) (sym none_left) refl,
  λ v e.
      (λ h. rw (e, de_pad_data) (rw (le→ltb _ _ h)), λ h. rw (e, de_pad_data) (rw (lt→ltb _ _ h))),
)

-- Padding is taken off again.
de_pad_data-pad_data : (bytes : List ℕ) → de_pad_data (pad_data bytes) ≡ ok bytes
unfolding pad_data
de_pad_data-pad_data bytes =
    let k : ℕ = 16 - length bytes % 16 in
    let size : length (bytes ++ replicate k k) ≡ length bytes + k =
      omega (arith, length-append bytes (replicate k k), length-replicate k k) in
    let last : length (bytes ++ replicate k k) - 1 ≡ length bytes + (k - 1) = omega (arith, size) in
    let front : length (bytes ++ replicate k k) - k ≡ length bytes = omega (arith, size) in
    ((de_pad_data_cases (bytes ++ replicate k k)).1 k (
        ap (get_elem? (bytes ++ replicate k k)) last
        ∙ get_elem?-append bytes (replicate k k) (k - 1)
        ∙ get_elem?-replicate k (k - 1) k (omega arith))).0
      (omega (arith, size))
    ∙ ap ok (ap (λ n. take n (bytes ++ replicate k k)) front ∙ take-append bytes (replicate k k))

-- The loop of decrypt undoes that of encrypt, in either mode.
decrypt_bytes-encrypt_blocks :
    (keys blocks : List Matrix4x4) (iv : Matrix4x4) (cbc : Bool)
    → All IsBytesMatrix keys
    → IsBytesMatrix iv
    → All IsBytesMatrix blocks
    → decrypt_bytes keys
        (if cbc then some iv else none)
        (of_blocks (encrypt_blocks keys cbc iv blocks))
      ≡ of_blocks blocks
unfolding decrypt_bytes
decrypt_bytes-encrypt_blocks keys blocks iv true good p q =
    ap (λ t. of_blocks (decrypt_blocks keys true iv t)) (to_blocks-of_blocks _)
    ∙ ap of_blocks (decrypt_blocks_cbc keys good blocks iv p q)
decrypt_bytes-encrypt_blocks keys blocks iv false good p q =
    ap (λ t. of_blocks (decrypt_blocks keys false zero_matrix t)) (to_blocks-of_blocks _)
    ∙ ap of_blocks (decrypt_blocks_ecb keys good blocks iv zero_matrix q)

encrypt_padded :
    (keys : List Matrix4x4) (iv : Matrix4x4) (bytes : List ℕ) (cbc : Bool)
    → encrypt keys iv bytes true cbc
      ≡ ok (of_blocks (encrypt_blocks keys cbc iv (to_blocks (pad_data bytes))), iv)
unfolding encrypt
encrypt_padded keys iv bytes cbc = refl

take-length : (xs : List ℕ) → take (length xs) xs ≡ xs
take-length [] = refl
take-length (x ∷ xs) = ap (◌∷◌ x) (take-length xs)

drop-length : (xs : List ℕ) → drop (length xs) xs ≡ []
drop-length [] = refl
drop-length (x ∷ xs) = drop-length xs

-- Up to 2^31 bytes the index of the loop starts at the last block.
decrypt_reach-fits : (n : ℕ) → n % 16 ≡ 0 → n ≤ 2 ^ 31 → decrypt_reach n ≡ n
unfolding decrypt_reach
decrypt_reach-fits n h small = ground arith

decrypt_bytes_reach :
    (keys : List Matrix4x4) (iv : Option Matrix4x4) (cipher : List ℕ)
    → length cipher % 16 ≡ 0
    → length cipher ≤ 2 ^ 31
    → let n = decrypt_reach (length cipher) in
      decrypt_bytes keys iv (take n cipher) ++ drop n cipher ≡ decrypt_bytes keys iv cipher
decrypt_bytes_reach keys iv cipher h small =
    ap (λ n. decrypt_bytes keys iv (take n cipher) ++ drop n cipher)
      (decrypt_reach-fits (length cipher) h small)
    ∙ ap (λ l. decrypt_bytes keys iv l ++ drop (length cipher) cipher) (take-length cipher)
    ∙ ap (λ l. decrypt_bytes keys iv cipher ++ l) (drop-length cipher)
    ∙ append-nil (decrypt_bytes keys iv cipher)

-- decrypt on a vector that its index reaches.
pub decrypt_whole :
    (keys : List Matrix4x4) (iv : Option Matrix4x4) (cipher : List ℕ) (is_padded : Bool)
    → length cipher % 16 ≡ 0
    → length cipher ≤ 2 ^ 31
    → decrypt keys iv cipher is_padded ≡ (
        let plain = decrypt_bytes keys iv cipher in
        if is_padded then de_pad_data plain else ok plain)
unfolding decrypt
decrypt_whole keys iv cipher is_padded h small = rw ((==_iff (length cipher % 16) 0).1 h) (
    ap (λ plain. if is_padded then de_pad_data plain else ok plain)
      (decrypt_bytes_reach keys iv cipher h small))

-- For a key, a first block and a vector of fewer than 2^31 bytes, in either mode: the key expands, encrypt with padding
-- succeeds and gives the next larger multiple of sixteen bytes, and decrypt, given the first block in
-- the mode that chains the blocks and none in the other, gives the vector back.
pub decrypt-encrypt :
    (key iv : Matrix4x4) (bytes : List ℕ) (cbc : Bool)
    → IsBytesMatrix key
    → IsBytesMatrix iv
    → All IsByte bytes
    → length bytes < 2 ^ 31
    → (keys : List Matrix4x4) × (cipher : List ℕ) × (key_expansion key ≡ ok keys)
      × (encrypt keys iv bytes true cbc ≡ ok (cipher, iv))
      × (length cipher ≡ 16 * (length bytes / 16 + 1))
      × (decrypt keys (if cbc then some iv else none) cipher true ≡ ok bytes)
decrypt-encrypt key iv bytes cbc hk hi hb small =
    let (keys, e, size, same, good) = key_expansion_lem key hk in
    let padded = pad_data bytes in
    let blocks = to_blocks padded in
    let cipher = of_blocks (encrypt_blocks keys cbc iv blocks) in
    let (joined, count) =
      of_blocks-to_blocks (length bytes / 16 + 1) padded (length-pad_data bytes) in
    let long : length cipher ≡ 16 * (length bytes / 16 + 1) = omega (
      arith,
      length-of_blocks (encrypt_blocks keys cbc iv blocks),
      length-encrypt_blocks keys cbc blocks iv,
      count,
    ) in
    let plain : decrypt_bytes keys (if cbc then some iv else none) cipher ≡ padded =
      decrypt_bytes-encrypt_blocks keys blocks iv cbc good hi
        (to_blocks-IsBytesMatrix padded (pad_data-IsByte bytes hb))
      ∙ joined in
    (
      keys,
      cipher,
      e,
      encrypt_padded keys iv bytes cbc,
      long,
      decrypt_whole keys (if cbc then some iv else none) cipher true (omega (arith, long))
            (omega (arith, long, small))
          ∙ ap de_pad_data plain
          ∙ de_pad_data-pad_data bytes,
    )
