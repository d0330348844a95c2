-- ===== src/Sha.antt =====
-- SHA256 (Peer/Encryptions/SHA256/sha256.cpp, of which the server has a copy under
-- Server/Encryptions/SHA256): the words of 32 bits and the transformation of a block. Sha.Stream has the
-- context with its buffer.
pub mod Stream
pub mod Buffer
pub mod Standard
pub mod Fips
pub mod Absorb
pub mod Finish
use Prim.Native.Nat.{bit_and, bit_or, bit_xor}
use gitabic.Base.{
  ℕ, zero, suc, ◌+◌, ◌-◌, ◌*◌, ◌/◌, ◌%◌, ◌^◌, List, [], ◌∷◌, ◌++◌, Option, none, some, get_elem?,
  take, drop,
}
use gitabic.Base.Xor.{◌⊻◌}

-- An element of an array, at an index inside it.
unfoldable pub at : List ℕ → ℕ → ℕ
at xs i = elim (get_elem? xs i) [ none ↦ 0 | some x ↦ x ]

abbrev pub sha256_k : List ℕ
sha256_k =
    0x428a2f98 ∷ 0x71374491 ∷ 0xb5c0fbcf ∷ 0xe9b5dba5 ∷ 0x3956c25b ∷ 0x59f111f1 ∷ 0x923f82a4
    ∷ 0xab1c5ed5 ∷ 0xd807aa98 ∷ 0x12835b01 ∷ 0x243185be ∷ 0x550c7dc3 ∷ 0x72be5d74 ∷ 0x80deb1fe
    ∷ 0x9bdc06a7 ∷ 0xc19bf174 ∷ 0xe49b69c1 ∷ 0xefbe4786 ∷ 0x0fc19dc6 ∷ 0x240ca1cc ∷ 0x2de92c6f
    ∷ 0x4a7484aa ∷ 0x5cb0a9dc ∷ 0x76f988da ∷ 0x983e5152 ∷ 0xa831c66d ∷ 0xb00327c8 ∷ 0xbf597fc7
    ∷ 0xc6e00bf3 ∷ 0xd5a79147 ∷ 0x06ca6351 ∷ 0x14292967 ∷ 0x27b70a85 ∷ 0x2e1b2138 ∷ 0x4d2c6dfc
    ∷ 0x53380d13 ∷ 0x650a7354 ∷ 0x766a0abb ∷ 0x81c2c92e ∷ 0x92722c85 ∷ 0xa2bfe8a1 ∷ 0xa81a664b
    ∷ 0xc24b8b70 ∷ 0xc76c51a3 ∷ 0xd192e819 ∷ 0xd6990624 ∷ 0xf40e3585 ∷ 0x106aa070 ∷ 0x19a4c116
    ∷ 0x1e376c08 ∷ 0x2748774c ∷ 0x34b0bcb5 ∷ 0x391c0cb3 ∷ 0x4ed8aa4a ∷ 0x5b9cca4f ∷ 0x682e6ff3
    ∷ 0x748f82ee ∷ 0x78a5636f ∷ 0x84c87814 ∷ 0x8cc70208 ∷ 0x90befffa ∷ 0xa4506ceb ∷ 0xbef9a3f7
    ∷ 0xc67178f2 ∷ []

unfoldable pub u32 : ℕ → ℕ
u32 x = x % 2 ^ 32

unfoldable pub sha2_shfr : ℕ → ℕ → ℕ
sha2_shfr x n = x / 2 ^ n

unfoldable pub sha2_rotr : ℕ → ℕ → ℕ
unfolding u32
sha2_rotr x n = bit_or (x / 2 ^ n) (u32 (x * 2 ^ (32 - n)))

unfoldable pub sha2_ch : ℕ → ℕ → ℕ → ℕ
sha2_ch x y z = bit_and x y ⊻ bit_and (x ⊻ 0xffffffff) z

unfoldable pub sha2_maj : ℕ → ℕ → ℕ → ℕ
sha2_maj x y z = bit_and x y ⊻ bit_and x z ⊻ bit_and y z

unfoldable pub sha256_f1 : ℕ → ℕ
unfolding sha2_rotr
sha256_f1 x = sha2_rotr x 2 ⊻ sha2_rotr x 13 ⊻ sha2_rotr x 22

unfoldable pub sha256_f2 : ℕ → ℕ
unfolding sha2_rotr
sha256_f2 x = sha2_rotr x 6 ⊻ sha2_rotr x 11 ⊻ sha2_rotr x 25

unfoldable pub sha256_f3 : ℕ → ℕ
unfolding sha2_rotr sha2_shfr
sha256_f3 x = sha2_rotr x 7 ⊻ sha2_rotr x 18 ⊻ sha2_shfr x 3

unfoldable pub sha256_f4 : ℕ → ℕ
unfolding sha2_rotr sha2_shfr
sha256_f4 x = sha2_rotr x 17 ⊻ sha2_rotr x 19 ⊻ sha2_shfr x 10

-- SHA2_PACK32, on the four bytes at an offset.
unfoldable pub sha2_pack32 : List ℕ → ℕ → ℕ
unfolding at
sha2_pack32 str i =
    at str (i + 3) + at str (i + 2) * 2 ^ 8 + at str (i + 1) * 2 ^ 16 + at str i * 2 ^ 24

-- SHA2_UNPACK32: the four bytes of a word, the highest first.
unfoldable pub sha2_unpack32 : ℕ → List ℕ
sha2_unpack32 x = (x / 2 ^ 24) % 256 ∷ (x / 2 ^ 16) % 256 ∷ (x / 2 ^ 8) % 256 ∷ x % 256 ∷ []

-- The first sixteen words of `w`, with so many left to pack.
unfoldable pub pack_words : ℕ → ℕ → List ℕ → List ℕ
unfolding sha2_pack32
pack_words zero j sub_block = []
pack_words (suc n) j sub_block = sha2_pack32 sub_block (4 * j) ∷ pack_words n (suc j) sub_block

-- The rest of `w`, from index `j` on.
unfoldable pub extend_words : ℕ → ℕ → List ℕ → List ℕ
unfolding sha256_f3 sha256_f4 at u32
extend_words zero j w = w
extend_words (suc n) j w = extend_words n (suc j) (
    w
    ++ (u32 (sha256_f4 (at w (j - 2)) + at w (j - 7) + sha256_f3 (at w (j - 15)) + at w (j - 16))
        ∷ []))

-- `m_h` and `wv`: eight words.
pub data State : Type 0 where
  state : ℕ → ℕ → ℕ → ℕ → ℕ → ℕ → ℕ → ℕ → State

-- A round, with the constant and the word of its index.
unfoldable pub round : ℕ → ℕ → State → State
unfolding sha256_f1 sha256_f2 sha2_ch sha2_maj u32
round k w (state a b c d e f g h) =
    let t1 = u32 (h + sha256_f2 e + sha2_ch e f g + k + w) in
    let t2 = u32 (sha256_f1 a + sha2_maj a b c) in state (u32 (t1 + t2)) a b c (u32 (d + t1)) e f g

unfoldable pub run_rounds : List ℕ → List ℕ → State → State
unfolding round
run_rounds [] w wv = wv
run_rounds (k ∷ ks) [] wv = wv
run_rounds (k ∷ ks) (x ∷ w) wv = run_rounds ks w (round k x wv)

-- `m_h[j] += wv[j]`
unfoldable pub add_state : State → State → State
unfolding u32
add_state (state a b c d e f g h) (state a' b' c' d' e' f' g' h') =
    state (u32 (a + a')) (u32 (b + b')) (u32 (c + c')) (u32 (d + d')) (u32 (e + e')) (u32 (f + f'))
      (u32 (g + g')) (u32 (h + h'))

-- The body of the loop of transform.
unfoldable pub transform_block : List ℕ → State → State
unfolding pack_words extend_words run_rounds add_state
transform_block sub_block h =
    add_state h (run_rounds sha256_k (extend_words 48 16 (pack_words 16 0 sub_block)) h)

unfoldable pub transform : List ℕ → ℕ → State → State
unfolding transform_block
transform message zero h = h
transform message (suc n) h = transform (drop 64 message) n (transform_block (take 64 message) h)

unfoldable pub digest_of : State → List ℕ
unfolding sha2_unpack32
digest_of (state a b c d e f g h) =
    sha2_unpack32 a
    ++ (sha2_unpack32 b
        ++ (sha2_unpack32 c
            ++ (sha2_unpack32 d
                ++ (sha2_unpack32 e ++ (sha2_unpack32 f ++ (sha2_unpack32 g ++ sha2_unpack32 h))))))
