-- ===== src/Sha/Fips.antt =====
-- The hash as FIPS 180-4 describes SHA-256, from the standard and not from the code: the constants are the
-- first 32 bits of the fractional parts of the roots of primes, and words are written the highest byte
-- first.
pub mod Agrees
use Prim.Native.Nat.{bit_and, bit_or}
use gitabic.Base.{
  ℕ, zero, suc, ◌+◌, ◌-◌, ◌*◌, ◌/◌, ◌%◌, ◌^◌, leb, if◌then◌else◌, List, [], ◌∷◌, ◌++◌, map, length,
  take, drop, replicate,
}
use gitabic.Base.Xor.{◌⊻◌}
use gitabic.Sha.{State, state, at}

-- The largest number from `r` on, by so many bits, whose power `e` is at most `n`.
unfoldable pub root : ℕ → ℕ → ℕ → ℕ → ℕ
root e n zero r = r
root e n (suc bits) r =
    let q = r + 2 ^ bits in let next = if leb (q ^ e) n then q else r in root e n bits next

-- The first 32 bits of the fractional part of the `e`-th root of a number.
unfoldable pub fraction : ℕ → ℕ → ℕ
unfolding root
fraction e p = root e (p * 2 ^ (32 * e)) 36 0 % 2 ^ 32

abbrev first_primes : List ℕ
first_primes = 2 ∷ 3 ∷ 5 ∷ 7 ∷ 11 ∷ 13 ∷ 17 ∷ 19 ∷ []

abbrev pub primes : List ℕ
primes =
    first_primes
    ++ (23 ∷ 29 ∷ 31 ∷ 37 ∷ 41 ∷ 43 ∷ 47 ∷ 53 ∷ 59 ∷ 61 ∷ 67 ∷ 71 ∷ 73 ∷ 79 ∷ 83 ∷ 89 ∷ 97 ∷ 101
        ∷ 103 ∷ 107 ∷ 109 ∷ 113 ∷ 127 ∷ 131 ∷ 137 ∷ 139 ∷ 149 ∷ 151 ∷ 157 ∷ 163 ∷ 167 ∷ 173 ∷ 179
        ∷ 181 ∷ 191 ∷ 193 ∷ 197 ∷ 199 ∷ 211 ∷ 223 ∷ 227 ∷ 229 ∷ 233 ∷ 239 ∷ 241 ∷ 251 ∷ 257 ∷ 263
        ∷ 269 ∷ 271 ∷ 277 ∷ 281 ∷ 283 ∷ 293 ∷ 307 ∷ 311 ∷ [])

unfoldable pub round_constants : List ℕ
unfolding fraction
round_constants = map (fraction 3) primes

-- Eight words.
abbrev of_words : List ℕ → State
of_words w = state (at w 0) (at w 1) (at w 2) (at w 3) (at w 4) (at w 5) (at w 6) (at w 7)

unfoldable pub initial_hash : State
unfolding fraction at
initial_hash = of_words (map (fraction 2) first_primes)

unfoldable pub rotr : ℕ → ℕ → ℕ
rotr n x = bit_or (x / 2 ^ n) (x * 2 ^ (32 - n) % 2 ^ 32)

unfoldable pub complement : ℕ → ℕ
complement x = x ⊻ (2 ^ 32 - 1)

unfoldable pub choose : ℕ → ℕ → ℕ → ℕ
unfolding complement
choose x y z = bit_and x y ⊻ bit_and (complement x) z

unfoldable pub majority : ℕ → ℕ → ℕ → ℕ
majority x y z = bit_and x y ⊻ bit_and x z ⊻ bit_and y z

unfoldable pub big_sigma0 : ℕ → ℕ
unfolding rotr
big_sigma0 x = rotr 2 x ⊻ rotr 13 x ⊻ rotr 22 x

unfoldable pub big_sigma1 : ℕ → ℕ
unfolding rotr
big_sigma1 x = rotr 6 x ⊻ rotr 11 x ⊻ rotr 25 x

unfoldable pub small_sigma0 : ℕ → ℕ
unfolding rotr
small_sigma0 x = rotr 7 x ⊻ rotr 18 x ⊻ x / 2 ^ 3

unfoldable pub small_sigma1 : ℕ → ℕ
unfolding rotr
small_sigma1 x = rotr 17 x ⊻ rotr 19 x ⊻ x / 2 ^ 10

-- The value of bytes, the highest first, in front of which `v` stands.
unfoldable pub value_be : ℕ → List ℕ → ℕ
value_be v [] = v
value_be v (b ∷ bytes) = value_be (v * 256 + b) bytes

unfoldable pub be : ℕ → ℕ → List ℕ
be zero x = []
be (suc n) x = (x / 2 ^ (8 * n)) % 256 ∷ be n x

-- The first sixteen words of the schedule are the block's.
unfoldable pub block_words : ℕ → ℕ → List ℕ → List ℕ
unfolding value_be at
block_words zero t block = []
block_words (suc n) t block =
    value_be 0
      (at block (4 * t) ∷ at block (4 * t + 1) ∷ at block (4 * t + 2) ∷ at block (4 * t + 3) ∷ [])
    ∷ block_words n (suc t) block

-- The words of the schedule from `t` on.
unfoldable pub schedule : ℕ → ℕ → List ℕ → List ℕ
unfolding small_sigma0 small_sigma1 at
schedule zero t w = w
schedule (suc n) t w = schedule n (suc t) (
    w
    ++ ((small_sigma1 (at w (t - 2)) + at w (t - 7) + small_sigma0 (at w (t - 15)) + at w (t - 16))
          % 2 ^ 32
        ∷ []))

-- A step of the computation: T1 and T2 are added modulo 2^32.
unfoldable pub step : ℕ → ℕ → State → State
unfolding big_sigma0 big_sigma1 choose majority
step k w (state a b c d e f g h) =
    let t1 = h + big_sigma1 e + choose e f g + k + w in
    let t2 = big_sigma0 a + majority a b c in
    state ((t1 + t2) % 2 ^ 32) a b c ((d + t1) % 2 ^ 32) e f g

unfoldable pub steps : List ℕ → List ℕ → State → State
unfolding step
steps [] w s = s
steps (k ∷ ks) [] s = s
steps (k ∷ ks) (x ∷ w) s = steps ks w (step k x s)

unfoldable pub add_words : State → State → State
add_words (state a b c d e f g h) (state a' b' c' d' e' f' g' h') =
    state ((a + a') % 2 ^ 32) ((b + b') % 2 ^ 32) ((c + c') % 2 ^ 32) ((d + d') % 2 ^ 32)
      ((e + e') % 2 ^ 32) ((f + f') % 2 ^ 32) ((g + g') % 2 ^ 32) ((h + h') % 2 ^ 32)

unfoldable pub hash_block : List ℕ → State → State
unfolding block_words schedule steps add_words round_constants
hash_block block s = add_words s (steps round_constants (schedule 48 16 (block_words 16 0 block)) s)

unfoldable pub hash_blocks : ℕ → List ℕ → State → State
unfolding hash_block
hash_blocks zero m s = s
hash_blocks (suc n) m s = hash_blocks n (drop 64 m) (hash_block (take 64 m) s)

unfoldable pub bytes_of : State → List ℕ
unfolding be
bytes_of (state a b c d e f g h) =
    be 4 a ++ (be 4 b ++ (be 4 c ++ (be 4 d ++ (be 4 e ++ (be 4 f ++ (be 4 g ++ be 4 h))))))

-- The message, a bit 1, the zeros up to 64 bits in front of a multiple of 512 bits, and the length in bits.
unfoldable pub padded_message : List ℕ → List ℕ
unfolding be
padded_message m = m ++ (0x80 ∷ (replicate ((119 - length m % 64) % 64) 0 ++ be 8 (8 * length m)))

unfoldable pub sha256 : List ℕ → List ℕ
unfolding padded_message hash_blocks initial_hash bytes_of
sha256 m = let p = padded_message m in bytes_of (hash_blocks (length p / 64) p initial_hash)
