-- ===== src/Sha/Fips/Agrees.antt =====
-- The transformation of sha256.cpp (Peer/Encryptions/SHA256/sha256.cpp) against the standard's.
use mathlib.Core.Path.{fun_ext}
use gitabic.Base.{
  ℕ, zero, suc, ◌+◌, ◌*◌, ◌/◌, ◌%◌, ◌^◌, ◌≡◌, refl, ap, ◌∙◌, List, [], ◌∷◌, ◌++◌, length, take,
  drop, replicate, ◌-◌, arith,
}
use gitabic.Sha.{
  State, state, at, u32, sha2_rotr, sha2_shfr, sha2_ch, sha2_maj, sha256_f1, sha256_f2, sha256_f3,
  sha256_f4, sha256_k, sha2_pack32, sha2_unpack32, pack_words, extend_words, round, run_rounds,
  add_state, transform_block, transform, digest_of,
}
use gitabic.Sha.Stream.{initial_state}
use gitabic.Sha.Standard.{padded, one_shot}
use gitabic.Sha.Fips.{
  root, fraction, round_constants, initial_hash, rotr, complement, choose, majority, big_sigma0,
  big_sigma1, small_sigma0, small_sigma1, value_be, be, block_words, schedule, step, steps,
  add_words, hash_block, hash_blocks, bytes_of, padded_message, sha256,
}

sha256_k_lem : sha256_k ≡ round_constants
unfolding round_constants fraction root
sha256_k_lem = refl

initial_state_lem : initial_state ≡ initial_hash
unfolding initial_hash fraction root at
initial_state_lem = refl

round-step : (k w : ℕ) (s : State) → round k w s ≡ step k w s
unfolding round step sha256_f1 sha256_f2 sha2_ch sha2_maj sha2_rotr u32 big_sigma0 big_sigma1 choose
    majority rotr complement
round-step k w (state a b c d e f g h) = sums _ _ _
  where
    sums :
        (x y d : ℕ)
        → state ((x % 2 ^ 32 + y % 2 ^ 32) % 2 ^ 32) a b c ((d + x % 2 ^ 32) % 2 ^ 32) e f g
          ≡ state ((x + y) % 2 ^ 32) a b c ((d + x) % 2 ^ 32) e f g
    sums x y d =
        let first : (x % 2 ^ 32 + y % 2 ^ 32) % 2 ^ 32 ≡ (x + y) % 2 ^ 32 = omega arith in
        let fifth : (d + x % 2 ^ 32) % 2 ^ 32 ≡ (d + x) % 2 ^ 32 = omega arith in
        ap (λ v. state v a b c ((d + x % 2 ^ 32) % 2 ^ 32) e f g) first
        ∙ ap (λ v. state ((x + y) % 2 ^ 32) a b c v e f g) fifth

run_rounds-steps : (ks w : List ℕ) (s : State) → run_rounds ks w s ≡ steps ks w s
unfolding run_rounds steps
run_rounds-steps [] w s = refl
run_rounds-steps (k ∷ ks) [] s = refl
run_rounds-steps (k ∷ ks) (x ∷ w) s =
    ap (run_rounds ks w) (round-step k x s) ∙ run_rounds-steps ks w (step k x s)

extend_words-schedule : (n t : ℕ) (w : List ℕ) → extend_words n t w ≡ schedule n t w
unfolding extend_words schedule u32 sha256_f3 sha256_f4 sha2_rotr sha2_shfr small_sigma0
    small_sigma1 rotr
extend_words-schedule zero t w = refl
extend_words-schedule (suc n) t w = extend_words-schedule n (suc t) _

cons_eq : {x y : ℕ} {xs ys : List ℕ} → x ≡ y → xs ≡ ys → x ∷ xs ≡ y ∷ ys
cons_eq {x} {y} {xs} {ys} e es = ap (λ v. v ∷ xs) e ∙ ap (◌∷◌ y) es

pack_words-block_words : (n t : ℕ) (block : List ℕ) → pack_words n t block ≡ block_words n t block
unfolding pack_words block_words sha2_pack32 value_be
pack_words-block_words zero t block = refl
pack_words-block_words (suc n) t block =
    cons_eq (same _ _ _ _) (pack_words-block_words n (suc t) block)
  where
    same :
        (a b c d : ℕ)
        → d + c * 2 ^ 8 + b * 2 ^ 16 + a * 2 ^ 24 ≡ (((0 * 256 + a) * 256 + b) * 256 + c) * 256 + d
    same a b c d = omega arith

add_state-add_words : (s t : State) → add_state s t ≡ add_words s t
unfolding add_state add_words u32
add_state-add_words (state a b c d e f g h) (state a' b' c' d' e' f' g' h') = refl

transform_block-hash_block :
    (block : List ℕ) (s : State) → transform_block block s ≡ hash_block block s
unfolding transform_block hash_block
transform_block-hash_block block s =
    let words =
      extend_words-schedule 48 16 (pack_words 16 0 block)
      ∙ ap (schedule 48 16) (pack_words-block_words 16 0 block) in
    ap (λ w. add_state s (run_rounds sha256_k w s)) words
    ∙ ap (λ ks. add_state s (run_rounds ks (schedule 48 16 (block_words 16 0 block)) s))
        sha256_k_lem
    ∙ ap (add_state s)
        (run_rounds-steps round_constants (schedule 48 16 (block_words 16 0 block)) s)
    ∙ add_state-add_words s _

transform-hash_blocks : (m : List ℕ) (n : ℕ) (s : State) → transform m n s ≡ hash_blocks n m s
unfolding transform hash_blocks
transform-hash_blocks m zero s = refl
transform-hash_blocks m (suc n) s =
    ap (transform (drop 64 m) n) (transform_block-hash_block (take 64 m) s)
    ∙ transform-hash_blocks (drop 64 m) n (hash_block (take 64 m) s)

sha2_unpack32-be : (x : ℕ) → sha2_unpack32 x ≡ be 4 x
unfolding sha2_unpack32 be
sha2_unpack32-be x = ground arith

digest_of-bytes_of : (s : State) → digest_of s ≡ bytes_of s
unfolding digest_of bytes_of
digest_of-bytes_of (state a b c d e f g h) =
    ap
      (λ (word : ℕ → List ℕ).
        word a ++ (word b ++ (word c ++ (word d ++ (word e ++ (word f ++ (word g ++ word h)))))))
      (fun_ext sha2_unpack32-be)

be-halves : (x : ℕ) → sha2_unpack32 (x / 2 ^ 32) ++ sha2_unpack32 x ≡ be 8 x
unfolding sha2_unpack32 be
be-halves x = ground arith

padded-padded_message : (m : List ℕ) → padded m ≡ padded_message m
unfolding padded padded_message
padded-padded_message m =
    ap (λ l. m ++ (0x80 ∷ (replicate ((119 - length m % 64) % 64) 0 ++ l)))
      (be-halves (8 * length m))

-- The code's hash of a message in one part is that of the standard.
pub one_shot-sha256 : (m : List ℕ) → one_shot m ≡ sha256 m
unfolding one_shot sha256
one_shot-sha256 m =
    let p = padded m in
    ap (λ h. digest_of (transform p (length p / 64) h)) initial_state_lem
    ∙ ap digest_of (transform-hash_blocks p (length p / 64) initial_hash)
    ∙ digest_of-bytes_of _
    ∙ ap (λ l. bytes_of (hash_blocks (length l / 64) l initial_hash)) (padded-padded_message m)
