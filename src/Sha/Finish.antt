-- ===== src/Sha/Finish.antt =====
-- What final gives, and the hash as a whole (Peer/Encryptions/SHA256/sha256.cpp).
use gitabic.Base.{
  ℕ, suc, ◌+◌, ◌-◌, ◌*◌, ◌/◌, ◌%◌, ◌^◌, ◌<◌, ◌≤◌, ◌≡◌, refl, sym, ap, ◌∙◌, ltb, ltb→lt, ltb→le,
  Bool-cases, inl, inr, List, [], ◌∷◌, ◌++◌, append_assoc, length, length-append, length-replicate,
  drop, replicate, arith,
}
use gitabic.Sha.{u32, transform, digest_of, sha2_unpack32}
use gitabic.Sha.Stream.{
  Context, initial_state, init, copy_to, update, update_all, pad_buffer, final, to_hash_sha256,
}
use gitabic.Sha.Buffer.{replicate-append, copy_to_known, transform-append, transform_front}
use gitabic.Sha.Fips.{sha256}
use gitabic.Sha.Fips.Agrees.{one_shot-sha256}
use gitabic.Sha.Standard.{Holds, concat, padded, one_shot, init-Holds}
use gitabic.Sha.Absorb.{update-Holds, update_all-Holds}

length-sha2_unpack32 : (x : ℕ) → length (sha2_unpack32 x) ≡ 4
unfolding sha2_unpack32
length-sha2_unpack32 x = refl

module _ (c : Context) (m : List ℕ) (held : Holds c m) (small : length m < 2 ^ 29) (n : ℕ)
    (fits : length held.part + 9 ≤ n * 64) (n_small : n ≤ 2) where
  abbrev gap : ℕ
  gap = n * 64 - length held.part - 9

  -- The part in the buffer with the marker and the zeros in front of the length's low word.
  abbrev kept : List ℕ
  kept = held.part ++ (0x80 ∷ replicate (gap + 4) 0)

  abbrev behind : List ℕ
  behind = drop (length (replicate {A = ℕ} (n * 64 - length held.part) 0)) held.rest

  kept_size : length kept ≡ n * 64 - 4
  kept_size = omega (
    arith,
    length-append held.part (0x80 ∷ replicate (gap + 4) 0),
    length-replicate {A = ℕ} (gap + 4) 0,
  )

  zeros_split :
      replicate {A = ℕ} (n * 64 - length held.part) 0 ≡ 0 ∷ (replicate (gap + 4) 0 ++ replicate 4 0)
  zeros_split =
      let count : n * 64 - length held.part ≡ suc (gap + 4 + 4) = omega arith in
      ap (λ k. replicate k 0) count ∙ ap (◌∷◌ 0) (replicate-append (gap + 4) 4 0)

  marked_is :
      copy_to c.len (0x80 ∷ []) (copy_to c.len (replicate (n * 64 - c.len) 0) c.block)
      ≡ kept ++ (replicate 4 0 ++ behind)
  marked_is =
      let len : c.len ≡ length held.part = held.len_is in
      let cleared : copy_to c.len (replicate (n * 64 - c.len) 0) c.block
          ≡ held.part ++ (0 ∷ ((replicate (gap + 4) 0 ++ replicate 4 0) ++ behind)) =
        ap (λ k. copy_to c.len (replicate (n * 64 - k) 0) c.block) len
        ∙ copy_to_known c.len held.part (replicate (n * 64 - length held.part) 0) held.rest c.block
            held.buffered (sym len)
        ∙ append_assoc held.part (replicate (n * 64 - length held.part) 0) behind
        ∙ ap (λ l. held.part ++ (l ++ behind)) zeros_split in
      copy_to_known c.len held.part (0x80 ∷ [])
        (0 ∷ ((replicate (gap + 4) 0 ++ replicate 4 0) ++ behind))
        (copy_to c.len (replicate (n * 64 - c.len) 0) c.block) cleared (sym len)
      ∙ simp (append_assoc)

  pad_buffer_is : pad_buffer c n ≡ (kept ++ sha2_unpack32 (8 * length m)) ++ behind
  unfolding pad_buffer u32
  pad_buffer_is =
      let order : 64 * n ≡ n * 64 = omega arith in
      let bits : (c.tot_len + c.len) % 2 ^ 32 * 8 % 2 ^ 32 ≡ 8 * length m = omega (
        arith,
        held.total,
        held.len_is,
        ap length held.split,
        length-append held.whole held.part,
      ) in
      rw (order, bits)
        (copy_to_known (n * 64 - 4) kept (sha2_unpack32 (8 * length m)) (replicate 4 0 ++ behind) _
            marked_is kept_size
          ∙ ap (λ k. (kept ++ sha2_unpack32 (8 * length m)) ++ drop k (replicate 4 0 ++ behind))
              (length-sha2_unpack32 (8 * length m)))

  -- The last transformation, of the padded message in whole.
  final_hash :
      transform (pad_buffer c n) n c.hash
      ≡ transform
          (held.whole ++ (kept ++ sha2_unpack32 (8 * length m)))
          (held.blocks + n)
          initial_state
  final_hash =
      let size : length (kept ++ sha2_unpack32 (8 * length m)) ≡ n * 64 = omega (
        arith,
        length-append kept (sha2_unpack32 (8 * length m)),
        kept_size,
        length-sha2_unpack32 (8 * length m),
      ) in
      ap (λ l. transform l n c.hash) pad_buffer_is
      ∙ transform_front n (kept ++ sha2_unpack32 (8 * length m)) behind c.hash size
      ∙ ap (transform (kept ++ sha2_unpack32 (8 * length m)) n) held.hashed
      ∙ sym (
          transform-append held.blocks n held.whole (kept ++ sha2_unpack32 (8 * length m))
            initial_state held.whole_size)

  module _ (exact : gap ≡ (119 - length m % 64) % 64) where
    padded_is : padded m ≡ held.whole ++ (kept ++ sha2_unpack32 (8 * length m))
    unfolding padded sha2_unpack32
    padded_is =
        let high : 8 * length m / 2 ^ 32 ≡ 0 = omega arith in
        ap
          (λ k.
            m
            ++ (0x80
                ∷ (replicate k 0
                    ++ (sha2_unpack32 (8 * length m / 2 ^ 32) ++ sha2_unpack32 (8 * length m)))))
          (sym exact)
        ∙ ap
            (λ k.
              m ++ (0x80 ∷ (replicate gap 0 ++ (sha2_unpack32 k ++ sha2_unpack32 (8 * length m)))))
            high
        ∙ ap
            (λ l.
              l ++ (0x80 ∷ (replicate gap 0 ++ (sha2_unpack32 0 ++ sha2_unpack32 (8 * length m)))))
            held.split
        ∙ ap (λ l. (held.whole ++ held.part) ++ (0x80 ∷ l))
            (sym (append_assoc (replicate gap 0) (sha2_unpack32 0) (sha2_unpack32 (8 * length m))))
        ∙ ap (λ l. (held.whole ++ held.part) ++ (0x80 ∷ (l ++ sha2_unpack32 (8 * length m)))) four
        ∙ simp (append_assoc)
      where
        four : replicate gap 0 ++ sha2_unpack32 0 ≡ replicate (gap + 4) 0
        four = sym (replicate-append gap 4 0)

    padded_blocks : length (padded m) / 64 ≡ held.blocks + n
    padded_blocks = omega (
      arith,
      ap length padded_is,
      length-append held.whole (kept ++ sha2_unpack32 (8 * length m)),
      length-append kept (sha2_unpack32 (8 * length m)),
      kept_size,
      length-sha2_unpack32 (8 * length m),
      held.whole_size,
    )

    final_standard : digest_of (transform (pad_buffer c n) n c.hash) ≡ one_shot m
    unfolding one_shot
    final_standard = ap digest_of (
        final_hash
        ∙ ap (λ l. transform l (held.blocks + n) initial_state) (sym padded_is)
        ∙ ap (λ k. transform (padded m) k initial_state) (sym padded_blocks))

final-Holds :
    (c : Context) (m : List ℕ) (held : Holds c m) → length m < 2 ^ 29 → final c ≡ one_shot m
unfolding final
final-Holds c m held small =
    let size : length m ≡ held.blocks * 64 + length held.part =
      omega (arith, ap length held.split, length-append held.whole held.part, held.whole_size) in
    let len : c.len % 64 ≡ length held.part = omega (arith, held.len_is, held.part_size) in
    elim (Bool-cases (ltb 55 (length held.part))) [
      | inl long ↦
          rw (len, long)
            (final_standard c m held small 2 (omega (arith, held.part_size)) (omega arith)
              (omega (arith, size, held.part_size, ltb→lt 55 (length held.part) long)))
      | inr short ↦
          let room = ltb→le 55 (length held.part) short in
          rw (len, short)
            (final_standard c m held small 1 (omega (arith, room)) (omega arith)
              (omega (arith, size, held.part_size, room)))
    ]

-- A message of fewer than 2^29 bytes in any number of parts of any sizes: the updates and final give the hash
-- that FIPS 180-4 describes, of the parts joined; so does toHashSha256 of the joined message. The standard's
-- constants are there the roots of primes, its functions and its padding are written from the standard.
pub final-update_all :
    (ms : List (List ℕ))
    → length (concat ms) < 2 ^ 29
    → (final (update_all ms init) ≡ sha256 (concat ms))
      × (to_hash_sha256 (concat ms) ≡ sha256 (concat ms))
unfolding to_hash_sha256
final-update_all ms small = (
  final-Holds (update_all ms init) (concat ms)
        (update_all-Holds ms init [] init-Holds (omega arith)) small
      ∙ one_shot-sha256 (concat ms),
  final-Holds (update (concat ms) init) (concat ms)
        (update-Holds init [] (concat ms) init-Holds (omega arith)) small
      ∙ one_shot-sha256 (concat ms),
)
