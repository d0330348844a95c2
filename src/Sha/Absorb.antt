-- ===== src/Sha/Absorb.antt =====
-- What update makes of the context (Peer/Encryptions/SHA256/sha256.cpp).
use gitabic.Base.{
  ℕ, ◌+◌, ◌-◌, ◌*◌, ◌/◌, ◌%◌, ◌^◌, ◌<◌, ◌≤◌, ◌≡◌, refl, sym, ap, ◌∙◌, subst, true, false, ltb,
  lt→ltb, le→ltb, ltb→lt, ltb→le, Bool-cases, inl, inr, min, List, [], ◌∷◌, ◌++◌, append_assoc,
  append-nil, length, length-append, take, drop, arith,
}
use gitabic.Sha.{u32, transform}
use gitabic.Sha.Stream.{
  Context, initial_state, copy_to, keep_part, absorb_blocks, update, update_all,
}
use gitabic.Sha.Buffer.{
  take-drop, length-take, take_exact, length-drop, copy_to_known, length-copy_to, transform-append,
  transform_front,
}
use gitabic.Sha.Standard.{Holds, concat}

module _ (c : Context) (m b : List ℕ) (held : Holds c m)
    (small : length m + length b < 2 ^ 29) where
  sizes : length m ≡ held.blocks * 64 + length held.part
  sizes = omega (arith, ap length held.split, length-append held.whole held.part, held.whole_size)

  -- The message fits the buffer's first block, with room.
  update_short :
      length held.part + length b < 64
      → Holds (record c { block = copy_to c.len b c.block; len = c.len + length b }) (m ++ b)
  update_short room = record {
    blocks = held.blocks;
    whole = held.whole;
    part = held.part ++ b;
    rest = drop (length b) held.rest;
    split = ap (λ l. l ++ b) held.split ∙ append_assoc held.whole held.part b;
    whole_size = held.whole_size;
    part_size = omega (arith, length-append held.part b);
    len_is = omega (arith, length-append held.part b, held.len_is);
    buffered = copy_to_known c.len held.part b held.rest c.block held.buffered (sym held.len_is);
    rest_size =
        omega (arith, length-append held.part b, length-drop (length b) held.rest, held.rest_size);
    total = held.total;
    hashed = held.hashed;
  }

  -- The message fills the block: it is transformed, then the message's own blocks are.
  module _ (long : 64 ≤ length held.part + length b) where
    abbrev room : ℕ
    room = 64 - length held.part

    abbrev fill : List ℕ
    fill = take room b

    abbrev shifted : List ℕ
    shifted = drop room b

    abbrev count : ℕ
    count = length shifted / 64

    abbrev own : List ℕ
    own = take (count * 64) shifted

    abbrev left : List ℕ
    left = drop (count * 64) shifted

    abbrev first : List ℕ
    first = held.part ++ fill

    abbrev filled : List ℕ
    filled = copy_to c.len fill c.block

    fill_size : length fill ≡ room
    fill_size = length-take room b (omega arith)

    first_size : length first ≡ 1 * 64
    first_size = omega (arith, length-append held.part fill, fill_size, held.part_size)

    shifted_size : length shifted + 64 ≡ length held.part + length b
    shifted_size = omega (arith, length-drop room b, held.part_size)

    own_size : length own ≡ count * 64
    own_size = length-take (count * 64) shifted (omega arith)

    left_size : length left ≡ length shifted % 64
    left_size = omega (arith, length-drop (count * 64) shifted)

    filled_is : filled ≡ first ++ drop (length fill) held.rest
    filled_is = copy_to_known c.len held.part fill held.rest c.block held.buffered (sym held.len_is)

    block_size_is : length c.block ≡ 128
    block_size_is =
        omega (arith, ap length held.buffered, length-append held.part held.rest, held.rest_size)

    filled_size : length filled ≡ 128
    filled_size =
        length-copy_to c.len fill c.block
          (omega (arith, fill_size, held.len_is, held.part_size, block_size_is))
        ∙ block_size_is

    whole_hash :
        transform shifted count (transform filled 1 c.hash)
        ≡ transform ((held.whole ++ first) ++ own) (held.blocks + 1 + count) initial_state
    whole_hash =
        let block_hash : transform filled 1 c.hash ≡ transform first 1 c.hash =
          ap (λ l. transform l 1 c.hash) filled_is
          ∙ transform_front 1 first (drop (length fill) held.rest) c.hash first_size in
        let before : transform first 1 c.hash
            ≡ transform (held.whole ++ first) (held.blocks + 1) initial_state =
          ap (transform first 1) held.hashed
          ∙ sym (transform-append held.blocks 1 held.whole first initial_state held.whole_size) in
        let after : transform shifted count (transform filled 1 c.hash)
            ≡ transform own count (transform filled 1 c.hash) =
          ap (λ l. transform l count (transform filled 1 c.hash))
            (sym (take-drop (count * 64) shifted))
          ∙ transform_front count own left (transform filled 1 c.hash) own_size in
        let both : length (held.whole ++ first) ≡ (held.blocks + 1) * 64 =
          omega (arith, length-append held.whole first, held.whole_size, first_size) in
        after
        ∙ ap (transform own count) (block_hash ∙ before)
        ∙ sym
            (transform-append (held.blocks + 1) count (held.whole ++ first) own initial_state both)

    abbrev longer : Context
    longer = record {
      tot_len = u32 (c.tot_len + (count + 1) * 64);
      len = length shifted % 64;
      block = copy_to 0 (take (length shifted % 64) (drop (64 * count) shifted)) filled;
      hash = transform shifted count (transform filled 1 c.hash);
    }

    remains : take (length shifted % 64) (drop (64 * count) shifted) ≡ left
    remains =
        let same : 64 * count ≡ count * 64 = omega arith in
        ap (λ n. take (length shifted % 64) (drop n shifted)) same
        ∙ ap (take (length shifted % 64)) (sym (append-nil left))
        ∙ take_exact (length shifted % 64) left [] left_size

    update_long : Holds longer (m ++ b)
    unfolding u32
    update_long = record {
      blocks = held.blocks + 1 + count;
      whole = (held.whole ++ first) ++ own;
      part = left;
      rest = drop (length left) filled;
      split =
          ap (λ l. l ++ b) held.split
          ∙ ap (λ l. (held.whole ++ held.part) ++ l) (sym (take-drop room b))
          ∙ ap (λ l. (held.whole ++ held.part) ++ (fill ++ l))
              (sym (take-drop (count * 64) shifted))
          ∙ simp (append_assoc);
      whole_size = whole_size_is;
      part_size = omega (arith, left_size);
      len_is = sym left_size;
      buffered =
          ap (λ l. copy_to 0 l filled) remains ∙ copy_to_known 0 [] left filled filled refl refl;
      rest_size = omega (arith, length-drop (length left) filled, filled_size, left_size);
      total = omega (arith, whole_size_is, held.total, held.whole_size, sizes, shifted_size, small);
      hashed = whole_hash;
    }
      where
        whole_size_is : length ((held.whole ++ first) ++ own) ≡ (held.blocks + 1 + count) * 64
        whole_size_is = omega (
          arith,
          length-append (held.whole ++ first) own,
          length-append held.whole first,
          held.whole_size,
          first_size,
          own_size,
        )

module _ (c : Context) (m b : List ℕ) (held : Holds c m)
    (small : length m + length b < 2 ^ 29) where
  size_is : length b % 2 ^ 32 ≡ length b
  size_is = omega arith

  sum_is : (c.len + length b) % 2 ^ 32 ≡ c.len + length b
  sum_is = omega (arith, held.len_is, held.part_size)

  kept :
      (n : ℕ)
      → take (length b) b ≡ b
      → keep_part (length b) n b c ≡ record c { block = copy_to c.len b c.block; len = n }
  unfolding keep_part
  kept n same = ap (λ l. record c { block = copy_to c.len l c.block; len = n }) same

  absorbed :
      (far : 64 ≤ length held.part + length b)
      → absorb_blocks (64 - length held.part) (length (drop (64 - length held.part) b)) b c
        ≡ longer c m b held small far
  unfolding absorb_blocks
  absorbed far = refl

  update-eq-short :
      length held.part + length b < 64
      → update b c ≡ record c { block = copy_to c.len b c.block; len = c.len + length b }
  unfolding update u32
  update-eq-short near =
      let fits : ltb (c.len + length b) 64 ≡ true = lt→ltb _ _ (omega (arith, held.len_is)) in
      let all : min (length b) (64 - c.len) ≡ length b = omega (arith, held.len_is) in
      let same : take (length b) b ≡ b =
        ap (take (length b)) (sym (append-nil b)) ∙ take_exact (length b) b [] refl in
      rw (size_is, sum_is, fits)
        (ap (λ n. keep_part n (c.len + length b) b c) all ∙ kept (c.len + length b) same)

  update-eq-long :
      (far : 64 ≤ length held.part + length b) → update b c ≡ longer c m b held small far
  unfolding update u32
  update-eq-long far =
      let full : ltb (c.len + length b) 64 ≡ false = le→ltb _ _ (omega (arith, held.len_is)) in
      let some_left : min (length b) (64 - c.len) ≡ 64 - length held.part =
        omega (arith, held.len_is) in
      let others : length b - (64 - length held.part) ≡ length (drop (64 - length held.part) b) =
        sym (length-drop (64 - length held.part) b) in
      rw (size_is, sum_is, full)
        (ap (λ n. absorb_blocks n (length b - n) b c) some_left
          ∙ ap (λ k. absorb_blocks (64 - length held.part) k b c) others
          ∙ absorbed far)

  -- A context that holds a message holds the longer one after the update.
  pub update-Holds : Holds (update b c) (m ++ b)
  update-Holds = elim (Bool-cases (ltb (length held.part + length b) 64)) [
    | inl near ↦
        let room = ltb→lt _ _ near in
        subst (λ t. Holds t (m ++ b)) (sym (update-eq-short room))
          (update_short c m b held small room)
    | inr far ↦
        let enough = ltb→le _ _ far in
        subst (λ t. Holds t (m ++ b)) (sym (update-eq-long enough))
          (update_long c m b held small enough)
  ]

pub update_all-Holds :
    (ms : List (List ℕ)) (c : Context) (m : List ℕ)
    → Holds c m
    → length m + length (concat ms) < 2 ^ 29
    → Holds (update_all ms c) (m ++ concat ms)
unfolding update_all concat
update_all-Holds [] c m held small = subst (Holds c) (sym (append-nil m)) held
update_all-Holds (b ∷ ms) c m held small =
    let whole = length-append b (concat ms) in
    subst (Holds (update_all ms (update b c))) (append_assoc m b (concat ms)) (
      update_all-Holds ms (update b c) (m ++ b)
        (update-Holds c m b held (omega (arith, small, whole)))
        (omega (arith, small, whole, length-append m b)))
