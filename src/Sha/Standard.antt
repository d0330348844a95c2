-- ===== src/Sha/Standard.antt =====
-- SHA256 in one part, by the code's own transformation: the message, a byte 0x80, zeros up to eight bytes in
-- front of a multiple of 64, and the message's length in bits, all of which is transformed block by block.
-- Sha.Fips has the standard's description.
use gitabic.Base.{
  ℕ, ◌+◌, ◌-◌, ◌*◌, ◌/◌, ◌%◌, ◌^◌, ◌<◌, ◌≡◌, refl, List, [], ◌∷◌, ◌++◌, length, length-replicate,
  replicate, arith,
}
use gitabic.Sha.{transform, digest_of, sha2_unpack32}
use gitabic.Sha.Stream.{Context, initial_state, init}

-- A message with its padding; the length is written in eight bytes.
unfoldable pub padded : List ℕ → List ℕ
padded m =
    m
    ++ (0x80
        ∷ (replicate ((119 - length m % 64) % 64) 0
            ++ (sha2_unpack32 (8 * length m / 2 ^ 32) ++ sha2_unpack32 (8 * length m))))

-- The hash of a message that is given whole.
unfoldable pub one_shot : List ℕ → List ℕ
unfolding padded
one_shot m = digest_of (transform (padded m) (length (padded m) / 64) initial_state)

unfoldable pub concat : List (List ℕ) → List ℕ
concat [] = []
concat (m ∷ ms) = m ++ concat ms

-- The context has been given the message: its whole blocks are transformed, the rest is in the buffer.
pub record Holds (c : Context) (m : List ℕ) : Type 0 where
  pub blocks : ℕ
  pub whole : List ℕ
  pub part : List ℕ
  pub rest : List ℕ
  pub split : m ≡ whole ++ part
  pub whole_size : length whole ≡ blocks * 64
  pub part_size : length part < 64
  pub len_is : c.len ≡ length part
  pub buffered : c.block ≡ part ++ rest
  pub rest_size : length part + length rest ≡ 128
  pub total : c.tot_len ≡ length whole
  pub hashed : c.hash ≡ transform whole blocks initial_state

pub init-Holds : Holds init []
unfolding init transform
init-Holds = record {
  blocks = 0;
  whole = [];
  part = [];
  rest = replicate 128 0;
  split = refl;
  whole_size = refl;
  part_size = omega arith;
  len_is = refl;
  buffered = refl;
  rest_size = omega (arith, length-replicate {A = ℕ} 128 0);
  total = refl;
  hashed = refl;
}
