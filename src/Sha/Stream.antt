-- ===== src/Sha/Stream.antt =====
-- The context of SHA256: init, update, final, and toHashSha256 (Peer/Encryptions/SHA256/sha256.cpp).
use gitabic.Base.{
  ℕ, ◌+◌, ◌-◌, ◌*◌, ◌/◌, ◌%◌, ltb, if◌then◌else◌, min, List, [], ◌∷◌, ◌++◌, length, take, drop,
  replicate,
}
use gitabic.Sha.{State, state, u32, transform, digest_of, sha2_unpack32}

pub record Context : Type 0 where
  pub tot_len : ℕ
  pub len : ℕ
  pub block : List ℕ
  pub hash : State

abbrev pub initial_state : State
initial_state =
    state 0x6a09e667 0xbb67ae85 0x3c6ef372 0xa54ff53a 0x510e527f 0x9b05688c 0x1f83d9ab 0x5be0cd19

-- `SHA256 ctx = SHA256(); ctx.init();`: the two blocks of the buffer hold zeros.
unfoldable pub init : Context
init = record { tot_len = 0; len = 0; block = replicate 128 0; hash = initial_state }

-- `memcpy(&buffer[i], bytes, n)` or `memset`, inside the buffer.
unfoldable pub copy_to : ℕ → List ℕ → List ℕ → List ℕ
copy_to i bytes buffer = take i buffer ++ (bytes ++ drop (i + length bytes) buffer)

-- The message fits the buffer's first block, with room.
unfoldable pub keep_part : ℕ → ℕ → List ℕ → Context → Context
unfolding copy_to
keep_part rem_len new_len message c = record c {
  block = copy_to c.len (take rem_len message) c.block;
  len = new_len;
}

-- The block is filled, and so are others from the message.
unfoldable pub absorb_blocks : ℕ → ℕ → List ℕ → Context → Context
unfolding u32 copy_to transform
absorb_blocks rem_len new_len message c =
    let filled = copy_to c.len (take rem_len message) c.block in
    let block_nb = new_len / 64 in
    let shifted = drop rem_len message in
    record {
      tot_len = u32 (c.tot_len + (block_nb + 1) * 64);
      len = new_len % 64;
      block = copy_to 0 (take (new_len % 64) (drop (64 * block_nb) shifted)) filled;
      hash = transform shifted block_nb (transform filled 1 c.hash);
    }

-- The lengths are unsigned numbers of 32 bits.
unfoldable pub update : List ℕ → Context → Context
unfolding u32
update message c =
    let size = u32 (length message) in
    let rem_len = min size (64 - c.len) in
    let new_len = u32 (c.len + size) in
    if ltb new_len 64
    then keep_part rem_len new_len message c
    else absorb_blocks rem_len (size - rem_len) message c

-- The buffer that the last transformation takes, with its number of blocks.
unfoldable pub pad_buffer : Context → ℕ → List ℕ
unfolding copy_to u32 sha2_unpack32
pad_buffer c block_nb =
    let cleared = copy_to c.len (replicate (64 * block_nb - c.len) 0) c.block in
    copy_to (64 * block_nb - 4) (sha2_unpack32 (u32 (u32 (c.tot_len + c.len) * 8)))
      (copy_to c.len (0x80 ∷ []) cleared)

unfoldable pub final : Context → List ℕ
unfolding pad_buffer transform digest_of
final c =
    let block_nb = if ltb 55 (c.len % 64) then 2 else 1 in
    digest_of (transform (pad_buffer c block_nb) block_nb c.hash)

unfoldable pub to_hash_sha256 : List ℕ → List ℕ
unfolding init update final
to_hash_sha256 input = final (update input init)

-- A context that gets a message in parts.
unfoldable pub update_all : List (List ℕ) → Context → Context
unfolding update
update_all [] c = c
update_all (m ∷ ms) c = update_all ms (update m c)
