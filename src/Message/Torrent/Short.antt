-- ===== src/Message/Torrent/Short.antt =====
-- Torrent messages that are too short.
use gitabic.Base.{
  ℕ, ◌+◌, ◌≤◌, ◌<◌, ◌≡◌, ◌⊎◌, inl, inr, ltb, lt→ltb, le→ltb, ltb→lt, Bool-cases, arith, List,
  length, if◌then◌else◌,
}
use gitabic.Bytes.{ok, raise, fault, runtime_error}
use gitabic.Bytes.RoundTrip.{read_le-short, read_le_long}
use gitabic.Message.Torrent.{
  TorrentBase, torrent_size, deserialize_torrent, deserialize_request, request_fields,
}

-- What `deserialize` of the base does with any bytes: it refuses fewer than 80, and takes 80 of more.
deserialize_torrent_cases :
    (code : ℕ) (bytes : List ℕ)
    → ((length bytes < torrent_size) × (deserialize_torrent code bytes ≡ raise runtime_error))
      ⊎ ((m : TorrentBase) × (rest : List ℕ) × (deserialize_torrent code bytes ≡ ok (m, rest))
          × (length rest + torrent_size ≡ length bytes))
unfolding deserialize_torrent
deserialize_torrent_cases code bytes = elim (Bool-cases (ltb (length bytes) torrent_size)) [
  | inl short ↦ inl (ltb→lt _ _ short, rw short)
  | inr long ↦
      let room : torrent_size ≤ length bytes = ground arith in
      let (id, rest₁, run₁, len₁) = read_le_long 32 bytes (omega arith) in
      let (hash, rest₂, run₂, len₂) = read_le_long 32 rest₁ (omega arith) in
      let (iv, rest₃, run₃, len₃) = read_le_long 16 rest₂ (omega arith) in
      inr (
        record { code = code; file_id = id; hash = hash; init_vector = iv },
        rest₃,
        rw (long, run₁, run₂, run₃),
        omega arith,
      )
]

-- Behind the base, fewer than 8 bytes are read past their end.
short_fields :
    (m : TorrentBase) (bytes : List ℕ) → length bytes < 8 → request_fields m bytes ≡ fault
unfolding request_fields
short_fields m bytes h = elim (Bool-cases (ltb (length bytes) 4)) [
  | inl four ↦ rw (read_le-short 4 bytes (ltb→lt _ _ four))
  | inr more ↦
      let (piece, rest, run, len) = read_le_long 4 bytes (ground arith) in
      elim (Bool-cases (ltb (length rest) 2)) [
        | inl two ↦ rw (run, read_le-short 2 rest (ltb→lt _ _ two))
        | inr enough ↦
            let (block, rest', run', len') = read_le_long 2 rest (ground arith) in
            rw (run, run', read_le-short 2 rest' (omega arith))
      ]
]

-- A request of fewer than 88 bytes is refused with an exception below 80, and read past its end from
-- 80 on: its own fields have no check.
deserialize_request_short :
    (code : ℕ) (bytes : List ℕ)
    → length bytes < 88
    → deserialize_request code bytes
      ≡ (if ltb (length bytes) torrent_size then raise runtime_error else fault)
unfolding deserialize_request
deserialize_request_short code bytes h = elim (deserialize_torrent_cases code bytes) [
  | inl (short, run) ↦ rw (lt→ltb _ _ short, run)
  | inr (m, rest, run, len) ↦
      rw (le→ltb (length bytes) torrent_size (omega (arith, len)), run)
        (short_fields m rest (omega (arith, len, h)))
]
