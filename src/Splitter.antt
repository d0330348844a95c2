-- ===== src/Splitter.antt =====
-- FileSplitter (Peer/Utils/FileUtils/FileUtils.cpp and FileUtils.h): the size of a file's pieces.
use gitabic.Base.{ℕ, ◌*◌, ◌/◌, ◌≤◌, ◌<◌, leb, min, if◌then◌else◌, arith}

abbrev kb : ℕ
kb = 1024

abbrev min_piece_size : ℕ
min_piece_size = 256 * kb

abbrev pub max_piece_size : ℕ
max_piece_size = 4 * kb * kb

abbrev pub block_size : ℕ
block_size = 12 * kb

-- The result is a `uint`. Each branch fits it, so no conversion is written.
unfoldable pub piece_size : ℕ → ℕ
piece_size file_size =
    if leb file_size min_piece_size
    then file_size
    else if leb file_size (kb * min_piece_size)
    then min_piece_size
    else if leb file_size (max_piece_size * kb)
    then file_size / kb
    else max_piece_size

-- A piece of a non-empty file is not empty, is no larger than the file or 4 MiB, and is at least
-- 256 KiB unless it is the whole file.
pub piece_size_bounds :
    (file_size : ℕ)
    → 0 < file_size
    → (0 < piece_size file_size)
      × (piece_size file_size ≤ file_size)
      × (piece_size file_size ≤ max_piece_size)
      × (min file_size min_piece_size ≤ piece_size file_size)
unfolding piece_size
piece_size_bounds file_size h = ground arith

-- A file of up to 4 GiB has at most 1025 pieces.
piece_count_bound :
    (file_size : ℕ)
    → 0 < file_size
    → file_size ≤ max_piece_size * kb
    → file_size ≤ piece_size file_size * 1025
unfolding piece_size
piece_count_bound file_size h le = ground arith
