-- ===== src/FileIo/Chunks.antt =====
-- Reading and writing at an offset (Peer/Utils/FileUtils/FileUtils.cpp).
use gitabic.Base.{
  ℕ, zero, suc, ◌+◌, ◌-◌, ◌≤◌, ◌≡◌, refl, ap, ◌∙◌, ◌&&◌, leb, ltb, if◌then◌else◌, List, [], ◌∷◌,
  take, drop, none, get_elem?, length, arith,
}
use gitabic.FileIo.{read_file_chunk, write_chunk_to_file}

get_elem?-take :
    (n i : ℕ) (xs : List ℕ) → get_elem? (take n xs) i ≡ (if ltb i n then get_elem? xs i else none)
get_elem?-take zero i xs = ground arith
get_elem?-take (suc n) i [] = ground arith
get_elem?-take (suc n) zero (x ∷ xs) = ground arith
get_elem?-take (suc n) (suc i) (x ∷ xs) = ground (arith, get_elem?-take n i xs)

get_elem?-drop : (n i : ℕ) (xs : List ℕ) → get_elem? (drop n xs) i ≡ get_elem? xs (n + i)
get_elem?-drop zero i xs = let e : i ≡ zero + i = omega arith in ap (get_elem? xs) e
get_elem?-drop (suc n) i [] = refl
get_elem?-drop (suc n) i (x ∷ xs) =
    let e : suc (n + i) ≡ suc n + i = omega arith in
    get_elem?-drop n i xs ∙ ap (get_elem? (x ∷ xs)) e

-- The bytes of a chunk that is read.
get_elem?-read_file_chunk :
    (file : List ℕ) (offset size i : ℕ)
    → get_elem? (read_file_chunk file offset size) i
      ≡ (if ltb i size then get_elem? file (offset + i) else none)
unfolding read_file_chunk
get_elem?-read_file_chunk file offset size i =
    get_elem?-take size i (drop offset file)
    ∙ ap (λ o. if ltb i size then o else none) (get_elem?-drop offset i file)

-- The bytes of a file after a chunk is written that lies within it.
get_elem?-write_chunk_to_file :
    (file : List ℕ) (offset : ℕ) (bytes : List ℕ) (i : ℕ)
    → offset + length bytes ≤ length file
    → get_elem? (write_chunk_to_file file offset bytes) i ≡ (
        if leb offset i && ltb i (offset + length bytes)
        then get_elem? bytes (i - offset)
        else get_elem? file i)
unfolding write_chunk_to_file
get_elem?-write_chunk_to_file file offset [] i h = ground arith
get_elem?-write_chunk_to_file [] zero (b ∷ bytes) i h = absurd (omega arith)
get_elem?-write_chunk_to_file (x ∷ file) zero (b ∷ bytes) zero h = ground arith
get_elem?-write_chunk_to_file (x ∷ file) zero (b ∷ bytes) (suc i) h =
    ground (arith, get_elem?-write_chunk_to_file file zero bytes i)
get_elem?-write_chunk_to_file [] (suc n) (b ∷ bytes) i h = absurd (omega arith)
get_elem?-write_chunk_to_file (x ∷ file) (suc n) (b ∷ bytes) zero h = ground arith
get_elem?-write_chunk_to_file (x ∷ file) (suc n) (b ∷ bytes) (suc i) h =
    ground (arith, get_elem?-write_chunk_to_file file n (b ∷ bytes) i)

length-take : (n : ℕ) (xs : List ℕ) → n ≤ length xs → length (take n xs) ≡ n
length-take zero xs h = refl
length-take (suc n) [] h = absurd (omega arith)
length-take (suc n) (x ∷ xs) h = ap suc (length-take n xs (omega arith))

length-drop : (n : ℕ) (xs : List ℕ) → n ≤ length xs → length (drop n xs) + n ≡ length xs
length-drop zero xs h = omega arith
length-drop (suc n) [] h = absurd (omega arith)
length-drop (suc n) (x ∷ xs) h = omega (arith, length-drop n xs (omega arith))

length-read_file_chunk :
    (file : List ℕ) (offset size : ℕ)
    → offset + size ≤ length file
    → length (read_file_chunk file offset size) ≡ size
unfolding read_file_chunk
length-read_file_chunk file offset size h =
    length-take size (drop offset file) (omega (arith, length-drop offset file (omega arith)))

-- A chunk read from one file and written to another at the same place.
pub get_elem?-copied :
    (file source : List ℕ) (offset size i : ℕ)
    → length file ≡ length source
    → offset + size ≤ length file
    → get_elem? (write_chunk_to_file file offset (read_file_chunk source offset size)) i
      ≡ (if leb offset i && ltb i (offset + size) then get_elem? source i else get_elem? file i)
get_elem?-copied file source offset size i same inside =
    let chunk = read_file_chunk source offset size in
    let whole : length chunk ≡ size =
      length-read_file_chunk source offset size (omega (arith, same, inside)) in
    let back : offset ≤ i → get_elem? source (offset + (i - offset)) ≡ get_elem? source i =
      λ h. let e : offset + (i - offset) ≡ i = omega arith in ap (get_elem? source) e in
    get_elem?-write_chunk_to_file file offset chunk i (omega (arith, whole))
    ∙ rw (whole, get_elem?-read_file_chunk source offset size (i - offset)) (ground (arith, back))
