-- ===== src/FileIo/Transfer.antt =====
-- A block that one peer loads and another saves (Peer/Torrent/FileIO/FileIO.cpp).
use gitabic.Base.{
  ℕ, ◌+◌, ◌*◌, ◌%◌, ◌^◌, ◌≤◌, ◌<◌, ◌≡◌, sym, ap, ◌∙◌, Bool, true, false, ◌&&◌, leb, ltb,
  if◌then◌else◌, List, get_elem?, length, arith,
}
use gitabic.Bytes.{ok}
use gitabic.Bytes.Ensures.{bind-eq_ok}
use gitabic.Progress.Download.{
  get_piece, get_piece_offset_in_progress_file, update_piece_status, on_downloaded_block,
}
use gitabic.Progress.Status.{verified, empty}
use gitabic.Splitter.{block_size}
use gitabic.FileIo.{
  FileIo, get_offset, write_chunk_to_file, update_piece_state_to_file, settle_piece, finish_piece,
  save_block, load_block,
}
use gitabic.FileIo.Chunks.{get_elem?-copied}

pub update_piece_state_to_file_keeps :
    (io t : FileIo) (piece now : ℕ)
    → update_piece_state_to_file io piece now ≡ ok t
    → (t.file ≡ io.file) × (t.download_progress ≡ io.download_progress)
unfolding update_piece_state_to_file
update_piece_state_to_file_keeps io t piece now h =
    let (p, e, h1) = bind-eq_ok (get_piece io.download_progress piece) _ t h in
    let (o, e', h2) =
      bind-eq_ok (get_piece_offset_in_progress_file io.download_progress piece) _ t h1 in
    ground (arith, h2)

pub settle_piece_keeps :
    (is_good : Bool) (io : FileIo) (piece now : ℕ) (t : FileIo × Bool)
    → settle_piece is_good io piece now ≡ ok t
    → (t.0.file ≡ io.file) × (t.1 ≡ is_good)
unfolding settle_piece
settle_piece_keeps is_good io piece now t h =
    let s = if is_good then verified else empty in
    let changed = update_piece_status io.download_progress piece s now in
    let next = record io { download_progress = changed.0 } in
    let (x, e, h1) = bind-eq_ok changed.1 _ t h in
    let (saved, e', h2) = bind-eq_ok (update_piece_state_to_file next piece now) _ t h1 in
    let kept = update_piece_state_to_file_keeps next saved piece now e' in ground (arith, h2, kept)

finish_piece_keeps :
    (sha256 : List ℕ → ℕ) (io : FileIo) (piece now : ℕ) (t : FileIo × Bool)
    → finish_piece sha256 io piece now ≡ ok t
    → t.0.file ≡ io.file
unfolding finish_piece
finish_piece_keeps sha256 io piece now t h =
    let (p, e, h1) = bind-eq_ok (get_piece io.download_progress piece) _ t h in
    (settle_piece_keeps _ io piece now t h1).0

save_block_keeps :
    (sha256 : List ℕ → ℕ) (io : FileIo) (piece block : ℕ) (bytes : List ℕ) (now : ℕ)
    (t : FileIo × Bool)
    → save_block sha256 io piece block bytes now ≡ ok t
    → t.0.file ≡ write_chunk_to_file io.file (get_offset io.piece_size piece block) bytes
unfolding save_block
save_block_keeps sha256 io piece block bytes now t h =
    let marked = on_downloaded_block io.download_progress piece block now in
    let (complete, e, h1) = bind-eq_ok marked.1 _ t h in after complete h1
  where
    saved : FileIo
    saved = record io {
      file = write_chunk_to_file io.file (get_offset io.piece_size piece block) bytes;
      download_progress = (on_downloaded_block io.download_progress piece block now).0;
    }

    after :
        (complete : Bool)
        → (if complete then finish_piece sha256 saved piece now else ok (saved, false)) ≡ ok t
        → t.0.file ≡ write_chunk_to_file io.file (get_offset io.piece_size piece block) bytes
    after true h1 = finish_piece_keeps sha256 saved piece now t h1
    after false h1 = ground (arith, h1)

get_offset_exact :
    (piece_size piece block : ℕ)
    → piece_size * piece + block * block_size < 2 ^ 64
    → get_offset piece_size piece block ≡ piece_size * piece + block * block_size
unfolding get_offset
get_offset_exact piece_size piece block h = omega arith

-- Two peers with files of the same size; a block of which all the BLOCK_SIZE bytes from its start on
-- lie in the file. When the one saves what the other loads, each of those bytes is the other's, those
-- behind the block's end that belong to the next piece included, and no other byte of the file has
-- changed.
pub save_block-load_block :
    (sha256 : List ℕ → ℕ) (io other : FileIo) (piece block now : ℕ) (t : FileIo × Bool)
    → block < 2 ^ 16
    → io.piece_size ≡ other.piece_size
    → length io.file ≡ length other.file
    → io.piece_size * piece + block * block_size + block_size ≤ length io.file
    → length io.file < 2 ^ 64
    → save_block sha256 io piece block (load_block other piece block) now ≡ ok t
    → (i : ℕ)
    → get_elem? t.0.file i ≡ (
        if leb (io.piece_size * piece + block * block_size) i
          && ltb i (io.piece_size * piece + block * block_size + block_size)
        then get_elem? other.file i
        else get_elem? io.file i)
unfolding load_block
save_block-load_block sha256 io other piece block now t hb hp hl inside small h i =
    let here : get_offset io.piece_size piece block ≡ io.piece_size * piece + block * block_size =
      get_offset_exact io.piece_size piece block (omega arith) in
    let there : get_offset other.piece_size piece (block % 2 ^ 16)
        ≡ io.piece_size * piece + block * block_size =
      ap (λ s. get_offset s piece (block % 2 ^ 16)) (sym hp)
      ∙ ap (get_offset io.piece_size piece) (omega arith)
      ∙ here in
    ap (λ f. get_elem? f i)
      (save_block_keeps sha256 io piece block (load_block other piece block) now t h)
    ∙ rw (here, there) (get_elem?-copied io.file other.file _ block_size i hl inside)
