-- ===== src/FileIo.antt =====
-- The file of a download and its progress file on disk (Peer/Torrent/FileIO/FileIO.cpp, and the
-- reading and writing of Peer/Utils/FileUtils/FileUtils.cpp). A file is its bytes. That files
-- open, that the vectors for their bytes can be had and that a seek and a write succeed is taken for granted
-- here: else readFileChunk and writeChunkToFile throw, which FileIo.Damaged.Reading has for reads. The hash function and the clock are arguments.
pub mod Chunks
pub mod Transfer
pub mod Verified
pub mod Damaged
use gitabic.Base.{
  ℕ, zero, suc, ◌+◌, ◌*◌, ◌%◌, ◌^◌, Bool, true, false, ◌==◌, if◌then◌else◌, List, [], ◌∷◌, ◌++◌,
  take, drop, none, some, get_elem?, length,
}
use gitabic.Bytes.{Outcome, ok, raise, fault, bind, le}
use gitabic.Splitter.{block_size}
use gitabic.Progress.Status.{DownloadStatus, verified, empty}
use gitabic.Progress.Piece.{PieceProgress, serialize_for_file_update}
use gitabic.Progress.Download.{
  DownloadProgress, on_downloaded_block, update_piece_status, get_piece,
  get_piece_offset_in_progress_file,
}

-- `seekg(offset)` and `read`, trimmed to what there is.
unfoldable pub read_file_chunk : List ℕ → ℕ → ℕ → List ℕ
read_file_chunk file offset size = take size (drop offset file)

-- `seekp(offset)` and `write`: a gap behind the end is filled with zeros.
unfoldable pub write_chunk_to_file : List ℕ → ℕ → List ℕ → List ℕ
write_chunk_to_file file offset [] = file
write_chunk_to_file [] zero (b ∷ bytes) = b ∷ bytes
write_chunk_to_file (x ∷ file) zero (b ∷ bytes) = b ∷ write_chunk_to_file file zero bytes
write_chunk_to_file [] (suc n) (b ∷ bytes) = 0 ∷ write_chunk_to_file [] n (b ∷ bytes)
write_chunk_to_file (x ∷ file) (suc n) (b ∷ bytes) = x ∷ write_chunk_to_file file n (b ∷ bytes)

pub record FileIo : Type 0 where
  pub file : List ℕ
  pub progress_file : List ℕ
  pub download_progress : DownloadProgress
  pub piece_size : ℕ

-- A `size_t`; the indices are a `uint32_t` and a `uint16_t`.
unfoldable pub get_offset : ℕ → ℕ → ℕ → ℕ
get_offset piece_size piece block = (piece_size * piece + block * block_size) % 2 ^ 64

unfoldable pub verify_piece : (List ℕ → ℕ) → List ℕ → ℕ → ℕ → ℕ → Bool
unfolding read_file_chunk
verify_piece sha256 file offset size hash = hash == sha256 (read_file_chunk file offset size)

abbrev bytes_read_offset : ℕ
bytes_read_offset = 1

abbrev last_access_offset : ℕ
last_access_offset = 25

-- Three writes into the progress file.
unfoldable pub update_piece_state_to_file : FileIo → ℕ → ℕ → Outcome FileIo
unfolding write_chunk_to_file
update_piece_state_to_file io piece now = bind (get_piece io.download_progress piece) λ p.
    bind (get_piece_offset_in_progress_file io.download_progress piece) λ offset.
      let patched : List ℕ =
        write_chunk_to_file io.progress_file offset (serialize_for_file_update p) in
      let counted : List ℕ =
        write_chunk_to_file patched bytes_read_offset
          (le 8 io.download_progress.total_download_bytes) in
      ok (record io { progress_file = write_chunk_to_file counted last_access_offset (le 8 now) })

-- With the verdict on the piece: its new status, in memory and in the progress file.
unfoldable pub settle_piece : Bool → FileIo → ℕ → ℕ → Outcome (FileIo × Bool)
unfolding update_piece_state_to_file
settle_piece is_good io piece now =
    let changed : DownloadProgress × Outcome (Unit {0}) =
      update_piece_status io.download_progress piece (if is_good then verified else empty) now in
    bind changed.1 λ _.
      bind (update_piece_state_to_file (record io { download_progress = changed.0 }) piece now)
        (λ saved. ok (saved, is_good))

-- Once the last block of a piece is there: the piece is compared with its hash.
unfoldable pub finish_piece : (List ℕ → ℕ) → FileIo → ℕ → ℕ → Outcome (FileIo × Bool)
unfolding verify_piece settle_piece get_offset
finish_piece sha256 io piece now = bind (get_piece io.download_progress piece) λ p.
    settle_piece (verify_piece sha256 io.file (get_offset io.piece_size piece 0) p.size p.hash) io
      piece now

-- The state is what a successful call leaves.
unfoldable pub save_block : (List ℕ → ℕ) → FileIo → ℕ → ℕ → List ℕ → ℕ → Outcome (FileIo × Bool)
unfolding write_chunk_to_file finish_piece get_offset
save_block sha256 io piece block bytes now =
    let written : FileIo = record io {
      file = write_chunk_to_file io.file (get_offset io.piece_size piece block) bytes;
    } in
    let marked : DownloadProgress × Outcome Bool =
      on_downloaded_block written.download_progress piece block now in
    bind marked.1 λ complete.
      let saved : FileIo = record written { download_progress = marked.0 } in
      if complete then finish_piece sha256 saved piece now else ok (saved, false)

unfoldable pub load_block : FileIo → ℕ → ℕ → List ℕ
unfolding read_file_chunk get_offset
load_block io piece block =
    read_file_chunk io.file (get_offset io.piece_size piece (block % 2 ^ 16)) block_size

unfoldable load_piece : FileIo → ℕ → List ℕ
unfolding read_file_chunk get_offset
load_piece io piece = read_file_chunk io.file (get_offset io.piece_size piece 0) io.piece_size
