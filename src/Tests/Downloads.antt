-- ===== src/Tests/Downloads.antt =====
-- A file of five bytes: its metadata, and the download that it starts.
use gitabic.Base.{◌≡◌, refl, true, false, ◌==◌, [], ◌∷◌, ◌++◌, sum_by, arith}
use gitabic.Bytes.{ok, fault, le}
use gitabic.Splitter.{piece_size}
use gitabic.MetaData.{MetaDataFile, deserialize, serialize}
use gitabic.MetaData.RoundTrip.{stored, deserialize-serialize}
use gitabic.MetaData.Overread.{deserialize_overread}
use gitabic.Progress.Status.{empty, downloading}
use gitabic.Progress.Block.{BlockInfo}
use gitabic.Progress.Piece.{PieceProgress, new_piece, block_loop}
use gitabic.Progress.Piece.Codec.{PieceFits}
use gitabic.Progress.Download
use gitabic.Progress.Download.{
  DownloadProgress, init, piece_loop, started, is_finished, update_piece_status,
  on_downloaded_block, on_block_status, done, get_piece_index,
}
use gitabic.Progress.Download.RoundTrip.{deserialize-serialize_download}
use gitabic.Progress.Download.Layout.{PiecesTile, init-PiecesTile}
use gitabic.Progress.Download.Accounting.{piece_counted}
use gitabic.Progress.Download.Reach.{here, next, piece_gets, seeds, missing_total, progress_exact}

abbrev meta : MetaDataFile
meta = record {
  file_name = 102 ∷ [];
  creator = 99 ∷ [];
  file_hash = 7;
  parts_hashes = 11 ∷ [];
  signaling_address = record { ip = 16777343; port = 4660 };
  sizes = record { file_size = 5; parts_count = 1; has_password = false };
  encrypted_aes_key = 3;
  salt = 0;
}

abbrev pub blank : DownloadProgress
blank = record {
  file_name = [];
  creator = [];
  file_hash = 0;
  completed = false;
  total_download_bytes = 0;
  file_size = 0;
  start_time = 0;
  last_time = 0;
  pieces = [];
  signaling_address = record { ip = 0; port = 0 };
}

abbrev pub block : BlockInfo
block = record { offset = 0; size = 5; is_last_block = true; status = empty }

abbrev pub piece : PieceProgress
piece = record {
  status = empty;
  offset = 0;
  blocks = block ∷ [];
  size = 5;
  bytes_downloaded = 0;
  last_access = 100;
  hash = 11;
}

abbrev pub download : DownloadProgress
download = record {
  file_name = 102 ∷ [];
  creator = 99 ∷ [];
  file_hash = 7;
  completed = false;
  total_download_bytes = 0;
  file_size = 5;
  start_time = 100;
  last_time = 100;
  pieces = piece ∷ [];
  signaling_address = record { ip = 16777343; port = 4660 };
}

init_test : init blank meta 100 ≡ ok download
unfolding init piece_loop new_piece block_loop piece_size started
init_test = refl

abbrev pub asked : DownloadProgress
asked = (update_piece_status download 0 downloading 107).0

abbrev seeded : DownloadProgress
seeded = done asked 109

progress_exact_example :
    (seeded.total_download_bytes ≡ sum_by piece_counted seeded.pieces)
    × (is_finished seeded ≡ (missing_total seeded == 0))
progress_exact_example =
    progress_exact meta 100 blank download seeded refl (omega arith) (omega arith)
      (unfold piece_size in omega arith) init_test
      (next (next here (piece_gets 0 107 downloading tt)) (seeds 109))

piece_fits : PieceFits piece
piece_fits = record {
  offset_fits = omega arith;
  size_fits = omega arith;
  downloaded_fits = omega arith;
  access_fits = omega arith;
  status_named = tt;
  hash_fits = omega arith;
  count_fits = omega arith;
  blocks_fit =
      (record { offset_fits = omega arith; size_fits = omega arith; status_named = tt }, tt);
}

deserialize-serialize_download_example :
    Download.deserialize (Download.serialize download ++ (9 ∷ [])) ≡ ok (download, 9 ∷ [])
deserialize-serialize_download_example = deserialize-serialize_download download (9 ∷ []) (record {
  total_fits = omega arith;
  file_size_fits = omega arith;
  start_fits = omega arith;
  last_fits = omega arith;
  hash_fits = omega arith;
  name_fits = omega arith;
  creator_fits = omega arith;
  ip_fits = omega arith;
  port_fits = omega arith;
  count_fits = omega arith;
  pieces_fit = (piece_fits, tt);
})

deserialize-serialize_example :
    deserialize meta (serialize 4660 meta).1 ≡ ok (stored 4660 meta meta)
deserialize-serialize_example = deserialize-serialize 4660 meta meta (record {
  file_fits = omega arith;
  hash_fits = omega arith;
  hashes_fit = (omega arith, tt);
  count_fits = omega arith;
  ip_fits = omega arith;
  file_size_fits = omega arith;
  key_fits = omega arith;
  salt_fits = omega arith;
})

deserialize_overread_example :
    deserialize meta (le 8 1 ++ (le 4 4294967290 ++ (1 ∷ 2 ∷ []))) ≡ fault
deserialize_overread_example =
    deserialize_overread meta 1 4294967290 (1 ∷ 2 ∷ []) (omega arith) (omega arith) (omega arith)
      (omega arith)

init-PiecesTile_example :
    (e : DownloadProgress) × (init blank meta 100 ≡ ok e)
    × PiecesTile (piece_size e.file_size) 0 (11 ∷ []) e.pieces e.file_size
    × (e.file_size ≡ 5)
    × (e.total_download_bytes ≡ 0)
    × (e.completed ≡ false)
init-PiecesTile_example =
    init-PiecesTile blank meta 100 refl (omega arith) (unfold piece_size in omega arith)
