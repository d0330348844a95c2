-- ===== src/Message/Torrent.antt =====
-- The messages between peers (Peer/NetworkUnit/ServerComm/BitTorrentMessages.h). IDs, hashes and
-- keys are the numbers whose little-endian bytes their arrays hold; a `std::bitset<8>` is its byte.
pub mod RoundTrip
pub mod Short
use gitabic.Base.{
  ℕ, ◌+◌, ◌*◌, ◌%◌, Bool, true, false, ltb, leb, ◌==◌, if◌then◌else◌, List, [], ◌∷◌, ◌++◌, length,
}
use gitabic.Bytes.{
  Outcome, Error, ok, raise, fault, runtime_error, bind, Reader, ◌>>=◌, return, le, read_le,
}
use gitabic.Message.Frame.{Received, serialize_base}

-- The fields of TorrentMessageBase. `from` (the field `other`) is not sent.
pub record TorrentBase : Type 0 where
  pub code : ℕ
  pub file_id : ℕ
  pub hash : ℕ
  pub init_vector : ℕ

abbrev pub torrent_size : ℕ
torrent_size = 32 * 2 + 16

unfoldable pub serialize_torrent : ℕ → TorrentBase → List ℕ
unfolding serialize_base
serialize_torrent previous_size m =
    serialize_base m.code (previous_size + torrent_size)
    ++ (le 32 m.file_id ++ (le 32 m.hash ++ le 16 m.init_vector))

-- The one guard that can fail is the first: the later ones ask for no more.
unfoldable pub deserialize_torrent : ℕ → Reader TorrentBase
deserialize_torrent code bytes =
    let fields : Reader TorrentBase = do
      file_id ← read_le 32
      hash ← read_le 32
      init_vector ← read_le 16
      return (record { code = code; file_id = file_id; hash = hash; init_vector = init_vector })
    in if ltb (length bytes) torrent_size then raise runtime_error else fields bytes

-- DataRequest and CancelDataRequest, which differ in their codes alone.
pub record DataRequest : Type 0 where
  pub base : TorrentBase
  pub piece_index : ℕ
  pub block_index : ℕ
  pub blocks_count : ℕ

unfoldable pub serialize_request : ℕ → DataRequest → List ℕ
serialize_request previous_size m =
    serialize_torrent (previous_size + (4 + 2 + 2)) m.base
    ++ (le 4 m.piece_index ++ (le 2 m.block_index ++ le 2 m.blocks_count))

-- The fields behind the base, for which there is no check.
unfoldable pub request_fields : TorrentBase → Reader DataRequest
request_fields base = do
  piece_index ← read_le 4
  block_index ← read_le 2
  blocks_count ← read_le 2
  return (record {
    base = base;
    piece_index = piece_index;
    block_index = block_index;
    blocks_count = blocks_count;
  })

unfoldable pub deserialize_request : ℕ → Reader DataRequest
deserialize_request code = deserialize_torrent code >>= request_fields

pub record PieceOwnershipUpdate : Type 0 where
  pub base : TorrentBase
  pub piece_index : ℕ

unfoldable pub serialize_ownership : ℕ → PieceOwnershipUpdate → List ℕ
serialize_ownership previous_size m =
    serialize_torrent (previous_size + 4) m.base ++ le 4 m.piece_index

unfoldable pub deserialize_ownership : ℕ → Reader PieceOwnershipUpdate
deserialize_ownership code = do
  base ← deserialize_torrent code
  piece_index ← read_le 4
  return (record { base = base; piece_index = piece_index })

pub record BlockResponse : Type 0 where
  pub base : TorrentBase
  pub piece_index : ℕ
  pub block_index : ℕ
  pub block : List ℕ

unfoldable pub serialize_block_response : ℕ → BlockResponse → List ℕ
serialize_block_response previous_size m =
    serialize_torrent (previous_size + (4 + 2) + length m.block) m.base
    ++ (le 4 m.piece_index ++ (le 2 m.block_index ++ m.block))

-- `vector<uint8_t>(data.begin() + ..., data.end())`
abbrev pub read_rest : Reader (List ℕ)
read_rest bytes = ok (bytes, [])

unfoldable pub deserialize_block_response : ℕ → Reader BlockResponse
deserialize_block_response code = do
  base ← deserialize_torrent code
  piece_index ← read_le 4
  block_index ← read_le 2
  block ← read_rest
  return
      (record { base = base; piece_index = piece_index; block_index = block_index; block = block })

pub record FileBitField : Type 0 where
  pub base : TorrentBase
  pub field : List ℕ

unfoldable pub serialize_bit_field : ℕ → FileBitField → List ℕ
serialize_bit_field previous_size m =
    serialize_torrent (previous_size + length m.field) m.base ++ m.field

abbrev pub non_empty : Reader (List ℕ)
non_empty [] = raise runtime_error
non_empty (b ∷ bytes) = ok (b ∷ bytes, [])

-- An empty field is refused: `offset >= data.size()`.
unfoldable pub deserialize_bit_field : ℕ → Reader FileBitField
deserialize_bit_field code = do
  base ← deserialize_torrent code
  field ← non_empty
  return (record { base = base; field = field })

-- A message as `receive` gets it, and the object made of its code and data.
abbrev pub decode {ℓ} :
    {A : Type ℓ} → (ℕ → Reader A) → Outcome (Received × List ℕ) → Outcome (A × List ℕ)
decode f r = bind r (λ p. bind (f p.0.code p.0.payload) (λ q. ok (q.0, p.1)))
