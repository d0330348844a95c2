-- ===== src/Message/Torrent/RoundTrip.antt =====
-- Every message between peers, sent and received.
use gitabic.Base.{
  ℕ, ◌+◌, ◌^◌, ◌<◌, ◌≤◌, ◌≡◌, refl, le→ltb, arith, List, [], ◌∷◌, ◌++◌, append_assoc, length,
  length-append,
}
use gitabic.Bytes.{ok, le}
use gitabic.Bytes.RoundTrip.{read_le-le, read_le_last, length-le}
use gitabic.Message.Frame.{serialize_base, receive, receive_framed}
use gitabic.Message.Torrent.{
  TorrentBase, torrent_size, serialize_torrent, deserialize_torrent, DataRequest, serialize_request,
  deserialize_request, request_fields, request_fields, PieceOwnershipUpdate, serialize_ownership,
  deserialize_ownership, BlockResponse, serialize_block_response, deserialize_block_response,
  FileBitField, serialize_bit_field, deserialize_bit_field, decode, non_empty,
}

pub record BaseFits (m : TorrentBase) : Type 0 where
  pub code_fits : m.code < 256
  pub file_id_fits : m.file_id < 256 ^ 32
  pub hash_fits : m.hash < 256 ^ 32
  pub init_vector_fits : m.init_vector < 256 ^ 16

-- The data of the base, and the frame around it and the fields that follow.
base_payload : TorrentBase → List ℕ
base_payload m = le 32 m.file_id ++ (le 32 m.hash ++ le 16 m.init_vector)

length-base_payload : (m : TorrentBase) → length (base_payload m) ≡ torrent_size
unfolding base_payload
length-base_payload m = simp (length-append, length-le)

deserialize-base_payload :
    (m : TorrentBase) (fields : List ℕ)
    → BaseFits m
    → deserialize_torrent m.code (base_payload m ++ fields) ≡ ok (m, fields)
unfolding deserialize_torrent
deserialize-base_payload m fields f =
    let long : torrent_size ≤ length (base_payload m ++ fields) =
      omega (arith, length-append (base_payload m) fields, length-base_payload m) in
    rw (le→ltb _ torrent_size long) (
      unfold base_payload in
      simp (
        append_assoc,
        read_le-le 32 m.file_id _ f.file_id_fits,
        read_le-le 32 m.hash _ f.hash_fits,
        read_le-le 16 m.init_vector _ f.init_vector_fits,
      ))

serialize_torrent_lem :
    (n : ℕ) (m : TorrentBase)
    → serialize_torrent n m ≡ serialize_base m.code (n + torrent_size) ++ base_payload m
unfolding serialize_torrent base_payload
serialize_torrent_lem n m = refl

receive_torrent :
    (m : TorrentBase) (n : ℕ) (fields rest : List ℕ)
    → BaseFits m
    → n ≡ length fields
    → n < 2 ^ 31
    → receive ((serialize_torrent n m ++ fields) ++ rest)
      ≡ ok (record { code = m.code; payload = base_payload m ++ fields }, rest)
receive_torrent m n fields rest f e fits =
    let size : n + torrent_size ≡ length (base_payload m ++ fields) =
      omega (arith, e, length-append (base_payload m) fields, length-base_payload m) in
    rw (serialize_torrent_lem, size, append_assoc (serialize_base _ _))
      (receive_framed m.code (base_payload m ++ fields) rest f.code_fits (omega (arith, size)))

-- The fields of each kind of message fit their C++ types.
pub record RequestFits (m : DataRequest) : Type 0 where
  pub base_fits : BaseFits m.base
  pub piece_fits : m.piece_index < 256 ^ 4
  pub block_fits : m.block_index < 256 ^ 2
  pub count_fits : m.blocks_count < 256 ^ 2

-- A request for blocks, or its cancellation, arrives as it was sent, and the rest of the stream is
-- left, when its fields fit their types.
decode-request :
    (m : DataRequest) (rest : List ℕ)
    → RequestFits m
    → decode deserialize_request (receive (serialize_request 0 m ++ rest)) ≡ ok (m, rest)
unfolding serialize_request deserialize_request request_fields
decode-request m rest f =
    let fields : List ℕ = le 4 m.piece_index ++ (le 2 m.block_index ++ le 2 m.blocks_count) in
    let size : 0 + (4 + 2 + 2) ≡ length fields = simp (length-append, length-le) in
    rw (receive_torrent m.base _ fields rest f.base_fits size (omega arith)) (
      rw (deserialize-base_payload m.base fields f.base_fits) (
        simp (
          read_le-le 4 m.piece_index _ f.piece_fits,
          read_le-le 2 m.block_index _ f.block_fits,
          read_le_last 2 m.blocks_count f.count_fits,
        )))

pub record OwnershipFits (m : PieceOwnershipUpdate) : Type 0 where
  pub base_fits : BaseFits m.base
  pub piece_fits : m.piece_index < 256 ^ 4

-- An announcement of a piece gained or lost arrives as it was sent, and the rest of the stream is
-- left, when its fields fit their types.
decode-ownership :
    (m : PieceOwnershipUpdate) (rest : List ℕ)
    → OwnershipFits m
    → decode deserialize_ownership (receive (serialize_ownership 0 m ++ rest)) ≡ ok (m, rest)
unfolding serialize_ownership deserialize_ownership
decode-ownership m rest f =
    let size : 0 + 4 ≡ length (le 4 m.piece_index) = simp length-le in
    rw (receive_torrent m.base _ (le 4 m.piece_index) rest f.base_fits size (omega arith)) (
      rw (deserialize-base_payload m.base _ f.base_fits)
        (simp (read_le_last 4 m.piece_index f.piece_fits)))

pub record BlockResponseFits (m : BlockResponse) : Type 0 where
  pub base_fits : BaseFits m.base
  pub piece_fits : m.piece_index < 256 ^ 4
  pub block_fits : m.block_index < 256 ^ 2
  pub data_fits : length m.block < 2 ^ 30

-- A block of fewer than 2^30 bytes arrives as it was sent, and the rest of the stream is left, when
-- the fields before it fit their types.
decode-block_response :
    (m : BlockResponse) (rest : List ℕ)
    → BlockResponseFits m
    → decode deserialize_block_response (receive (serialize_block_response 0 m ++ rest))
      ≡ ok (m, rest)
unfolding serialize_block_response deserialize_block_response
decode-block_response m rest f =
    let fields : List ℕ = le 4 m.piece_index ++ (le 2 m.block_index ++ m.block) in
    let size : 0 + (4 + 2) + length m.block ≡ length fields =
      simp (length-append, length-le) (omega arith) in
    rw (receive_torrent m.base _ fields rest f.base_fits size (omega (arith, f.data_fits))) (
      rw (deserialize-base_payload m.base fields f.base_fits) (
        simp
          (read_le-le 4 m.piece_index _ f.piece_fits, read_le-le 2 m.block_index _ f.block_fits)))

pub record BitFieldFits (m : FileBitField) : Type 0 where
  pub base_fits : BaseFits m.base
  pub field_fits : length m.field < 2 ^ 30
  pub some_piece : 0 < length m.field

non_empty_lem : (bs : List ℕ) → 0 < length bs → non_empty bs ≡ ok (bs, [])
non_empty_lem [] h = absurd (omega arith)
non_empty_lem (b ∷ bs) h = refl

-- A bit field that is not empty and has fewer than 2^30 bytes arrives as it was sent, and the rest
-- of the stream is left, when the fields before it fit their types.
decode-bit_field :
    (m : FileBitField) (rest : List ℕ)
    → BitFieldFits m
    → decode deserialize_bit_field (receive (serialize_bit_field 0 m ++ rest)) ≡ ok (m, rest)
unfolding serialize_bit_field deserialize_bit_field
decode-bit_field m rest f = rw (
  receive_torrent m.base (0 + length m.field) m.field rest f.base_fits (omega arith)
      (omega (arith, f.field_fits)),
  deserialize-base_payload m.base m.field f.base_fits,
  non_empty_lem m.field f.some_piece,
)
