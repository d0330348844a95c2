-- ===== src/MetaData.antt =====
-- MetaDataFile (Peer/Utils/MetaDataFile/MetaDataFile.cpp and .h), with `struct Address`
-- (Peer/NetworkUnit/SocketHandler/SocketHandler.h). Strings are lists of bytes. Hashes, keys, salts
-- and IP addresses are the numbers whose little-endian bytes their arrays hold.
pub mod Cursor
pub mod RoundTrip
pub mod Overread
pub mod Creation
pub mod Password
use gitabic.Base.{
  ℕ, zero, suc, ◌+◌, ◌*◌, ◌/◌, ◌%◌, ◌^◌, Bool, true, false, ltb, ◌==◌, not, if◌then◌else◌, List, [],
  ◌∷◌, ◌++◌, length, take, drop,
}
use gitabic.Bytes.{Outcome, Error, ok, raise, fault, out_of_range, bind, le, read_le, read_bytes}

pub record Address : Type 0 where
  pub ip : ℕ
  pub port : ℕ

-- Bit fields of 47, 16 and 1 bits in one `uint64_t`.
pub record Sizes : Type 0 where
  pub file_size : ℕ
  pub parts_count : ℕ
  pub has_password : Bool

pub record MetaDataFile : Type 0 where
  pub file_name : List ℕ
  pub creator : List ℕ
  pub file_hash : ℕ
  pub parts_hashes : List ℕ
  pub signaling_address : Address
  pub sizes : Sizes
  pub encrypted_aes_key : ℕ
  pub salt : ℕ

abbrev pub bit : Bool → ℕ
bit true = 1
bit false = 0

-- The lowest bit field comes first, as GCC and Clang lay them out on x86-64 and ARM64.
abbrev pub pack_sizes : Sizes → ℕ
pack_sizes s = s.file_size + 2 ^ 47 * s.parts_count + 2 ^ 63 * bit s.has_password

abbrev pub unpack_sizes : ℕ → Sizes
unpack_sizes x = record {
  file_size = x % 2 ^ 47;
  parts_count = x / 2 ^ 47 % 2 ^ 16;
  has_password = not (x / 2 ^ 63 % 2 == 0);
}

unfoldable pub serialize_string : List ℕ → List ℕ
serialize_string s = le 4 (length s % 2 ^ 32) ++ take (length s % 2 ^ 32) s

unfoldable pub serialize_hashes : List ℕ → List ℕ
serialize_hashes [] = []
serialize_hashes (h ∷ hs) = le 32 h ++ serialize_hashes hs

-- `data.insert(data.end(), &port, &port + sizeof(port))` takes two `uint16_t`, the port and what
-- stands behind it in memory (`beyond`), and turns each into a byte.
unfoldable pub serialize_port : ℕ → ℕ → List ℕ
serialize_port port beyond = (port % 256) ∷ (beyond % 256) ∷ []

-- The object with its new `partsCount`, and the bytes. `beyond` is what is read behind the port.
unfoldable pub serialize : ℕ → MetaDataFile → MetaDataFile × List ℕ
serialize beyond m =
    let sizes : Sizes = record {
      file_size = m.sizes.file_size;
      parts_count = length m.parts_hashes % 2 ^ 16;
      has_password = m.sizes.has_password;
    } in
    (
      record m { sizes = sizes },
      le 8 (pack_sizes sizes)
          ++ (serialize_string m.file_name
              ++ (serialize_string m.creator
                  ++ (le 32 m.file_hash
                      ++ (serialize_hashes m.parts_hashes
                          ++ (le 4 m.signaling_address.ip
                              ++ (serialize_port m.signaling_address.port beyond
                                  ++ (le 16 m.encrypted_aes_key
                                      ++ (if sizes.has_password then le 16 m.salt else [])))))))),
    )

-- A reader over the whole buffer with the index `i`, a 32-bit `uint`.
abbrev pub Cursor {ℓ} : Type ℓ → Type ℓ
Cursor A = List ℕ → ℕ → Outcome (A × ℕ)

infixl 5 ◌>>=◌
abbrev pub ◌>>=◌ {ℓ κ} : {A : Type ℓ} {B : Type κ} → Cursor A → (A → Cursor B) → Cursor B
◌>>=◌ m f bytes i = bind (m bytes i) (λ p. f p.0 bytes p.1)

abbrev pub return {ℓ} : {A : Type ℓ} → A → Cursor A
return a bytes i = ok (a, i)

-- `if (i + n > data.size()) throw ...; memcpy(&x, data.data() + i, n); i += n;`, where `n` is a
-- `size_t`, so that the sum does not wrap.
unfoldable pub read_field : ℕ → Cursor ℕ
read_field n bytes i =
    if ltb (length bytes) (i + n)
    then raise out_of_range
    else bind (read_le n (drop i bytes)) (λ p. ok (p.0, (i + n) % 2 ^ 32))

-- The same for the characters of a string, whose size is a `uint`: the sum wraps.
unfoldable pub read_chars : ℕ → Cursor (List ℕ)
read_chars size bytes i =
    if ltb (length bytes) ((i + size) % 2 ^ 32)
    then raise out_of_range
    else bind (read_bytes size (drop i bytes)) (λ p. ok (p.0, (i + size) % 2 ^ 32))

unfoldable pub read_string : Cursor (List ℕ)
read_string = do size ← read_field 4; read_chars size

unfoldable pub read_hashes : ℕ → Cursor (List ℕ)
read_hashes zero = return []
read_hashes (suc n) = do h ← read_field 32; hs ← read_hashes n; return (h ∷ hs)

-- The salt is read only under a password, and is `old` otherwise.
unfoldable pub read_salt : Bool → ℕ → Cursor ℕ
read_salt true old = read_field 16
read_salt false old = return old

-- The hashes read are pushed behind those that the object has.
unfoldable pub read_meta : MetaDataFile → Cursor MetaDataFile
read_meta m = do
  packed ← read_field 8
  file_name ← read_string
  creator ← read_string
  file_hash ← read_field 32
  hashes ← read_hashes (unpack_sizes packed).parts_count
  ip ← read_field 4
  port ← read_field 2
  key ← read_field 16
  salt ← read_salt (unpack_sizes packed).has_password m.salt
  return (record {
    file_name = file_name;
    creator = creator;
    file_hash = file_hash;
    parts_hashes = m.parts_hashes ++ hashes;
    signaling_address = record { ip = ip; port = port };
    sizes = unpack_sizes packed;
    encrypted_aes_key = key;
    salt = salt;
  })

unfoldable pub deserialize : MetaDataFile → List ℕ → Outcome MetaDataFile
deserialize m bytes = bind (read_meta m bytes 0) (λ p. ok p.0)
