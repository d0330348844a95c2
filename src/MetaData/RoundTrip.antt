-- ===== src/MetaData/RoundTrip.antt =====
-- A metadata file written and read again.
use gitabic.Base.{
  ℕ, ◌+◌, ◌*◌, ◌%◌, ◌^◌, ◌≤◌, ◌<◌, ◌≡◌, refl, ap, Bool, true, false, arith, List, [], ◌++◌, length,
  length-append, if◌then◌else◌, All, append-nil,
}
use gitabic.Bytes.{ok, le}
use gitabic.Bytes.RoundTrip.{length-le}
use gitabic.MetaData.{
  Sizes, MetaDataFile, pack_sizes, unpack_sizes, serialize_hashes, serialize_port, serialize,
  read_salt, read_meta, deserialize,
}
use gitabic.MetaData.Cursor.{
  At, At-append, read_field-At, read_string-At, read_hashes-At, serialize_string_lem,
  length-serialize_hashes,
}

-- The fields fit their C++ types, the part count its bit field, and the file an index of 32 bits: beside
-- the names and the hashes it has at most 86 bytes.
pub record MetaFits (m : MetaDataFile) : Type 0 where
  pub file_fits : length m.file_name + length m.creator + 32 * length m.parts_hashes + 86 < 2 ^ 32
  pub hash_fits : m.file_hash < 256 ^ 32
  pub hashes_fit : All (λ h. h < 256 ^ 32) m.parts_hashes
  pub count_fits : length m.parts_hashes < 2 ^ 16
  pub ip_fits : m.signaling_address.ip < 256 ^ 4
  pub file_size_fits : m.sizes.file_size < 2 ^ 47
  pub key_fits : m.encrypted_aes_key < 256 ^ 16
  pub salt_fits : m.salt < 256 ^ 16

-- What a metadata file holds of `m`: the port's low byte under the byte that stood behind it, the
-- number of hashes as the part count, and the salt only under a password (else that of `old`).
unfoldable pub stored : ℕ → MetaDataFile → MetaDataFile → MetaDataFile
stored beyond old m = record m {
  parts_hashes = old.parts_hashes ++ m.parts_hashes;
  signaling_address = record {
    ip = m.signaling_address.ip;
    port = m.signaling_address.port % 256 + 256 * (beyond % 256);
  };
  sizes = record {
    file_size = m.sizes.file_size;
    parts_count = length m.parts_hashes;
    has_password = m.sizes.has_password;
  };
  salt = if m.sizes.has_password then m.salt else old.salt;
}

pack_sizes-fits :
    (s : Sizes) → s.file_size < 2 ^ 47 → s.parts_count < 2 ^ 16 → pack_sizes s < 256 ^ 8
pack_sizes-fits s h k = ground arith

unpack-pack_sizes :
    (s : Sizes) → s.file_size < 2 ^ 47 → s.parts_count < 2 ^ 16 → unpack_sizes (pack_sizes s) ≡ s
unpack-pack_sizes s h k = ground arith

serialize_port-le :
    (port beyond : ℕ) → serialize_port port beyond ≡ le 2 (port % 256 + 256 * (beyond % 256))
unfolding serialize_port le
serialize_port-le port beyond = ground arith

abbrev stored_sizes : MetaDataFile → Sizes
stored_sizes m = record {
  file_size = m.sizes.file_size;
  parts_count = length m.parts_hashes;
  has_password = m.sizes.has_password;
}

abbrev salt_bytes : Bool → ℕ → List ℕ
salt_bytes b salt = if b then le 16 salt else []

-- The file, with the strings' sizes and the port as the reader takes them.
layout : ℕ → MetaDataFile → List ℕ
layout beyond m =
    le 8 (pack_sizes (stored_sizes m))
    ++ ((le 4 (length m.file_name) ++ m.file_name)
        ++ ((le 4 (length m.creator) ++ m.creator)
            ++ (le 32 m.file_hash
                ++ (serialize_hashes m.parts_hashes
                    ++ (le 4 m.signaling_address.ip
                        ++ (le 2 (m.signaling_address.port % 256 + 256 * (beyond % 256))
                            ++ (le 16 m.encrypted_aes_key
                                ++ salt_bytes m.sizes.has_password m.salt)))))))

serialize-layout :
    (beyond : ℕ) (m : MetaDataFile) → MetaFits m → (serialize beyond m).1 ≡ layout beyond m
unfolding serialize layout
serialize-layout beyond m f =
    let count : length m.parts_hashes % 2 ^ 16 ≡ length m.parts_hashes =
      omega (arith, f.count_fits) in
    rw (
      count,
      serialize_string_lem m.file_name (omega (arith, f.file_fits)),
      serialize_string_lem m.creator (omega (arith, f.file_fits)),
      serialize_port-le,
    )

length-salt_bytes : (b : Bool) (salt : ℕ) → length (salt_bytes b salt) ≤ 16
length-salt_bytes true salt = omega (arith, length-le 16 salt)
length-salt_bytes false salt = omega arith

length-layout : (beyond : ℕ) (m : MetaDataFile) → MetaFits m → length (layout beyond m) < 2 ^ 32
unfolding layout
length-layout beyond m f =
    simp (length-append, length-le, length-serialize_hashes)
      (omega (arith, f.file_fits, length-salt_bytes m.sizes.has_password m.salt))

read_salt-At :
    {bytes : List ℕ} {i : ℕ} (b : Bool) (salt old : ℕ)
    → length bytes < 2 ^ 32
    → salt < 256 ^ 16
    → At bytes i (salt_bytes b salt)
    → (j : ℕ) × (read_salt b old bytes i ≡ ok ((if b then salt else old), j))
unfolding read_salt
read_salt-At {bytes} {i} true salt old fits h at =
    (i + 16, read_field-At 16 salt [] fits h (rw append-nil at))
read_salt-At {bytes} {i} false salt old fits h at = (i, refl)

length-string : (xs : List ℕ) → length (le 4 (length xs) ++ xs) ≡ 4 + length xs
length-string xs = simp (length-append, length-le)

module _ (beyond : ℕ) (old m : MetaDataFile) (f : MetaFits m) (bytes : List ℕ)
    (fits : length bytes < 2 ^ 32) where
  read_meta-layout : At bytes 0 (layout beyond m) → deserialize old bytes ≡ ok (stored beyond old m)
  unfolding layout deserialize read_meta stored
  read_meta-layout a0 =
      let s = stored_sizes m in
      let a1 = At-append (le 8 _) _ 8 (length-le 8 _) a0 in
      let a2 = At-append (le 4 _ ++ m.file_name) _ _ (length-string m.file_name) a1 in
      let a3 = At-append (le 4 _ ++ m.creator) _ _ (length-string m.creator) a2 in
      let a4 = At-append (le 32 m.file_hash) _ 32 (length-le 32 _) a3 in
      let a5 =
        At-append (serialize_hashes m.parts_hashes) _ _ (length-serialize_hashes m.parts_hashes)
          a4 in
      let a6 = At-append (le 4 _) _ 4 (length-le 4 _) a5 in
      let a7 = At-append (le 2 _) _ 2 (length-le 2 _) a6 in
      let a8 = At-append (le 16 _) _ 16 (length-le 16 _) a7 in
      let (j, salt_read) = read_salt-At m.sizes.has_password m.salt old.salt fits f.salt_fits a8 in
      let sizes_read = unpack-pack_sizes s f.file_size_fits f.count_fits in
      let packed = pack_sizes-fits s f.file_size_fits f.count_fits in
      rw (
        read_field-At 8 (pack_sizes s) _ fits packed a0,
        read_string-At m.file_name _ fits (omega (arith, f.file_fits)) a1,
        read_string-At m.creator _ fits (omega (arith, f.file_fits)) a2,
        read_field-At 32 m.file_hash _ fits f.hash_fits a3,
        ap (λ (z : Sizes). z.parts_count) sizes_read,
        read_hashes-At m.parts_hashes _ fits f.hashes_fit a4,
        read_field-At 4 m.signaling_address.ip _ fits f.ip_fits a5,
        read_field-At 2 _ _ fits (omega arith) a6,
        read_field-At 16 m.encrypted_aes_key _ fits f.key_fits a7,
        ap (λ (z : Sizes). z.has_password) sizes_read,
        salt_read,
        ap (λ (z : Sizes). z.file_size) sizes_read,
      )

-- A metadata file that `serialize` wrote, of fields that fit their types, of which a file of fewer than 2^32
-- bytes is written (the names, the hashes and 86 bytes are counted), is read back, into an object `old`, as what it stores: every field of `m` is kept but the port, whose high byte is
-- replaced by the byte behind it in memory; the hashes come behind those of `old`, the part count
-- is their number, and without a password the salt is that of `old`.
pub deserialize-serialize :
    (beyond : ℕ) (old m : MetaDataFile)
    → MetaFits m
    → deserialize old (serialize beyond m).1 ≡ ok (stored beyond old m)
deserialize-serialize beyond old m f = rw (serialize-layout beyond m f) (
    read_meta-layout beyond old m f (layout beyond m) (length-layout beyond m f)
      (record { behind = refl; total = omega arith }))
