-- ===== src/MetaData/Creation.antt =====
-- MetaDataFile::createMetaData (Peer/Utils/MetaDataFile/MetaDataFile.cpp). The file is its bytes; the hash
-- function and the keys that AESHandler makes are arguments.
use gitabic.Base.{ℕ, zero, suc, ◌%◌, ◌^◌, min, Bool, List, [], ◌∷◌, length, take, drop}
use gitabic.Splitter.{piece_size}
use gitabic.MetaData.{MetaDataFile, Address}

-- The loop over the pieces, on the bytes from index `i` on. The number of bytes that are left is cast to a
-- `uint`; a piece takes a byte at least, so the size is enough fuel.
unfoldable pub parts_from : (List ℕ → ℕ) → ℕ → ℕ → List ℕ → List ℕ
parts_from sha256 fuel step [] = []
parts_from sha256 zero step (b ∷ bytes) = []
parts_from sha256 (suc fuel) step (b ∷ bytes) =
    let current = min step (length (b ∷ bytes) % 2 ^ 32) in
    sha256 (take current (b ∷ bytes)) ∷ parts_from sha256 fuel step (drop step (b ∷ bytes))

-- The key as it is stored, with the salt if there is a password.
pub record StoredKey : Type 0 where
  pub has_password : Bool
  pub key : ℕ
  pub key_salt : ℕ

-- The size has 47 bits. `partsCount` is left as it is, which is an argument.
unfoldable pub create_meta_data :
    (List ℕ → ℕ) → List ℕ → List ℕ → List ℕ → Address → StoredKey → ℕ → MetaDataFile
unfolding parts_from
create_meta_data sha256 name content creator address stored_key parts_count =
    let size = length content % 2 ^ 47 in
    record {
      file_name = name;
      creator = creator;
      file_hash = sha256 content;
      parts_hashes = parts_from sha256 (length content) (piece_size size) content;
      signaling_address = address;
      sizes = record {
        file_size = size;
        parts_count = parts_count;
        has_password = stored_key.has_password;
      };
      encrypted_aes_key = stored_key.key;
      salt = stored_key.key_salt;
    }
