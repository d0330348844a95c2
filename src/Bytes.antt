-- ===== src/Bytes.antt =====
-- Byte vectors: how `memcpy` of a fixed-size field writes to and reads from a
-- std::vector<uint8_t>, on a little-endian machine (Peer/Utils/SerializeDeserializeUtils.h).
pub mod RoundTrip
pub mod Ensures
use gitabic.Base.{ℕ, zero, suc, ◌+◌, ◌*◌, ◌/◌, ◌%◌, ◌<◌, List, [], ◌∷◌, ◌++◌, All}

-- The exceptions that the source throws.
pub data Error : Type 0 where
  runtime_error out_of_range invalid_argument length_error system_error : Error

-- What a C++ call comes to. `fault` is undefined behaviour: an access outside a buffer.
pub data Outcome {ℓ} (A : Type ℓ) : Type ℓ where
  ok : A → Outcome A
  raise : Error → Outcome A
  fault : Outcome A

abbrev pub bind {ℓ κ} : {A : Type ℓ} {B : Type κ} → Outcome A → (A → Outcome B) → Outcome B
bind (ok a) f = f a
bind (raise e) f = raise e
bind fault f = fault

-- A reader takes the bytes from the current offset on, and returns those behind what it read.
abbrev pub Reader {ℓ} : Type ℓ → Type ℓ
Reader A = List ℕ → Outcome (A × List ℕ)

infixl 5 ◌>>=◌ ◌>>◌
abbrev pub ◌>>=◌ {ℓ κ} : {A : Type ℓ} {B : Type κ} → Reader A → (A → Reader B) → Reader B
◌>>=◌ m f bytes = bind (m bytes) (λ p. f p.0 p.1)

abbrev ◌>>◌ {ℓ κ} : {A : Type ℓ} {B : Type κ} → Reader A → Reader B → Reader B
◌>>◌ m k = m >>= λ _. k

abbrev pub return {ℓ} : {A : Type ℓ} → A → Reader A
return a bytes = ok (a, bytes)

abbrev pub IsByte : ℕ → Type 0
IsByte b = b < 256

-- The `n` bytes of an unsigned field that holds `x`, lowest first.
unfoldable pub le : ℕ → ℕ → List ℕ
le zero x = []
le (suc n) x = (x % 256) ∷ le n (x / 256)

-- `memcpy(&x, data.data() + offset, n); offset += n;` for an unsigned field of `n` bytes.
unfoldable pub read_le : ℕ → Reader ℕ
read_le zero bytes = ok (0, bytes)
read_le (suc n) [] = fault
read_le (suc n) (b ∷ bytes) = bind (read_le n bytes) (λ p. ok (b + 256 * p.0, p.1))

-- `string(data.data() + offset, data.data() + offset + n); offset += n;`
unfoldable pub read_bytes : ℕ → Reader (List ℕ)
read_bytes zero bytes = ok ([], bytes)
read_bytes (suc n) [] = fault
read_bytes (suc n) (b ∷ bytes) = bind (read_bytes n bytes) (λ p. ok (b ∷ p.0, p.1))
