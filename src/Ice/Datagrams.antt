-- ===== src/Ice/Datagrams.antt =====
-- Which datagrams are messages (Peer/ICEConnection/ICEConnection.cpp).
use native.Mathlib.Nat.{pow-suc}
use gitabic.Base.{
  ℕ, zero, suc, ◌+◌, ◌-◌, ◌*◌, ◌/◌, ◌%◌, ◌^◌, ◌<◌, ◌≤◌, ◌≡◌, ◌↔◌, sym, ap, ◌∙◌, subst, true, false,
  ltb, ltb→le, le→ltb, ◌==◌, ==_iff, Bool-cases, inl, inr, List, [], ◌∷◌, ◌++◌, append_assoc,
  length, length-append, All, arith,
}
use gitabic.Bytes.{Outcome, ok, raise, runtime_error, IsByte, le, read_le}
use gitabic.Bytes.RoundTrip.{length-le, read_le-le}
use gitabic.Bytes.Ensures.{bind-eq_ok}
use gitabic.Message.Frame.{Received, serialize_base}
use gitabic.Ice.{read_header, deserialize_message}

-- A message as it is sent.
unfoldable pub datagram : Received → List ℕ
datagram m = serialize_base m.code (length m.payload) ++ m.payload

-- A field that was read is what its value is written as.
pub record IsRead (n x : ℕ) (bytes rest : List ℕ) : Type 0 where
  pub written : bytes ≡ le n x ++ rest
  pub bound : x < 256 ^ n
  pub behind : All IsByte rest

read_le-IsRead :
    (n x : ℕ) (bytes rest : List ℕ)
    → All IsByte bytes
    → read_le n bytes ≡ ok (x, rest)
    → IsRead n x bytes rest
unfolding le read_le
read_le-IsRead zero x bytes rest h e =
    let same : bytes ≡ rest = cc in
    let none_read : 0 ≡ x = cc in
    record { written = same; bound = omega (arith, none_read); behind = subst (All IsByte) same h }
read_le-IsRead (suc n) x [] rest h e = cc
read_le-IsRead (suc n) x (b ∷ bytes) rest h e =
    let (r, e1, e2) = bind-eq_ok (read_le n bytes) _ (x, rest) e in
    let value : b + 256 * r.0 ≡ x = cc in
    let left : r.1 ≡ rest = cc in
    let inner = read_le-IsRead n r.0 bytes r.1 h.1 e1 in
    let low : x % 256 ≡ b = omega (arith, value, h.0) in
    let high : x / 256 ≡ r.0 = omega (arith, value, h.0) in
    record {
      written = rw (low, high) (ap (◌∷◌ b) (inner.written ∙ ap (λ l. le n r.0 ++ l) left));
      bound = omega (arith, value, h.0, inner.bound, pow-suc 256 n);
      behind = subst (All IsByte) left inner.behind;
    }

length-base :
    (code size : ℕ) (rest : List ℕ) → length (serialize_base code size ++ rest) ≡ 5 + length rest
unfolding serialize_base
length-base code size rest = omega (
  arith,
  length-append (le 1 code ++ le 4 size) rest,
  length-append (le 1 code) (le 4 size),
  length-le 1 code,
  length-le 4 size,
)

pub length-datagram : (m : Received) → length (datagram m) ≡ 5 + length m.payload
unfolding datagram
length-datagram m = length-base m.code (length m.payload) m.payload

read_header-datagram :
    (m : Received)
    → m.code < 256
    → length m.payload < 2 ^ 32
    → read_header (datagram m) ≡ ok ((m.code, length m.payload), m.payload)
unfolding read_header datagram serialize_base
read_header-datagram m hc hp =
    simp (append_assoc, read_le-le 1 m.code _ hc, read_le-le 4 (length m.payload) _ hp)

pub deserialize_message-datagram :
    (m : Received)
    → m.code < 256
    → length m.payload < 2 ^ 32
    → deserialize_message (datagram m) ≡ ok m
unfolding deserialize_message
deserialize_message-datagram m hc hp =
    let size = length-datagram m in
    let long : ltb (length (datagram m)) 5 ≡ false = le→ltb _ _ (omega (arith, size)) in
    let same : (length m.payload == length (datagram m) - 1 - 4) ≡ true = ground (arith, size) in
    rw (long, read_header-datagram m hc hp, same)

read_header_inv :
    (bytes : List ℕ) (r : (ℕ × ℕ) × List ℕ)
    → All IsByte bytes
    → read_header bytes ≡ ok r
    → (bytes ≡ serialize_base r.0.0 r.0.1 ++ r.1) × (r.0.0 < 256)
unfolding read_header serialize_base
read_header_inv bytes r h e =
    let (c, e1, h1) = bind-eq_ok (read_le 1 bytes) _ r e in
    let (z, e2, h2) = bind-eq_ok (read_le 4 c.1) _ r h1 in
    let code = read_le-IsRead 1 c.0 bytes c.1 h e1 in
    let size = read_le-IsRead 4 z.0 c.1 z.1 code.behind e2 in
    let same : ((c.0, z.0), z.1) ≡ r = cc in
    let whole : bytes ≡ (le 1 c.0 ++ le 4 z.0) ++ z.1 =
      code.written
      ∙ ap (λ l. le 1 c.0 ++ l) size.written
      ∙ sym (append_assoc (le 1 c.0) (le 4 z.0) z.1) in
    let small : c.0 < 256 = code.bound in
    subst (λ t. (bytes ≡ (le 1 t.0.0 ++ le 4 t.0.1) ++ t.1) × (t.0.0 < 256)) same (whole, small)

deserialize_short :
    (bytes : List ℕ) → ltb (length bytes) 5 ≡ true → deserialize_message bytes ≡ raise runtime_error
unfolding deserialize_message
deserialize_short bytes short = rw short

abbrev Checked : List ℕ → Received → Type 0
Checked bytes m =
    (r : (ℕ × ℕ) × List ℕ) × (read_header bytes ≡ ok r)
    × (r.0.1 ≡ length bytes - 1 - 4)
    × (record { code = r.0.0; payload = r.1 } ≡ m)

deserialize_long :
    (bytes : List ℕ) (m : Received)
    → ltb (length bytes) 5 ≡ false
    → deserialize_message bytes ≡ ok m
    → Checked bytes m
unfolding deserialize_message
deserialize_long bytes m long e =
    let (r, e1, e2) = bind-eq_ok (read_header bytes) _ m (rw long at e) in
    elim (Bool-cases (r.0.1 == length bytes - 1 - 4)) [
      | inl same ↦
          let found : ok (record { code = r.0.0; payload = r.1 }) ≡ ok m = rw same at e2 in
          (r, e1, (==_iff _ _).0 same, cc)
      | inr other ↦
          let refused : ◌≡◌ {A = Outcome Received} (raise runtime_error) (ok m) = rw other at e2 in
          cc
    ]

accepted :
    (bytes : List ℕ) (m : Received)
    → All IsByte bytes
    → 5 ≤ length bytes
    → Checked bytes m
    → (m.code < 256) × (bytes ≡ datagram m)
unfolding datagram
accepted bytes m h long (r, e, same, found) =
    let (whole, small) = read_header_inv bytes r h e in
    let size : length r.1 ≡ r.0.1 =
      omega (arith, ap length whole, same, long, length-base r.0.0 r.0.1 r.1) in
    subst (λ t. (t.code < 256) × (bytes ≡ serialize_base t.code (length t.payload) ++ t.payload))
      found (small, whole ∙ ap (λ n. serialize_base r.0.0 n ++ r.1) (sym size))

-- A datagram of bytes, shorter than 2^32, is accepted as a message exactly if it is what serialize makes
-- of that message: a code of one byte, the length of the data and the data, with nothing behind it.
pub deserialize_message_iff :
    (bytes : List ℕ) (m : Received)
    → All IsByte bytes
    → length bytes < 2 ^ 32
    → (deserialize_message bytes ≡ ok m) ↔ ((m.code < 256) × (bytes ≡ datagram m))
deserialize_message_iff bytes m h small = (forth, back)
  where
    back : (m.code < 256) × (bytes ≡ datagram m) → deserialize_message bytes ≡ ok m
    back p =
        let size : length bytes ≡ 5 + length m.payload = ap length p.1 ∙ length-datagram m in
        ap deserialize_message p.1 ∙ deserialize_message-datagram m p.0 (omega (arith, size, small))

    forth : deserialize_message bytes ≡ ok m → (m.code < 256) × (bytes ≡ datagram m)
    forth e = elim (Bool-cases (ltb (length bytes) 5)) [
      | inl short ↦ cc (deserialize_short bytes short)
      | inr long ↦ accepted bytes m h (ltb→le _ _ long) (deserialize_long bytes m long e)
    ]
