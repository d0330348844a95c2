-- ===== src/Aes/Keys.antt =====
-- keyExpansion: the round keys (Peer/Encryptions/AES/AESHandler.cpp).
use gitabic.Base.{ℕ, zero, suc, ◌+◌, ◌<◌, ◌≤◌, ◌≡◌, refl, ap, List, [], ◌∷◌, All, length, arith}
use gitabic.Base.Xor.{bit_xor-lt}
use gitabic.Bytes.{ok, bind}
use gitabic.Aes.{
  Word, word, Matrix4x4, matrix, rotate, map_word, sub_word, xor_first, core, rcon, next_key,
  new_key, expand, key_expansion, get_key, key_at,
}
use gitabic.Aes.Tables.{s_box}
use gitabic.Aes.Columns.{IsBytesWord, IsBytesMatrix}
use gitabic.Aes.Rounds.{sub_word-IsBytesWord, xor_word-IsBytesWord}

rotate-IsBytesWord : (w : Word) → IsBytesWord w → IsBytesWord (rotate 1 w)
unfolding rotate
rotate-IsBytesWord (word a b c d) h = omega arith

xor_first-IsBytesWord : (k : ℕ) (w : Word) → k < 256 → IsBytesWord w → IsBytesWord (xor_first k w)
unfolding xor_first
xor_first-IsBytesWord k (word a b c d) hk h = (bit_xor-lt a k h.0 hk, h.1, h.2, h.3)

core-IsBytesWord : (k : ℕ) (w : Word) → k < 256 → IsBytesWord w → IsBytesWord (core k w)
unfolding core sub_word
core-IsBytesWord k w hk h =
    xor_first-IsBytesWord k (map_word s_box (rotate 1 w)) hk
      (sub_word-IsBytesWord (rotate 1 w) (rotate-IsBytesWord w h))

-- The constants of the rounds, which exist for rounds one to ten.
rcon-lt : (round : ℕ) → 1 ≤ round → round ≤ 10 → (k : ℕ) × (rcon round ≡ ok k) × (k < 256)
unfolding rcon
rcon-lt zero p q = absurd (omega arith)
rcon-lt (suc zero) p q = (0x01, refl, omega arith)
rcon-lt (suc (suc zero)) p q = (0x02, refl, omega arith)
rcon-lt (suc (suc (suc zero))) p q = (0x04, refl, omega arith)
rcon-lt (suc (suc (suc (suc zero)))) p q = (0x08, refl, omega arith)
rcon-lt (suc (suc (suc (suc (suc zero))))) p q = (0x10, refl, omega arith)
rcon-lt (suc (suc (suc (suc (suc (suc zero)))))) p q = (0x20, refl, omega arith)
rcon-lt (suc (suc (suc (suc (suc (suc (suc zero))))))) p q = (0x40, refl, omega arith)
rcon-lt (suc (suc (suc (suc (suc (suc (suc (suc zero)))))))) p q = (0x80, refl, omega arith)
rcon-lt (suc (suc (suc (suc (suc (suc (suc (suc (suc zero))))))))) p q = (0x1b, refl, omega arith)
rcon-lt (suc (suc (suc (suc (suc (suc (suc (suc (suc (suc zero)))))))))) p q =
    (0x36, refl, omega arith)
rcon-lt (suc (suc (suc (suc (suc (suc (suc (suc (suc (suc (suc n))))))))))) p q =
    absurd (omega arith)

new_key-IsBytesMatrix :
    (k : ℕ) (prev : Matrix4x4) → k < 256 → IsBytesMatrix prev → IsBytesMatrix (new_key k prev)
unfolding new_key
new_key-IsBytesMatrix k (matrix w0 w1 w2 w3) small (h0, h1, h2, h3) =
    let n0 = xor_word-IsBytesWord w0 _ h0 (core-IsBytesWord k w3 small h3) in
    let n1 = xor_word-IsBytesWord _ w1 n0 h1 in
    let n2 = xor_word-IsBytesWord _ w2 n1 h2 in (n0, n1, n2, xor_word-IsBytesWord _ w3 n2 h3)

next_key_lem :
    (round : ℕ) (prev : Matrix4x4)
    → 1 ≤ round
    → round ≤ 10
    → IsBytesMatrix prev
    → (key : Matrix4x4) × (next_key round prev ≡ ok key) × IsBytesMatrix key
unfolding next_key
next_key_lem round prev p q h =
    let (k, e, small) = rcon-lt round p q in
    (new_key k prev, rw e, new_key-IsBytesMatrix k prev small h)

expand_lem :
    (n round : ℕ) (prev : Matrix4x4)
    → 1 ≤ round
    → n + round ≤ 11
    → IsBytesMatrix prev
    → (keys : List Matrix4x4) × (expand n round prev ≡ ok keys)
      × (length keys ≡ n)
      × All IsBytesMatrix keys
unfolding expand
expand_lem zero round prev p q h = ([], refl, refl, tt)
expand_lem (suc n) round prev p q h =
    let (key, e, good) = next_key_lem round prev p (omega arith) h in
    let (keys, f, size, all) = expand_lem n (round + 1) key (omega arith) (omega arith) good in
    (key ∷ keys, rw (e, f), ap suc size, (good, all))

-- For a key of bytes the expansion always succeeds: it gives eleven round keys of bytes, of which the
-- first, the one that getKey returns, is the key itself.
pub key_expansion_lem :
    (key : Matrix4x4)
    → IsBytesMatrix key
    → (keys : List Matrix4x4) × (key_expansion key ≡ ok keys)
      × (length keys ≡ 11)
      × (get_key keys ≡ key)
      × All IsBytesMatrix keys
unfolding key_expansion get_key key_at
key_expansion_lem key h =
    let (keys, e, size, all) = expand_lem 10 1 key (omega arith) (omega arith) h in
    (key ∷ keys, ap (λ o. bind o (λ ks. ok (key ∷ ks))) e, ap suc size, refl, (h, all))
