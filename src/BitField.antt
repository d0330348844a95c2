-- ===== src/BitField.antt =====
-- DownloadProgress::getBitField (Peer/Utils/DowndloadProgress/DownloadProgress.cpp): the bit field
-- that a peer sends of its own pieces.
pub mod Bits
pub mod Pieces
use gitabic.Base.{ℕ, zero, suc, ◌+◌, ◌%◌, Bool, ◌==◌, if◌then◌else◌, List, [], ◌∷◌, ◌++◌}
use gitabic.Progress.Status.{verified, status_eq}
use gitabic.Progress.Piece.{PieceProgress}
use gitabic.Progress.Download.{DownloadProgress}
use gitabic.Chooser.Rarity.{set_bit, reset_bit}

-- `bits[i] = v`
unfoldable pub assign_bit : ℕ → ℕ → Bool → ℕ
assign_bit b i v = if v then set_bit b i else reset_bit b i

-- A change to `bitField.back()`.
unfoldable pub set_back : (ℕ → ℕ) → List ℕ → List ℕ
set_back f [] = []
set_back f (b ∷ []) = f b ∷ []
set_back f (b ∷ c ∷ bs) = b ∷ set_back f (c ∷ bs)

-- The loop, from piece `i` on.
unfoldable pub bit_field_from : ℕ → List PieceProgress → List ℕ → List ℕ
bit_field_from i [] field = field
bit_field_from i (p ∷ ps) field =
    let grown : List ℕ = if i % 8 == 0 then field ++ (0 ∷ []) else field in
    bit_field_from (suc i) ps
      (set_back (λ b. assign_bit b (i % 8) (status_eq p.status verified)) grown)

unfoldable pub get_bit_field : DownloadProgress → List ℕ
get_bit_field d = bit_field_from 0 d.pieces []
