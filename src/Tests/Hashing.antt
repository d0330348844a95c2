-- ===== src/Tests/Hashing.antt =====
-- SHA256 of short messages.
use gitabic.Base.{◌≡◌, refl, [], ◌∷◌, arith}
use gitabic.Sha.Stream.{keep_part, to_hash_sha256, update_all, init, final}
use gitabic.Sha.Standard.{concat}
use gitabic.Sha.Fips.{sha256}
use gitabic.Sha.Finish.{final-update_all}

-- The hash of "abc", as the standard gives it.
abc_test :
    to_hash_sha256 (97 ∷ 98 ∷ 99 ∷ [])
    ≡ 0xba ∷ 0x78 ∷ 0x16 ∷ 0xbf ∷ 0x8f ∷ 0x01 ∷ 0xcf ∷ 0xea ∷ 0x41 ∷ 0x41 ∷ 0x40 ∷ 0xde ∷ 0x5d
      ∷ 0xae ∷ 0x22 ∷ 0x23 ∷ 0xb0 ∷ 0x03 ∷ 0x61 ∷ 0xa3 ∷ 0x96 ∷ 0x17 ∷ 0x7a ∷ 0x9c ∷ 0xb4 ∷ 0x10
      ∷ 0xff ∷ 0x61 ∷ 0xf2 ∷ 0x00 ∷ 0x15 ∷ 0xad ∷ []
unfolding to_hash_sha256 keep_part
abc_test = refl

final-update_all_example :
    (final (update_all ((97 ∷ 98 ∷ []) ∷ (99 ∷ []) ∷ []) init) ≡ sha256 (97 ∷ 98 ∷ 99 ∷ []))
    × (to_hash_sha256 (97 ∷ 98 ∷ 99 ∷ []) ≡ sha256 (97 ∷ 98 ∷ 99 ∷ []))
unfolding concat
final-update_all_example = final-update_all ((97 ∷ 98 ∷ []) ∷ (99 ∷ []) ∷ []) (omega arith)
