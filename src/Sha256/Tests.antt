-- ===== src/Sha256/Tests.antt =====
-- Runs of the SHA-256 code.
use vmodem.Prelude.{◌≡◌, refl, List, ℕ, ◌∷◌, [], replicate, joined, arith}
use vmodem.Sha256.{init, final, simple, transform}
use vmodem.Sha256.Digest.{digest, update_all, final-update_all}

abbrev stale : List ℕ
stale = replicate 64 7

-- "abc"
abc :
    simple stale (0x61 ∷ 0x62 ∷ 0x63 ∷ [])
    ≡ 0xba ∷ 0x78 ∷ 0x16 ∷ 0xbf ∷ 0x8f ∷ 0x01 ∷ 0xcf ∷ 0xea ∷ 0x41 ∷ 0x41 ∷ 0x40 ∷ 0xde ∷ 0x5d
      ∷ 0xae ∷ 0x22 ∷ 0x23 ∷ 0xb0 ∷ 0x03 ∷ 0x61 ∷ 0xa3 ∷ 0x96 ∷ 0x17 ∷ 0x7a ∷ 0x9c ∷ 0xb4 ∷ 0x10
      ∷ 0xff ∷ 0x61 ∷ 0xf2 ∷ 0x00 ∷ 0x15 ∷ 0xad ∷ []
unfolding simple transform
abc = refl

abbrev pieces : List (List ℕ)
pieces = (0x61 ∷ 0x62 ∷ []) ∷ (0x63 ∷ []) ∷ []

final-update_all_example : final (update_all (init stale) pieces) ≡ digest (joined pieces)
final-update_all_example = final-update_all stale pieces refl (omega arith) (omega arith)
