-- ===== src/Samples/Hash.antt =====
-- Runs of src/shm.c's hash.
use botshield.Prelude.{◌≡◌, refl, Bytes, [], ◌∷◌}
use botshield.Shm.Hash.{siphash24}

-- Two vectors of SipHash-2-4's reference test, under the key 00 01 .. 0f.
abbrev reference_key : Bytes
reference_key = 0 ∷ 1 ∷ 2 ∷ 3 ∷ 4 ∷ 5 ∷ 6 ∷ 7 ∷ 8 ∷ 9 ∷ 10 ∷ 11 ∷ 12 ∷ 13 ∷ 14 ∷ 15 ∷ []

siphash_empty : siphash24 reference_key [] ≡ 0x726fdb47dd0e0e31
unfolding siphash24
siphash_empty = refl

siphash_fifteen :
    siphash24 reference_key (0 ∷ 1 ∷ 2 ∷ 3 ∷ 4 ∷ 5 ∷ 6 ∷ 7 ∷ 8 ∷ 9 ∷ 10 ∷ 11 ∷ 12 ∷ 13 ∷ 14 ∷ [])
    ≡ 0xa129ca6149be45e5
unfolding siphash24
siphash_fifteen = refl
