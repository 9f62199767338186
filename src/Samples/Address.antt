-- ===== src/Samples/Address.antt =====
-- Addresses and their keys at concrete inputs.
use botshield.Prelude.{
  ◌≡◌, ◌↔◌, refl, arith, none, some, [], ◌∷◌, ◌++◌, Bytes, codes, replicate, bytes_eq,
}
use botshield.Shm.State.{pos, negsuc}
use botshield.Address.{parse_client_ip, zero_from, cleared, mask_ipv6_prefix}
use botshield.Address.Prefix.{SharePrefix, mask_ipv6_prefix-SharePrefix}

abbrev first : Bytes
first = 32 ∷ 1 ∷ 13 ∷ 184 ∷ 0 ∷ 0 ∷ 0 ∷ 223 ∷ replicate 8 1

abbrev second : Bytes
second = 32 ∷ 1 ∷ 13 ∷ 184 ∷ 0 ∷ 0 ∷ 0 ∷ 192 ∷ replicate 8 2

keys :
    (mask_ipv6_prefix first (pos 64) ≡ 32 ∷ 1 ∷ 13 ∷ 184 ∷ 0 ∷ 0 ∷ 0 ∷ 223 ∷ replicate 8 0)
    × (mask_ipv6_prefix first (pos 58) ≡ mask_ipv6_prefix second (pos 58))
    × (mask_ipv6_prefix first (pos 128) ≡ first)
    × (mask_ipv6_prefix first (negsuc 0) ≡ first)
unfolding mask_ipv6_prefix cleared zero_from bytes_eq
keys = (refl, refl, refl, refl)

four_in_six :
    parse_client_ip (λ text. some (192 ∷ 0 ∷ 2 ∷ 1 ∷ [])) (λ text. none) (codes "192.0.2.1")
    ≡ some (replicate 10 0 ++ (255 ∷ 255 ∷ 192 ∷ 0 ∷ 2 ∷ 1 ∷ []))
unfolding parse_client_ip
four_in_six = refl

mask_ipv6_prefix-SharePrefix_example :
    (mask_ipv6_prefix first (pos 58) ≡ mask_ipv6_prefix second (pos 58))
    ↔ SharePrefix 58 first second
mask_ipv6_prefix-SharePrefix_example =
    mask_ipv6_prefix-SharePrefix 58 first second refl refl (omega arith) (omega arith)
      (unfold bytes_eq in refl) (unfold bytes_eq in refl) (omega arith) (omega arith)
