-- ===== src/Address.antt =====
-- A client's address as the tables are keyed by it: `bs_parse_client_ip` and `bs_mask_ipv6_prefix` of
-- src/allowlist.c. `inet_pton` of the C library is a parameter.
pub mod Prefix
use botshield.Prelude.{
  ℕ, zero, suc, ◌+◌, ◌-◌, ◌*◌, ◌/◌, ◌%◌, ◌^◌, Bool, true, false, ◌||◌, Option, none, some, [], ◌∷◌,
  ◌++◌, Bytes, leb, ◌==◌, if◌then◌else◌, get_or, set, take, bytes_eq, bit_and,
}
use botshield.Shm.State.{ℤ, pos, negsuc}

abbrev pub v4_mapped : Bytes
v4_mapped = 0 ∷ 0 ∷ 0 ∷ 0 ∷ 0 ∷ 0 ∷ 0 ∷ 0 ∷ 0 ∷ 0 ∷ 255 ∷ 255 ∷ []

abbrev pub address_of : Option Bytes → Option Bytes → Option Bytes
address_of (some v4) v6 = some (v4_mapped ++ v4)
address_of none (some v6) = some v6
address_of none none = none

-- `bs_parse_client_ip`, with `inet_pton` for AF_INET and for AF_INET6
unfoldable pub parse_client_ip :
    (Bytes → Option Bytes) → (Bytes → Option Bytes) → Bytes → Option Bytes
parse_client_ip pton4 pton6 [] = none
parse_client_ip pton4 pton6 (c ∷ text) = address_of (pton4 (c ∷ text)) (pton6 (c ∷ text))

-- The bytes from the `n`th on become zero.
unfoldable pub zero_from : ℕ → Bytes → Bytes
zero_from n [] = []
zero_from zero (x ∷ xs) = 0 ∷ zero_from zero xs
zero_from (suc n) (x ∷ xs) = x ∷ zero_from n xs

abbrev pub is_v4_mapped : Bytes → Bool
is_v4_mapped ip = bytes_eq (take 12 ip) v4_mapped

-- `(unsigned char)(0xff << (8 - extra_bits))`
abbrev pub keep_mask : ℕ → ℕ
keep_mask extra = 255 * 2 ^ (8 - extra) % 256

-- The address with the bits behind the prefix cleared.
unfoldable pub cleared : ℕ → Bytes → Bytes
cleared bits ip =
    let full = bits / 8 in
    let extra = bits % 8 in
    if extra == 0
    then zero_from full ip
    else zero_from (full + 1) (set ip full (bit_and (get_or ip full 0) (keep_mask extra)))

-- `bs_mask_ipv6_prefix`
unfoldable pub mask_ipv6_prefix : Bytes → ℤ → Bytes
mask_ipv6_prefix ip (negsuc n) = ip
mask_ipv6_prefix ip (pos bits) =
    if is_v4_mapped ip then ip else if bits == 0 || leb 128 bits then ip else cleared bits ip
