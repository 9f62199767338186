-- ===== src/Codec.antt =====
-- The hexadecimal text of src/crypto.c: `bs_to_hex` and `bs_from_hex`.
pub mod RoundTrip
pub mod Number
pub mod Decimal
use botshield.Prelude.{
  ℕ, zero, suc, ◌+◌, ◌-◌, ◌*◌, ◌/◌, ◌%◌, Bool, true, false, ◌&&◌, Option, none, some, [], ◌∷◌,
  Bytes, ltb, leb, if◌then◌else◌, get_or, length, codes,
}

-- The table `H`.
abbrev pub digits : Bytes
digits = codes "0123456789abcdef"

abbrev pub hex_digit : ℕ → ℕ
hex_digit n = get_or digits n 0

-- `bs_to_hex`; the high half of a byte first.
unfoldable pub to_hex : Bytes → Bytes
to_hex [] = []
to_hex (b ∷ bytes) = hex_digit (b / 16) ∷ (hex_digit (b % 16) ∷ to_hex bytes)

-- The value of a character, `none` for -1.
unfoldable pub hex_value : ℕ → Option ℕ
hex_value c =
    if leb 48 c && leb c 57
    then some (c - 48)
    else if leb 97 c && leb c 102
    then some (c - 97 + 10)
    else if leb 65 c && leb c 70
    then some (c - 65 + 10)
    else none

abbrev pub join_byte : Option ℕ → Option ℕ → Option ℕ
join_byte none low = none
join_byte (some high) none = none
join_byte (some high) (some low) = some (high * 16 + low)

abbrev pub push_byte : Option ℕ → Option Bytes → Option Bytes
push_byte none rest = none
push_byte (some b) none = none
push_byte (some b) (some rest) = some (b ∷ rest)

-- The loop of `bs_from_hex`, whose length is known to suffice.
unfoldable pub read_bytes : ℕ → Bytes → Option Bytes
read_bytes zero text = some []
read_bytes (suc n) [] = none
read_bytes (suc n) (c ∷ []) = none
read_bytes (suc n) (c ∷ (d ∷ text)) =
    push_byte (join_byte (hex_value c) (hex_value d)) (read_bytes n text)

-- `bs_from_hex`
unfoldable pub from_hex : Bytes → ℕ → Option Bytes
from_hex text out_len = if ltb (length text) (out_len * 2) then none else read_bytes out_len text
