-- ===== src/Samples/Codec.antt =====
-- Hexadecimal text at concrete inputs.
use botshield.Prelude.{◌≡◌, refl, none, some, [], ◌∷◌, Bytes, codes, arith, length, map, take}
use botshield.Codec.{to_hex, from_hex, read_bytes, hex_value}
use botshield.Codec.RoundTrip.{AllBytes, lower_digit, from_hex-to_hex, to_hex-from_hex}

abbrev sample : Bytes
sample = 0 ∷ 171 ∷ 255 ∷ []

mixed_case : from_hex (codes "00Abffzz") 3 ≡ some sample
unfolding from_hex read_bytes hex_value
mixed_case = refl

not_hex : from_hex (codes "00gg") 2 ≡ none
unfolding from_hex read_bytes hex_value
not_hex = refl

too_short : from_hex (codes "00a") 2 ≡ none
unfolding from_hex
too_short = refl

from_hex-to_hex_example : from_hex (to_hex sample) 3 ≡ some sample
from_hex-to_hex_example = from_hex-to_hex sample (omega arith, (omega arith, (omega arith, tt)))

to_hex-from_hex_example :
    (length sample ≡ 3)
    × AllBytes sample
    × (to_hex sample ≡ map lower_digit (take 6 (codes "00Abffzz")))
to_hex-from_hex_example = to_hex-from_hex 3 (codes "00Abffzz") sample mixed_case
