-- ===== src/Codec/Number.antt =====
-- The bounded number parsers of src/crypto.c, with what they use of `strtol` and `strtoul` for base
-- ten, and the decimal text that `%d` and `%u` print for numbers that are not negative. `long` has
-- 64 bits. Every caller's bounds are non-negative, so a result is a natural number.
use botshield.Prelude.{
  ℕ, zero, suc, ◌+◌, ◌-◌, ◌*◌, ◌/◌, ◌%◌, ◌^◌, Bool, true, false, ◌&&◌, ◌||◌, Option, none, some, [],
  ◌∷◌, Bytes, ltb, leb, ◌==◌, if◌then◌else◌, length,
}

abbrev pub is_digit : ℕ → Bool
is_digit c = leb 48 c && leb c 57

abbrev pub all_digits : Bytes → Bool
all_digits [] = true
all_digits (c ∷ text) = is_digit c && all_digits text

-- `isspace`
abbrev pub is_space : ℕ → Bool
is_space c = c == 32 || (leb 9 c && leb c 13)

-- The number that the digits spell behind `acc`; `none` if another character follows them.
unfoldable pub digits_value : ℕ → Bytes → Option ℕ
digits_value acc [] = some acc
digits_value acc (c ∷ text) =
    let onward = digits_value (acc * 10 + (c - 48)) text in if is_digit c then onward else none

-- One digit at least, and nothing behind the digits.
unfoldable pub whole_digits : Bytes → Option ℕ
whole_digits [] = none
whole_digits (c ∷ text) = digits_value 0 (c ∷ text)

-- Whether a minus stands before the digits, and their value.
unfoldable pub signed_digits : Bytes → Bool × Option ℕ
signed_digits [] = (false, none)
signed_digits (c ∷ text) =
    if c == 45
    then (true, whole_digits text)
    else if c == 43
    then (false, whole_digits text)
    else (false, whole_digits (c ∷ text))

-- What `strtol` reads of a text, if it reads all of it: white space, a sign, and digits.
unfoldable pub read_signed : Bytes → Bool × Option ℕ
read_signed [] = (false, none)
read_signed (c ∷ text) =
    let onward = read_signed text in if is_space c then onward else signed_digits (c ∷ text)

-- A `long` as `strtol` returns it, unless that is ERANGE or the number is below zero.
unfoldable pub long_value : Bool × Option ℕ → Option ℕ
long_value (negative, none) = none
long_value (true, some v) = if v == 0 then some 0 else none
long_value (false, some v) = if ltb v (2 ^ 63) then some v else none

abbrev pub within : ℕ → ℕ → Option ℕ → Option ℕ
within min_val max_val none = none
within min_val max_val (some v) = if ltb v min_val || ltb max_val v then none else some v

-- `bs_parse_int_bounded`
unfoldable pub parse_int_bounded : Bytes → ℕ → ℕ → ℕ → Option ℕ
parse_int_bounded text min_val max_val max_len =
    if length text == 0
    then none
    else if ltb max_len (length text)
    then none
    else within min_val max_val (long_value (read_signed text))

-- `strtoul` negates in the ring of 64-bit numbers.
unfoldable pub ulong_value : Bool × Option ℕ → Option ℕ
ulong_value (negative, none) = none
ulong_value (true, some v) = if ltb v (2 ^ 64) then some ((2 ^ 64 - v) % 2 ^ 64) else none
ulong_value (false, some v) = if ltb v (2 ^ 64) then some v else none

-- `bs_parse_uint32_bounded`
unfoldable pub parse_uint32_bounded : Bytes → ℕ → Option ℕ
parse_uint32_bounded text max_len =
    if length text == 0
    then none
    else if ltb max_len (length text)
    then none
    else within 0 (2 ^ 32 - 1) (ulong_value (read_signed text))

-- `bs_parse_int64_bounded`
unfoldable pub parse_int64_bounded : Bytes → ℕ → ℕ → Option ℕ
parse_int64_bounded text min_val max_val =
    if length text == 0
    then none
    else if ltb 19 (length text)
    then none
    else within min_val max_val (long_value (read_signed text))

-- The decimal digits of a number before `out`, `n` of them at most.
unfoldable pub digits_of : ℕ → ℕ → Bytes → Bytes
digits_of zero v out = out
digits_of (suc n) v out =
    let more = digits_of n (v / 10) ((48 + v % 10) ∷ out) in
    if ltb v 10 then (48 + v) ∷ out else more

-- `%d` or `%u` of a number below 10 ^ 20
abbrev pub decimal : ℕ → Bytes
decimal v = digits_of 20 v []
