-- ===== src/Codec/Decimal.antt =====
-- Decimal text that is printed is read back.
use botshield.Prelude.{
  ℕ, zero, suc, ◌+◌, ◌-◌, ◌*◌, ◌/◌, ◌%◌, ◌^◌, ◌≤◌, ◌<◌, ◌≡◌, refl, ◌∙◌, ap, Bool, true, false, ◌&&◌,
  some, [], ◌∷◌, Bytes, arith, ltb, leb, ◌==◌, length, inl, inr, Bool-cases,
}
use botshield.Codec.Number.{
  is_digit, all_digits, is_space, digits_value, whole_digits, signed_digits, read_signed,
  long_value, ulong_value, within, parse_int_bounded, parse_uint32_bounded, parse_int64_bounded,
  digits_of, decimal,
}

abbrev pub pow10 : ℕ → ℕ
pow10 zero = 1
pow10 (suc n) = 10 * pow10 n

digits_of-last : (n v : ℕ) (out : Bytes) → v < 10 → digits_of (suc n) v out ≡ (48 + v) ∷ out
unfolding digits_of
digits_of-last n v out h = ground (arith, h)

digits_of-more :
    (n v : ℕ) (out : Bytes)
    → ltb v 10 ≡ false
    → digits_of (suc n) v out ≡ digits_of n (v / 10) ((48 + v % 10) ∷ out)
unfolding digits_of
digits_of-more n v out h = rw h refl

digits_value-last :
    (v : ℕ) (out : Bytes) → digits_value (v / 10) ((48 + v % 10) ∷ out) ≡ digits_value v out
unfolding digits_value
digits_value-last v out =
    let digit : is_digit (48 + v % 10) ≡ true = ground arith in
    rw digit (ap (λ (w : ℕ). digits_value w out) (omega arith))

digits_value-one :
    (n v : ℕ) (out : Bytes) → v < 10 → digits_value 0 (digits_of (suc n) v out) ≡ digits_value v out
unfolding digits_value
digits_value-one n v out h =
    let digit : is_digit (48 + v) ≡ true = ground (arith, h) in
    rw (digits_of-last n v out h, digit) (ap (λ (w : ℕ). digits_value w out) (omega arith))

digits_value-digits_of :
    (n v : ℕ) (out : Bytes)
    → v < pow10 (suc n)
    → digits_value 0 (digits_of (suc n) v out) ≡ digits_value v out
digits_value-digits_of zero v out h = digits_value-one 0 v out (omega (arith, h))
digits_value-digits_of (suc n) v out h = elim (Bool-cases (ltb v 10)) [
  | inl small ↦ digits_value-one (suc n) v out (ground (arith, small))
  | inr big ↦ rw (digits_of-more (suc n) v out big) (
      digits_value-digits_of n (v / 10) ((48 + v % 10) ∷ out) (omega (arith, h))
      ∙ digits_value-last v out)
]

-- Digits only, and the first one is not a zero.
abbrev pub leads : Bytes → Bool
leads [] = false
leads (c ∷ text) = leb 49 c && (leb c 57 && all_digits text)

pub leads-digits_of :
    (n v : ℕ) (out : Bytes)
    → 0 < v
    → v < pow10 (suc n)
    → all_digits out ≡ true
    → leads (digits_of (suc n) v out) ≡ true
leads-digits_of zero v out some_left h all =
    rw (digits_of-last 0 v out (omega (arith, h))) (ground (arith, some_left, h, all))
leads-digits_of (suc n) v out some_left h all = elim (Bool-cases (ltb v 10)) [
  | inl small ↦
      let lt : v < 10 = ground (arith, small) in
      rw (digits_of-last (suc n) v out lt) (ground (arith, some_left, lt, all))
  | inr big ↦
      let ge : 10 ≤ v = ground (arith, big) in
      rw (digits_of-more (suc n) v out big) (
        leads-digits_of n (v / 10) ((48 + v % 10) ∷ out) (omega (arith, ge)) (omega (arith, h))
          (ground (arith, all)))
]

length-digits_of :
    (n l v : ℕ) (out : Bytes) → v < pow10 (suc l) → length (digits_of n v out) ≤ suc l + length out
length-digits_of zero l v out h = unfold digits_of in omega arith
length-digits_of (suc n) zero v out h = rw (digits_of-last n v out (omega (arith, h))) (omega arith)
length-digits_of (suc n) (suc l) v out h = elim (Bool-cases (ltb v 10)) [
  | inl small ↦ rw (digits_of-last n v out (ground (arith, small))) (omega arith)
  | inr big ↦
      let rest = length-digits_of n l (v / 10) ((48 + v % 10) ∷ out) (omega (arith, h)) in
      rw (digits_of-more n v out big) (omega (arith, rest))
]

abbrev begins : Bytes → Bool
begins [] = false
begins (c ∷ text) = is_digit c

leads→begins : (text : Bytes) → leads text ≡ true → begins text ≡ true
leads→begins [] h = h
leads→begins (c ∷ text) h = ground (arith, h)

begins-decimal : (v : ℕ) → v < pow10 20 → begins (decimal v) ≡ true
begins-decimal zero h = unfold digits_of in refl
begins-decimal (suc v) h =
    leads→begins (decimal (suc v)) (leads-digits_of 19 (suc v) [] (omega arith) h refl)

read-begins : (text : Bytes) → begins text ≡ true → read_signed text ≡ (false, digits_value 0 text)
unfolding read_signed signed_digits whole_digits
read-begins [] h = absurd (ground (arith, h))
read-begins (c ∷ text) h =
    let plain : is_space c ≡ false = ground (arith, h) in
    let no_minus : (c == 45) ≡ false = ground (arith, h) in
    let no_plus : (c == 43) ≡ false = ground (arith, h) in rw (plain, no_minus, no_plus) refl

read-decimal : (v : ℕ) → v < pow10 20 → read_signed (decimal v) ≡ (false, some v)
read-decimal v h =
    rw (read-begins (decimal v) (begins-decimal v h), digits_value-digits_of 19 v [] h)
      (unfold digits_value in refl)

length-begins : (text : Bytes) → begins text ≡ true → (length text == 0) ≡ false
length-begins [] h = absurd (ground (arith, h))
length-begins (c ∷ text) h = ground arith

within-between :
    (min_val max_val v : ℕ) → min_val ≤ v → v ≤ max_val → within min_val max_val (some v) ≡ some v
within-between min_val max_val v lo hi = ground (arith, lo, hi)

-- A length that a number's decimal text does not exceed.
fits-decimal :
    (v l max_len : ℕ)
    → v < pow10 (suc l)
    → suc l ≤ max_len
    → ltb max_len (length (decimal v)) ≡ false
fits-decimal v l max_len h le =
    let short = length-digits_of 20 l v [] h in ground (arith, short, le)

pub parse_int_bounded-decimal :
    (v min_val max_val l max_len : ℕ)
    → min_val ≤ v
    → v ≤ max_val
    → v < 2 ^ 63
    → v < pow10 (suc l)
    → suc l ≤ max_len
    → parse_int_bounded (decimal v) min_val max_val max_len ≡ some v
unfolding parse_int_bounded long_value
parse_int_bounded-decimal v min_val max_val l max_len lo hi word short le =
    let small : v < pow10 20 = omega (arith, word) in
    let long : ltb v (2 ^ 63) ≡ true = ground (arith, word) in
    rw
      (
        length-begins (decimal v) (begins-decimal v small),
        fits-decimal v l max_len short le,
        read-decimal v small,
        long,
      )
      (within-between min_val max_val v lo hi)

pub parse_int64_bounded-decimal :
    (v : ℕ) → v < 2 ^ 63 → parse_int64_bounded (decimal v) 0 (2 ^ 63 - 1) ≡ some v
unfolding parse_int64_bounded long_value
parse_int64_bounded-decimal v word =
    let small : v < pow10 20 = omega (arith, word) in
    let long : ltb v (2 ^ 63) ≡ true = ground (arith, word) in
    rw
      (
        length-begins (decimal v) (begins-decimal v small),
        fits-decimal v 18 19 (omega (arith, word)) (omega arith),
        read-decimal v small,
        long,
      )
      (within-between 0 (2 ^ 63 - 1) v (omega arith) (omega (arith, word)))

pub parse_uint32_bounded-decimal :
    (v : ℕ) → v < 2 ^ 32 → parse_uint32_bounded (decimal v) 10 ≡ some v
unfolding parse_uint32_bounded ulong_value
parse_uint32_bounded-decimal v word =
    let small : v < pow10 20 = omega (arith, word) in
    let long : ltb v (2 ^ 64) ≡ true = ground (arith, word) in
    rw
      (
        length-begins (decimal v) (begins-decimal v small),
        fits-decimal v 9 10 (omega (arith, word)) (omega arith),
        read-decimal v small,
        long,
      )
      (within-between 0 (2 ^ 32 - 1) v (omega arith) (omega (arith, word)))
