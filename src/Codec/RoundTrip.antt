-- ===== src/Codec/RoundTrip.antt =====
-- What is written in hexadecimal is read back, and what is read is what was written, in any case.
use botshield.Prelude.{
  ℕ, zero, suc, ◌+◌, ◌*◌, ◌/◌, ◌%◌, ◌<◌, ◌≡◌, refl, sym, ◌∙◌, ap, Bool, true, false, ◌&&◌, some, [],
  ◌∷◌, Bytes, arith, subst, Option-cases, ltb, leb, ◌==◌, if◌then◌else◌, length, take, inl, inr,
  Bool-cases, map,
}
use botshield.Codec.{hex_digit, to_hex, hex_value, read_bytes, from_hex}

abbrev pub all_below : ℕ → (ℕ → Bool) → Bool
all_below zero test = true
all_below (suc n) test = test n && all_below n test

pub all_below-true : (n k : ℕ) (test : ℕ → Bool) → all_below n test ≡ true → k < n → test k ≡ true
all_below-true zero k test h lt = absurd (omega (arith, lt))
all_below-true (suc n) k test h lt = elim (Bool-cases (k == n)) [
  | inl e ↦ let same : k ≡ n = ground (arith, e) in rw same (ground (arith, h))
  | inr e ↦ all_below-true n k test (ground (arith, h)) (ground (arith, e, lt))
]

-- The table of digits as arithmetic on character codes.
pub digit_code : (n : ℕ) → n < 16 → hex_digit n ≡ (if ltb n 10 then 48 + n else 87 + n)
digit_code n h =
    let e : (hex_digit n == (if ltb n 10 then 48 + n else 87 + n)) ≡ true =
      all_below-true 16 n (λ k. hex_digit k == (if ltb k 10 then 48 + k else 87 + k)) refl h in
    ground (arith, e)

hex_value-hex_digit : (n : ℕ) → n < 16 → hex_value (hex_digit n) ≡ some n
unfolding hex_value
hex_value-hex_digit n h = rw (digit_code n h) (elim (Bool-cases (ltb n 10)) [
  | inl e ↦ rw e (ground (arith, e))
  | inr e ↦ rw e (ground (arith, e, h))
])

-- Every number is a byte.
abbrev pub AllBytes : Bytes → Type 0
AllBytes [] = Unit
AllBytes (b ∷ bytes) = (b < 256) × AllBytes bytes

pub length-to_hex : (bytes : Bytes) → length (to_hex bytes) ≡ length bytes * 2
unfolding to_hex
length-to_hex [] = refl
length-to_hex (b ∷ bytes) = omega (arith, length-to_hex bytes)

read-to_hex :
    (bytes : Bytes) → AllBytes bytes → read_bytes (length bytes) (to_hex bytes) ≡ some bytes
unfolding read_bytes to_hex
read-to_hex [] h = refl
read-to_hex (b ∷ bytes) h =
    let high : hex_value (hex_digit (b / 16)) ≡ some (b / 16) =
      hex_value-hex_digit (b / 16) (omega (arith, h.0)) in
    let low : hex_value (hex_digit (b % 16)) ≡ some (b % 16) =
      hex_value-hex_digit (b % 16) (omega arith) in
    rw (high, low, read-to_hex bytes h.1) (ap (λ (n : ℕ). some (n ∷ bytes)) (omega arith))

-- The hexadecimal text of any bytes is read back as those bytes.
pub from_hex-to_hex :
    (bytes : Bytes) → AllBytes bytes → from_hex (to_hex bytes) (length bytes) ≡ some bytes
unfolding from_hex
from_hex-to_hex bytes h =
    let enough : ltb (length (to_hex bytes)) (length bytes * 2) ≡ false =
      ground (arith, length-to_hex bytes) in
    rw enough (read-to_hex bytes h)

-- An upper-case digit in lower case.
abbrev pub lower_digit : ℕ → ℕ
lower_digit c = if leb 65 c && leb c 70 then c + 32 else c

value-lt : (c v : ℕ) → hex_value c ≡ some v → v < 16
unfolding hex_value
value-lt c v h = ground (arith, h)

digit-value :
    (c v : ℕ) → hex_value c ≡ some v → (if ltb v 10 then 48 + v else 87 + v) ≡ lower_digit c
unfolding hex_value
digit-value c v h = ground (arith, h)

hex_digit-value : (c v : ℕ) → hex_value c ≡ some v → hex_digit v ≡ lower_digit c
hex_digit-value c v h = digit_code v (value-lt c v h) ∙ digit-value c v h

-- What is read as bytes from a text.
ReadsBack : ℕ → Bytes → Bytes → Type 0
ReadsBack n text bytes =
    (length bytes ≡ n) × AllBytes bytes × (to_hex bytes ≡ map lower_digit (take (n * 2) text))

join_halves :
    (high low : ℕ)
    → high < 16
    → low < 16
    → (high * 16 + low < 256) × ((high * 16 + low) / 16 ≡ high) × ((high * 16 + low) % 16 ≡ low)
join_halves high low h l = (omega (arith, h, l), omega (arith, h, l), omega (arith, h, l))

two_more :
    (n c d : ℕ) (text : Bytes)
    → map lower_digit (take (suc n * 2) (c ∷ (d ∷ text)))
      ≡ lower_digit c ∷ (lower_digit d ∷ map lower_digit (take (n * 2) text))
two_more n c d text =
    let e : suc n * 2 ≡ suc (suc (n * 2)) = omega arith in
    ap (λ (m : ℕ). map lower_digit (take m (c ∷ (d ∷ text)))) e

push-ReadsBack :
    (n c d high low : ℕ) (text rest : Bytes)
    → hex_value c ≡ some high
    → hex_value d ≡ some low
    → ReadsBack n text rest
    → ReadsBack (suc n) (c ∷ (d ∷ text)) ((high * 16 + low) ∷ rest)
unfolding ReadsBack to_hex
push-ReadsBack n c d high low text rest eh el back =
    let (small, first, second) = join_halves high low (value-lt c high eh) (value-lt d low el) in
    (
      ap suc back.0,
      (small, back.1),
      rw (first, second, hex_digit-value c high eh, hex_digit-value d low el, back.2)
          (sym (two_more n c d text)),
    )

read-ReadsBack :
    (n : ℕ) (text bytes : Bytes) → read_bytes n text ≡ some bytes → ReadsBack n text bytes
unfolding read_bytes
read-ReadsBack zero text bytes h =
    let e : [] ≡ bytes = cc in
    subst (ReadsBack 0 text) e (unfold ReadsBack to_hex in (refl, tt, refl))
read-ReadsBack (suc n) [] bytes h = absurd (ground (arith, h))
read-ReadsBack (suc n) (c ∷ []) bytes h = absurd (ground (arith, h))
read-ReadsBack (suc n) (c ∷ (d ∷ text)) bytes h = elim (Option-cases (hex_value c)) [
  | inl e ↦ absurd (ground (arith, h, e))
  | inr (high, eh) ↦ elim (Option-cases (hex_value d)) [
    | inl e ↦ absurd (ground (arith, h, eh, e))
    | inr (low, el) ↦ elim (Option-cases (read_bytes n text)) [
      | inl e ↦ absurd (ground (arith, h, eh, el, e))
      | inr (rest, er) ↦
          let e : some ((high * 16 + low) ∷ rest) ≡ some bytes = rw (read_bytes, eh, el, er) at h in
          let same : (high * 16 + low) ∷ rest ≡ bytes = cc in
          subst (ReadsBack (suc n) (c ∷ (d ∷ text))) same
            (push-ReadsBack n c d high low text rest eh el (read-ReadsBack n text rest er))
    ]
  ]
]

-- A text that is read as bytes is, as far as it was read, the hexadecimal text of those bytes but
-- for the case of its digits; they are as many as were asked for, and each is less than 256.
pub to_hex-from_hex :
    (n : ℕ) (text bytes : Bytes)
    → from_hex text n ≡ some bytes
    → (length bytes ≡ n) × AllBytes bytes × (to_hex bytes ≡ map lower_digit (take (n * 2) text))
unfolding from_hex ReadsBack
to_hex-from_hex n text bytes h = elim (Bool-cases (ltb (length text) (n * 2))) [
  | inl e ↦ absurd (ground (arith, h, e))
  | inr e ↦ read-ReadsBack n text bytes (rw (from_hex, e) at h)
]
