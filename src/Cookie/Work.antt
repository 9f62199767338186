-- ===== src/Cookie/Work.antt =====
-- The proof of work: what `bs_sha256_zeros_verify` accepts, in the digits of the digest.
use botshield.Prelude.{
  ℕ, zero, suc, ◌/◌, ◌%◌, ◌≤◌, ◌<◌, ◌≡◌, ◌↔◌, refl, sym, ◌∙◌, ap, Bool, true, ◌&&◌, none, [], ◌∷◌,
  ◌++◌, Bytes, arith, ◌==◌, length, take, inl, inr, Bool-cases,
}
use botshield.Codec.{hex_digit, to_hex}
use botshield.Codec.RoundTrip.{AllBytes, digit_code}
use botshield.Cookie.{Challenge}
use botshield.Cookie.Envelope.{Crypto, zero_bytes, has_zeros, sha256_zeros_verify}

-- Every character is the digit zero.
abbrev pub all_zeros : Bytes → Bool
all_zeros [] = true
all_zeros (c ∷ text) = c == 48 && all_zeros text

zero_digit : (n : ℕ) → n < 16 → (hex_digit n == 48) ≡ (n == 0)
zero_digit n h = rw (digit_code n h) (ground (arith, h))

zero_bytes_nil : (n : ℕ) → zero_bytes n [] ≡ true
unfolding zero_bytes
zero_bytes_nil zero = refl
zero_bytes_nil (suc n) = zero_bytes_nil n

has_zeros_nil : (d : ℕ) → has_zeros d [] ≡ true
unfolding has_zeros
has_zeros_nil d = rw (zero_bytes_nil (d / 2)) (ground arith)

-- A byte in front of the digest takes two digits.
has_zeros_cons :
    (d b : ℕ) (digest : Bytes) → has_zeros (suc (suc d)) (b ∷ digest) ≡ b == 0 && has_zeros d digest
unfolding has_zeros zero_bytes
has_zeros_cons d b digest =
    let half : suc (suc d) / 2 ≡ suc (d / 2) = omega arith in
    let odd : suc (suc d) % 2 ≡ d % 2 = omega arith in
    rw (half, odd) (elim (Bool-cases (b == 0)) [ inl e ↦ rw e refl | inr e ↦ rw e refl ])

zeros_cons :
    (b : ℕ) (rest : Bool)
    → b < 256
    → (hex_digit (b / 16) == 48 && (hex_digit (b % 16) == 48 && rest)) ≡ b == 0 && rest
zeros_cons b rest h =
    rw (zero_digit (b / 16) (omega (arith, h)), zero_digit (b % 16) (omega arith)) (go rest)
  where
    go : (rest : Bool) → (b / 16 == 0 && (b % 16 == 0 && rest)) ≡ b == 0 && rest
    go rest = ground arith

has_zeros-digits :
    (d : ℕ) (digest : Bytes)
    → AllBytes digest
    → has_zeros d digest ≡ all_zeros (take d (to_hex digest))
unfolding to_hex
has_zeros-digits zero digest h = unfold has_zeros zero_bytes in refl
has_zeros-digits (suc zero) [] h = has_zeros_nil 1
has_zeros-digits (suc zero) (b ∷ digest) h =
    rw (zero_digit (b / 16) (omega (arith, h.0))) (unfold has_zeros zero_bytes in ground arith)
has_zeros-digits (suc (suc d)) [] h = has_zeros_nil (suc (suc d))
has_zeros-digits (suc (suc d)) (b ∷ digest) h =
    has_zeros_cons d b digest
    ∙ ap (λ rest. b == 0 && rest) (has_zeros-digits d digest h.1)
    ∙ sym (zeros_cons b (all_zeros (take d (to_hex digest))) h.0)

-- A counter passes if it is of 1 to 64 characters and the digest over salt, nonce and counter begins,
-- in hexadecimal, with as many zeros as the difficulty demands; and only then.
pub work_accepted :
    (crypto : Crypto) (ch : Challenge) (counter : Bytes)
    → AllBytes (crypto.sha256 (ch.salt ++ (ch.nonce ++ counter)))
    → (sha256_zeros_verify crypto ch counter ≡ none) ↔ (
        (0 < length counter)
        × (length counter ≤ 64)
        × (all_zeros
              (take ch.difficulty (to_hex (crypto.sha256 (ch.salt ++ (ch.nonce ++ counter)))))
            ≡ true))
unfolding sha256_zeros_verify
work_accepted crypto ch counter h =
    let digits =
      has_zeros-digits ch.difficulty (crypto.sha256 (ch.salt ++ (ch.nonce ++ counter))) h in
    rw⁻¹ digits (ground arith)
