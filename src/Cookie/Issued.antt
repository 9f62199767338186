-- ===== src/Cookie/Issued.antt =====
-- What the server writes into a cookie, the parser reads back.
use botshield.Prelude.{
  c_string, ℕ, zero, suc, ◌-◌, ◌*◌, ◌^◌, ◌≤◌, ◌<◌, ◌≡◌, refl, ◌∙◌, ap, true, false, some, List, [],
  ◌∷◌, Bytes, arith, ◌==◌, if◌then◌else◌, length, get_or, subst,
}
use botshield.Codec.{to_hex, from_hex}
use botshield.Codec.RoundTrip.{AllBytes, from_hex-to_hex, length-to_hex}
use botshield.Codec.Number.{decimal, parse_int_bounded, digits_of}
use botshield.Codec.Decimal.{
  pow10, leads, leads-digits_of, parse_int_bounded-decimal, parse_int64_bounded-decimal,
  parse_uint32_bounded-decimal,
}
use botshield.Cookie.{
  Challenge, Verifier, find_algorithm, is_implemented, parsed, guard, need, strict_int_form,
  all_strict, strict_int_fields, exact_hex, parse_body, parse_rep, parse_canonical_fields,
  canonical_list, canonical, joined, split_fields, protocol_version,
}
use botshield.Cookie.Fields.{
  all_clean, split-joined-c_string, clean-decimal, clean-to_hex, clean-algorithm,
}

-- A challenge as the server issues it.
pub record IsIssued (ch : Challenge) : Type 0 where
  pub of_version : ch.version ≡ protocol_version
  pub verifier : Verifier
  pub known : find_algorithm ch.alg_name ≡ some (ch.alg_name, verifier)
  pub implemented : is_implemented verifier ≡ true
  pub salt_length : length ch.salt ≡ 16
  pub salt_bytes : AllBytes ch.salt
  pub nonce_length : length ch.nonce ≡ 8
  pub nonce_bytes : AllBytes ch.nonce
  pub difficulty_from : 1 ≤ ch.difficulty
  pub difficulty_to : ch.difficulty ≤ 16
  pub expires_at_word : ch.expires_at < 2 ^ 63
  pub non_interactive_bit : ch.rep.passes_non_interactive ≤ 1
  pub interactive_bit : ch.rep.passes_interactive ≤ 1
  pub captcha_bit : ch.rep.passes_captcha ≤ 1
  pub challenged_at_word : ch.rep.challenged_at < 2 ^ 63
  pub auto_bit : ch.auto_tier ≤ 1
  pub flags_word : ch.rep.flags_active < 2 ^ 32

leads→strict : (text : Bytes) → leads text ≡ true → strict_int_form text false ≡ true
unfolding strict_int_form
leads→strict [] h = h
leads→strict (c ∷ text) h = ground (arith, h)

strict-decimal : (v : ℕ) → v < pow10 20 → strict_int_form (decimal v) false ≡ true
strict-decimal zero h = unfold strict_int_form digits_of in refl
strict-decimal (suc v) h =
    leads→strict (decimal (suc v)) (leads-digits_of 19 (suc v) [] (omega arith) h refl)

exact_hex-to_hex :
    (bytes : Bytes) (n : ℕ)
    → length bytes ≡ n
    → AllBytes bytes
    → exact_hex (to_hex bytes) n ≡ some bytes
exact_hex-to_hex bytes n e h =
    let long : (length (to_hex bytes) == n * 2) ≡ true = ground (arith, length-to_hex bytes, e) in
    rw long (subst (λ (m : ℕ). from_hex (to_hex bytes) m ≡ some bytes) e (from_hex-to_hex bytes h))

parse_bit : (v : ℕ) → v ≤ 1 → parse_int_bounded (decimal v) 0 1 1 ≡ some v
parse_bit v h =
    parse_int_bounded-decimal v 0 1 0 1 (omega arith) h (omega (arith, h)) (omega (arith, h))
      (omega arith)

fields-clean : (ch : Challenge) → IsIssued ch → all_clean (canonical_list ch) ≡ true
unfolding canonical_list
fields-clean ch issued =
    rw
      (
        clean-decimal ch.version,
        clean-algorithm ch.alg_name _ issued.known,
        clean-to_hex ch.salt issued.salt_bytes,
        clean-to_hex ch.nonce issued.nonce_bytes,
        clean-decimal ch.difficulty,
        clean-decimal ch.expires_at,
        clean-decimal ch.rep.passes_non_interactive,
        clean-decimal ch.rep.passes_interactive,
        clean-decimal ch.rep.passes_captcha,
        clean-decimal ch.rep.challenged_at,
        clean-decimal (if ch.auto_tier == 0 then 0 else 1),
        clean-decimal ch.rep.flags_active,
      )
      refl

auto_bit_value : (a : ℕ) → a ≤ 1 → (if a == 0 then 0 else 1) ≡ a
auto_bit_value a h = ground (arith, h)

small_word : (v : ℕ) → v < 2 ^ 63 → v < pow10 20
small_word v h = omega (arith, h)

strict_fields :
    (ch : Challenge) (junk : ℕ → Bytes)
    → IsIssued ch
    → all_strict (λ i. get_or (canonical_list ch) i (junk i)) strict_int_fields ≡ true
unfolding all_strict canonical_list
strict_fields ch junk issued =
    rw
      (
        auto_bit_value ch.auto_tier issued.auto_bit,
        strict-decimal ch.version (omega (arith, issued.of_version)),
        strict-decimal ch.difficulty (omega (arith, issued.difficulty_to)),
        strict-decimal ch.expires_at (small_word ch.expires_at issued.expires_at_word),
        strict-decimal ch.rep.passes_non_interactive (omega (arith, issued.non_interactive_bit)),
        strict-decimal ch.rep.passes_interactive (omega (arith, issued.interactive_bit)),
        strict-decimal ch.rep.passes_captcha (omega (arith, issued.captcha_bit)),
        strict-decimal ch.rep.challenged_at
            (small_word ch.rep.challenged_at issued.challenged_at_word),
        strict-decimal ch.auto_tier (omega (arith, issued.auto_bit)),
        strict-decimal ch.rep.flags_active (omega (arith, issued.flags_word)),
      )
      refl

parse-canonical_list :
    (ch : Challenge) (junk : ℕ → Bytes)
    → IsIssued ch
    → parse_canonical_fields junk (canonical_list ch) ≡ parsed ch
unfolding parse_canonical_fields parse_body parse_rep canonical_list guard need
parse-canonical_list ch junk issued =
    let strict = strict_fields ch junk issued in
    let version : (ch.version == protocol_version) ≡ true = ground (arith, issued.of_version) in
    rw
      (
        strict,
        auto_bit_value ch.auto_tier issued.auto_bit,
        parse_int_bounded-decimal ch.version 0 (2 ^ 31 - 1) 0 10 (omega arith)
            (omega (arith, issued.of_version)) (omega (arith, issued.of_version))
            (omega (arith, issued.of_version)) (omega arith),
        issued.known,
        issued.implemented,
        exact_hex-to_hex ch.salt 16 issued.salt_length issued.salt_bytes,
        exact_hex-to_hex ch.nonce 8 issued.nonce_length issued.nonce_bytes,
        parse_int_bounded-decimal ch.difficulty 1 16 1 2 issued.difficulty_from issued.difficulty_to
            (omega (arith, issued.difficulty_to)) (omega (arith, issued.difficulty_to))
            (omega arith),
        parse_int64_bounded-decimal ch.expires_at issued.expires_at_word,
        parse_bit ch.rep.passes_non_interactive issued.non_interactive_bit,
        parse_bit ch.rep.passes_interactive issued.interactive_bit,
        parse_bit ch.rep.passes_captcha issued.captcha_bit,
        parse_int64_bounded-decimal ch.rep.challenged_at issued.challenged_at_word,
        parse_bit ch.auto_tier issued.auto_bit,
        strict-decimal ch.rep.flags_active (omega (arith, issued.flags_word)),
        parse_uint32_bounded-decimal ch.rep.flags_active issued.flags_word,
        version,
      )
      refl

eleven_more : (ch : Challenge) → length (canonical_list ch) ≡ 12
unfolding canonical_list
eleven_more ch = refl

fields_found :
    (ch : Challenge) → IsIssued ch → split_fields 11 (c_string (canonical ch)) ≡ canonical_list ch
fields_found ch issued = go (canonical_list ch) (fields-clean ch issued) (eleven_more ch)
  where
    go :
        (fs : List Bytes)
        → all_clean fs ≡ true
        → (length fs ≡ 12)
        → split_fields 11 (c_string (joined fs)) ≡ fs
    go [] clean e = absurd (omega (arith, e))
    go (f ∷ fs) clean e = split-joined-c_string 11 f fs (omega (arith, e)) clean

-- The canonical text of an issued challenge is split and parsed into that challenge, whatever the
-- stack held.
pub parse-canonical :
    (ch : Challenge) (junk : ℕ → Bytes)
    → IsIssued ch
    → parse_canonical_fields junk (split_fields 11 (c_string (canonical ch))) ≡ parsed ch
parse-canonical ch junk issued =
    ap (parse_canonical_fields junk) (fields_found ch issued) ∙ parse-canonical_list ch junk issued
