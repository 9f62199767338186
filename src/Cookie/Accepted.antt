-- ===== src/Cookie/Accepted.antt =====
-- What the parser of src/cookie.c accepts is a challenge as the server issues it.
use botshield.Prelude.{
  ℕ, ◌-◌, ◌*◌, ◌^◌, ◌≤◌, ◌<◌, ◌≡◌, refl, sym, ◌∙◌, ap, Bool, true, false, Option, none, some, List,
  [], ◌∷◌, Bytes, arith, ◌==◌, length, get_or, inl, inr, Bool-cases, subst, bytes_eq, bytes_eq→eq,
}
use botshield.Codec.RoundTrip.{AllBytes, to_hex-from_hex}
use botshield.Codec.Number.{
  parse_int_bounded, parse_int64_bounded, parse_uint32_bounded, within, long_value, ulong_value,
  read_signed,
}
use botshield.Cookie.{
  Challenge, Verifier, Algorithm, algorithms, search, find_algorithm, is_implemented,
  only_implemented, Reason, Parsed, parsed, refused, guard, need, exact_hex, parse_body, parse_rep,
  RepState, parse_canonical_fields, canonical_fields,
}
use botshield.Cookie.Issued.{IsIssued}

abbrev is_parsed : Parsed → Bool
is_parsed (refused reason) = false
is_parsed (parsed ch) = true

refused_ne : {reason : Reason} {ch : Challenge} → refused reason ≡ parsed ch → ⊥
refused_ne e = absurd (ground (arith, ap is_parsed e))

parsed_inj : {a b : Challenge} → parsed a ≡ parsed b → a ≡ b
parsed_inj {a} e = ap (λ (p : Parsed). elim p [ refused _ ↦ a | parsed c ↦ c ]) e

guard-parsed :
    (b : Bool) (reason : Reason) (rest : Parsed) {ch : Challenge}
    → guard b reason rest ≡ parsed ch
    → (b ≡ true) × (rest ≡ parsed ch)
unfolding guard
guard-parsed true reason rest h = (refl, h)
guard-parsed false reason rest h = absurd (refused_ne h)

need-parsed :
    {A : Type 0} (o : Option A) (reason : Reason) (rest : A → Parsed) {ch : Challenge}
    → need o reason rest ≡ parsed ch
    → (a : A) × (o ≡ some a) × (rest a ≡ parsed ch)
unfolding need
need-parsed none reason rest h = absurd (refused_ne h)
need-parsed (some a) reason rest h = (a, refl, h)

within-some : (lo hi v : ℕ) (o : Option ℕ) → within lo hi o ≡ some v → (lo ≤ v) × (v ≤ hi)
within-some lo hi v none h = absurd (ground (arith, h))
within-some lo hi v (some w) h = (ground (arith, h), ground (arith, h))

pub parse_int_bounded-some :
    (text : Bytes) (lo hi max_len v : ℕ)
    → parse_int_bounded text lo hi max_len ≡ some v
    → (lo ≤ v) × (v ≤ hi)
unfolding parse_int_bounded
parse_int_bounded-some text lo hi max_len v h =
    within-some lo hi v (long_value (read_signed text)) (ground (arith, h))

parse_int64_bounded-some :
    (text : Bytes) (v : ℕ) → parse_int64_bounded text 0 (2 ^ 63 - 1) ≡ some v → v < 2 ^ 63
unfolding parse_int64_bounded
parse_int64_bounded-some text v h =
    let inside = within-some 0 (2 ^ 63 - 1) v (long_value (read_signed text)) (ground (arith, h)) in
    omega (arith, inside.1)

parse_uint32_bounded-some :
    (text : Bytes) (v : ℕ) → parse_uint32_bounded text 10 ≡ some v → v < 2 ^ 32
unfolding parse_uint32_bounded
parse_uint32_bounded-some text v h =
    let inside =
      within-some 0 (2 ^ 32 - 1) v (ulong_value (read_signed text)) (ground (arith, h)) in
    omega (arith, inside.1)

exact_hex-some :
    (text bytes : Bytes) (n : ℕ)
    → exact_hex text n ≡ some bytes
    → (length bytes ≡ n) × AllBytes bytes
exact_hex-some text bytes n h = elim (Bool-cases (length text == n * 2)) [
  | inl e ↦ let back = to_hex-from_hex n text bytes (ground (arith, h, e)) in (back.0, back.1)
  | inr e ↦ absurd (ground (arith, h, e))
]

search-name :
    (rows : List Algorithm) (name n : Bytes) (v : Verifier)
    → search rows name ≡ some (n, v)
    → n ≡ name
unfolding search
search-name [] name n v h = absurd (ground (arith, h))
search-name ((known, verifier) ∷ rest) name n v h = elim (Bool-cases (bytes_eq known name)) [
  | inl e ↦
      let same : ◌≡◌ {A = Option Algorithm} (some (known, verifier)) (some (n, v)) =
        rw (search, e) at h in
      sym (ap (λ (o : Option Algorithm). elim o [ none ↦ known | some row ↦ row.0 ]) same)
      ∙ bytes_eq→eq known name e
  | inr e ↦ search-name rest name n v (rw (search, e) at h)
]

only_implemented-some :
    (o : Option Algorithm) (n : Bytes) (v : Verifier)
    → only_implemented o ≡ some (n, v)
    → (o ≡ some (n, v)) × (is_implemented v ≡ true)
only_implemented-some none n v h = absurd (ground (arith, h))
only_implemented-some (some (known, verifier)) n v h = elim (Bool-cases (is_implemented verifier)) [
  | inl e ↦
      let same : ◌≡◌ {A = Option Algorithm} (some (known, verifier)) (some (n, v)) = rw e at h in
      (
        same,
        subst
            (λ (o : Option Algorithm). elim o [
              | none ↦ Unit
              | some row ↦ is_implemented row.1 ≡ true
            ])
            same e,
      )
  | inr e ↦ absurd (ground (arith, h, e))
]

-- An algorithm that the parser accepts is found again under the name that it hands out.
usable-found :
    (name n : Bytes) (v : Verifier)
    → only_implemented (find_algorithm name) ≡ some (n, v)
    → (find_algorithm n ≡ some (n, v)) × (is_implemented v ≡ true)
usable-found name n v h =
    let (found, ready) = only_implemented-some (find_algorithm name) n v h in
    (
      subst (λ (m : Bytes). find_algorithm m ≡ some (n, v))
          (sym (search-name algorithms name n v found)) found,
      ready,
    )

parse_bit-some : (text : Bytes) (v : ℕ) → parse_int_bounded text 0 1 1 ≡ some v → v ≤ 1
parse_bit-some text v h = (parse_int_bounded-some text 0 1 1 v h).1

parse_body-parsed :
    (at : ℕ → Bytes) (rest : Bytes → Bytes → ℕ → ℕ → Parsed) (ch : Challenge)
    → parse_body at rest ≡ parsed ch
    → (salt : Bytes) × (nonce : Bytes) × (difficulty : ℕ) × (expires_at : ℕ) × ((length salt ≡ 16)
        × AllBytes salt)
      × ((length nonce ≡ 8) × AllBytes nonce)
      × ((1 ≤ difficulty) × (difficulty ≤ 16))
      × (expires_at < 2 ^ 63)
      × (rest salt nonce difficulty expires_at ≡ parsed ch)
unfolding parse_body
parse_body-parsed at rest ch h =
    let (salt, salted, h1) = need-parsed _ _ _ h in
    let (nonce, nonced, h2) = need-parsed _ _ _ h1 in
    let (difficulty, difficult, h3) = need-parsed _ _ _ h2 in
    let (expires_at, expires, h4) = need-parsed _ _ _ h3 in
    (
      salt,
      nonce,
      difficulty,
      expires_at,
      exact_hex-some (at 2) salt 16 salted,
      exact_hex-some (at 3) nonce 8 nonced,
      parse_int_bounded-some (at 4) 1 16 2 difficulty difficult,
      parse_int64_bounded-some (at 5) expires_at expires,
      h4,
    )

-- What a cookie may say of its client.
record InRange (rep : RepState) (auto_tier : ℕ) : Type 0 where
  non_interactive_bit : rep.passes_non_interactive ≤ 1
  interactive_bit : rep.passes_interactive ≤ 1
  captcha_bit : rep.passes_captcha ≤ 1
  challenged_at_word : rep.challenged_at < 2 ^ 63
  auto_bit : auto_tier ≤ 1
  flags_word : rep.flags_active < 2 ^ 32

parse_rep-parsed :
    (at : ℕ → Bytes) (rest : RepState → ℕ → Parsed) (ch : Challenge)
    → parse_rep at rest ≡ parsed ch
    → (rep : RepState) × (auto_tier : ℕ) × InRange rep auto_tier × (rest rep auto_tier ≡ parsed ch)
unfolding parse_rep
parse_rep-parsed at rest ch h =
    let (non_interactive, bit1, h1) = need-parsed _ _ _ h in
    let (interactive, bit2, h2) = need-parsed _ _ _ h1 in
    let (captcha, bit3, h3) = need-parsed _ _ _ h2 in
    let (challenged_at, challenged, h4) = need-parsed _ _ _ h3 in
    let (auto_tier, bit4, h5) = need-parsed _ _ _ h4 in
    let (_, h6) = guard-parsed _ _ _ h5 in
    let (flags, flagged, h7) = need-parsed _ _ _ h6 in
    (
      record {
        passes_non_interactive = non_interactive;
        passes_interactive = interactive;
        passes_captcha = captcha;
        challenged_at = challenged_at;
        flags_active = flags;
      },
      auto_tier,
      record {
        non_interactive_bit = parse_bit-some (at 6) non_interactive bit1;
        interactive_bit = parse_bit-some (at 7) interactive bit2;
        captcha_bit = parse_bit-some (at 8) captcha bit3;
        challenged_at_word = parse_int64_bounded-some (at 9) challenged_at challenged;
        auto_bit = parse_bit-some (at 10) auto_tier bit4;
        flags_word = parse_uint32_bounded-some (at 11) flags flagged;
      },
      h7,
    )

-- Whatever the stack held behind the fields that were found: what the parser accepts has exactly
-- twelve fields, and is a challenge of this version that the server could have issued: of an
-- implemented algorithm, with a salt of 16 bytes and a nonce of 8, a difficulty from 1 to 16, and
-- times, passes and flags within their ranges.
pub parsed-IsIssued :
    (junk : ℕ → Bytes) (fields : List Bytes) (ch : Challenge)
    → parse_canonical_fields junk fields ≡ parsed ch
    → (length fields ≡ canonical_fields) × IsIssued ch
unfolding parse_canonical_fields
parsed-IsIssued junk fields ch h0 =
    let (_, h1) = guard-parsed _ _ _ h0 in
    let (version, _, h2) = need-parsed _ _ _ h1 in
    let (of_version, h3) = guard-parsed _ _ _ h2 in
    let (count, h4) = guard-parsed _ _ _ h3 in
    let (alg, found, h5) = need-parsed _ _ _ h4 in
    let (salt, nonce, difficulty, expires_at, salt_ok, nonce_ok, range, expires, h6) =
      parse_body-parsed _ _ _ h5 in
    let (rep, auto_tier, fine, h7) = parse_rep-parsed _ _ _ h6 in
    let usable = usable-found (get_or fields 1 (junk 1)) alg.0 alg.1 found in
    (
      ground (arith, count),
      subst IsIssued (parsed_inj h7) (record {
        of_version = ground (arith, of_version);
        verifier = alg.1;
        known = usable.0;
        implemented = usable.1;
        salt_length = salt_ok.0;
        salt_bytes = salt_ok.1;
        nonce_length = nonce_ok.0;
        nonce_bytes = nonce_ok.1;
        difficulty_from = range.0;
        difficulty_to = range.1;
        expires_at_word = expires;
        non_interactive_bit = fine.non_interactive_bit;
        interactive_bit = fine.interactive_bit;
        captcha_bit = fine.captcha_bit;
        challenged_at_word = fine.challenged_at_word;
        auto_bit = fine.auto_bit;
        flags_word = fine.flags_word;
      }),
    )
