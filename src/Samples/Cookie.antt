-- ===== src/Samples/Cookie.antt =====
-- Cookies at concrete inputs, with a toy cipher whose tag repeats the key's first byte, and base64
-- replaced by the identity.
use botshield.Prelude.{
  c_string, ◌↔◌, take, ℕ, ◌-◌, ◌^◌, ◌≡◌, ◌≤◌, ◌<◌, refl, ap, true, false, Option, none, some, [],
  ◌∷◌, ◌++◌, Bytes, codes, arith, ltb, if◌then◌else◌, get_or, length, length-replicate, replicate,
  bytes_eq, bytes_eq_refl, inr, subst,
}
use botshield.Codec.{to_hex}
use botshield.Codec.Number.{
  parse_int_bounded, parse_uint32_bounded, parse_int64_bounded, read_signed, signed_digits,
  whole_digits, digits_value, long_value, ulong_value, digits_of,
}
use botshield.Cookie.{
  Challenge, passthrough, find_algorithm, search, expired, non_canonical, wrong_field_count, parsed,
  refused, guard, need, strict_int_form, all_strict, parse_canonical_fields, canonical,
  canonical_list, joined, split_fields, canonical_fields,
}
use botshield.Cookie.Issued.{IsIssued, parse-canonical}
use botshield.Cookie.Accepted.{parsed-IsIssued}
use botshield.Cookie.Envelope.{
  Crypto, CookieKeys, Checked, gcm_encrypt, gcm_decrypt, build_cookie_payload, verify_cookie,
  verify_counter, noop_verify, counter_sep, should_carry_prior_rep, sha256_zeros_verify,
}
use botshield.Cookie.Sealed.{verify-build}
use botshield.Cookie.Work.{all_zeros, work_accepted}
use botshield.Cookie.Carried.{Authentic, written-Authentic, carried-Authentic}

-- White space and signs are read, an overflow is not.
numbers :
    (parse_int_bounded (codes " +42") 0 100 4 ≡ some 42)
    × (parse_int_bounded (codes "-0") 0 100 4 ≡ some 0)
    × (parse_int_bounded (codes "-1") 0 100 4 ≡ none)
    × (parse_int64_bounded (codes "9223372036854775808") 0 (2 ^ 63 - 1) ≡ none)
    × (parse_uint32_bounded (codes "-1") 10 ≡ none)
unfolding parse_int_bounded parse_int64_bounded parse_uint32_bounded read_signed signed_digits
    whole_digits digits_value long_value ulong_value
numbers = (refl, refl, refl, refl, refl)

strict_forms :
    (strict_int_form (codes "0") false ≡ true)
    × (strict_int_form (codes "05") false ≡ false)
    × (strict_int_form (codes "+5") false ≡ false)
    × (strict_int_form (codes "-5") true ≡ true)
unfolding strict_int_form
strict_forms = (refl, refl, refl, refl)

abbrev session : Challenge
session = record {
  version = 7;
  alg_name = codes "session";
  salt = replicate 16 171;
  nonce = replicate 8 5;
  difficulty = 4;
  expires_at = 1700000000;
  rep = record {
    passes_non_interactive = 1;
    passes_interactive = 0;
    passes_captcha = 0;
    challenged_at = 1699990000;
    flags_active = 12;
  };
  auto_tier = 1;
}

session_text :
    canonical session
    ≡ codes
        "7|session|abababababababababababababababab|0505050505050505|4|1700000000|1|0|0|1699990000|1|12"
unfolding joined canonical_list digits_of to_hex
session_text = refl

session-IsIssued : IsIssued session
session-IsIssued = record {
  of_version = refl;
  verifier = passthrough;
  known = unfold search bytes_eq in refl;
  implemented = refl;
  salt_length = refl;
  salt_bytes = omega arith;
  nonce_length = refl;
  nonce_bytes = omega arith;
  difficulty_from = omega arith;
  difficulty_to = omega arith;
  expires_at_word = omega arith;
  non_interactive_bit = omega arith;
  interactive_bit = omega arith;
  captcha_bit = omega arith;
  challenged_at_word = omega arith;
  auto_bit = omega arith;
  flags_word = omega arith;
}

abbrev no_junk : ℕ → Bytes
no_junk i = []

-- What the array holds behind ten fields decides for which reason they are refused.
short_body :
    (parse_canonical_fields
        (λ i. codes "0")
        (split_fields 11 (codes "7|session|ab|05|4|17|1|0|0|16"))
      ≡ refused wrong_field_count)
    × (parse_canonical_fields
          (λ i. codes "x")
          (split_fields 11 (codes "7|session|ab|05|4|17|1|0|0|16"))
        ≡ refused non_canonical)
unfolding parse_canonical_fields guard need all_strict strict_int_form split_fields
    parse_int_bounded read_signed signed_digits whole_digits digits_value long_value
short_body = (refl, refl)

parse-canonical_example :
    parse_canonical_fields no_junk (split_fields 11 (c_string (canonical session))) ≡ parsed session
parse-canonical_example = parse-canonical session no_junk session-IsIssued

parsed-IsIssued_example :
    (length (split_fields 11 (c_string (canonical session))) ≡ canonical_fields) × IsIssued session
parsed-IsIssued_example =
    parsed-IsIssued no_junk (split_fields 11 (c_string (canonical session))) session
      (parse-canonical session no_junk session-IsIssued)

abbrev toy_tag : Bytes → Bytes
toy_tag key = replicate 16 (get_or key 0 0)

abbrev toy : Crypto
toy = record {
  seal = λ key nonce aad plain. some (plain, toy_tag key);
  unseal = λ key nonce aad cipher tag. if bytes_eq tag (toy_tag key) then some cipher else none;
  sha256 = λ text. text;
  encode64 = λ env. env;
  decode64 = λ text. text;
}

toy_unseal :
    (key nonce aad plain cipher tag : Bytes)
    → toy.seal key nonce aad plain ≡ some (cipher, tag)
    → toy.unseal key nonce aad cipher tag ≡ some plain
toy_unseal key nonce aad plain cipher tag e =
    subst
      (λ (o : Option (Bytes × Bytes)). elim o [
        | none ↦ Unit
        | some pair ↦ toy.unseal key nonce aad pair.0 pair.1 ≡ some plain
      ])
      e (rw (bytes_eq_refl (toy_tag key)) refl)

toy_tag_length :
    (key nonce aad plain cipher tag : Bytes)
    → toy.seal key nonce aad plain ≡ some (cipher, tag)
    → length tag ≡ 16
toy_tag_length key nonce aad plain cipher tag e =
    subst (λ (o : Option (Bytes × Bytes)). elim o [ none ↦ Unit | some pair ↦ length pair.1 ≡ 16 ])
      e (length-replicate 16 (get_or key 0 0))

abbrev old_keys : CookieKeys
old_keys = record { has_secret = true; derived_keys_set = true; primary = 7 ∷ []; secondary = none }

-- After a rotation: the old key is the secondary one.
abbrev new_keys : CookieKeys
new_keys = record {
  has_secret = true;
  derived_keys_set = true;
  primary = 9 ∷ [];
  secondary = some (7 ∷ []);
}

abbrev prefix : Bytes
prefix = 1 ∷ (replicate 12 3 ++ (canonical session ++ replicate 16 7))

abbrev cookie : Bytes
cookie = prefix ++ (counter_sep ∷ codes "session")

built :
    build_cookie_payload toy old_keys (some (replicate 12 3)) session (codes "session")
    ≡ some cookie
unfolding build_cookie_payload gcm_encrypt
built = refl

not_primary : gcm_decrypt toy (9 ∷ []) prefix ≡ none
unfolding gcm_decrypt bytes_eq joined canonical_list digits_of to_hex
not_primary = refl

fits_page : length cookie ≤ 262144
unfolding joined canonical_list digits_of to_hex
fits_page = omega arith

verify-build_example : verify_cookie toy no_junk new_keys 1700000000 cookie ≡ record {
  reason =
      if ltb session.expires_at 1700000000
      then some expired
      else verify_counter toy (find_algorithm session.alg_name) session (codes "session");
  out_ch = some session;
}
verify-build_example =
    verify-build toy toy_unseal toy_tag_length (λ env. refl) no_junk old_keys new_keys 1700000000
      (replicate 12 3) (codes "session") prefix session session-IsIssued refl refl built fits_page
      refl (inr (refl, not_primary))

handed_out : (verify_cookie toy no_junk new_keys 1700000000 cookie).out_ch ≡ some session
handed_out = ap (λ (c : Checked). c.out_ch) verify-build_example

written-Authentic_example : Authentic toy no_junk new_keys cookie session
written-Authentic_example =
    written-Authentic toy no_junk new_keys 1700000000 cookie session handed_out

accepted : (verify_cookie toy no_junk new_keys 1700000000 cookie).reason ≡ none
unfolding verify_counter noop_verify search bytes_eq
accepted = ap (λ (c : Checked). c.reason) verify-build_example

carry-accepted : (c : Checked) → c.reason ≡ none → should_carry_prior_rep c ≡ true
unfolding should_carry_prior_rep
carry-accepted c e = rw e refl

carried-Authentic_example :
    (ch : Challenge) × ((verify_cookie toy no_junk new_keys 1700000000 cookie).out_ch ≡ some ch)
    × Authentic toy no_junk new_keys cookie ch
    × (1700000000 ≤ ch.expires_at)
carried-Authentic_example =
    carried-Authentic toy no_junk new_keys 1700000000 cookie
      (carry-accepted (verify_cookie toy no_junk new_keys 1700000000 cookie) accepted)

-- The digest of the toy is its input, and begins with three zeros.
abbrev easy : Challenge
easy = record session { salt = 0 ∷ 15 ∷ replicate 14 171; difficulty = 3 }

work_accepted_example : (sha256_zeros_verify toy easy (codes "77") ≡ none) ↔ (
    (0 < 2)
    × (2 ≤ 64)
    × (all_zeros (take 3 (to_hex (easy.salt ++ (easy.nonce ++ codes "77")))) ≡ true))
work_accepted_example = work_accepted toy easy (codes "77") (omega arith)
