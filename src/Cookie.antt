-- ===== src/Cookie.antt =====
-- The challenge and its canonical text: `bs_challenge_canonical` and the algorithm registry of
-- src/challenge.c, `bs_strict_int_form` and `bs_parse_canonical_fields` of src/cookie.c. The numbers
-- that the server puts into a challenge are not negative.
pub mod Envelope
pub mod Fields
pub mod Issued
pub mod Sealed
pub mod Accepted
pub mod Carried
pub mod Work
use botshield.Prelude.{
  ℕ, zero, suc, ◌+◌, ◌-◌, ◌*◌, ◌^◌, Bool, true, false, not, ◌&&◌, ◌||◌, Option, none, some, List,
  [], ◌∷◌, ◌++◌, Bytes, codes, ltb, leb, ◌==◌, if◌then◌else◌, get_or, length, bytes_eq,
}
use botshield.Codec.{to_hex, from_hex}
use botshield.Codec.Number.{
  is_digit, all_digits, parse_int_bounded, parse_uint32_bounded, parse_int64_bounded, decimal,
}

-- `bs_rep_state`
pub record RepState : Type 0 where
  pub passes_non_interactive : ℕ
  pub passes_interactive : ℕ
  pub passes_captcha : ℕ
  pub challenged_at : ℕ
  pub flags_active : ℕ

-- `bs_challenge`, without the signature of a retired format
pub record Challenge : Type 0 where
  pub version : ℕ
  pub alg_name : Bytes
  pub salt : Bytes
  pub nonce : Bytes
  pub difficulty : ℕ
  pub expires_at : ℕ
  pub rep : RepState
  pub auto_tier : ℕ

abbrev pub protocol_version : ℕ
protocol_version = 7

abbrev pub canonical_fields : ℕ
canonical_fields = 12

-- How an algorithm of the registry verifies a counter; `reserved` has no callbacks.
pub data Verifier : Type 0 where
  leading_zeros passthrough reserved : Verifier

-- `bs_pow_algorithm`
abbrev pub Algorithm : Type 0
Algorithm = Bytes × Verifier

abbrev pub algorithms : List Algorithm
algorithms =
    (codes "sha256zeros", leading_zeros)
    ∷ (codes "session", passthrough)
    ∷ (codes "captcha-turnstile", passthrough)
    ∷ (codes "captcha-hcaptcha", passthrough)
    ∷ (codes "captcha-recaptcha-v2", passthrough)
    ∷ (codes "captcha-recaptcha-v3", passthrough)
    ∷ (codes "captcha-friendly", passthrough)
    ∷ (codes "captcha-geetest", passthrough)
    ∷ (codes "sha384-zeros", reserved)
    ∷ (codes "sha512-zeros", reserved)
    ∷ (codes "pbkdf2-sha256", reserved)
    ∷ (codes "argon2id", reserved)
    ∷ []

unfoldable pub search : List Algorithm → Bytes → Option Algorithm
search [] name = none
search ((known, verifier) ∷ rest) name =
    let onward = search rest name in if bytes_eq known name then some (known, verifier) else onward

-- `bs_find_algorithm`
abbrev pub find_algorithm : Bytes → Option Algorithm
find_algorithm name = search algorithms name

abbrev pub is_implemented : Verifier → Bool
is_implemented reserved = false
is_implemented _ = true

-- `!alg || !alg->implemented`
abbrev pub only_implemented : Option Algorithm → Option Algorithm
only_implemented none = none
only_implemented (some (name, verifier)) =
    if is_implemented verifier then some (name, verifier) else none

-- The reasons for which a cookie is refused, one for each text.
pub data Reason : Type 0 where
  no_secret absurdly_long unsupported_format decode_failed signature_mismatch : Reason
  non_canonical bad_version bad_protocol wrong_field_count unknown_algorithm bad_salt : Reason
  bad_nonce bad_difficulty bad_expires_at bad_passes_non_interactive : Reason
  bad_passes_interactive bad_passes_captcha bad_challenged_at bad_auto bad_flags_active : Reason
  expired empty_counter counter_too_long insufficient_zeros : Reason

pub data Parsed : Type 0 where
  refused : Reason → Parsed
  parsed : Challenge → Parsed

unfoldable pub guard : Bool → Reason → Parsed → Parsed
guard true reason rest = rest
guard false reason rest = refused reason

unfoldable pub need : {A : Type 0} → Option A → Reason → (A → Parsed) → Parsed
need none reason rest = refused reason
need (some a) reason rest = rest a

abbrev pub unsigned_form : Bytes → Bool
unsigned_form [] = false
unsigned_form (c ∷ text) = is_digit c && (not (c == 48) || length text == 0) && all_digits text

-- `bs_strict_int_form`
unfoldable pub strict_int_form : Bytes → Bool → Bool
strict_int_form [] allow_negative = false
strict_int_form (c ∷ text) allow_negative =
    if c == 45 then allow_negative && unsigned_form text else unsigned_form (c ∷ text)

-- The loop over `strict_int_fields`
unfoldable pub all_strict : (ℕ → Bytes) → List ℕ → Bool
all_strict at [] = true
all_strict at (i ∷ rest) = strict_int_form (at i) false && all_strict at rest

abbrev pub strict_int_fields : List ℕ
strict_int_fields = 0 ∷ 4 ∷ 5 ∷ 6 ∷ 7 ∷ 8 ∷ 9 ∷ 10 ∷ 11 ∷ []

-- A field of the given number of bytes in hexadecimal, and nothing more.
abbrev pub exact_hex : Bytes → ℕ → Option Bytes
exact_hex text n = if length text == n * 2 then from_hex text n else none

-- Fields 2 to 5: salt, nonce, difficulty and expiry.
unfoldable pub parse_body : (ℕ → Bytes) → (Bytes → Bytes → ℕ → ℕ → Parsed) → Parsed
parse_body at rest = need (exact_hex (at 2) 16) bad_salt λ salt.
    need (exact_hex (at 3) 8) bad_nonce λ nonce.
      need (parse_int_bounded (at 4) 1 16 2) bad_difficulty λ difficulty.
        need (parse_int64_bounded (at 5) 0 (2 ^ 63 - 1)) bad_expires_at
          λ expires_at. rest salt nonce difficulty expires_at

-- Fields 6 to 11: the passes, the time of the challenge, the mode and the flags.
unfoldable pub parse_rep : (ℕ → Bytes) → (RepState → ℕ → Parsed) → Parsed
parse_rep at rest =
    need (parse_int_bounded (at 6) 0 1 1) bad_passes_non_interactive λ non_interactive.
      need (parse_int_bounded (at 7) 0 1 1) bad_passes_interactive λ interactive.
        need (parse_int_bounded (at 8) 0 1 1) bad_passes_captcha λ captcha.
          need (parse_int64_bounded (at 9) 0 (2 ^ 63 - 1)) bad_challenged_at λ challenged_at.
            need (parse_int_bounded (at 10) 0 1 1) bad_auto λ auto_tier.
              guard (strict_int_form (at 11) false) non_canonical (
                need (parse_uint32_bounded (at 11) 10) bad_flags_active λ flags_active.
                  rest
                    (record {
                      passes_non_interactive = non_interactive;
                      passes_interactive = interactive;
                      passes_captcha = captcha;
                      challenged_at = challenged_at;
                      flags_active = flags_active;
                    })
                    auto_tier)

-- `bs_parse_canonical_fields`. The array has `canonical_fields` entries; those beyond the fields
-- that were found hold what the stack held, `junk`.
unfoldable pub parse_canonical_fields : (ℕ → Bytes) → List Bytes → Parsed
parse_canonical_fields junk fields =
    let at : ℕ → Bytes = λ i. get_or fields i (junk i) in
    guard (all_strict at strict_int_fields) non_canonical (
      need (parse_int_bounded (at 0) 0 (2 ^ 31 - 1) 10) bad_version λ v.
        guard (v == protocol_version) bad_protocol (
          guard (length fields == canonical_fields) wrong_field_count (
            need (only_implemented (find_algorithm (at 1))) unknown_algorithm λ alg.
              parse_body at λ salt nonce difficulty expires_at. parse_rep at λ rep auto_tier.
                parsed (record {
                  version = v;
                  alg_name = alg.0;
                  salt = salt;
                  nonce = nonce;
                  difficulty = difficulty;
                  expires_at = expires_at;
                  rep = rep;
                  auto_tier = auto_tier;
                }))))

abbrev pub bar : ℕ
bar = 124

-- The fields of the canonical text, in its order.
unfoldable pub canonical_list : Challenge → List Bytes
canonical_list ch =
    decimal ch.version
    ∷ ch.alg_name
    ∷ to_hex ch.salt
    ∷ to_hex ch.nonce
    ∷ decimal ch.difficulty
    ∷ decimal ch.expires_at
    ∷ decimal ch.rep.passes_non_interactive
    ∷ decimal ch.rep.passes_interactive
    ∷ decimal ch.rep.passes_captcha
    ∷ decimal ch.rep.challenged_at
    ∷ decimal (if ch.auto_tier == 0 then 0 else 1)
    ∷ decimal ch.rep.flags_active
    ∷ []

-- Fields joined by bars.
unfoldable pub joined : List Bytes → Bytes
joined [] = []
joined (f ∷ []) = f
joined (f ∷ (g ∷ fs)) = f ++ (bar ∷ joined (g ∷ fs))

-- `bs_challenge_canonical`
abbrev pub canonical : Challenge → Bytes
canonical ch = joined (canonical_list ch)

abbrev pub onto_first : ℕ → List Bytes → List Bytes
onto_first c [] = []
onto_first c (f ∷ fs) = (c ∷ f) ∷ fs

-- The split of `bs_verify_cookie_gcm`, with `slots` more fields to come: the last one takes the rest.
unfoldable pub split_fields : ℕ → Bytes → List Bytes
split_fields zero text = text ∷ []
split_fields (suc slots) [] = [] ∷ []
split_fields (suc slots) (c ∷ text) =
    let next = split_fields slots text in
    let same = split_fields (suc slots) text in if c == bar then [] ∷ next else onto_first c same
