-- ===== src/Cookie/Envelope.antt =====
-- The cookie of src/cookie.c round the canonical text: `bs_gcm_encrypt` and `bs_gcm_decrypt` of
-- src/crypto.c, `bs_sha256_zeros_verify` and the passthrough callbacks of src/challenge.c,
-- `bs_build_cookie_payload`, `bs_verify_cookie` and `bs_should_carry_prior_rep`. AES-256-GCM,
-- SHA-256 and the base64 codec are a parameter, and so are the random bytes of a nonce.
use botshield.Prelude.{
  c_string, ℕ, zero, suc, ◌+◌, ◌-◌, ◌/◌, ◌%◌, Bool, true, false, not, ◌&&◌, ◌||◌, Option, none,
  some, [], ◌∷◌, ◌++◌, Bytes, ltb, ◌==◌, if◌then◌else◌, get_or, length, take, drop,
}
use botshield.Cookie.{
  Challenge, leading_zeros, passthrough, reserved, Algorithm, find_algorithm, Reason, no_secret,
  absurdly_long, unsupported_format, decode_failed, signature_mismatch, expired, empty_counter,
  counter_too_long, insufficient_zeros, Parsed, refused, parsed, parse_canonical_fields, canonical,
  split_fields,
}

-- OpenSSL and APR. `seal` takes a key, a nonce, the associated data and a plain text, and makes the
-- cipher text and the tag; `unseal` is its inverse, and fails where the tag does not fit.
pub record Crypto : Type 0 where
  pub seal : Bytes → Bytes → Bytes → Bytes → Option (Bytes × Bytes)
  pub unseal : Bytes → Bytes → Bytes → Bytes → Bytes → Option Bytes
  pub sha256 : Bytes → Bytes
  pub encode64 : Bytes → Bytes
  pub decode64 : Bytes → Bytes

-- BS_COOKIE_ALG_GCM
abbrev pub cookie_alg_gcm : ℕ
cookie_alg_gcm = 1

abbrev pub gcm_nonce_len : ℕ
gcm_nonce_len = 12

abbrev pub gcm_tag_len : ℕ
gcm_tag_len = 16

-- BS_MAX_PAGE_BYTES
abbrev pub max_page_bytes : ℕ
max_page_bytes = 262144

abbrev pub counter_sep : ℕ
counter_sep = 46

abbrev pub envelope_of : Bytes → Option (Bytes × Bytes) → Option Bytes
envelope_of nonce none = none
envelope_of nonce (some (cipher, tag)) = some (cookie_alg_gcm ∷ (nonce ++ (cipher ++ tag)))

-- `bs_gcm_encrypt`, with the nonce that RAND_bytes gave
unfoldable pub gcm_encrypt : Crypto → Bytes → Option Bytes → Bytes → Option Bytes
gcm_encrypt crypto key none plain = none
gcm_encrypt crypto key (some nonce) plain =
    envelope_of nonce (crypto.seal key nonce (cookie_alg_gcm ∷ []) plain)

-- `bs_gcm_decrypt`
unfoldable pub gcm_decrypt : Crypto → Bytes → Bytes → Option Bytes
gcm_decrypt crypto key env =
    let cipher_len = length env - 1 - gcm_nonce_len - gcm_tag_len in
    let nonce = take gcm_nonce_len (drop 1 env) in
    let cipher = take cipher_len (drop (1 + gcm_nonce_len) env) in
    let tag = take gcm_tag_len (drop (1 + gcm_nonce_len + cipher_len) env) in
    let opened = crypto.unseal key nonce (take 1 env) cipher tag in
    if ltb (length env) (1 + gcm_nonce_len + gcm_tag_len)
    then none
    else if get_or env 0 0 == cookie_alg_gcm
    then opened
    else none

-- `n` bytes of the digest from the start are zero.
unfoldable pub zero_bytes : ℕ → Bytes → Bool
zero_bytes zero digest = true
zero_bytes (suc n) digest = get_or digest 0 0 == 0 && zero_bytes n (drop 1 digest)

-- The digest begins with `difficulty` zeros in hexadecimal.
unfoldable pub has_zeros : ℕ → Bytes → Bool
has_zeros difficulty digest =
    zero_bytes (difficulty / 2) digest
    && (difficulty % 2 == 0 || get_or digest (difficulty / 2) 0 / 16 == 0)

-- `bs_sha256_zeros_verify`; `none` accepts
unfoldable pub sha256_zeros_verify : Crypto → Challenge → Bytes → Option Reason
sha256_zeros_verify crypto ch counter =
    if length counter == 0
    then some empty_counter
    else if ltb 64 (length counter)
    then some counter_too_long
    else if has_zeros ch.difficulty (crypto.sha256 (ch.salt ++ (ch.nonce ++ counter)))
    then none
    else some insufficient_zeros

-- `bs_captcha_verify_noop`, `bs_session_verify_noop`
unfoldable pub noop_verify : Bytes → Option Reason
noop_verify counter = if length counter == 0 then some empty_counter else none

-- The call through the registry's row. A reserved row never gets here.
unfoldable pub verify_counter : Crypto → Option Algorithm → Challenge → Bytes → Option Reason
verify_counter crypto (some (name, leading_zeros)) ch counter =
    sha256_zeros_verify crypto ch counter
verify_counter crypto (some (name, passthrough)) ch counter = noop_verify counter
verify_counter crypto (some (name, reserved)) ch counter = none
verify_counter crypto none ch counter = none

-- What `bs_dir_cfg` holds of the keys: whether there is a secret, and whether keys were derived from
-- it; the derived key, and the derived key of the secondary secret, if that is set.
pub record CookieKeys : Type 0 where
  pub has_secret : Bool
  pub derived_keys_set : Bool
  pub primary : Bytes
  pub secondary : Option Bytes

-- The reason of a refusal, if it is one, and what was written through `out_ch`, if anything.
pub record Checked : Type 0 where
  pub reason : Option Reason
  pub out_ch : Option Challenge

abbrev pub untouched : Reason → Checked
untouched reason = record { reason = some reason; out_ch = none }

abbrev pub decrypt_secondary : Crypto → Option Bytes → Bytes → Option Bytes
decrypt_secondary crypto none env = none
decrypt_secondary crypto (some key) env = gcm_decrypt crypto key env

abbrev pub or_else : Option Bytes → Option Bytes → Option Bytes
or_else none other = other
or_else (some plain) other = some plain

-- After the parse: the challenge is handed out, then its time and its counter are tested. The name
-- looked up is the registry's copy of the second field.
unfoldable pub check_parsed : Crypto → ℕ → Bytes → Parsed → Checked
check_parsed crypto now counter (refused reason) = untouched reason
check_parsed crypto now counter (parsed ch) = record {
  reason =
      if ltb ch.expires_at now
      then some expired
      else verify_counter crypto (find_algorithm ch.alg_name) ch counter;
  out_ch = some ch;
}

abbrev pub check_opened : Crypto → (ℕ → Bytes) → ℕ → Bytes → Option Bytes → Checked
check_opened crypto junk now counter none = untouched signature_mismatch
check_opened crypto junk now counter (some plain) =
    check_parsed crypto now counter (parse_canonical_fields junk (split_fields 11 (c_string plain)))

-- `bs_verify_cookie_gcm`, of the text before the separator and the text behind it
unfoldable pub verify_cookie_gcm : Crypto → (ℕ → Bytes) → CookieKeys → ℕ → Bytes × Bytes → Checked
verify_cookie_gcm crypto junk keys now (prefix, counter) =
    let env = crypto.decode64 prefix in
    let plain =
      or_else (gcm_decrypt crypto keys.primary env) (decrypt_secondary crypto keys.secondary env) in
    if ltb (length env) (1 + gcm_nonce_len + gcm_tag_len)
    then untouched decode_failed
    else check_opened crypto junk now counter plain

abbrev pub onto_prefix : ℕ → Bytes × Bytes → Bytes × Bytes
onto_prefix c (prefix, rest) = (c ∷ prefix, rest)

abbrev pub map_prefix : ℕ → Option (Bytes × Bytes) → Option (Bytes × Bytes)
map_prefix c none = none
map_prefix c (some pieces) = some (onto_prefix c pieces)

abbrev pub found_or : Option (Bytes × Bytes) → Option (Bytes × Bytes) → Option (Bytes × Bytes)
found_or none other = other
found_or (some pieces) other = some pieces

-- `strrchr`: the texts before and behind the last separator.
unfoldable pub split_last : ℕ → Bytes → Option (Bytes × Bytes)
split_last sep [] = none
split_last sep (c ∷ text) =
    found_or (map_prefix c (split_last sep text)) (if c == sep then some ([], text) else none)

abbrev pub verify_split : Crypto → (ℕ → Bytes) → CookieKeys → ℕ → Option (Bytes × Bytes) → Checked
verify_split crypto junk keys now none = untouched unsupported_format
verify_split crypto junk keys now (some pieces) = verify_cookie_gcm crypto junk keys now pieces

-- `bs_verify_cookie` at the time `now`, in seconds
unfoldable pub verify_cookie : Crypto → (ℕ → Bytes) → CookieKeys → ℕ → Bytes → Checked
verify_cookie crypto junk keys now cookie =
    if not keys.has_secret
    then untouched no_secret
    else if ltb max_page_bytes (length cookie)
    then untouched absurdly_long
    else verify_split crypto junk keys now (split_last counter_sep cookie)

abbrev pub with_counter : Crypto → Bytes → Option Bytes → Option Bytes
with_counter crypto counter none = none
with_counter crypto counter (some env) = some (crypto.encode64 env ++ (counter_sep ∷ counter))

-- `bs_build_cookie_payload`
unfoldable pub build_cookie_payload :
    Crypto → CookieKeys → Option Bytes → Challenge → Bytes → Option Bytes
build_cookie_payload crypto keys nonce ch counter =
    if keys.derived_keys_set
    then with_counter crypto counter (gcm_encrypt crypto keys.primary nonce (canonical ch))
    else none

-- `bs_should_carry_prior_rep`, of what `bs_verify_cookie` answered: the challenge's memory was zeroed
-- before, so its `alg_name` is null if nothing was written.
unfoldable pub should_carry_prior_rep : Checked → Bool
should_carry_prior_rep checked = elim checked.reason [
  | none ↦ true
  | some signature_mismatch ↦ false
  | some expired ↦ false
  | some _ ↦ elim checked.out_ch [ none ↦ false | some _ ↦ true ]
]
