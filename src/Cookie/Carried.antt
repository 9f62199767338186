-- ===== src/Cookie/Carried.antt =====
-- When `bs_verify_cookie` hands a challenge out, and when its reputation is carried forward.
use botshield.Prelude.{
  c_string, ℕ, ◌≤◌, ◌<◌, ◌≡◌, ◌⊎◌, refl, sym, ◌∙◌, ap, true, false, some, Bytes, arith, ltb, length,
  inl, inr, Bool-cases, Option-cases, subst,
}
use botshield.Cookie.{
  Challenge, Parsed, parsed, refused, Reason, no_secret, absurdly_long, unsupported_format,
  decode_failed, signature_mismatch, expired, parse_canonical_fields, split_fields,
}
use botshield.Cookie.Issued.{IsIssued}
use botshield.Cookie.Accepted.{parsed-IsIssued}
use botshield.Cookie.Envelope.{
  Crypto, CookieKeys, Checked, untouched, max_page_bytes, counter_sep, gcm_decrypt, check_parsed,
  verify_cookie_gcm, split_last, verify_cookie, or_else, decrypt_secondary, should_carry_prior_rep,
}

-- One of the keys opened the envelope.
abbrev pub Opened : Crypto → CookieKeys → Bytes → Bytes → Type 0
Opened crypto keys env plain =
    (gcm_decrypt crypto keys.primary env ≡ some plain)
    ⊎ ((key : Bytes) × (keys.secondary ≡ some key) × (gcm_decrypt crypto key env ≡ some plain))

-- The challenge is one that the server could have issued, and it was read from what a key of the
-- server opened.
abbrev pub Authentic : Crypto → (ℕ → Bytes) → CookieKeys → Bytes → Challenge → Type 0
Authentic crypto junk keys cookie ch =
    (prefix : Bytes) × (counter : Bytes) × (plain : Bytes) × (split_last counter_sep cookie
      ≡ some (prefix, counter))
    × Opened crypto keys (crypto.decode64 prefix) plain
    × (parse_canonical_fields junk (split_fields 11 (c_string plain)) ≡ parsed ch)
    × IsIssued ch

-- The two ways to end: with nothing written, or with an authentic challenge handed out.
Ended : Crypto → (ℕ → Bytes) → CookieKeys → ℕ → Bytes → Checked → Type 0
Ended crypto junk keys now cookie c =
    ((r : Reason) × (c ≡ untouched r))
    ⊎ ((ch : Challenge) × Authentic crypto junk keys cookie ch
        × (c.out_ch ≡ some ch)
        × (ch.expires_at < now → c.reason ≡ some expired))

or_else-Opened :
    (crypto : Crypto) (keys : CookieKeys) (env plain : Bytes)
    → or_else (gcm_decrypt crypto keys.primary env) (decrypt_secondary crypto keys.secondary env)
      ≡ some plain
    → Opened crypto keys env plain
or_else-Opened crypto keys env plain h = elim (Option-cases (gcm_decrypt crypto keys.primary env)) [
  | inl e ↦ elim (Option-cases keys.secondary) [
    | inl none_set ↦ absurd (ground (arith, h, e, none_set))
    | inr (key, set) ↦ inr (key, set, rw (e, set) at h)
  ]
  | inr (other, e) ↦ inl (e ∙ rw e at h)
]

parsed-Ended :
    (crypto : Crypto) (junk : ℕ → Bytes) (keys : CookieKeys) (now : ℕ)
    (cookie prefix counter plain : Bytes) (p : Parsed)
    → split_last counter_sep cookie ≡ some (prefix, counter)
    → Opened crypto keys (crypto.decode64 prefix) plain
    → parse_canonical_fields junk (split_fields 11 (c_string plain)) ≡ p
    → Ended crypto junk keys now cookie (check_parsed crypto now counter p)
unfolding Ended check_parsed
parsed-Ended crypto junk keys now cookie prefix counter plain (refused r) split opened e =
    inl (r, refl)
parsed-Ended crypto junk keys now cookie prefix counter plain (parsed ch) split opened e = inr (
  ch,
  (
    prefix,
    counter,
    plain,
    split,
    opened,
    e,
    (parsed-IsIssued junk (split_fields 11 (c_string plain)) ch e).1,
  ),
  refl,
  λ late. let old : ltb ch.expires_at now ≡ true = ground (arith, late) in rw old refl,
)

untouched-Ended :
    (crypto : Crypto) (junk : ℕ → Bytes) (keys : CookieKeys) (now : ℕ) (cookie : Bytes) (r : Reason)
    → Ended crypto junk keys now cookie (untouched r)
unfolding Ended
untouched-Ended crypto junk keys now cookie r = inl (r, refl)

gcm-Ended :
    (crypto : Crypto) (junk : ℕ → Bytes) (keys : CookieKeys) (now : ℕ)
    (cookie prefix counter : Bytes)
    → split_last counter_sep cookie ≡ some (prefix, counter)
    → Ended crypto junk keys now cookie (verify_cookie_gcm crypto junk keys now (prefix, counter))
unfolding verify_cookie_gcm
gcm-Ended crypto junk keys now cookie prefix counter split =
    let env : Bytes = crypto.decode64 prefix in
    elim (Bool-cases (ltb (length env) 29)) [
      | inl short ↦ rw short (untouched-Ended crypto junk keys now cookie decode_failed)
      | inr long ↦
          elim (Option-cases (
            or_else (gcm_decrypt crypto keys.primary env)
              (decrypt_secondary crypto keys.secondary env))) [
                | inl e ↦
                    rw (long, e) (untouched-Ended crypto junk keys now cookie signature_mismatch)
                | inr (plain, e) ↦
                    rw (long, e)
                      (parsed-Ended crypto junk keys now cookie prefix counter plain
                        (parse_canonical_fields junk (split_fields 11 (c_string plain))) split
                        (or_else-Opened crypto keys env plain e) refl)
              ]
    ]

verify-Ended :
    (crypto : Crypto) (junk : ℕ → Bytes) (keys : CookieKeys) (now : ℕ) (cookie : Bytes)
    → Ended crypto junk keys now cookie (verify_cookie crypto junk keys now cookie)
unfolding verify_cookie
verify-Ended crypto junk keys now cookie = elim (Bool-cases keys.has_secret) [
  | inr none_set ↦ simp none_set (untouched-Ended crypto junk keys now cookie no_secret)
  | inl set ↦ elim (Bool-cases (ltb max_page_bytes (length cookie))) [
    | inl long ↦ simp (set, long) (untouched-Ended crypto junk keys now cookie absurdly_long)
    | inr fits ↦ elim (Option-cases (split_last counter_sep cookie)) [
      | inl e ↦ simp (set, fits, e) (untouched-Ended crypto junk keys now cookie unsupported_format)
      | inr ((prefix, counter), e) ↦
          simp (set, fits, e) (gcm-Ended crypto junk keys now cookie prefix counter e)
    ]
  ]
]

-- A challenge is handed out only if a key of the server opened the envelope before the last dot of
-- the cookie, and only the challenge that was parsed from the opened text; it is one that the server
-- could have issued.
pub written-Authentic :
    (crypto : Crypto) (junk : ℕ → Bytes) (keys : CookieKeys) (now : ℕ) (cookie : Bytes)
    (ch : Challenge)
    → (verify_cookie crypto junk keys now cookie).out_ch ≡ some ch
    → Authentic crypto junk keys cookie ch
unfolding Ended
written-Authentic crypto junk keys now cookie ch h =
    elim (verify-Ended crypto junk keys now cookie) [
      | inl (r, e) ↦ absurd (ground (arith, ap (λ (c : Checked). c.out_ch) e, h))
      | inr (other, authentic, written, _) ↦
          let same : some other ≡ some ch = sym written ∙ h in
          let is_other : other ≡ ch = cc in
          subst (Authentic crypto junk keys cookie) is_other authentic
    ]

carry-untouched : (r : Reason) → should_carry_prior_rep (untouched r) ≡ false
unfolding should_carry_prior_rep
carry-untouched r = elim r as (λ k. should_carry_prior_rep (untouched k) ≡ false) [
  | no_secret ↦ refl
  | _ ↦ refl
]

carry-expired : (c : Checked) → c.reason ≡ some expired → should_carry_prior_rep c ≡ false
unfolding should_carry_prior_rep
carry-expired c e = rw e refl

-- Reputation is carried forward only from a challenge that was handed out, so from an authentic one,
-- and never from one that has expired.
pub carried-Authentic :
    (crypto : Crypto) (junk : ℕ → Bytes) (keys : CookieKeys) (now : ℕ) (cookie : Bytes)
    → should_carry_prior_rep (verify_cookie crypto junk keys now cookie) ≡ true
    → (ch : Challenge) × ((verify_cookie crypto junk keys now cookie).out_ch ≡ some ch)
      × Authentic crypto junk keys cookie ch
      × (now ≤ ch.expires_at)
unfolding Ended
carried-Authentic crypto junk keys now cookie h = elim (verify-Ended crypto junk keys now cookie) [
  | inl (r, e) ↦ absurd (ground (arith, h, ap should_carry_prior_rep e, carry-untouched r))
  | inr (ch, authentic, written, late) ↦
      let c : Checked = verify_cookie crypto junk keys now cookie in
      elim (Bool-cases (ltb ch.expires_at now)) [
        | inl old ↦ absurd (ground (arith, h, carry-expired c (late (ground (arith, old)))))
        | inr young ↦ (ch, written, authentic, ground (arith, young))
      ]
]
