-- ===== src/Cookie/Sealed.antt =====
-- A cookie that the server builds, and what `bs_verify_cookie` says of it.
use botshield.Prelude.{
  ℕ, suc, ◌+◌, ◌-◌, ◌≤◌, ◌≡◌, ◌⊎◌, refl, sym, ◌∙◌, ap, Bool, true, false, Option, none, some, [],
  ◌∷◌, ◌++◌, Bytes, arith, ◌==◌, ==_refl, ltb, if◌then◌else◌, length, length-append, drop,
  take-append, drop-append, drop_add, take_all, inl, inr, Bool-cases, Option-cases, subst,
}
use botshield.Cookie.{Challenge, find_algorithm, expired, canonical}
use botshield.Cookie.Issued.{IsIssued, parse-canonical}
use botshield.Cookie.Envelope.{
  Crypto, CookieKeys, cookie_alg_gcm, max_page_bytes, counter_sep, gcm_encrypt, gcm_decrypt,
  check_parsed, check_opened, verify_counter, verify_cookie_gcm, split_last, verify_cookie,
  build_cookie_payload, or_else, decrypt_secondary,
}

abbrev pub has_byte : ℕ → Bytes → Bool
has_byte b [] = false
has_byte b (c ∷ text) = if c == b then true else has_byte b text

split_last-none : (sep : ℕ) (text : Bytes) → has_byte sep text ≡ false → split_last sep text ≡ none
unfolding split_last
split_last-none sep [] h = refl
split_last-none sep (c ∷ text) h =
    let other : (c == sep) ≡ false = ground (arith, h) in
    let rest : has_byte sep text ≡ false = ground (arith, h) in
    rw (split_last-none sep text rest, other) refl

split_last-append :
    (sep : ℕ) (prefix text : Bytes)
    → has_byte sep text ≡ false
    → split_last sep (prefix ++ (sep ∷ text)) ≡ some (prefix, text)
unfolding split_last
split_last-append sep [] text h = rw (split_last-none sep text h, ==_refl sep) refl
split_last-append sep (c ∷ prefix) text h = rw (split_last-append sep prefix text h) refl

-- The pieces of an envelope are found again.
gcm_decrypt-pieces :
    (crypto : Crypto) (key nonce cipher tag : Bytes)
    → length nonce ≡ 12
    → length tag ≡ 16
    → gcm_decrypt crypto key (cookie_alg_gcm ∷ (nonce ++ (cipher ++ tag)))
      ≡ crypto.unseal key nonce (cookie_alg_gcm ∷ []) cipher tag
unfolding gcm_decrypt
gcm_decrypt-pieces crypto key nonce cipher tag en et =
    let total : length (nonce ++ (cipher ++ tag)) ≡ 12 + (length cipher + 16) =
      length-append nonce (cipher ++ tag) ∙ omega (arith, length-append cipher tag, en, et) in
    let cipher_len : suc (length (nonce ++ (cipher ++ tag))) - 1 - 12 - 16 ≡ length cipher =
      omega (arith, total) in
    let long : ltb (suc (length (nonce ++ (cipher ++ tag)))) 29 ≡ false = ground (arith, total) in
    let behind : drop 12 (nonce ++ (cipher ++ tag)) ≡ cipher ++ tag =
      drop-append 12 nonce (cipher ++ tag) en in
    let last : drop (13 + length cipher) (cookie_alg_gcm ∷ (nonce ++ (cipher ++ tag))) ≡ tag =
      drop_add 13 (length cipher) (13 + length cipher) (cookie_alg_gcm ∷ (nonce ++ (cipher ++ tag)))
        refl
      ∙ ap (drop (length cipher)) behind
      ∙ drop-append (length cipher) cipher tag refl in
    rw
      (
        long,
        cipher_len,
        take-append 12 nonce (cipher ++ tag) en,
        behind,
        take-append (length cipher) cipher tag refl,
        last,
        take_all 16 tag et,
      )
      refl

-- What was opened is canonical text of an issued challenge, so that challenge is handed out.
check_opened-canonical :
    (crypto : Crypto) (junk : ℕ → Bytes) (now : ℕ) (counter : Bytes) (ch : Challenge)
    → IsIssued ch
    → check_opened crypto junk now counter (some (canonical ch)) ≡ record {
      reason =
          if ltb ch.expires_at now
          then some expired
          else verify_counter crypto (find_algorithm ch.alg_name) ch counter;
      out_ch = some ch;
    }
unfolding check_parsed
check_opened-canonical crypto junk now counter ch issued = rw (parse-canonical ch junk issued) refl

some_prefix :
    {a b c d : Bytes} → ◌≡◌ {A = Option (Bytes × Bytes)} (some (a, b)) (some (c, d)) → a ≡ c
some_prefix {a} e = ap (λ (o : Option (Bytes × Bytes)). elim o [ none ↦ a | some pair ↦ pair.0 ]) e

module _ (crypto : Crypto)
    (unseal-seal : (key nonce aad plain cipher tag : Bytes)
      → crypto.seal key nonce aad plain ≡ some (cipher, tag)
      → crypto.unseal key nonce aad cipher tag ≡ some plain)
    (length-tag : (key nonce aad plain cipher tag : Bytes)
      → crypto.seal key nonce aad plain ≡ some (cipher, tag)
      → length tag ≡ 16)
    (decode64-encode64 : (env : Bytes) → crypto.decode64 (crypto.encode64 env) ≡ env) where
  sealed_env :
      (key nonce plain env : Bytes)
      → gcm_encrypt crypto key (some nonce) plain ≡ some env
      → (cipher : Bytes) × (tag : Bytes) × (crypto.seal key nonce (cookie_alg_gcm ∷ []) plain
          ≡ some (cipher, tag))
        × (env ≡ cookie_alg_gcm ∷ (nonce ++ (cipher ++ tag)))
  unfolding gcm_encrypt
  sealed_env key nonce plain env h =
      elim (Option-cases (crypto.seal key nonce (cookie_alg_gcm ∷ []) plain)) [
        | inl e ↦ absurd (ground (arith, h, e))
        | inr ((cipher, tag), e) ↦
            let same : some (cookie_alg_gcm ∷ (nonce ++ (cipher ++ tag))) ≡ some env =
              rw (gcm_encrypt, e) at h in
            (cipher, tag, e, cc)
      ]

  gcm_decrypt-gcm_encrypt :
      (key nonce plain env : Bytes)
      → length nonce ≡ 12
      → gcm_encrypt crypto key (some nonce) plain ≡ some env
      → (gcm_decrypt crypto key env ≡ some plain) × (29 ≤ length env)
  gcm_decrypt-gcm_encrypt key nonce plain env en h =
      let (cipher, tag, sealed, e) = sealed_env key nonce plain env h in
      let et = length-tag key nonce (cookie_alg_gcm ∷ []) plain cipher tag sealed in
      (
        subst (λ (b : Bytes). gcm_decrypt crypto key b ≡ some plain) (sym e)
            (gcm_decrypt-pieces crypto key nonce cipher tag en et
              ∙ unseal-seal key nonce (cookie_alg_gcm ∷ []) plain cipher tag sealed),
        subst (λ (b : Bytes). 29 ≤ length b) (sym e)
            (omega (arith, length-append nonce (cipher ++ tag), length-append cipher tag, en, et)),
      )

  opened :
      (issuer verifier : CookieKeys) (nonce plain env : Bytes)
      → length nonce ≡ 12
      → gcm_encrypt crypto issuer.primary (some nonce) plain ≡ some env
      → (verifier.primary ≡ issuer.primary)
        ⊎ ((verifier.secondary ≡ some issuer.primary)
            × (gcm_decrypt crypto verifier.primary env ≡ none))
      → or_else
          (gcm_decrypt crypto verifier.primary env)
          (decrypt_secondary crypto verifier.secondary env)
        ≡ some plain
  opened issuer verifier nonce plain env en h (inl same) =
      rw (same, (gcm_decrypt-gcm_encrypt issuer.primary nonce plain env en h).0) refl
  opened issuer verifier nonce plain env en h (inr (second, shut)) =
      rw (shut, second, (gcm_decrypt-gcm_encrypt issuer.primary nonce plain env en h).0) refl

  built_env :
      (keys : CookieKeys) (nonce counter cookie : Bytes) (ch : Challenge)
      → build_cookie_payload crypto keys (some nonce) ch counter ≡ some cookie
      → (env : Bytes) × (gcm_encrypt crypto keys.primary (some nonce) (canonical ch) ≡ some env)
        × (crypto.encode64 env ++ (counter_sep ∷ counter) ≡ cookie)
  unfolding build_cookie_payload
  built_env keys nonce counter cookie ch h = elim (Bool-cases keys.derived_keys_set) [
    | inl set ↦ elim (Option-cases (gcm_encrypt crypto keys.primary (some nonce) (canonical ch))) [
      | inl e ↦ absurd (ground (arith, h, set, e))
      | inr (env, e) ↦
          let same : some (crypto.encode64 env ++ (counter_sep ∷ counter)) ≡ some cookie =
            rw (build_cookie_payload, set, e) at h in
          (env, e, cc)
    ]
    | inr unset ↦ absurd (ground (arith, h, unset))
  ]

  -- With a 12-byte nonce, a counter without a dot and a cookie of admissible length, what the server
  -- builds for an issued challenge is accepted by any server that holds the sealing key as its
  -- primary or, where its primary key does not open the envelope, as its secondary one: the challenge
  -- is handed out as it was issued, and the answer is that of the expiry and of the counter's test.
  pub verify-build :
      (junk : ℕ → Bytes) (issuer verifier : CookieKeys) (now : ℕ) (nonce counter prefix : Bytes)
      (ch : Challenge)
      → IsIssued ch
      → length nonce ≡ 12
      → has_byte counter_sep counter ≡ false
      → build_cookie_payload crypto issuer (some nonce) ch counter
        ≡ some (prefix ++ (counter_sep ∷ counter))
      → length (prefix ++ (counter_sep ∷ counter)) ≤ max_page_bytes
      → verifier.has_secret ≡ true
      → (verifier.primary ≡ issuer.primary)
        ⊎ ((verifier.secondary ≡ some issuer.primary)
            × (gcm_decrypt crypto verifier.primary (crypto.decode64 prefix) ≡ none))
      → verify_cookie crypto junk verifier now (prefix ++ (counter_sep ∷ counter)) ≡ record {
        reason =
            if ltb ch.expires_at now
            then some expired
            else verify_counter crypto (find_algorithm ch.alg_name) ch counter;
        out_ch = some ch;
      }
  unfolding build_cookie_payload verify_cookie verify_cookie_gcm
  verify-build junk issuer verifier now nonce counter prefix ch issued en plain_counter built short
        ready holds =
      let (env, sealed, e) =
        built_env issuer nonce counter (prefix ++ (counter_sep ∷ counter)) ch built in
      let pieces : ◌≡◌ {A = Option (Bytes × Bytes)} (some (crypto.encode64 env, counter))
          (some (prefix, counter)) =
        sym (split_last-append counter_sep (crypto.encode64 env) counter plain_counter)
        ∙ ap (split_last counter_sep) e
        ∙ split_last-append counter_sep prefix counter plain_counter in
      let same : crypto.encode64 env ≡ prefix = some_prefix pieces in
      let decoded : crypto.decode64 prefix ≡ env =
        ap crypto.decode64 (sym same) ∙ decode64-encode64 env in
      let long : ltb (length env) 29 ≡ false =
        ground
          (arith, (gcm_decrypt-gcm_encrypt issuer.primary nonce (canonical ch) env en sealed).1) in
      let fits : ltb max_page_bytes (length (prefix ++ (counter_sep ∷ counter))) ≡ false =
        ground (arith, short) in
      rw
        (
          ready,
          fits,
          split_last-append counter_sep prefix counter plain_counter,
          decoded,
          long,
          opened issuer verifier nonce (canonical ch) env en sealed (rw decoded at holds),
        )
        (check_opened-canonical crypto junk now counter ch issued)
