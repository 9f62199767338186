-- ===== src/Shm/Nonce/History.antt =====
-- A nonce that was redeemed is not redeemed again before it expires, whatever else is redeemed.
use botshield.Prelude.{
  ℕ, ◌<◌, ◌≡◌, ◌≢◌, refl, ◌∙◌, Bool, true, false, ◌&&◌, none, some, List, [], ◌∷◌, Bytes, arith,
  get_or, set, length-set, ◌==◌, inl, inr, Bool-cases,
}
use botshield.Shm.Hash.{bucket_of}
use botshield.Shm.Slots.{Lock, find}
use botshield.Shm.Probe.{Reaches, find-set_unrelated, window-lt}
use botshield.Shm.State.{NonceSlot, Shm, blank_nonce}
use botshield.Shm.Nonce.{
  fingerprint, nonce_window, NonceScan, replay, ended, nonce_write, nonce_store, nonce_locked,
  nonce_consume,
}
use botshield.Shm.Nonce.Replay.{
  nonce_matches, nonce_reusable, NonceReady, Redeemed, AllEnds, scan-AllEnds, scan-replay,
  consume_cases, consume-Redeemed,
}

-- A call of `bs_embedded_nonce_consume`, with what it reads from the clock and from the mutex.
pub record NonceCall : Type 0 where
  pub lock : Lock
  pub now : ℕ
  pub warn_us : ℕ
  pub nonce : Bytes
  pub expires_at : ℕ
  pub ns : ℕ

unfoldable pub redeem : Shm → NonceCall → Shm × Bool
redeem s c = nonce_consume c.lock c.now c.warn_us c.nonce c.expires_at c.ns s

unfoldable pub nonce_run : Shm → List NonceCall → Shm
nonce_run s [] = s
nonce_run s (c ∷ cs) = nonce_run (redeem s c).0 cs

-- Every call reads a time before `e`.
abbrev pub Before : ℕ → List NonceCall → Type 0
Before e [] = Unit
Before e (c ∷ cs) = (c.now < e) × Before e cs

find-matches :
    (fp ns : ℕ) (table : List NonceSlot) (idxs : List ℕ) (x : NonceSlot)
    → find blank_nonce (nonce_matches fp ns) table idxs ≡ some x
    → nonce_matches fp ns x ≡ true
unfolding find
find-matches fp ns table [] x h = absurd (ground (arith, h))
find-matches fp ns table (idx ∷ rest) x h =
    elim (Bool-cases (nonce_matches fp ns (get_or table idx blank_nonce))) [
      | inl a ↦ ground (arith, h, a)
      | inr a ↦ find-matches fp ns table rest x (rw a at h)
    ]

-- A fresh record of one fingerprint is not what a redemption of another may overwrite.
reusable-ne :
    (fp ns fp' ns' now e : ℕ) (y x : NonceSlot)
    → nonce_matches fp ns x ≡ true
    → x.expires_at ≡ e
    → now < e
    → (fp' == fp && ns' == ns) ≡ false
    → nonce_reusable fp' ns' now y ≡ true
    → y ≢ x
unfolding nonce_matches nonce_reusable
reusable-ne fp ns fp' ns' now e y x m u lt d r eq = ground arith

write_other :
    (fp ns fp' ns' expires_at : ℕ) (slot : NonceSlot)
    → (fp' == fp && ns' == ns) ≡ false
    → nonce_matches fp ns (nonce_write slot fp' ns' expires_at) ≡ false
unfolding nonce_matches
write_other fp ns fp' ns' expires_at slot d = ground arith

module _ (key : Bytes) (fp ns e : ℕ) (s : Shm) (h : Redeemed key fp ns e s) (now fp' ns' : ℕ) where
  -- What a redemption of another fingerprint proposes to overwrite.
  Harmless : ℕ → Type 0
  Harmless v =
      Reaches blank_nonce (nonce_matches fp' ns') h.table v (nonce_window fp' s.nonce_capacity)
      × (nonce_reusable fp' ns' now (get_or h.table v blank_nonce) ≡ true)

  store_keeps :
      (v expires_at warn_us : ℕ)
      → now < e
      → (fp' == fp && ns' == ns) ≡ false
      → Harmless v
      → Redeemed key fp ns e (nonce_store (some v) fp' ns' expires_at warn_us h.table s).0
  unfolding Harmless
  store_keeps v expires_at warn_us lt d (reach, u) = record {
    keyed = h.keyed;
    table = set h.table v w;
    ready = record {
      mapped = refl;
      sized = length-set h.table v w ∙ h.ready.sized;
      nonempty = h.ready.nonempty;
      guarded = h.ready.guarded;
    };
    slot = h.slot;
    found =
        find-set_unrelated blank_nonce (nonce_matches fp ns) h.table v w h.slot
          (nonce_window fp s.nonce_capacity)
          (rw h.ready.sized (
            window-lt blank_nonce (nonce_matches fp' ns') h.table (bucket_of fp' s.nonce_capacity)
              s.nonce_capacity 0 8 h.ready.nonempty reach))
          (reusable-ne fp ns fp' ns' now e (get_or h.table v blank_nonce) h.slot
            (find-matches fp ns h.table (nonce_window fp s.nonce_capacity) h.slot h.found) h.until
            lt d u)
          (write_other fp ns fp' ns' expires_at (get_or h.table v blank_nonce) d) h.found;
    until = h.until;
  }
    where
      w : NonceSlot
      w = nonce_write (get_or h.table v blank_nonce) fp' ns' expires_at

  locked_keeps :
      (out : NonceScan) (expires_at warn_us : ℕ)
      → now < e
      → (fp' == fp && ns' == ns) ≡ false
      → AllEnds Harmless out
      → Redeemed key fp ns e (nonce_locked out fp' ns' expires_at warn_us h.table s).0
  unfolding nonce_locked
  locked_keeps replay expires_at warn_us lt d all = h
  locked_keeps (ended none none) expires_at warn_us lt d all = record {
    keyed = h.keyed;
    table = h.table;
    ready = record {
      mapped = h.ready.mapped;
      sized = h.ready.sized;
      nonempty = h.ready.nonempty;
      guarded = h.ready.guarded;
    };
    slot = h.slot;
    found = h.found;
    until = h.until;
  }
  locked_keeps (ended none (some v)) expires_at warn_us lt d all =
      store_keeps v expires_at warn_us lt d all.1
  locked_keeps (ended (some v) evict) expires_at warn_us lt d all =
      store_keeps v expires_at warn_us lt d all.0

-- A second redemption is refused and changes nothing.
redeem_again :
    (key : Bytes) (fp ns e : ℕ) (s : Shm) (c : NonceCall)
    → Redeemed key fp ns e s
    → c.now < e
    → fingerprint s.siphash_key c.nonce c.ns ≡ fp
    → c.ns ≡ ns
    → redeem s c ≡ (s, false)
unfolding redeem
redeem_again key fp ns e s c h lt ef en =
    elim (consume_cases c.lock c.now c.warn_us c.nonce c.expires_at c.ns s h.table h.ready) [
      | inl eq ↦ eq
      | inr eq ↦
          eq
          ∙ rw
              (
                ef,
                en,
                scan-replay fp ns c.now h.table none none (nonce_window fp s.nonce_capacity) h.slot
                    h.found (omega (arith, h.until)),
              )
              (unfold nonce_locked in refl)
    ]

redeem_keeps :
    (key : Bytes) (fp ns e : ℕ) (s : Shm) (c : NonceCall)
    → Redeemed key fp ns e s
    → c.now < e
    → Redeemed key fp ns e (redeem s c).0
redeem_keeps key fp ns e s c h lt =
    elim (Bool-cases (fingerprint s.siphash_key c.nonce c.ns == fp && c.ns == ns)) [
      | inl same ↦
          rw (redeem_again key fp ns e s c h lt (ground (arith, same)) (ground (arith, same))) h
      | inr d ↦
          elim (consume_cases c.lock c.now c.warn_us c.nonce c.expires_at c.ns s h.table h.ready) [
            | inl eq ↦ unfold redeem in rw eq h
            | inr eq ↦
                unfold redeem in
                rw eq (
                  locked_keeps key fp ns e s h c.now (fingerprint s.siphash_key c.nonce c.ns) c.ns _
                    c.expires_at c.warn_us lt d
                    (scan-AllEnds _ (fingerprint s.siphash_key c.nonce c.ns) c.ns c.now h.table none
                      none (nonce_window (fingerprint s.siphash_key c.nonce c.ns) s.nonce_capacity)
                      tt tt (λ v reach u. unfold Harmless in (reach, u))))
          ]
    ]

run_keeps :
    (key : Bytes) (fp ns e : ℕ) (s : Shm) (cs : List NonceCall)
    → Redeemed key fp ns e s
    → Before e cs
    → Redeemed key fp ns e (nonce_run s cs)
unfolding nonce_run
run_keeps key fp ns e s [] h b = h
run_keeps key fp ns e s (c ∷ cs) h b =
    run_keeps key fp ns e (redeem s c).0 cs (redeem_keeps key fp ns e s c h b.0) b.1

-- A nonce is good for one redemption: once a call has accepted it, then after any other calls, of
-- any nonces and with any answers of the mutex, that read times before its expiry, a call for the
-- same nonce and namespace that reads a time before the expiry is refused and changes nothing.
pub redeemed_once :
    (s : Shm) (table : List NonceSlot) (first again : NonceCall) (between : List NonceCall)
    → NonceReady s table
    → (redeem s first).1 ≡ true
    → Before first.expires_at between
    → again.now < first.expires_at
    → again.nonce ≡ first.nonce
    → again.ns ≡ first.ns
    → redeem (nonce_run (redeem s first).0 between) again
      ≡ (nonce_run (redeem s first).0 between, false)
redeemed_once s table first again between r ok b lt en ens =
    redeem_again s.siphash_key fp first.ns first.expires_at _ again kept lt
      (rw (kept.keyed, en, ens)) ens
  where
    fp : ℕ
    fp = fingerprint s.siphash_key first.nonce first.ns

    kept :
        Redeemed s.siphash_key fp first.ns first.expires_at (nonce_run (redeem s first).0 between)
    kept =
        run_keeps s.siphash_key fp first.ns first.expires_at (redeem s first).0 between
          (unfold redeem in
            consume-Redeemed first.lock first.now first.warn_us first.nonce first.expires_at
              first.ns s table r ok)
          b
