-- ===== src/Shm/Nonce/Replay.antt =====
-- The record that a redemption leaves in the nonce table, and what the scan makes of it.
use botshield.Prelude.{
  ℕ, ◌<◌, ◌≡◌, refl, ◌∙◌, Bool, true, false, not, ◌&&◌, ◌||◌, Option, none, some, List, [], ◌∷◌,
  Bytes, arith, length, get_or, set, length-set, ◌==◌, ◌⊎◌, inl, inr, Bool-cases, if◌then◌else◌,
  ltb,
}
use botshield.Shm.Hash.{bucket_of}
use botshield.Shm.Slots.{is_torn, published-even, Lock, acquired, busy, failed, find, keep_first}
use botshield.Shm.Probe.{Reaches, find-set_self, window-lt}
use botshield.Shm.State.{NonceSlot, Shm, blank_nonce}
use botshield.Shm.Nonce.{
  fingerprint, nonce_window, NonceScan, replay, ended, nonce_scan, nonce_write, nonce_store,
  nonce_locked, nonce_consume,
}

-- The slot records this fingerprint.
unfoldable pub nonce_matches : ℕ → ℕ → NonceSlot → Bool
nonce_matches fp ns slot =
    not (is_torn slot.version) && (slot.used && (slot.nonce_hash == fp && slot.ns_id == ns))

-- What a redemption may overwrite.
unfoldable pub nonce_reusable : ℕ → ℕ → ℕ → NonceSlot → Bool
nonce_reusable fp ns now slot =
    is_torn slot.version
    || (not slot.used || (ltb slot.expires_at now || (slot.nonce_hash == fp && slot.ns_id == ns)))

abbrev pub Every : (ℕ → Type 0) → Option ℕ → Type 0
Every Q none = Unit
Every Q (some v) = Q v

Every-keep_first :
    (Q : ℕ → Type 0) (o : Option ℕ) (idx : ℕ) → Every Q o → Q idx → Every Q (keep_first o idx)
Every-keep_first Q none idx h q = q
Every-keep_first Q (some v) idx h q = h

abbrev pub AllEnds : (ℕ → Type 0) → NonceScan → Type 0
AllEnds Q replay = Unit
AllEnds Q (ended empty evict) = Every Q empty × Every Q evict

-- What holds of the slots that may be reached and reused holds of what the scan proposes.
pub scan-AllEnds :
    (Q : ℕ → Type 0) (fp ns now : ℕ) (table : List NonceSlot) (empty evict : Option ℕ)
    (idxs : List ℕ)
    → Every Q empty
    → Every Q evict
    → ((v : ℕ)
        → Reaches blank_nonce (nonce_matches fp ns) table v idxs
        → nonce_reusable fp ns now (get_or table v blank_nonce) ≡ true
        → Q v)
    → AllEnds Q (nonce_scan fp ns now table empty evict idxs)
unfolding nonce_scan
scan-AllEnds Q fp ns now table empty evict [] h k all = (h, k)
scan-AllEnds Q fp ns now table empty evict (idx ∷ rest) h k all =
    elim (Bool-cases (is_torn slot.version || not slot.used)) [
      | inl e ↦ rw e (
          scan-AllEnds Q fp ns now table (keep_first empty idx) evict rest
            (Every-keep_first Q empty idx h
              (all idx (inl refl) (unfold nonce_reusable in ground (arith, e))))
            k (λ v r. all v (inr (unfold nonce_matches in ground (arith, e), r))))
      | inr e ↦ elim (Bool-cases (slot.nonce_hash == fp && slot.ns_id == ns)) [
        | inl m ↦ elim (Bool-cases (ltb now slot.expires_at)) [
          | inl x ↦ rw (e, m, x) tt
          | inr x ↦
              rw (e, m, x) (h, all idx (inl refl) (unfold nonce_reusable in ground (arith, e, m)))
        ]
        | inr m ↦ elim (Bool-cases (ltb slot.expires_at now)) [
          | inl x ↦
              rw (e, m, x)
                (scan-AllEnds Q fp ns now table empty (keep_first evict idx) rest h
                  (Every-keep_first Q evict idx k
                    (all idx (inl refl) (unfold nonce_reusable in ground (arith, x))))
                  (λ v r. all v (inr (unfold nonce_matches in ground (arith, m), r))))
          | inr x ↦
              rw (e, m, x)
                (scan-AllEnds Q fp ns now table empty evict rest h k
                  (λ v r. all v (inr (unfold nonce_matches in ground (arith, m), r))))
        ]
      ]
    ]
  where
    slot : NonceSlot
    slot = get_or table idx blank_nonce

-- A fresh record of the fingerprint makes the scan report a replay, whatever else it meets.
pub scan-replay :
    (fp ns now : ℕ) (table : List NonceSlot) (empty evict : Option ℕ) (idxs : List ℕ)
    (x : NonceSlot)
    → find blank_nonce (nonce_matches fp ns) table idxs ≡ some x
    → now < x.expires_at
    → nonce_scan fp ns now table empty evict idxs ≡ replay
unfolding nonce_scan find nonce_matches
scan-replay fp ns now table empty evict [] x h lt = absurd (ground (arith, h))
scan-replay fp ns now table empty evict (idx ∷ rest) x h lt = ground (
  arith,
  scan-replay fp ns now table (keep_first empty idx) evict rest x,
  scan-replay fp ns now table empty
      (if ltb (get_or table idx blank_nonce).expires_at now then keep_first evict idx else evict)
      rest x,
)

-- The table is mapped with its capacity, and there is a mutex.
pub record NonceReady (s : Shm) (table : List NonceSlot) : Type 0 where
  pub mapped : s.nonce_table ≡ some table
  pub sized : length table ≡ s.nonce_capacity
  pub nonempty : 0 < s.nonce_capacity
  pub guarded : s.mutex ≡ true

-- The first record of the fingerprint in its window expires at `e`.
pub record Redeemed (key : Bytes) (fp ns e : ℕ) (s : Shm) : Type 0 where
  pub keyed : s.siphash_key ≡ key
  pub table : List NonceSlot
  pub ready : NonceReady s table
  pub slot : NonceSlot
  pub found :
      find blank_nonce (nonce_matches fp ns) table (nonce_window fp s.nonce_capacity) ≡ some slot
  pub until : slot.expires_at ≡ e

-- A call either changes nothing and is refused, or runs the locked part.
pub consume_cases :
    (lock : Lock) (now warn_us : ℕ) (nonce : Bytes) (expires_at ns : ℕ) (s : Shm)
    (table : List NonceSlot)
    → NonceReady s table
    → (nonce_consume lock now warn_us nonce expires_at ns s ≡ (s, false))
      ⊎ (nonce_consume lock now warn_us nonce expires_at ns s
          ≡ nonce_locked
              (nonce_scan
                (fingerprint s.siphash_key nonce ns)
                ns
                now
                table
                none
                none
                (nonce_window (fingerprint s.siphash_key nonce ns) s.nonce_capacity))
              (fingerprint s.siphash_key nonce ns)
              ns
              expires_at
              warn_us
              table
              s)
unfolding nonce_consume
consume_cases lock now warn_us nonce expires_at ns s table r =
    elim (Bool-cases
      (not s.mutex || (s.nonce_capacity == 0 || (length nonce == 0 || ltb 32 (length nonce))))) [
        | inl e ↦ inl (ground (arith, r.mapped, e))
        | inr e ↦ go lock e
      ]
  where
    go :
        (l : Lock)
        → (not s.mutex || (s.nonce_capacity == 0 || (length nonce == 0 || ltb 32 (length nonce))))
          ≡ false
        → (nonce_consume l now warn_us nonce expires_at ns s ≡ (s, false))
          ⊎ (nonce_consume l now warn_us nonce expires_at ns s
              ≡ nonce_locked
                  (nonce_scan
                    (fingerprint s.siphash_key nonce ns)
                    ns
                    now
                    table
                    none
                    none
                    (nonce_window (fingerprint s.siphash_key nonce ns) s.nonce_capacity))
                  (fingerprint s.siphash_key nonce ns)
                  ns
                  expires_at
                  warn_us
                  table
                  s)
    go acquired e = inr (ground (arith, r.mapped, e))
    go busy e = inl (ground (arith, r.mapped, e))
    go failed e = inl (ground (arith, r.mapped, e))

written-matches :
    (fp ns expires_at : ℕ) (slot : NonceSlot)
    → nonce_matches fp ns (nonce_write slot fp ns expires_at) ≡ true
unfolding nonce_matches
written-matches fp ns expires_at slot = ground (arith, published-even slot.version)

-- A redemption that succeeds leaves its record.
store-Redeemed :
    (v fp ns expires_at warn_us : ℕ) (s : Shm) (table : List NonceSlot)
    → NonceReady s table
    → Reaches blank_nonce (nonce_matches fp ns) table v (nonce_window fp s.nonce_capacity)
    → Redeemed s.siphash_key fp ns expires_at
        (nonce_store (some v) fp ns expires_at warn_us table s).0
store-Redeemed v fp ns expires_at warn_us s table r reach = record {
  keyed = refl;
  table = set table v w;
  ready = record {
    mapped = refl;
    sized = length-set table v w ∙ r.sized;
    nonempty = r.nonempty;
    guarded = r.guarded;
  };
  slot = w;
  found =
      find-set_self blank_nonce (nonce_matches fp ns) table v w (nonce_window fp s.nonce_capacity)
        (rw r.sized (
          window-lt blank_nonce (nonce_matches fp ns) table (bucket_of fp s.nonce_capacity)
            s.nonce_capacity 0 8 r.nonempty reach))
        (written-matches fp ns expires_at (get_or table v blank_nonce)) reach;
  until = refl;
}
  where
    w : NonceSlot
    w = nonce_write (get_or table v blank_nonce) fp ns expires_at

locked-Redeemed :
    (out : NonceScan) (fp ns expires_at warn_us : ℕ) (s : Shm) (table : List NonceSlot)
    → NonceReady s table
    → AllEnds
        (λ v. Reaches blank_nonce (nonce_matches fp ns) table v (nonce_window fp s.nonce_capacity))
        out
    → (nonce_locked out fp ns expires_at warn_us table s).1 ≡ true
    → Redeemed s.siphash_key fp ns expires_at (nonce_locked out fp ns expires_at warn_us table s).0
unfolding nonce_locked
locked-Redeemed replay fp ns expires_at warn_us s table r all h = absurd (ground (arith, h))
locked-Redeemed (ended none none) fp ns expires_at warn_us s table r all h =
    absurd (ground (arith, h))
locked-Redeemed (ended none (some v)) fp ns expires_at warn_us s table r all h =
    store-Redeemed v fp ns expires_at warn_us s table r all.1
locked-Redeemed (ended (some v) evict) fp ns expires_at warn_us s table r all h =
    store-Redeemed v fp ns expires_at warn_us s table r all.0

pub consume-Redeemed :
    (lock : Lock) (now warn_us : ℕ) (nonce : Bytes) (expires_at ns : ℕ) (s : Shm)
    (table : List NonceSlot)
    → NonceReady s table
    → (nonce_consume lock now warn_us nonce expires_at ns s).1 ≡ true
    → Redeemed s.siphash_key
        (fingerprint s.siphash_key nonce ns)
        ns
        expires_at
        (nonce_consume lock now warn_us nonce expires_at ns s).0
consume-Redeemed lock now warn_us nonce expires_at ns s table r h =
    elim (consume_cases lock now warn_us nonce expires_at ns s table r) [
      | inl e ↦ absurd (ground (arith, h, e))
      | inr e ↦ rw e (
          locked-Redeemed _ fp ns expires_at warn_us s table r
            (scan-AllEnds _ fp ns now table none none (nonce_window fp s.nonce_capacity) tt tt
              (λ v reach u. reach))
            (rw e at h))
    ]
  where
    fp : ℕ
    fp = fingerprint s.siphash_key nonce ns
