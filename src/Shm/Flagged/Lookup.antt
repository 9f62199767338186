-- ===== src/Shm/Flagged/Lookup.antt =====
-- What a lookup finds after an add, for the key that was added and for every other.
use botshield.Prelude.{
  ℕ, ◌+◌, ◌≤◌, ◌<◌, ◌≡◌, refl, sym, true, false, none, some, List, Bytes, arith, length, get_or, ap,
  inl, inr,
}
use botshield.Shm.Hash.{bucket_of-lt}
use botshield.Shm.Slots.{find, Scan, hit, miss, target, acquired}
use botshield.Shm.Probe.{
  find-set_self, find-set_other, find-Reaches, Reaches, Reaches-weaken, window-lt, In,
}
use botshield.Shm.Target.{scan-Ends, target-Reaches, target_old, find-NoMatch, Ends, scan_room}
use botshield.Shm.State.{FlaggedSlot, Shm, blank_flagged, pos}
use botshield.Shm.Flagged.{
  flagged_matches, flagged_accepts, flagged_reusable, flagged_window, flags_of, flagged_add,
  flagged_add_locked, flagged_lookup, flagged_scan, flagged_store, flagged_written, flagged_bucket,
}
use botshield.Shm.Flagged.Window.{
  Ready, HasRoom, room_taken, flagged_held, merged, accepts-matches, accepts-written,
  accepts-reusable, accepts_other, accepts-written_other,
}

-- Where the scan for a key ends.
abbrev pub flagged_outcome : ℕ → Bytes → ℕ → Shm → List FlaggedSlot → Scan
flagged_outcome now ip ns s table = flagged_scan now ip ns table (flagged_window s ip ns)

bucket-lt :
    {s : Shm} {table : List FlaggedSlot} (ip : Bytes) (ns : ℕ)
    → Ready s table
    → flagged_bucket s ip ns < s.flagged_capacity
unfolding flagged_bucket
bucket-lt {s} ip ns r = bucket_of-lt _ s.flagged_capacity r.nonempty

-- The flags of what is written: those held, merged with the new.
written-flags :
    (ip : Bytes) (bits expires_at ns : ℕ) (table : List FlaggedSlot) (idxs : List ℕ) (base now : ℕ)
    (out : Scan)
    → Ends blank_flagged (flagged_matches ip ns) (flagged_reusable now) table none idxs out
    → (flagged_written out
        (get_or table (target base out) blank_flagged)
        ip
        bits
        expires_at
        ns).flags
      ≡ merged (flags_of (find blank_flagged (flagged_matches ip ns) table idxs)) bits
written-flags ip bits expires_at ns table idxs base now (hit j) e =
    simp (find-Reaches blank_flagged (flagged_matches ip ns) table j idxs e.0 e.1)
written-flags ip bits expires_at ns table idxs base now (miss none) e =
    simp (find-NoMatch blank_flagged (flagged_matches ip ns) (flagged_reusable now) table idxs e)
written-flags ip bits expires_at ns table idxs base now (miss (some v)) e =
    simp (find-NoMatch blank_flagged (flagged_matches ip ns) (flagged_reusable now) table idxs e.0)

-- What is written is accepted up to the expiry that was asked for, at least.
written-accepted :
    (t : ℕ) (ip : Bytes) (bits expires_at ns : ℕ) (slot : FlaggedSlot) (out : Scan)
    → t ≤ expires_at
    → flagged_accepts t ip ns (flagged_written out slot ip bits expires_at ns) ≡ true
written-accepted t ip bits expires_at ns slot (hit j) h =
    accepts-written t ip ns _ _ slot (ground arith)
written-accepted t ip bits expires_at ns slot (miss v) h =
    accepts-written t ip ns bits expires_at slot h

add-locked :
    (now warn_us : ℕ) (ip : Bytes) (bits ttl ns : ℕ) (s : Shm) (table : List FlaggedSlot)
    → Ready s table
    → 0 < bits
    → 0 < ttl
    → flagged_add acquired now warn_us ip bits (pos ttl) ns s
      ≡ flagged_add_locked now warn_us ip bits (now + ttl) ns table s
unfolding flagged_add
add-locked now warn_us ip bits ttl ns s table r hb ht = ground (arith, r.mapped, r.guarded)

lookup-locked :
    (t now warn_us : ℕ) (ip : Bytes) (bits expires_at ns : ℕ) (s : Shm) (table : List FlaggedSlot)
    (ip' : Bytes) (ns' : ℕ)
    → flagged_lookup t ip' ns' (flagged_add_locked now warn_us ip bits expires_at ns table s)
      ≡ flags_of (
          find blank_flagged
            (flagged_accepts t ip' ns')
            (flagged_store
              (flagged_outcome now ip ns s table)
              (flagged_bucket s ip ns)
              ip
              bits
              expires_at
              ns
              table)
            (flagged_window s ip' ns'))
unfolding flagged_lookup flagged_add_locked flagged_bucket
lookup-locked t now warn_us ip bits expires_at ns s table ip' ns' = refl

pub lookup-mapped :
    (t : ℕ) (ip : Bytes) (ns : ℕ) (s : Shm) (table : List FlaggedSlot)
    → Ready s table
    → flagged_lookup t ip ns s
      ≡ flags_of (find blank_flagged (flagged_accepts t ip ns) table (flagged_window s ip ns))
unfolding flagged_lookup
lookup-mapped t ip ns s table r = ground (arith, r.mapped)

-- The slot that is written: reached by the writer's scan, and inside the table.
module _ (now : ℕ) (ip : Bytes) (ns : ℕ) (s : Shm) (table : List FlaggedSlot)
    (r : Ready s table) where
  abbrev pub written_at : ℕ
  written_at = target (flagged_bucket s ip ns) (flagged_outcome now ip ns s table)

  abbrev pub written_slot : ℕ → ℕ → FlaggedSlot
  written_slot bits expires_at =
      flagged_written (flagged_outcome now ip ns s table) (get_or table written_at blank_flagged) ip
        bits expires_at ns

  pub written_at-Reaches :
      Reaches blank_flagged (flagged_matches ip ns) table written_at (flagged_window s ip ns)
  written_at-Reaches =
      target-Reaches blank_flagged (flagged_matches ip ns) (flagged_reusable now) table
        (flagged_bucket s ip ns) s.flagged_capacity 9 (bucket-lt ip ns r)

  pub written_at-lt : written_at < length table
  written_at-lt = rw r.sized (
      window-lt blank_flagged (flagged_matches ip ns) table (flagged_bucket s ip ns)
        s.flagged_capacity 0 10 r.nonempty written_at-Reaches)

-- After an add that gets the lock, the key's lookup finds the flags that its slot held, if it had
-- one, merged with the new ones, at every time up to the new expiry. No state of the window hinders
-- this: a full one is overwritten.
pub lookup-add :
    (t now warn_us : ℕ) (ip : Bytes) (bits ttl ns : ℕ) (s : Shm) (table : List FlaggedSlot)
    → Ready s table
    → 0 < bits
    → 0 < ttl
    → t ≤ now + ttl
    → flagged_lookup t ip ns (flagged_add acquired now warn_us ip bits (pos ttl) ns s)
      ≡ some (merged (flagged_held ip ns s table) bits)
unfolding flagged_held
lookup-add t now warn_us ip bits ttl ns s table r hb ht h =
    rw
      (
        add-locked now warn_us ip bits ttl ns s table r hb ht,
        lookup-locked t now warn_us ip bits (now + ttl) ns s table ip ns,
        find-set_self blank_flagged (flagged_accepts t ip ns) table (written_at now ip ns s table r)
            (written_slot now ip ns s table r bits (now + ttl)) (flagged_window s ip ns)
            (written_at-lt now ip ns s table r)
            (written-accepted t ip bits (now + ttl) ns _ (flagged_outcome now ip ns s table) h)
            (Reaches-weaken blank_flagged (flagged_matches ip ns) (flagged_accepts t ip ns) table _
              (flagged_window s ip ns) (accepts-matches t ip ns)
              (written_at-Reaches now ip ns s table r)),
      )
      (ap some (
        written-flags ip bits (now + ttl) ns table (flagged_window s ip ns) (flagged_bucket s ip ns)
          now (flagged_outcome now ip ns s table)
          (scan-Ends blank_flagged (flagged_matches ip ns) (flagged_reusable now) table none
            (flagged_window s ip ns))))

written_other :
    (t : ℕ) (ip ip' : Bytes) (ns ns' bits expires_at : ℕ) (slot : FlaggedSlot) (out : Scan)
    → ¬ ((ip ≡ ip') × (ns ≡ ns'))
    → flagged_accepts t ip' ns' (flagged_written out slot ip bits expires_at ns) ≡ false
written_other t ip ip' ns ns' bits expires_at slot (hit j) ne =
    accepts-written_other t ip ip' ns ns' _ _ slot ne
written_other t ip ip' ns ns' bits expires_at slot (miss v) ne =
    accepts-written_other t ip ip' ns ns' _ _ slot ne

-- An add that gets the lock changes the lookup of no other key, be it of another address or of the
-- same address in another namespace, at any time from now on, if any slot of its window was left
-- torn, is empty, has expired or is the key's own.
pub lookup-add_other :
    (t now warn_us : ℕ) (ip ip' : Bytes) (bits ttl ns ns' : ℕ) (s : Shm) (table : List FlaggedSlot)
    (i : ℕ)
    → Ready s table
    → 0 < bits
    → 0 < ttl
    → now ≤ t
    → ¬ ((ip ≡ ip') × (ns ≡ ns'))
    → In i (flagged_window s ip ns)
    → HasRoom now ip ns (get_or table i blank_flagged)
    → flagged_lookup t ip' ns' (flagged_add acquired now warn_us ip bits (pos ttl) ns s)
      ≡ flagged_lookup t ip' ns' s
lookup-add_other t now warn_us ip ip' bits ttl ns ns' s table i r hb ht h ne within room =
    rw
      (
        add-locked now warn_us ip bits ttl ns s table r hb ht,
        lookup-locked t now warn_us ip bits (now + ttl) ns s table ip' ns',
        find-set_other blank_flagged (flagged_accepts t ip' ns') table
            (written_at now ip ns s table r) (written_slot now ip ns s table r bits (now + ttl))
            (flagged_window s ip' ns') (written_at-lt now ip ns s table r) old
            (written_other t ip ip' ns ns' bits (now + ttl) _ (flagged_outcome now ip ns s table)
              ne),
      )
      (sym (lookup-mapped t ip' ns' s table r))
  where
    old :
        flagged_accepts t ip' ns' (get_or table (written_at now ip ns s table r) blank_flagged)
        ≡ false
    old =
        elim (target_old blank_flagged (flagged_matches ip ns) (flagged_reusable now) table
          (flagged_bucket s ip ns) (flagged_window s ip ns)
          (scan_room blank_flagged (flagged_matches ip ns) (flagged_reusable now) table
            (flagged_window s ip ns) i within (room_taken now ip ns _ room))) [
              | inl m ↦ accepts_other t ip ip' ns ns' _ ne m
              | inr u ↦ accepts-reusable now t ip' ns' _ h u
            ]
