-- ===== src/Shm/Flagged/Calls.antt =====
-- A call on the flagged-IP table, whatever the mutex answers it: what it keeps.
use botshield.Prelude.{
  ℕ, ◌+◌, ◌≡◌, refl, ◌∙◌, Bool, true, false, not, ◌&&◌, ◌||◌, none, some, List, Bytes, arith,
  length, get_or, set, length-set, ◌==◌, ◌⊎◌, inl, inr, Bool-cases,
}
use botshield.Shm.Slots.{Scan, hit, miss, target, Lock, acquired, busy, failed}
use botshield.Shm.Probe.{Reaches-In, In}
use botshield.Shm.Target.{scan-Ends, NoMatch-In, Ends}
use botshield.Shm.State.{FlaggedSlot, Shm, blank_flagged, ℤ, is_positive, pos_part}
use botshield.Shm.Flagged.{
  flagged_matches, flagged_reusable, flagged_window, flagged_clear, flagged_clear_found,
  flagged_bucket, flagged_add, flagged_add_locked, flagged_clear_range, clear_slots,
}
use botshield.Shm.Flagged.Window.{Ready}
use botshield.Shm.Flagged.Lookup.{flagged_outcome, written_at, written_slot, written_at-lt}
use botshield.Shm.Flagged.Range.{clear_slots-length, clear_slots-matches, clear_range_cases}
use botshield.Shm.Flagged.Unique.{
  Unique, Unique-set, matches_added, matches_rewritten, clear_result, clear_outcome, clear-locked,
  In-lt,
}

-- A call, with what it reads from the clock and what the mutex answers it.
pub data FlaggedCall : Type 0 where
  adds : Lock → ℕ → ℕ → Bytes → ℕ → ℤ → ℕ → FlaggedCall
  clears : Lock → Bytes → ℕ → ℕ → Bool → ℕ → FlaggedCall
  clears_range : Bool → Bytes → ℤ → ℕ → ℕ → FlaggedCall

unfoldable pub flagged_step : Shm → FlaggedCall → Shm
flagged_step s (adds lock now warn_us ip bits ttl ns) =
    flagged_add lock now warn_us ip bits ttl ns s
flagged_step s (clears lock ip del_bits set_bits replace ns) =
    flagged_clear lock ip del_bits set_bits replace ns s
flagged_step s (clears_range locked net bits del_bits ns) =
    (flagged_clear_range locked net bits del_bits ns s).0

abbrev pub Sound : Shm → Type 0
Sound s = (table : List FlaggedSlot) × Ready s table × Unique s table

add-Sound_locked :
    (now warn_us : ℕ) (ip : Bytes) (bits expires_at ns : ℕ) (s : Shm) (table : List FlaggedSlot)
    → Ready s table
    → Unique s table
    → Sound (flagged_add_locked now warn_us ip bits expires_at ns table s)
unfolding flagged_add_locked flagged_bucket
add-Sound_locked now warn_us ip bits expires_at ns s table r u = (
  set table k w,
  record {
    mapped = refl;
    sized = length-set table k w ∙ r.sized;
    nonempty = r.nonempty;
    guarded = r.guarded;
  },
  Unique-set s table k w (written_at-lt now ip ns s table r) u (λ ip' ns' j hw mj hj.
      let (ei, en) = matches_added out ip ip' ns ns' bits expires_at _ hw in
      only out
        (scan-Ends blank_flagged (flagged_matches ip ns) (flagged_reusable now) table none
          (flagged_window s ip ns))
        j (rw (ei, en) mj) (rw (ei, en) hj)),
)
  where
    out : Scan
    out = flagged_outcome now ip ns s table

    k : ℕ
    k = written_at now ip ns s table r

    w : FlaggedSlot
    w = written_slot now ip ns s table r bits expires_at

    only :
        (o : Scan)
        → Ends blank_flagged
            (flagged_matches ip ns)
            (flagged_reusable now)
            table
            none
            (flagged_window s ip ns)
            o
        → (j : ℕ) → In j (flagged_window s ip ns)
        → flagged_matches ip ns (get_or table j blank_flagged) ≡ true
        → j ≡ target (flagged_bucket s ip ns) o
    only (hit i) e j mj hj =
        u ip ns j i mj (Reaches-In blank_flagged (flagged_matches ip ns) table i _ e.1) hj e.0
    only (miss none) e j mj hj = absurd (
        ground (
          arith,
          NoMatch-In blank_flagged (flagged_matches ip ns) (flagged_reusable now) table
              (flagged_window s ip ns) j e mj,
        ))
    only (miss (some v)) e j mj hj = absurd (
        ground (
          arith,
          NoMatch-In blank_flagged (flagged_matches ip ns) (flagged_reusable now) table
              (flagged_window s ip ns) j e.0 mj,
        ))

-- A call changes nothing, or it is the locked part of it.
pub add_cases :
    (lock : Lock) (now warn_us : ℕ) (ip : Bytes) (bits : ℕ) (ttl : ℤ) (ns : ℕ) (s : Shm)
    (table : List FlaggedSlot)
    → s.flagged_table ≡ some table
    → (flagged_add lock now warn_us ip bits ttl ns s ≡ s)
      ⊎ (flagged_add lock now warn_us ip bits ttl ns s
          ≡ flagged_add_locked now warn_us ip bits (now + pos_part ttl) ns table s)
unfolding flagged_add
add_cases lock now warn_us ip bits ttl ns s table m =
    elim (Bool-cases (not s.mutex || (bits == 0 || not (is_positive ttl)))) [
      | inl e ↦ inl (ground (arith, m, e))
      | inr e ↦ go lock e
    ]
  where
    go :
        (l : Lock)
        → (not s.mutex || (bits == 0 || not (is_positive ttl))) ≡ false
        → (flagged_add l now warn_us ip bits ttl ns s ≡ s)
          ⊎ (flagged_add l now warn_us ip bits ttl ns s
              ≡ flagged_add_locked now warn_us ip bits (now + pos_part ttl) ns table s)
    go acquired e = inr (ground (arith, m, e))
    go busy e = inl (ground (arith, m, e))
    go failed e = inl (ground (arith, m, e))

pub clear_cases :
    (lock : Lock) (ip : Bytes) (del_bits set_bits : ℕ) (replace : Bool) (ns : ℕ) (s : Shm)
    (table : List FlaggedSlot)
    → Ready s table
    → (flagged_clear lock ip del_bits set_bits replace ns s ≡ s)
      ⊎ (flagged_clear lock ip del_bits set_bits replace ns s
          ≡ clear_result ip del_bits set_bits replace ns s table)
clear_cases lock ip del_bits set_bits replace ns s table r =
    elim (Bool-cases (not replace && del_bits == 0)) [ inl e ↦ inl (skipped e) | inr e ↦ go lock e ]
  where
    skipped :
        (not replace && del_bits == 0) ≡ true
        → flagged_clear lock ip del_bits set_bits replace ns s ≡ s
    skipped e = unfold flagged_clear in ground (arith, r.mapped, r.guarded, e)

    go :
        (l : Lock)
        → (not replace && del_bits == 0) ≡ false
        → (flagged_clear l ip del_bits set_bits replace ns s ≡ s)
          ⊎ (flagged_clear l ip del_bits set_bits replace ns s
              ≡ clear_result ip del_bits set_bits replace ns s table)
    go acquired e = inr (clear-locked ip del_bits set_bits replace ns s table r e)
    go busy e = inl (unfold flagged_clear in ground (arith, r.mapped, r.guarded, e))
    go failed e = inl (unfold flagged_clear in ground (arith, r.mapped, r.guarded, e))

clear_found-Sound :
    (out : Scan) (ip : Bytes) (del_bits set_bits : ℕ) (replace : Bool) (ns : ℕ) (s : Shm)
    (table : List FlaggedSlot)
    → Ready s table
    → Unique s table
    → Ends blank_flagged
        (flagged_matches ip ns)
        (λ _. false)
        table
        none
        (flagged_window s ip ns)
        out
    → (length (flagged_clear_found out ip del_bits set_bits replace ns table) ≡ length table)
      × Unique s (flagged_clear_found out ip del_bits set_bits replace ns table)
clear_found-Sound (miss v) ip del_bits set_bits replace ns s table r u e = (refl, u)
clear_found-Sound (hit k) ip del_bits set_bits replace ns s table r u e = (
  length-set table k _,
  Unique-set s table k _ (In-lt ip ns k r e.1) u (λ ip' ns' j hw mj hj.
      let (ei, en) = matches_rewritten ip ip' ns ns' _ (get_or table k blank_flagged) hw in
      u ip ns j k (rw (ei, en) mj) (Reaches-In blank_flagged (flagged_matches ip ns) table k _ e.1)
        (rw (ei, en) hj) e.0),
)

clear_result-Sound :
    (ip : Bytes) (del_bits set_bits : ℕ) (replace : Bool) (ns : ℕ) (s : Shm)
    (table : List FlaggedSlot)
    → Ready s table
    → Unique s table
    → Sound (clear_result ip del_bits set_bits replace ns s table)
unfolding flagged_bucket
clear_result-Sound ip del_bits set_bits replace ns s table r u =
    let (sized, unique) =
      clear_found-Sound (clear_outcome ip ns s table) ip del_bits set_bits replace ns s table r u (
        scan-Ends blank_flagged (flagged_matches ip ns) (λ _. false) table none
          (flagged_window s ip ns)) in
    (
      flagged_clear_found (clear_outcome ip ns s table) ip del_bits set_bits replace ns table,
      record { mapped = refl; sized = sized ∙ r.sized; nonempty = r.nonempty; guarded = r.guarded },
      unique,
    )

clear_range-Sound :
    (locked : Bool) (net : Bytes) (bits : ℤ) (del_bits ns : ℕ) (s : Shm)
    → Sound s
    → Sound (flagged_clear_range locked net bits del_bits ns s).0
unfolding flagged_bucket
clear_range-Sound locked net bits del_bits ns s (table, r, u) =
    elim (clear_range_cases locked net bits del_bits ns s table r) [
      | inl e ↦ rw e (table, r, u)
      | inr (n, e) ↦ rw e (
        (clear_slots net n del_bits ns table).0,
        record {
          mapped = refl;
          sized = clear_slots-length net n del_bits ns table ∙ r.sized;
          nonempty = r.nonempty;
          guarded = r.guarded;
        },
        λ ip ns' i j mi mj hi hj.
            u ip ns' i j mi mj (clear_slots-matches net n del_bits ns ip ns' table i hi)
              (clear_slots-matches net n del_bits ns ip ns' table j hj),
      )
    ]

-- Every call keeps the table ready and each key in at most one slot of its window, whether it gets
-- the lock or not.
pub flagged_step-Sound : (s : Shm) (c : FlaggedCall) → Sound s → Sound (flagged_step s c)
unfolding flagged_step
flagged_step-Sound s (adds lock now warn_us ip bits ttl ns) (table, r, u) =
    elim (add_cases lock now warn_us ip bits ttl ns s table r.mapped) [
      | inl e ↦ rw e (table, r, u)
      | inr e ↦ rw e (add-Sound_locked now warn_us ip bits (now + pos_part ttl) ns s table r u)
    ]
flagged_step-Sound s (clears lock ip del_bits set_bits replace ns) (table, r, u) =
    elim (clear_cases lock ip del_bits set_bits replace ns s table r) [
      | inl e ↦ rw e (table, r, u)
      | inr e ↦ rw e (clear_result-Sound ip del_bits set_bits replace ns s table r u)
    ]
flagged_step-Sound s (clears_range locked net bits del_bits ns) h =
    clear_range-Sound locked net bits del_bits ns s h
