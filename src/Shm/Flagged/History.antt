-- ===== src/Shm/Flagged/History.antt =====
-- Any history of calls on the flagged-IP table, from the zeroed segment on.
use botshield.Prelude.{
  ℕ, ap, ◌+◌, ◌<◌, ◌≡◌, refl, sym, subst, ◌∙◌, Bool, true, false, none, some, List, [], ◌∷◌, Bytes,
  arith, length, get_or, set, get_or-set_self, get_or-set_ne, inl, inr, suc, zero, replicate,
  length-replicate, ℕ_discrete,
}
use botshield.Shm.Slots.{Scan, hit, miss}
use botshield.Shm.Probe.{Reaches-In, In}
use botshield.Shm.Target.{scan-Ends, Ends}
use botshield.Shm.State.{FlaggedSlot, Shm, blank_flagged, pos_part}
use botshield.Shm.Flagged.{
  flagged_matches, flagged_window, flagged_clear_found, clear_slots, flagged_bucket,
  flagged_add_locked,
}
use botshield.Shm.Flagged.Window.{Ready}
use botshield.Shm.Flagged.Lookup.{
  flagged_outcome, written_at, written_slot, written_at-lt, written_at-Reaches,
}
use botshield.Shm.Flagged.Range.{clear_slots-matches, clear_range_cases}
use botshield.Shm.Flagged.Unique.{
  matches_added, matches_rewritten, clear_result, clear_outcome, In-lt,
}
use botshield.Shm.Flagged.Calls.{
  FlaggedCall, adds, clears, clears_range, flagged_step, Sound, add_cases, clear_cases,
  flagged_step-Sound,
}

unfoldable pub flagged_run : Shm → List FlaggedCall → Shm
flagged_run s [] = s
flagged_run s (c ∷ cs) = flagged_run (flagged_step s c) cs

-- A slot that holds a key stands in the window of the key.
abbrev Placed : Shm → List FlaggedSlot → Type 0
Placed s table =
    (ip : Bytes) (ns i : ℕ)
    → flagged_matches ip ns (get_or table i blank_flagged) ≡ true
    → In i (flagged_window s ip ns)

Placed-set :
    (s : Shm) (table : List FlaggedSlot) (k : ℕ) (w : FlaggedSlot)
    → k < length table
    → Placed s table
    → ((ip : Bytes) (ns : ℕ) → flagged_matches ip ns w ≡ true → In k (flagged_window s ip ns))
    → Placed s (set table k w)
Placed-set s table k w lt placed there ip ns i h = elim (ℕ_discrete i k) [
  | yes e ↦ rw e (there ip ns (rw (e, get_or-set_self table k w blank_flagged lt) at h))
  | no ne ↦ placed ip ns i (rw (get_or-set_ne table k i w blank_flagged (λ e. ne (sym e))) at h)
]

-- Every key of the table stands in its window.
abbrev Kept : Shm → Type 0
Kept s = (table : List FlaggedSlot) × (s.flagged_table ≡ some table) × Placed s table

add-Kept :
    (now warn_us : ℕ) (ip : Bytes) (bits expires_at ns : ℕ) (s : Shm) (table : List FlaggedSlot)
    → Ready s table
    → Placed s table
    → Kept (flagged_add_locked now warn_us ip bits expires_at ns table s)
unfolding flagged_add_locked flagged_bucket
add-Kept now warn_us ip bits expires_at ns s table r placed =
    let k = written_at now ip ns s table r in
    let w = written_slot now ip ns s table r bits expires_at in
    (
      set table k w,
      refl,
      Placed-set s table k w (written_at-lt now ip ns s table r) placed (λ ip' ns' h.
          let (ei, en) =
            matches_added (flagged_outcome now ip ns s table) ip ip' ns ns' bits expires_at _ h in
          rw (← ei, ← en)
            (Reaches-In blank_flagged (flagged_matches ip ns) table k _
              (written_at-Reaches now ip ns s table r))),
    )

clear_found-Placed :
    (out : Scan) (ip : Bytes) (del_bits set_bits : ℕ) (replace : Bool) (ns : ℕ) (s : Shm)
    (table : List FlaggedSlot)
    → Ready s table
    → Placed s table
    → Ends blank_flagged
        (flagged_matches ip ns)
        (λ _. false)
        table
        none
        (flagged_window s ip ns)
        out
    → Placed s (flagged_clear_found out ip del_bits set_bits replace ns table)
clear_found-Placed (miss v) ip del_bits set_bits replace ns s table r placed e = placed
clear_found-Placed (hit k) ip del_bits set_bits replace ns s table r placed e =
    Placed-set s table k _ (In-lt ip ns k r e.1) placed (λ ip' ns' h.
      let (ei, en) = matches_rewritten ip ip' ns ns' _ (get_or table k blank_flagged) h in
      rw (← ei, ← en) (Reaches-In blank_flagged (flagged_matches ip ns) table k _ e.1))

clear-Kept :
    (ip : Bytes) (del_bits set_bits : ℕ) (replace : Bool) (ns : ℕ) (s : Shm)
    (table : List FlaggedSlot)
    → Ready s table
    → Placed s table
    → Kept (clear_result ip del_bits set_bits replace ns s table)
unfolding flagged_bucket
clear-Kept ip del_bits set_bits replace ns s table r placed = (
  flagged_clear_found (clear_outcome ip ns s table) ip del_bits set_bits replace ns table,
  refl,
  clear_found-Placed (clear_outcome ip ns s table) ip del_bits set_bits replace ns s table r placed
      (scan-Ends blank_flagged (flagged_matches ip ns) (λ _. false) table none
        (flagged_window s ip ns)),
)

same_table :
    (s : Shm) (a b : List FlaggedSlot) → s.flagged_table ≡ some a → s.flagged_table ≡ some b → a ≡ b
same_table s a b h k = let e : some a ≡ some b = sym h ∙ k in cc

flagged_step-Kept : (s : Shm) (c : FlaggedCall) → Sound s → Kept s → Kept (flagged_step s c)
unfolding flagged_step flagged_bucket
flagged_step-Kept s (adds lock now warn_us ip bits ttl ns) (table, r, u) (other, m, placed) =
    let here = subst (Placed s) (same_table s other table m r.mapped) placed in
    elim (add_cases lock now warn_us ip bits ttl ns s table r.mapped) [
      | inl e ↦ rw e (table, r.mapped, here)
      | inr e ↦ rw e (add-Kept now warn_us ip bits (now + pos_part ttl) ns s table r here)
    ]
flagged_step-Kept s (clears lock ip del_bits set_bits replace ns) (table, r, u) (other, m, placed) =
    let here = subst (Placed s) (same_table s other table m r.mapped) placed in
    elim (clear_cases lock ip del_bits set_bits replace ns s table r) [
      | inl e ↦ rw e (table, r.mapped, here)
      | inr e ↦ rw e (clear-Kept ip del_bits set_bits replace ns s table r here)
    ]
flagged_step-Kept s (clears_range locked net bits del_bits ns) (table, r, u) (other, m, placed) =
    let here = subst (Placed s) (same_table s other table m r.mapped) placed in
    elim (clear_range_cases locked net bits del_bits ns s table r) [
      | inl e ↦ rw e (table, r.mapped, here)
      | inr (n, e) ↦ rw e (
        (clear_slots net n del_bits ns table).0,
        refl,
        λ ip ns' i h. here ip ns' i (clear_slots-matches net n del_bits ns ip ns' table i h),
      )
    ]

flagged_step-capacity :
    (s : Shm) (c : FlaggedCall) → Sound s → (flagged_step s c).flagged_capacity ≡ s.flagged_capacity
unfolding flagged_step
flagged_step-capacity s (adds lock now warn_us ip bits ttl ns) (table, r, u) =
    elim (add_cases lock now warn_us ip bits ttl ns s table r.mapped) [
      | inl e ↦ ap (λ (x : Shm). x.flagged_capacity) e
      | inr e ↦ ap (λ (x : Shm). x.flagged_capacity) e ∙ unfold flagged_add_locked in refl
    ]
flagged_step-capacity s (clears lock ip del_bits set_bits replace ns) (table, r, u) =
    elim (clear_cases lock ip del_bits set_bits replace ns s table r) [
      | inl e ↦ ap (λ (x : Shm). x.flagged_capacity) e
      | inr e ↦ ap (λ (x : Shm). x.flagged_capacity) e
    ]
flagged_step-capacity s (clears_range locked net bits del_bits ns) (table, r, u) =
    elim (clear_range_cases locked net bits del_bits ns s table r) [
      | inl e ↦ ap (λ (x : Shm). x.flagged_capacity) e
      | inr (n, e) ↦ ap (λ (x : Shm). x.flagged_capacity) e
    ]

flagged_run-Sound : (s : Shm) (cs : List FlaggedCall) → Sound s → Sound (flagged_run s cs)
unfolding flagged_run
flagged_run-Sound s [] h = h
flagged_run-Sound s (c ∷ cs) h = flagged_run-Sound (flagged_step s c) cs (flagged_step-Sound s c h)

flagged_run-Kept : (s : Shm) (cs : List FlaggedCall) → Sound s → Kept s → Kept (flagged_run s cs)
unfolding flagged_run
flagged_run-Kept s [] h k = k
flagged_run-Kept s (c ∷ cs) h k =
    flagged_run-Kept (flagged_step s c) cs (flagged_step-Sound s c h) (flagged_step-Kept s c h k)

flagged_run-capacity :
    (s : Shm) (cs : List FlaggedCall)
    → Sound s
    → (flagged_run s cs).flagged_capacity ≡ s.flagged_capacity
unfolding flagged_run
flagged_run-capacity s [] h = refl
flagged_run-capacity s (c ∷ cs) h =
    flagged_run-capacity (flagged_step s c) cs (flagged_step-Sound s c h)
    ∙ flagged_step-capacity s c h

get_or-replicate : (n i : ℕ) → get_or (replicate n blank_flagged) i blank_flagged ≡ blank_flagged
get_or-replicate zero i = refl
get_or-replicate (suc n) zero = refl
get_or-replicate (suc n) (suc i) = get_or-replicate n i

pub init-Sound :
    (s : Shm)
    → s.flagged_table ≡ some (replicate s.flagged_capacity blank_flagged)
    → 0 < s.flagged_capacity
    → s.mutex ≡ true
    → Sound s
unfolding flagged_matches
init-Sound s m c g = (
  replicate s.flagged_capacity blank_flagged,
  record {
    mapped = m;
    sized = length-replicate s.flagged_capacity blank_flagged;
    nonempty = c;
    guarded = g;
  },
  λ ip ns i j mi mj hi hj.
      absurd (ground (arith, rw (get_or-replicate s.flagged_capacity i) at hi)),
)

-- No key stands in two slots of the table, torn slots left aside.
abbrev pub IsOnce : List FlaggedSlot → Type 0
IsOnce table =
    (ip : Bytes) (ns i j : ℕ)
    → flagged_matches ip ns (get_or table i blank_flagged) ≡ true
    → flagged_matches ip ns (get_or table j blank_flagged) ≡ true
    → i ≡ j

-- From a zeroed table of at least one slot with a mutex on, no history of adds, clears and range
-- clears, each with any clock reading and any answer of the mutex, changes the table's size or brings
-- a key into two of its slots, torn ones left aside.
pub flagged_history :
    (s : Shm) (cs : List FlaggedCall)
    → s.flagged_table ≡ some (replicate s.flagged_capacity blank_flagged)
    → 0 < s.flagged_capacity
    → s.mutex ≡ true
    → (table : List FlaggedSlot) × ((flagged_run s cs).flagged_table ≡ some table)
      × (length table ≡ s.flagged_capacity)
      × IsOnce table
unfolding flagged_matches
flagged_history s cs m c g =
    let sound = init-Sound s m c g in
    let (table, r, u) = flagged_run-Sound s cs sound in
    let (other, n, placed) = flagged_run-Kept s cs sound (
      replicate s.flagged_capacity blank_flagged,
      m,
      λ ip ns i h. absurd (ground (arith, rw (get_or-replicate s.flagged_capacity i) at h)),
    ) in
    let here =
      subst (Placed (flagged_run s cs)) (same_table (flagged_run s cs) other table n r.mapped)
        placed in
    (
      table,
      r.mapped,
      r.sized ∙ flagged_run-capacity s cs sound,
      λ ip ns i j hi hj. u ip ns i j (here ip ns i hi) (here ip ns j hj) hi hj,
    )
