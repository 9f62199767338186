-- ===== src/Shm/Flagged/Range.antt =====
-- `bs_flagged_ip_clear_range`, slot by slot.
use botshield.Prelude.{
  ℕ, ◌≤◌, ◌≡◌, ◌≢◌, refl, Bool, true, false, not, ◌&&◌, ◌||◌, Option, none, some, List, [], ◌∷◌,
  Bytes, arith, length, get_or, bytes_eq→eq, ◌==◌, ◌⊎◌, inl, inr, suc, zero, if◌then◌else◌,
  Bool-cases, ltb, ap, bit_and, ◌∙◌,
}
use botshield.Shm.Slots.{find, Scan, hit, miss, is_readable_lem, published, published-even}
use botshield.Shm.Probe.{find_only, find-none, Reaches-In, In}
use botshield.Shm.Target.{Ends, scan-Ends, NoMatch-In}
use botshield.Shm.State.{FlaggedSlot, Shm, blank_flagged, ℤ, pos, negsuc}
use botshield.Shm.Flagged.{
  flagged_matches, flagged_accepts, flagged_rewrite, flagged_clear_range, flagged_lookup, flags_of,
  flagged_window, clear_slots, range_changes, range_flags, ip_in_prefix, flagged_bucket, not32,
}
use botshield.Codec.RoundTrip.{AllBytes}
use botshield.Address.Prefix.{SharePrefix}
use botshield.Shm.Flagged.Prefix.{ip_in_prefix-SharePrefix}
use botshield.Shm.Flagged.Window.{Ready, accepts-matches}
use botshield.Shm.Flagged.Lookup.{lookup-mapped}
use botshield.Shm.Flagged.Unique.{Unique, clear_outcome, others}

-- What the loop makes of one slot.
abbrev clear_slot : Bytes → ℕ → ℕ → ℕ → FlaggedSlot → FlaggedSlot
clear_slot net bits del_bits ns slot =
    if range_changes net bits del_bits ns slot
    then flagged_rewrite slot slot.ip (range_flags del_bits slot) ns
    else slot

pub clear_slots-length :
    (net : Bytes) (bits del_bits ns : ℕ) (table : List FlaggedSlot)
    → length (clear_slots net bits del_bits ns table).0 ≡ length table
unfolding clear_slots
clear_slots-length net bits del_bits ns [] = refl
clear_slots-length net bits del_bits ns (slot ∷ rest) =
    elim (Bool-cases (range_changes net bits del_bits ns slot)) [
      | inl e ↦ rw e (ap suc (clear_slots-length net bits del_bits ns rest))
      | inr e ↦ rw e (ap suc (clear_slots-length net bits del_bits ns rest))
    ]

get_or-clear_slots :
    (net : Bytes) (bits del_bits ns : ℕ) (table : List FlaggedSlot) (i : ℕ)
    → get_or (clear_slots net bits del_bits ns table).0 i blank_flagged
      ≡ clear_slot net bits del_bits ns (get_or table i blank_flagged)
unfolding clear_slots
get_or-clear_slots net bits del_bits ns [] i = unfold range_changes in refl
get_or-clear_slots net bits del_bits ns (slot ∷ rest) zero =
    elim (Bool-cases (range_changes net bits del_bits ns slot)) [ inl e ↦ rw e | inr e ↦ rw e ]
get_or-clear_slots net bits del_bits ns (slot ∷ rest) (suc i) =
    elim (Bool-cases (range_changes net bits del_bits ns slot)) [
      | inl e ↦ rw e (get_or-clear_slots net bits del_bits ns rest i)
      | inr e ↦ rw e (get_or-clear_slots net bits del_bits ns rest i)
    ]

clear_slot-matches :
    (net : Bytes) (bits del_bits ns : ℕ) (ip : Bytes) (ns' : ℕ) (slot : FlaggedSlot)
    → flagged_matches ip ns' (clear_slot net bits del_bits ns slot) ≡ true
    → flagged_matches ip ns' slot ≡ true
unfolding range_changes flagged_matches
clear_slot-matches net bits del_bits ns ip ns' slot h = ground arith

-- The range clear leaves every slot its key, or releases it.
pub clear_slots-matches :
    (net : Bytes) (bits del_bits ns : ℕ) (ip : Bytes) (ns' : ℕ) (table : List FlaggedSlot) (i : ℕ)
    → flagged_matches ip ns' (get_or (clear_slots net bits del_bits ns table).0 i blank_flagged)
      ≡ true
    → flagged_matches ip ns' (get_or table i blank_flagged) ≡ true
clear_slots-matches net bits del_bits ns ip ns' table i h =
    clear_slot-matches net bits del_bits ns ip ns' _
      (rw (get_or-clear_slots net bits del_bits ns table i) at h)

-- The table after a range clear that runs.
abbrev pub range_result : Bytes → ℕ → ℕ → ℕ → Shm → List FlaggedSlot → Shm
range_result net bits del_bits ns s table = record s {
  flagged_table = some (clear_slots net bits del_bits ns table).0;
}

pub clear_range-locked :
    (net : Bytes) (bits del_bits ns : ℕ) (s : Shm) (table : List FlaggedSlot)
    → Ready s table
    → bits ≤ 128
    → (flagged_clear_range true net (pos bits) del_bits ns s).0
      ≡ range_result net bits del_bits ns s table
unfolding flagged_clear_range
clear_range-locked net bits del_bits ns s table r h = ground (arith, r.mapped, r.guarded)

pub clear_range_cases :
    (locked : Bool) (net : Bytes) (bits : ℤ) (del_bits ns : ℕ) (s : Shm) (table : List FlaggedSlot)
    → Ready s table
    → ((flagged_clear_range locked net bits del_bits ns s).0 ≡ s)
      ⊎ ((n : ℕ) × ((flagged_clear_range locked net bits del_bits ns s).0
            ≡ range_result net n del_bits ns s table))
unfolding flagged_clear_range
clear_range_cases locked net (negsuc bits) del_bits ns s table r = inl refl
clear_range_cases locked net (pos bits) del_bits ns s table r =
    elim (Bool-cases (ltb 128 bits || not locked)) [
      | inl e ↦ inl (ground (arith, r.mapped, r.guarded, e))
      | inr e ↦ inr (bits, ground (arith, r.mapped, r.guarded, e))
    ]

-- What a range clear leaves of the flags that a lookup reports.
abbrev pub range_cleared : ℕ → Option ℕ → Option ℕ
range_cleared del_bits none = none
range_cleared del_bits (some flags) =
    let left = if del_bits == 0 then 0 else bit_and flags (not32 del_bits) in
    if left == flags then some flags else if left == 0 then none else some left

abbrev seen : ℕ → Bytes → ℕ → FlaggedSlot → Option ℕ
seen t ip ns slot = flags_of (if flagged_accepts t ip ns slot then some slot else none)

-- One slot of a key, for the reader of the key.
seen-clear_slot :
    (t : ℕ) (net : Bytes) (bits del_bits ns : ℕ) (ip : Bytes) (ns' : ℕ) (slot : FlaggedSlot)
    → flagged_matches ip ns' slot ≡ true
    → seen t ip ns' (clear_slot net bits del_bits ns slot) ≡ (
        if ns == ns' && ip_in_prefix ip net bits
        then range_cleared del_bits (seen t ip ns' slot)
        else seen t ip ns' slot)
unfolding range_changes flagged_accepts flagged_matches
seen-clear_slot t net bits del_bits ns ip ns' slot m =
    let same : slot.ip ≡ ip = bytes_eq→eq slot.ip ip (ground arith) in
    ground (
      arith,
      same,
      ap (λ (a : Bytes). ip_in_prefix a net bits) same,
      is_readable_lem slot.version,
      is_readable_lem (published slot.version),
      published-even slot.version,
    )

lookup-range_result :
    (t : ℕ) (net : Bytes) (bits del_bits ns : ℕ) (ip : Bytes) (ns' : ℕ) (s : Shm)
    (table : List FlaggedSlot)
    → flagged_lookup t ip ns' (range_result net bits del_bits ns s table)
      ≡ flags_of (
          find blank_flagged
            (flagged_accepts t ip ns')
            (clear_slots net bits del_bits ns table).0
            (flagged_window s ip ns'))
unfolding flagged_lookup flagged_bucket
lookup-range_result t net bits del_bits ns ip ns' s table = refl

seen_of :
    (t : ℕ) (ip : Bytes) (ns k : ℕ) (s : Shm) (table : List FlaggedSlot)
    → Unique s table
    → In k (flagged_window s ip ns)
    → flagged_matches ip ns (get_or table k blank_flagged) ≡ true
    → flags_of (find blank_flagged (flagged_accepts t ip ns) table (flagged_window s ip ns))
      ≡ seen t ip ns (get_or table k blank_flagged)
seen_of t ip ns k s table u mk m = ap flags_of (
    find_only blank_flagged (flagged_accepts t ip ns) table k (flagged_window s ip ns)
      (others t ip ns k s table u mk m) mk)

module _ (t : ℕ) (net : Bytes) (bits del_bits ns : ℕ) (ip : Bytes) (ns' : ℕ) (s : Shm)
    (table : List FlaggedSlot) (u : Unique s table) where
  after : List FlaggedSlot
  after = (clear_slots net bits del_bits ns table).0

  range_view : Option ℕ → Option ℕ
  range_view before =
      if ns == ns' && ip_in_prefix ip net bits then range_cleared del_bits before else before

  -- The slots of the window other than the key's stay of no account.
  others_after :
      (k : ℕ)
      → In k (flagged_window s ip ns')
      → flagged_matches ip ns' (get_or table k blank_flagged) ≡ true
      → (i : ℕ) → In i (flagged_window s ip ns')
      → i ≢ k
      → flagged_accepts t ip ns' (get_or after i blank_flagged) ≡ false
  unfolding after
  others_after k mk m i mi ne =
      elim (Bool-cases (flagged_matches ip ns' (get_or after i blank_flagged))) [
        | inl m' ↦
            absurd (
              ne
                (u ip ns' i k mi mk (clear_slots-matches net bits del_bits ns ip ns' table i m') m))
        | inr m' ↦ accepts-matches t ip ns' _ m'
      ]

  view_of :
      (out : Scan)
      → Ends blank_flagged
          (flagged_matches ip ns')
          (λ _. false)
          table
          none
          (flagged_window s ip ns')
          out
      → flags_of (find blank_flagged (flagged_accepts t ip ns') after (flagged_window s ip ns'))
        ≡ range_view (
            flags_of
              (find blank_flagged (flagged_accepts t ip ns') table (flagged_window s ip ns')))
  unfolding after range_view
  view_of (hit k) e =
      let mk =
        Reaches-In blank_flagged (flagged_matches ip ns') table k (flagged_window s ip ns') e.1 in
      rw
        (
          seen_of t ip ns' k s table u mk e.0,
          find_only blank_flagged (flagged_accepts t ip ns') after k (flagged_window s ip ns')
              (others_after k mk e.0) mk,
          get_or-clear_slots net bits del_bits ns table k,
        )
        (seen-clear_slot t net bits del_bits ns ip ns' (get_or table k blank_flagged) e.0)
  view_of (miss none) e =
      rw
        (
          find-none blank_flagged (flagged_accepts t ip ns') table (flagged_window s ip ns')
              (λ i mi. accepts-matches t ip ns' _ (nobody i mi)),
          find-none blank_flagged (flagged_accepts t ip ns') after (flagged_window s ip ns')
              (λ i mi. accepts-matches t ip ns' _ (nobody_after i mi)),
        )
        (ground arith)
    where
      nobody :
          (i : ℕ)
          → In i (flagged_window s ip ns')
          → flagged_matches ip ns' (get_or table i blank_flagged) ≡ false
      nobody i mi =
          NoMatch-In blank_flagged (flagged_matches ip ns') (λ _. false) table
            (flagged_window s ip ns') i e mi

      nobody_after :
          (i : ℕ)
          → In i (flagged_window s ip ns')
          → flagged_matches ip ns' (get_or after i blank_flagged) ≡ false
      nobody_after i mi =
          elim (Bool-cases (flagged_matches ip ns' (get_or after i blank_flagged))) [
            | inl m ↦ absurd (
                ground
                  (arith, nobody i mi, clear_slots-matches net bits del_bits ns ip ns' table i m))
            | inr m ↦ m
          ]
  view_of (miss (some v)) e = absurd (ground (arith, e.1))

lookup-clear_range_tested :
    (t : ℕ) (net : Bytes) (bits del_bits ns : ℕ) (ip : Bytes) (ns' : ℕ) (s : Shm)
    (table : List FlaggedSlot)
    → Ready s table
    → Unique s table
    → bits ≤ 128
    → flagged_lookup t ip ns' (flagged_clear_range true net (pos bits) del_bits ns s).0 ≡ (
        if ns == ns' && ip_in_prefix ip net bits
        then range_cleared del_bits (flagged_lookup t ip ns' s)
        else flagged_lookup t ip ns' s)
lookup-clear_range_tested t net bits del_bits ns ip ns' s table r u h =
    rw
      (
        clear_range-locked net bits del_bits ns s table r h,
        lookup-range_result t net bits del_bits ns ip ns' s table,
        lookup-mapped t ip ns' s table r,
      )
      (unfold after range_view in
        view_of t net bits del_bits ns ip ns' s table u (clear_outcome ip ns' s table) (
          scan-Ends blank_flagged (flagged_matches ip ns') (λ _. false) table none
            (flagged_window s ip ns')))

-- A range clear that runs, on a table with no key in two slots of its window, takes the given bits, or
-- with none given all bits, from what the lookup of each address that shares the prefix reports in the
-- namespace, and changes no other key's lookup, at every time.
pub lookup-clear_range :
    (t : ℕ) (net : Bytes) (bits del_bits ns : ℕ) (ip : Bytes) (ns' : ℕ) (s : Shm)
    (table : List FlaggedSlot)
    → Ready s table
    → Unique s table
    → bits ≤ 128
    → AllBytes ip
    → AllBytes net
    → ((ns ≡ ns') × SharePrefix bits ip net
        → flagged_lookup t ip ns' (flagged_clear_range true net (pos bits) del_bits ns s).0
          ≡ range_cleared del_bits (flagged_lookup t ip ns' s))
      × (¬ ((ns ≡ ns') × SharePrefix bits ip net)
          → flagged_lookup t ip ns' (flagged_clear_range true net (pos bits) del_bits ns s).0
            ≡ flagged_lookup t ip ns' s)
lookup-clear_range t net bits del_bits ns ip ns' s table r u h hip hnet =
    let tested = lookup-clear_range_tested t net bits del_bits ns ip ns' s table r u h in
    let shares = ip_in_prefix-SharePrefix bits ip net hip hnet in
    (
      λ both.
          let inside : (ns == ns' && ip_in_prefix ip net bits) ≡ true =
            ground (arith, both.0, shares.1 both.1) in
          tested ∙ rw inside refl,
      λ out. elim (Bool-cases (ns == ns' && ip_in_prefix ip net bits)) [
        | inl e ↦ absurd (out (ground (arith, e), shares.0 (ground (arith, e))))
        | inr e ↦ tested ∙ rw e refl
      ],
    )
