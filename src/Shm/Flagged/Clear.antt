-- ===== src/Shm/Flagged/Clear.antt =====
-- What a clear leaves of an entry in the flagged-IP table.
use botshield.Prelude.{
  ℕ, ◌<◌, ◌≡◌, refl, sym, ◌∙◌, Bool, true, false, not, ◌&&◌, Option, none, some, List, Bytes, arith,
  length, get_or, set, get_or-set_self, get_or-set_ne, bytes_eq_refl, bytes_eq→eq, ◌==◌, bit_and,
  ap, if◌then◌else◌,
}
use botshield.Shm.Slots.{
  is_readable_lem, find, published, published-even, Scan, hit, miss, acquired,
}
use botshield.Shm.Probe.{Reaches-In, In, find_only, find-none, find-set_other}
use botshield.Shm.Target.{scan-Ends, NoMatch-In, Ends}
use botshield.Shm.State.{FlaggedSlot, Shm, blank_flagged}
use botshield.Shm.Flagged.{
  flagged_matches, flagged_accepts, flagged_window, flags_of, flagged_clear, flagged_clear_found,
  flagged_rewrite, flagged_lookup, flagged_bucket, not32,
}
use botshield.Shm.Flagged.Window.{Ready, accepts-matches, accepts_other}
use botshield.Shm.Flagged.Lookup.{lookup-mapped}
use botshield.Shm.Flagged.Unique.{Unique, In-lt, clear_result, clear_outcome, clear-locked, others}

-- What becomes of the flags that a lookup reports.
abbrev pub cleared : ℕ → ℕ → Bool → Option ℕ → Option ℕ
cleared del_bits set_bits replace none = none
cleared del_bits set_bits replace (some flags) =
    let left = if replace then set_bits else bit_and flags (not32 del_bits) in
    if left == 0 then none else some left

lookup-clear_result :
    (t : ℕ) (ip : Bytes) (del_bits set_bits : ℕ) (replace : Bool) (ns : ℕ) (s : Shm)
    (table : List FlaggedSlot) (ip' : Bytes) (ns' : ℕ)
    → flagged_lookup t ip' ns' (clear_result ip del_bits set_bits replace ns s table)
      ≡ flags_of (
          find blank_flagged
            (flagged_accepts t ip' ns')
            (flagged_clear_found
              (clear_outcome ip ns s table)
              ip
              del_bits
              set_bits
              replace
              ns
              table)
            (flagged_window s ip' ns'))
unfolding flagged_lookup flagged_bucket
lookup-clear_result t ip del_bits set_bits replace ns s table ip' ns' = refl

-- The slot that a clear rewrites, for the reader of the key.
flags-rewrite :
    (t : ℕ) (ip : Bytes) (del_bits set_bits : ℕ) (replace : Bool) (ns : ℕ) (slot : FlaggedSlot)
    → flagged_matches ip ns slot ≡ true
    → flags_of (
        let w =
          flagged_rewrite slot ip
            (if replace then set_bits else bit_and slot.flags (not32 del_bits))
            ns in
        if flagged_accepts t ip ns w then some w else none)
      ≡ cleared del_bits set_bits replace
          (flags_of (if flagged_accepts t ip ns slot then some slot else none))
unfolding flagged_matches flagged_accepts
flags-rewrite t ip del_bits set_bits replace ns slot m = ground (
  arith,
  is_readable_lem slot.version,
  is_readable_lem (published slot.version),
  published-even slot.version,
  bytes_eq_refl ip,
)

rewrite_other :
    (t : ℕ) (ip ip' : Bytes) (ns ns' flags : ℕ) (slot : FlaggedSlot)
    → ¬ ((ip ≡ ip') × (ns ≡ ns'))
    → flagged_accepts t ip' ns' (flagged_rewrite slot ip flags ns) ≡ false
unfolding flagged_accepts
rewrite_other t ip ip' ns ns' flags slot h = ground (arith, bytes_eq→eq ip ip')

-- The reader's view of a table in which the key's slot `k` was overwritten by `w`.
find-set_only :
    (t : ℕ) (ip : Bytes) (ns k : ℕ) (s : Shm) (table : List FlaggedSlot) (w : FlaggedSlot)
    → Unique s table
    → k < length table
    → In k (flagged_window s ip ns)
    → flagged_matches ip ns (get_or table k blank_flagged) ≡ true
    → find blank_flagged (flagged_accepts t ip ns) (set table k w) (flagged_window s ip ns)
      ≡ (if flagged_accepts t ip ns w then some w else none)
find-set_only t ip ns k s table w u lt mk m =
    find_only blank_flagged (flagged_accepts t ip ns) (set table k w) k (flagged_window s ip ns)
      (λ i mi ne.
        rw (get_or-set_ne table k i w blank_flagged (λ e. ne (sym e)))
          (others t ip ns k s table u mk m i mi ne))
      mk
    ∙ rw (get_or-set_self table k w blank_flagged lt)

-- A clear that gets the lock takes the bits from what the key's lookup reports, or puts others in
-- their place, at every time; with no bit left there is no entry. The expiry stays.
pub lookup-clear :
    (t : ℕ) (ip : Bytes) (del_bits set_bits : ℕ) (replace : Bool) (ns : ℕ) (s : Shm)
    (table : List FlaggedSlot)
    → Ready s table
    → Unique s table
    → (not replace && del_bits == 0) ≡ false
    → flagged_lookup t ip ns (flagged_clear acquired ip del_bits set_bits replace ns s)
      ≡ cleared del_bits set_bits replace (flagged_lookup t ip ns s)
lookup-clear t ip del_bits set_bits replace ns s table r u h =
    rw
      (
        clear-locked ip del_bits set_bits replace ns s table r h,
        lookup-clear_result t ip del_bits set_bits replace ns s table ip ns,
        lookup-mapped t ip ns s table r,
      )
      (go (clear_outcome ip ns s table) (
        scan-Ends blank_flagged (flagged_matches ip ns) (λ _. false) table none
          (flagged_window s ip ns)))
  where
    W : List ℕ
    W = flagged_window s ip ns

    go :
        (out : Scan)
        → Ends blank_flagged (flagged_matches ip ns) (λ _. false) table none W out
        → flags_of (
            find blank_flagged
              (flagged_accepts t ip ns)
              (flagged_clear_found out ip del_bits set_bits replace ns table)
              W)
          ≡ cleared del_bits set_bits replace
              (flags_of (find blank_flagged (flagged_accepts t ip ns) table W))
    go (hit k) e =
        rw
          (
            find-set_only t ip ns k s table
                (flagged_rewrite (get_or table k blank_flagged) ip
                  (if replace
                    then set_bits
                    else bit_and (get_or table k blank_flagged).flags (not32 del_bits))
                  ns)
                u (In-lt ip ns k r e.1)
                (Reaches-In blank_flagged (flagged_matches ip ns) table k W e.1) e.0,
            find_only blank_flagged (flagged_accepts t ip ns) table k W
                (others t ip ns k s table u
                  (Reaches-In blank_flagged (flagged_matches ip ns) table k W e.1) e.0)
                (Reaches-In blank_flagged (flagged_matches ip ns) table k W e.1),
          )
          (flags-rewrite t ip del_bits set_bits replace ns (get_or table k blank_flagged) e.0)
    go (miss none) e = rw (
        find-none blank_flagged (flagged_accepts t ip ns) table W (λ i mi.
          accepts-matches t ip ns _
            (NoMatch-In blank_flagged (flagged_matches ip ns) (λ _. false) table W i e mi)))
    go (miss (some v)) e = absurd (ground (arith, e.1))

-- A clear changes the lookup of no other key.
pub lookup-clear_other :
    (t : ℕ) (ip : Bytes) (del_bits set_bits : ℕ) (replace : Bool) (ns : ℕ) (s : Shm)
    (table : List FlaggedSlot) (ip' : Bytes) (ns' : ℕ)
    → Ready s table
    → (not replace && del_bits == 0) ≡ false
    → ¬ ((ip ≡ ip') × (ns ≡ ns'))
    → flagged_lookup t ip' ns' (flagged_clear acquired ip del_bits set_bits replace ns s)
      ≡ flagged_lookup t ip' ns' s
lookup-clear_other t ip del_bits set_bits replace ns s table ip' ns' r h ne =
    rw
      (
        clear-locked ip del_bits set_bits replace ns s table r h,
        lookup-clear_result t ip del_bits set_bits replace ns s table ip' ns',
        lookup-mapped t ip' ns' s table r,
      )
      (go (clear_outcome ip ns s table) (
        scan-Ends blank_flagged (flagged_matches ip ns) (λ _. false) table none
          (flagged_window s ip ns)))
  where
    go :
        (out : Scan)
        → Ends blank_flagged
            (flagged_matches ip ns)
            (λ _. false)
            table
            none
            (flagged_window s ip ns)
            out
        → flags_of (
            find blank_flagged
              (flagged_accepts t ip' ns')
              (flagged_clear_found out ip del_bits set_bits replace ns table)
              (flagged_window s ip' ns'))
          ≡ flags_of
              (find blank_flagged (flagged_accepts t ip' ns') table (flagged_window s ip' ns'))
    go (hit k) e = ap flags_of (
        find-set_other blank_flagged (flagged_accepts t ip' ns') table k _
          (flagged_window s ip' ns') (In-lt ip ns k r e.1) (accepts_other t ip ip' ns ns' _ ne e.0)
          (rewrite_other t ip ip' ns ns' _ (get_or table k blank_flagged) ne))
    go (miss v) e = refl
