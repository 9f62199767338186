-- ===== src/Shm/Strike/Entry.antt =====
-- One call of the strike table, seen as a step of its key's entry.
use botshield.Prelude.{
  fun_ext, subst, ℕ, ◌+◌, ◌<◌, ◌%◌, ◌^◌, ◌≡◌, refl, sym, ◌∙◌, Bool, true, false, not, ◌&&◌, ◌==◌,
  ◌-◌, Option, none, some, List, Bytes, arith, length, get_or, set, length-set, leb, ltb,
  if◌then◌else◌, bytes_eq_refl, ap,
}
use botshield.Shm.Hash.{bucket_of-lt}
use botshield.Shm.Slots.{
  is_readable_lem, published, published-even, Scan, hit, miss, target, find, Lock, acquired, busy,
  failed,
}
use botshield.Shm.Probe.{find-set_self, Reaches-weaken}
use botshield.Shm.Target.{Ends, scan-Ends, target-Reaches, target-lt, find-Ends, found_at}
use botshield.Shm.State.{StrikeSlot, Shm, blank_strike, stamp}
use botshield.Shm.Strike.{
  strike_bucket, strike_window, strike_matches, strike_reusable, strike_scan, strike_written,
  strike_locked, strike_record, strike_accepts, strike_check,
}

-- The table is mapped with its capacity, and there is a mutex.
pub record StrikeReady (s : Shm) (table : List StrikeSlot) : Type 0 where
  pub mapped : s.strike_table ≡ some table
  pub sized : length table ≡ s.strike_capacity
  pub nonempty : 0 < s.strike_capacity
  pub guarded : s.mutex ≡ true

-- What the table remembers of a key: when its window began, its strikes, its escalation's end.
abbrev pub Strikes : Type 0
Strikes = Option (ℕ × ℕ × ℕ)

abbrev pub strikes_of : Option StrikeSlot → Strikes
strikes_of none = none
strikes_of (some slot) = some (slot.strike_window_start, slot.strike_count, slot.escalation_until)

unfoldable pub strike_entry : Bytes → ℕ → ℕ → Shm → Strikes
strike_entry ip rule ns s = elim s.strike_table [
  | none ↦ none
  | some table ↦
      strikes_of (find blank_strike (strike_accepts ip rule ns) table (strike_window s ip rule ns))
]

-- Strikes are of one window while less than `per_sec` seconds have passed since its first, on the 32
-- bits that are kept of a time; a start of 0 is no window.
abbrev pub within_window : ℕ → ℕ → ℕ → Bool
within_window start now per_sec =
    not (start == 0) && ltb ((now % 2 ^ 32 + 2 ^ 32 - start) % 2 ^ 32) per_sec

-- The rules of counting, with no table: the entry after a strike at `now`, and whether it crossed.
abbrev pub count_strike : Strikes → ℕ → ℕ → ℕ × ℕ × ℕ
count_strike none now per_sec = (stamp now, 1, 0)
count_strike (some (start, count, until)) now per_sec =
    if within_window start now per_sec
    then (start, (count + 1) % 2 ^ 32, until)
    else (stamp now, 1, until)

abbrev pub escalate : ℕ × ℕ × ℕ → ℕ → ℕ → ℕ → (ℕ × ℕ × ℕ) × Bool
escalate (start, count, until) now strikes ttl =
    if leb strikes count
    then ((start, count, now + ttl), leb until now)
    else ((start, count, until), false)

accepts-eq-matches :
    (ip : Bytes) (rule ns : ℕ) (slot : StrikeSlot)
    → strike_accepts ip rule ns slot ≡ strike_matches ip rule ns slot
unfolding strike_accepts strike_matches
accepts-eq-matches ip rule ns slot = rw (is_readable_lem slot.version)

bucket-lt :
    {s : Shm} {table : List StrikeSlot} (ip : Bytes) (rule ns : ℕ)
    → StrikeReady s table
    → strike_bucket s ip rule ns < s.strike_capacity
unfolding strike_bucket
bucket-lt {s} ip rule ns r = bucket_of-lt _ s.strike_capacity r.nonempty

-- What is written belongs to the key, whether its slot was matched or taken over.
written-matches :
    (out : Scan) (slot : StrikeSlot) (now per_sec strikes ttl : ℕ) (ip : Bytes) (rule ns : ℕ)
    → ((j : ℕ) → out ≡ hit j → strike_matches ip rule ns slot ≡ true)
    → strike_accepts ip rule ns (strike_written out slot now per_sec strikes ttl ip rule ns).0
      ≡ true
unfolding strike_accepts strike_matches
written-matches (hit j) slot now per_sec strikes ttl ip rule ns m =
    ground (arith, m j refl, is_readable_lem (published slot.version), published-even slot.version)
written-matches (miss v) slot now per_sec strikes ttl ip rule ns m =
    ground (
      arith,
      is_readable_lem (published slot.version),
      published-even slot.version,
      bytes_eq_refl ip,
    )

-- What is written counts as the rules say.
written-counts :
    (out : Scan) (table : List StrikeSlot) (base now per_sec strikes ttl : ℕ) (ip : Bytes)
    (rule ns : ℕ)
    → let (slot', crossed) =
        strike_written out
          (get_or table (target base out) blank_strike)
          now
          per_sec
          strikes
          ttl
          ip
          rule
          ns in
      (strikes_of (some slot')
        ≡ some
            (escalate
              (count_strike (strikes_of (found_at blank_strike table out)) now per_sec)
              now
              strikes
              ttl).0)
      × (crossed
          ≡ (escalate
              (count_strike (strikes_of (found_at blank_strike table out)) now per_sec)
              now
              strikes
              ttl).1)
written-counts (hit j) table base now per_sec strikes ttl ip rule ns = ground arith
written-counts (miss v) table base now per_sec strikes ttl ip rule ns = ground arith

entry-mapped :
    (ip : Bytes) (rule ns : ℕ) (s : Shm) (table : List StrikeSlot)
    → StrikeReady s table
    → strike_entry ip rule ns s
      ≡ strikes_of
          (find blank_strike (strike_accepts ip rule ns) table (strike_window s ip rule ns))
unfolding strike_entry
entry-mapped ip rule ns s table r = ground (arith, r.mapped)

module _ (now warn_us : ℕ) (ip : Bytes) (rule per_sec strikes ttl ns : ℕ) (s : Shm)
    (table : List StrikeSlot) (r : StrikeReady s table) where
  out : Scan
  out = strike_scan now per_sec ip rule ns table (strike_window s ip rule ns)

  out-Ends :
      Ends blank_strike
        (strike_matches ip rule ns)
        (strike_reusable now per_sec)
        table
        none
        (strike_window s ip rule ns)
        out
  unfolding out
  out-Ends =
      scan-Ends blank_strike (strike_matches ip rule ns) (strike_reusable now per_sec) table none
        (strike_window s ip rule ns)

  at : ℕ
  at = target (strike_bucket s ip rule ns) out

  written : StrikeSlot × Bool
  written = strike_written out (get_or table at blank_strike) now per_sec strikes ttl ip rule ns

  at-lt : at < length table
  unfolding at out
  at-lt =
      target-lt blank_strike (strike_matches ip rule ns) (strike_reusable now per_sec) table
        (strike_bucket s ip rule ns) s.strike_capacity 7 (bucket-lt ip rule ns r) r.sized

  matched : (j : ℕ) → out ≡ hit j → strike_matches ip rule ns (get_or table at blank_strike) ≡ true
  unfolding at
  matched j e =
      (subst
          (λ o.
            Ends blank_strike (strike_matches ip rule ns) (strike_reusable now per_sec) table none
              (strike_window s ip rule ns) o
            → strike_matches ip rule ns
                (get_or table (target (strike_bucket s ip rule ns) o) blank_strike)
              ≡ true)
          (sym e) (λ h. h.0))
        out-Ends

  -- The reader finds what was written.
  find-written :
      find blank_strike
        (strike_accepts ip rule ns)
        (set table at written.0)
        (strike_window s ip rule ns)
      ≡ some written.0
  unfolding written
  find-written =
      find-set_self blank_strike (strike_accepts ip rule ns) table at written.0
        (strike_window s ip rule ns) at-lt
        (written-matches out (get_or table at blank_strike) now per_sec strikes ttl ip rule ns
          matched)
        (Reaches-weaken blank_strike (strike_matches ip rule ns) (strike_accepts ip rule ns) table
          at (strike_window s ip rule ns) (λ x h. accepts-eq-matches ip rule ns x ∙ h)
          (unfold at out in
            target-Reaches blank_strike (strike_matches ip rule ns) (strike_reusable now per_sec)
              table (strike_bucket s ip rule ns) s.strike_capacity 7 (bucket-lt ip rule ns r)))

  entry-before : strike_entry ip rule ns s ≡ strikes_of (found_at blank_strike table out)
  entry-before =
      entry-mapped ip rule ns s table r
      ∙ (rw (fun_ext (accepts-eq-matches ip rule ns)) (
          ap strikes_of (
            find-Ends blank_strike (strike_matches ip rule ns) (strike_reusable now per_sec) table
              (strike_window s ip rule ns) out out-Ends)))

  entry-after :
      (strike_entry ip rule ns (strike_locked now warn_us ip rule per_sec strikes ttl ns table s).0
        ≡ strikes_of (some written.0))
      × ((strike_locked now warn_us ip rule per_sec strikes ttl ns table s).1 ≡ written.1)
  unfolding strike_entry strike_locked strike_bucket written at out
  entry-after = (ap strikes_of find-written, refl)

  locked :
      strike_record acquired now warn_us ip rule per_sec strikes ttl ns s
      ≡ strike_locked now warn_us ip rule per_sec strikes ttl ns table s
  unfolding strike_record
  locked = ground (arith, r.mapped, r.guarded)

-- A recorded refusal that gets the lock is one step of its key's entry by the rules of counting,
-- whatever else the table holds. Inside the window, of less than `per_sec` seconds, it is one strike
-- more; else a window begins with it as its first strike, the end of an escalation being kept. If the
-- count has reached the threshold, the escalation is set to run from now, else its end stays as it
-- was, during an escalation too; the result is true exactly when it is set for a key that was not
-- escalated at the time.
pub record-entry :
    (now warn_us : ℕ) (ip : Bytes) (rule per_sec strikes ttl ns : ℕ) (s : Shm)
    (table : List StrikeSlot)
    → StrikeReady s table
    → let (s', crossed) = strike_record acquired now warn_us ip rule per_sec strikes ttl ns s in
      (strike_entry ip rule ns s'
        ≡ some (escalate (count_strike (strike_entry ip rule ns s) now per_sec) now strikes ttl).0)
      × (crossed
          ≡ (escalate (count_strike (strike_entry ip rule ns s) now per_sec) now strikes ttl).1)
record-entry now warn_us ip rule per_sec strikes ttl ns s table r =
    let counts =
      written-counts (out now warn_us ip rule per_sec strikes ttl ns s table r) table
        (strike_bucket s ip rule ns) now per_sec strikes ttl ip rule ns in
    let after = entry-after now warn_us ip rule per_sec strikes ttl ns s table r in
    rw
      (
        locked now warn_us ip rule per_sec strikes ttl ns s table r,
        entry-before now warn_us ip rule per_sec strikes ttl ns s table r,
      )
      (after.0 ∙ unfold written at in counts.0, after.1 ∙ unfold written at in counts.1)

-- Any call keeps the table ready.
pub record-Ready :
    (lock : Lock) (now warn_us : ℕ) (ip : Bytes) (rule per_sec strikes ttl ns : ℕ) (s : Shm)
    (table : List StrikeSlot)
    → StrikeReady s table
    → (table' : List StrikeSlot) × StrikeReady
        (strike_record lock now warn_us ip rule per_sec strikes ttl ns s).0
        table'
record-Ready acquired now warn_us ip rule per_sec strikes ttl ns s table r =
    rw (locked now warn_us ip rule per_sec strikes ttl ns s table r) (
      set table (at now warn_us ip rule per_sec strikes ttl ns s table r)
          (written now warn_us ip rule per_sec strikes ttl ns s table r).0,
      unfold strike_locked at written out in
          record {
            mapped = refl;
            sized = length-set table _ _ ∙ r.sized;
            nonempty = r.nonempty;
            guarded = r.guarded;
          },
    )
record-Ready busy now warn_us ip rule per_sec strikes ttl ns s table r =
    let e : strike_record busy now warn_us ip rule per_sec strikes ttl ns s ≡ (s, false) =
      unfold strike_record in ground (arith, r.mapped) in
    rw e (table, r)
record-Ready failed now warn_us ip rule per_sec strikes ttl ns s table r =
    let e : strike_record failed now warn_us ip rule per_sec strikes ttl ns s ≡ (s, false) =
      unfold strike_record in ground (arith, r.mapped) in
    rw e (table, r)

-- What a check answers is read off the entry.
pub check-entry :
    (ip : Bytes) (rule now ns : ℕ) (s : Shm) (table : List StrikeSlot) (start count until : ℕ)
    → StrikeReady s table
    → strike_entry ip rule ns s ≡ some (start, count, until)
    → strike_check ip rule now ns s ≡ ltb now until
unfolding strike_check
check-entry ip rule now ns s table start count until r h =
    ground (arith, r.mapped, r.nonempty, entry-mapped ip rule ns s table r)
