-- ===== src/Shm/Safeguard/Entry.antt =====
-- One call of the safeguard table, seen as a step of its client's entry.
use botshield.Prelude.{
  ℕ, ◌+◌, ◌<◌, ◌%◌, ◌^◌, ◌≡◌, refl, sym, ◌∙◌, ap, subst, fun_ext, true, ◌||◌, not, ◌&&◌, ◌-◌,
  Option, none, some, List, Bytes, arith, length, get_or, set, length-set, leb, ltb, ◌==◌,
  if◌then◌else◌, bytes_eq_refl,
}
use botshield.Shm.Hash.{bucket_of-lt}
use botshield.Shm.Slots.{
  is_readable_lem, published, published-even, Scan, hit, miss, target, find, acquired,
}
use botshield.Shm.Probe.{find-set_self, Reaches-weaken}
use botshield.Shm.Target.{Ends, scan-Ends, target-Reaches, target-lt, find-Ends, found_at}
use botshield.Shm.State.{SafeguardSlot, Shm, blank_safeguard, stamp, elapsed}
use botshield.Shm.Safeguard.{
  safeguard_bucket, safeguard_window, safeguard_matches, safeguard_reusable, safeguard_scan,
  safeguard_written, presentation_locked, record_presentation, safeguard_accepts, safeguard_check,
  present_count, default_safeguard_window,
}

-- The table is mapped with its capacity, and there is a mutex.
pub record SafeguardReady (s : Shm) (table : List SafeguardSlot) : Type 0 where
  pub mapped : s.safeguard_table ≡ some table
  pub sized : length table ≡ s.safeguard_capacity
  pub nonempty : 0 < s.safeguard_capacity
  pub guarded : s.mutex ≡ true

-- What is remembered of a client: when its window began, its presentations, its safeguard's end.
abbrev pub Shown : Type 0
Shown = Option (ℕ × ℕ × ℕ)

abbrev pub shown_of : Option SafeguardSlot → Shown
shown_of none = none
shown_of (some slot) = some (slot.present_window_start, slot.present_count, slot.safeguard_until)

unfoldable pub safeguard_entry : Bytes → ℕ → Shm → Shown
safeguard_entry ip ns s = elim s.safeguard_table [
  | none ↦ none
  | some table ↦
      shown_of (find blank_safeguard (safeguard_accepts ip ns) table (safeguard_window s ip ns))
]

-- The rules of counting, with no table.
abbrev pub count_shown : Shown → ℕ → ℕ → ℕ × ℕ × ℕ
count_shown none now per = (stamp now, 1, 0)
count_shown (some (start, count, until)) now per =
    if not (start == 0) && ltb ((now % 2 ^ 32 + 2 ^ 32 - start) % 2 ^ 32) per
    then (start, (count + 1) % 2 ^ 32, until)
    else (stamp now, 1, until)

abbrev pub trip : ℕ × ℕ × ℕ → ℕ → ℕ → ℕ → ℕ × ℕ × ℕ
trip (start, count, until) now threshold ttl =
    if leb threshold count then (start, count, now + ttl) else (start, count, until)

accepts-eq-matches :
    (ip : Bytes) (ns : ℕ) (slot : SafeguardSlot)
    → safeguard_accepts ip ns slot ≡ safeguard_matches ip ns slot
unfolding safeguard_accepts safeguard_matches
accepts-eq-matches ip ns slot = rw (is_readable_lem slot.version)

bucket-lt :
    {s : Shm} {table : List SafeguardSlot} (ip : Bytes) (ns : ℕ)
    → SafeguardReady s table
    → safeguard_bucket s ip ns < s.safeguard_capacity
unfolding safeguard_bucket
bucket-lt {s} ip ns r = bucket_of-lt _ s.safeguard_capacity r.nonempty

written-matches :
    (out : Scan) (slot : SafeguardSlot) (now threshold per ttl : ℕ) (ip : Bytes) (ns : ℕ)
    → ((j : ℕ) → out ≡ hit j → safeguard_matches ip ns slot ≡ true)
    → safeguard_accepts ip ns (safeguard_written out slot now threshold per ttl ip ns) ≡ true
unfolding safeguard_accepts safeguard_matches
written-matches (hit j) slot now threshold per ttl ip ns m =
    ground (arith, m j refl, is_readable_lem (published slot.version), published-even slot.version)
written-matches (miss v) slot now threshold per ttl ip ns m =
    ground (
      arith,
      is_readable_lem (published slot.version),
      published-even slot.version,
      bytes_eq_refl ip,
    )

written-counts :
    (out : Scan) (table : List SafeguardSlot) (base now threshold per ttl : ℕ) (ip : Bytes) (ns : ℕ)
    → shown_of (
        some (
          safeguard_written out
            (get_or table (target base out) blank_safeguard)
            now
            threshold
            per
            ttl
            ip
            ns))
      ≡ some (
          trip
            (count_shown (shown_of (found_at blank_safeguard table out)) now per)
            now
            threshold
            ttl)
written-counts (hit j) table base now threshold per ttl ip ns = ground arith
written-counts (miss v) table base now threshold per ttl ip ns = ground arith

entry-mapped :
    (ip : Bytes) (ns : ℕ) (s : Shm) (table : List SafeguardSlot)
    → SafeguardReady s table
    → safeguard_entry ip ns s
      ≡ shown_of (find blank_safeguard (safeguard_accepts ip ns) table (safeguard_window s ip ns))
unfolding safeguard_entry
entry-mapped ip ns s table r = ground (arith, r.mapped)

module _ (now warn_us : ℕ) (ip : Bytes) (threshold per ttl ns : ℕ) (s : Shm)
    (table : List SafeguardSlot) (r : SafeguardReady s table) where
  out : Scan
  out = safeguard_scan now per ip ns table (safeguard_window s ip ns)

  at : ℕ
  at = target (safeguard_bucket s ip ns) out

  written : SafeguardSlot
  written = safeguard_written out (get_or table at blank_safeguard) now threshold per ttl ip ns

  out-Ends :
      Ends blank_safeguard
        (safeguard_matches ip ns)
        (safeguard_reusable now per)
        table
        none
        (safeguard_window s ip ns)
        out
  unfolding out
  out-Ends =
      scan-Ends blank_safeguard (safeguard_matches ip ns) (safeguard_reusable now per) table none
        (safeguard_window s ip ns)

  at-lt : at < length table
  unfolding at out
  at-lt =
      target-lt blank_safeguard (safeguard_matches ip ns) (safeguard_reusable now per) table
        (safeguard_bucket s ip ns) s.safeguard_capacity 7 (bucket-lt ip ns r) r.sized

  matched : (j : ℕ) → out ≡ hit j → safeguard_matches ip ns (get_or table at blank_safeguard) ≡ true
  unfolding at
  matched j e =
      subst
        (λ o.
          Ends blank_safeguard (safeguard_matches ip ns) (safeguard_reusable now per) table none
            (safeguard_window s ip ns) o
          → safeguard_matches ip ns
              (get_or table (target (safeguard_bucket s ip ns) o) blank_safeguard)
            ≡ true)
        (sym e) (λ h. h.0) out-Ends

  find-written :
      find blank_safeguard
        (safeguard_accepts ip ns)
        (set table at written)
        (safeguard_window s ip ns)
      ≡ some written
  unfolding written
  find-written =
      find-set_self blank_safeguard (safeguard_accepts ip ns) table at written
        (safeguard_window s ip ns) at-lt
        (written-matches out (get_or table at blank_safeguard) now threshold per ttl ip ns matched)
        (Reaches-weaken blank_safeguard (safeguard_matches ip ns) (safeguard_accepts ip ns) table at
          (safeguard_window s ip ns) (λ x h. accepts-eq-matches ip ns x ∙ h)
          (unfold at out in
            target-Reaches blank_safeguard (safeguard_matches ip ns) (safeguard_reusable now per)
              table (safeguard_bucket s ip ns) s.safeguard_capacity 7 (bucket-lt ip ns r)))

  entry-before : safeguard_entry ip ns s ≡ shown_of (found_at blank_safeguard table out)
  entry-before =
      entry-mapped ip ns s table r
      ∙ rw (fun_ext (accepts-eq-matches ip ns)) (
          ap shown_of (
            find-Ends blank_safeguard (safeguard_matches ip ns) (safeguard_reusable now per) table
              (safeguard_window s ip ns) out out-Ends))

  entry-after :
      safeguard_entry ip ns (presentation_locked now warn_us ip threshold per ttl ns table s)
      ≡ shown_of (some written)
  unfolding safeguard_entry presentation_locked safeguard_bucket written at out
  entry-after = ap shown_of find-written

  locked :
      record_presentation acquired now warn_us ip threshold per ttl ns s
      ≡ presentation_locked now warn_us ip threshold per ttl ns table s
  unfolding record_presentation
  locked = ground (arith, r.mapped, r.guarded)

-- A presentation that gets the lock is one step of its client's entry by the rules of counting,
-- whatever else the table holds. Inside the window, of less than `per` seconds, it is one more;
-- else a window begins with it as the first, the end of the safeguard being kept. If the count has
-- reached the threshold, the safeguard is set to run from now, else its end stays as it was, while
-- it is active too.
pub presentation-entry :
    (now warn_us : ℕ) (ip : Bytes) (threshold per ttl ns : ℕ) (s : Shm) (table : List SafeguardSlot)
    → SafeguardReady s table
    → safeguard_entry ip ns (record_presentation acquired now warn_us ip threshold per ttl ns s)
      ≡ some (trip (count_shown (safeguard_entry ip ns s) now per) now threshold ttl)
presentation-entry now warn_us ip threshold per ttl ns s table r =
    rw
      (
        locked now warn_us ip threshold per ttl ns s table r,
        entry-before now warn_us ip threshold per ttl ns s table r,
      )
      (entry-after now warn_us ip threshold per ttl ns s table r
        ∙ unfold written at in
          written-counts (out now warn_us ip threshold per ttl ns s table r) table
            (safeguard_bucket s ip ns) now threshold per ttl ip ns)

-- A presentation keeps the table ready.
pub presentation-Ready :
    (now warn_us : ℕ) (ip : Bytes) (threshold per ttl ns : ℕ) (s : Shm) (table : List SafeguardSlot)
    → SafeguardReady s table
    → (table' : List SafeguardSlot) × SafeguardReady
        (record_presentation acquired now warn_us ip threshold per ttl ns s)
        table'
presentation-Ready now warn_us ip threshold per ttl ns s table r =
    rw (locked now warn_us ip threshold per ttl ns s table r) (
      set table (at now warn_us ip threshold per ttl ns s table r)
          (written now warn_us ip threshold per ttl ns s table r),
      unfold presentation_locked at written out in
          record {
            mapped = refl;
            sized = length-set table _ _ ∙ r.sized;
            nonempty = r.nonempty;
            guarded = r.guarded;
          },
    )

-- What the two readers answer is read off the entry.
pub readers-entry :
    (ip : Bytes) (now ns : ℕ) (s : Shm) (table : List SafeguardSlot) (start count until : ℕ)
    → SafeguardReady s table
    → safeguard_entry ip ns s ≡ some (start, count, until)
    → (safeguard_check ip now ns s ≡ ltb now until)
      × (present_count ip now ns s ≡ (
          if start == 0 || leb default_safeguard_window (elapsed (stamp now) start)
          then 0
          else count))
unfolding safeguard_check present_count
readers-entry ip now ns s table start count until r h = (
  ground (arith, r.mapped, r.nonempty, entry-mapped ip ns s table r),
  ground (arith, r.mapped, r.nonempty, entry-mapped ip ns s table r),
)
