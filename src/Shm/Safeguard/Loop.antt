-- ===== src/Shm/Safeguard/Loop.antt =====
-- Repeated presentations to one client: how many set the safeguard, and how long it holds.
use botshield.Prelude.{
  ℕ, ◌+◌, ◌*◌, ◌≤◌, ◌<◌, ◌%◌, ◌^◌, ◌≡◌, ◌∙◌, ap, true, false, none, some, List, [], ◌∷◌, Bytes,
  arith, length, ltb, leb, if◌then◌else◌,
}
use botshield.Shm.Slots.{acquired}
use botshield.Shm.State.{SafeguardSlot, Shm, stamp, elapsed}
use botshield.Shm.Safeguard.{record_presentation, safeguard_check}
use botshield.Shm.Safeguard.Entry.{
  SafeguardReady, safeguard_entry, count_shown, trip, presentation-entry, presentation-Ready,
  readers-entry,
}

module _ (ip : Bytes) (threshold per ttl ns : ℕ) where
  -- Presentations to the client at the given times.
  unfoldable pub presentation_run : Shm → List ℕ → Shm
  presentation_run s [] = s
  presentation_run s (now ∷ later) =
      presentation_run (record_presentation acquired now (now * 1000000) ip threshold per ttl ns s)
        later

  -- The times lie in the window that begins at `start`, and their stamps do not wrap.
  abbrev pub Within : ℕ → List ℕ → Type 0
  Within start [] = Unit
  Within start (now ∷ later) =
      ((start ≤ now) × (now < start + per) × (now < 2 ^ 32)) × Within start later

  abbrev step : ℕ → Shm → Shm
  step now s = record_presentation acquired now (now * 1000000) ip threshold per ttl ns s

  one_more :
      (s : Shm) (start now k : ℕ)
      → safeguard_entry ip ns s ≡ some (start, k, 0)
      → 0 < start
      → start ≤ now
      → now < start + per
      → now < 2 ^ 32
      → k + 1 < 2 ^ 32
      → trip (count_shown (safeguard_entry ip ns s) now per) now threshold ttl
        ≡ (if leb threshold (k + 1) then (start, k + 1, now + ttl) else (start, k + 1, 0))
  one_more s start now k e h a b c d =
      let w : elapsed (stamp now) start < per = omega arith in
      let m : (k + 1) % 2 ^ 32 ≡ k + 1 = omega arith in rw e (ground (arith, w, m))

  run_counts :
      (s : Shm) (table : List SafeguardSlot) (start k : ℕ) (later : List ℕ)
      → SafeguardReady s table
      → safeguard_entry ip ns s ≡ some (start, k, 0)
      → 0 < start
      → Within start later
      → k + length later < threshold
      → threshold < 2 ^ 32
      → (safeguard_entry ip ns (presentation_run s later) ≡ some (start, k + length later, 0))
        × ((table' : List SafeguardSlot) × SafeguardReady (presentation_run s later) table')
  unfolding presentation_run
  run_counts s table start k [] r e h w lt big =
      (e ∙ ap (λ (n : ℕ). some (start, n, 0)) (omega arith), (table, r))
  run_counts s table start k (now ∷ later) r e h w lt big =
      let (table', r') = presentation-Ready now (now * 1000000) ip threshold per ttl ns s table r in
      let below : leb threshold (k + 1) ≡ false = ground arith in
      let entry' : safeguard_entry ip ns (step now s) ≡ some (start, k + 1, 0) =
        presentation-entry now (now * 1000000) ip threshold per ttl ns s table r
        ∙ rw (one_more s start now k e h w.0.0 w.0.1 w.0.2 (omega arith), below) in
      let (e2, ready) =
        run_counts (step now s) table' start (k + 1) later r' entry' h w.1 (omega arith) big in
      (e2 ∙ ap (λ (n : ℕ). some (start, n, 0)) (omega arith), ready)

  -- A client with no entry is shown `threshold` challenges, two or more and fewer than 2 ^ 32, at
  -- times from 1 to below 2 ^ 32 that lie in one window; each call gets the lock, and no other call
  -- comes in between. Then after the calls before the last a check for any time says inactive, and
  -- right after the last a check for time `t` says active exactly if `t` is before the last call's
  -- time plus `ttl`.
  pub safeguard_trips :
      (s : Shm) (table : List SafeguardSlot) (first last t : ℕ) (between : List ℕ)
      → SafeguardReady s table
      → safeguard_entry ip ns s ≡ none
      → 0 < first
      → first < 2 ^ 32
      → Within first between
      → Within first (last ∷ [])
      → length between + 2 ≡ threshold
      → threshold < 2 ^ 32
      → (safeguard_check ip t ns (presentation_run s (first ∷ between)) ≡ false)
        × (safeguard_check ip t ns (
              record_presentation acquired last
                (last * 1000000)
                ip
                threshold
                per
                ttl
                ns
                (presentation_run s (first ∷ between)))
            ≡ ltb t (last + ttl))
  unfolding presentation_run
  safeguard_trips s table first last t between r none_yet h small w wl n big =
      let (table', r') =
        presentation-Ready first (first * 1000000) ip threshold per ttl ns s table r in
      let fits : stamp first ≡ first = omega arith in
      let one : leb threshold 1 ≡ false = ground arith in
      let entry' : safeguard_entry ip ns (step first s) ≡ some (first, 1, 0) =
        presentation-entry first (first * 1000000) ip threshold per ttl ns s table r
        ∙ rw (none_yet, one, fits) in
      let (e2, ready) =
        run_counts (step first s) table' first 1 between r' entry' h w (omega arith) big in
      let (table4, r4) =
        presentation-Ready last (last * 1000000) ip threshold per ttl ns _ ready.0 ready.1 in
      let reached : leb threshold (1 + length between + 1) ≡ true = ground arith in
      (
        (readers-entry ip t ns _ ready.0 first (1 + length between) 0 ready.1 e2).0 ∙ ground arith,
        (readers-entry ip t ns _ table4 first (1 + length between + 1) (last + ttl) r4 (
            presentation-entry last (last * 1000000) ip threshold per ttl ns _ ready.0 ready.1
            ∙ rw (
              one_more _ first last (1 + length between) e2 h wl.0.0 wl.0.1 wl.0.2 (omega arith),
              reached,
            ))).0,
      )
