-- ===== src/Shm/Strike/Ladder.antt =====
-- Repeated refusals of one client by one rule: how many make an escalation, and how long it holds.
use botshield.Prelude.{
  ℕ, ◌+◌, ◌-◌, ◌*◌, ◌≤◌, ◌<◌, ◌%◌, ◌^◌, ◌≡◌, refl, ◌∙◌, Bool, true, false, none, some, List, [],
  ◌∷◌, Bytes, arith, length, ltb, leb, replicate, ap, if◌then◌else◌,
}
use mathlib.Core.Path.{ap₂}
use native.Mathlib.Numerals.{add-one}
use botshield.Shm.Slots.{acquired}
use botshield.Shm.State.{StrikeSlot, Shm, stamp}
use botshield.Shm.Strike.{strike_record, strike_check}
use botshield.Shm.Strike.Entry.{
  StrikeReady, strike_entry, within_window, count_strike, escalate, record-entry, record-Ready,
  check-entry,
}

module _ (ip : Bytes) (rule per_sec strikes ttl ns : ℕ) where
  -- Refusals of the client by the rule at the given times, with the results in order.
  unfoldable pub strike_run : Shm → List ℕ → Shm × List Bool
  strike_run s [] = (s, [])
  strike_run s (now ∷ later) =
      let (s', crossed) =
        strike_record acquired now (now * 1000000) ip rule per_sec strikes ttl ns s in
      let (s'', results) = strike_run s' later in (s'', crossed ∷ results)

  -- The times lie in the window that begins at `start`, and their stamps do not wrap.
  abbrev pub Within : ℕ → List ℕ → Type 0
  Within start [] = Unit
  Within start (now ∷ later) =
      ((start ≤ now) × (now < start + per_sec) × (now < 2 ^ 32)) × Within start later

  within-window :
      (start now : ℕ)
      → 0 < start
      → start ≤ now
      → now < start + per_sec
      → now < 2 ^ 32
      → within_window start now per_sec ≡ true
  within-window start now h a b c =
      let e : (now % 2 ^ 32 + 2 ^ 32 - start) % 2 ^ 32 < per_sec = omega arith in ground (arith, e)

  -- A strike in the window, short of the threshold.
  one_more :
      (s : Shm) (table : List StrikeSlot) (start now k : ℕ)
      → StrikeReady s table
      → strike_entry ip rule ns s ≡ some (start, k, 0)
      → 0 < start
      → start ≤ now
      → now < start + per_sec
      → now < 2 ^ 32
      → k + 1 < 2 ^ 32
      → (escalate (count_strike (strike_entry ip rule ns s) now per_sec) now strikes ttl) ≡ (
          if leb strikes (k + 1)
          then ((start, k + 1, now + ttl), true)
          else ((start, k + 1, 0), false))
  one_more s table start now k r e h a b c d =
      let w = within-window start now h a b c in
      let m : (k + 1) % 2 ^ 32 ≡ k + 1 = omega arith in rw e (ground (arith, w, m))

  abbrev step : ℕ → Shm → Shm × Bool
  step now s = strike_record acquired now (now * 1000000) ip rule per_sec strikes ttl ns s

  -- Below the threshold strikes are counted and nothing crosses.
  run_counts :
      (s : Shm) (table : List StrikeSlot) (start k : ℕ) (later : List ℕ)
      → StrikeReady s table
      → strike_entry ip rule ns s ≡ some (start, k, 0)
      → 0 < start
      → Within start later
      → k + length later < strikes
      → strikes < 2 ^ 32
      → (strike_entry ip rule ns (strike_run s later).0 ≡ some (start, k + length later, 0))
        × ((strike_run s later).1 ≡ replicate (length later) false)
        × ((table' : List StrikeSlot) × StrikeReady (strike_run s later).0 table')
  unfolding strike_run
  run_counts s table start k [] r e h w lt big =
      (e ∙ ap (λ (n : ℕ). some (start, n, 0)) (omega arith), refl, (table, r))
  run_counts s table start k (now ∷ later) r e h w lt big =
      let (entry, result) =
        record-entry now (now * 1000000) ip rule per_sec strikes ttl ns s table r in
      let (table', r') =
        record-Ready acquired now (now * 1000000) ip rule per_sec strikes ttl ns s table r in
      let more = one_more s table start now k r e h w.0.0 w.0.1 w.0.2 (omega arith) in
      let below : leb strikes (k + 1) ≡ false = ground arith in
      let entry' : strike_entry ip rule ns (step now s).0 ≡ some (start, k + 1, 0) =
        entry ∙ rw (more, below) in
      let result' : (step now s).1 ≡ false = result ∙ rw (more, below) in
      let (e2, r2, ready) =
        run_counts (step now s).0 table' start (k + 1) later r' entry' h w.1 (omega arith) big in
      (e2 ∙ ap (λ (n : ℕ). some (start, n, 0)) (omega arith), ap₂ ◌∷◌ result' r2, ready)

  -- A client with no entry is refused `strikes` times by a rule, two or more and fewer than 2 ^ 32,
  -- at times from 1 to below 2 ^ 32 that lie in one window; each call gets the lock, and no other
  -- call comes in between. Then the calls before the last report nothing, the last reports that it
  -- crossed, and right after it a check for time `t` says escalated exactly if `t` is before the
  -- last call's time plus `ttl`.
  pub strike_ladder :
      (s : Shm) (table : List StrikeSlot) (first last t : ℕ) (between : List ℕ)
      → StrikeReady s table
      → strike_entry ip rule ns s ≡ none
      → 0 < first
      → first < 2 ^ 32
      → Within first between
      → Within first (last ∷ [])
      → length between + 2 ≡ strikes
      → strikes < 2 ^ 32
      → let (s', results) = strike_run s (first ∷ between) in
        let (s'', crossed) =
          strike_record acquired last (last * 1000000) ip rule per_sec strikes ttl ns s' in
        (results ≡ replicate (length between + 1) false)
        × (crossed ≡ true)
        × (strike_check ip rule t ns s'' ≡ ltb t (last + ttl))
  unfolding strike_run
  strike_ladder s table first last t between r none_yet h small w wl n big =
      let (entry, result) =
        record-entry first (first * 1000000) ip rule per_sec strikes ttl ns s table r in
      let (table', r') =
        record-Ready acquired first (first * 1000000) ip rule per_sec strikes ttl ns s table r in
      let fits : stamp first ≡ first = omega arith in
      let one : leb strikes 1 ≡ false = ground arith in
      let entry' : strike_entry ip rule ns (step first s).0 ≡ some (first, 1, 0) =
        entry ∙ rw (none_yet, one, fits) in
      let result' : (step first s).1 ≡ false = result ∙ rw (none_yet, one) in
      let (e2, r2, ready) =
        run_counts (step first s).0 table' first 1 between r' entry' h w (omega arith) big in
      let (entry3, result3) =
        record-entry last (last * 1000000) ip rule per_sec strikes ttl ns _ ready.0 ready.1 in
      let (table4, r4) =
        record-Ready acquired last (last * 1000000) ip rule per_sec strikes ttl ns _ ready.0
          ready.1 in
      let more =
        one_more _ ready.0 first last (1 + length between) ready.1 e2 h wl.0.0 wl.0.1 wl.0.2
          (omega arith) in
      let reached : leb strikes (1 + length between + 1) ≡ true = ground arith in
      (
        ap₂ ◌∷◌ result' r2 ∙ rw add-one,
        result3 ∙ rw (more, reached),
        check-entry ip rule t ns _ table4 first (1 + length between + 1) (last + ttl) r4
            (entry3 ∙ rw (more, reached)),
      )
