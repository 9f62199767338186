-- ===== src/Rate/Schedule.antt =====
-- Several workers on one counter, their steps in any order: what the swaps of all of them add up to.
use botshield.Prelude.{
  ℕ, zero, suc, ◌+◌, ◌%◌, ◌^◌, ◌≤◌, ◌<◌, ◌≡◌, refl, sym, ap, subst, inl, inr, true, Option, none,
  some, List, [], ◌∷◌, arith, leb, if◌then◌else◌, get_or, set, Bool-cases,
}
use botshield.Rate.{
  RateCounter, candidate, minus32, same_counter, Verdict, refused, Point, loading, swapping,
  returned, enter, after_load, step,
}

-- The shared counter, the workers, and the admissions by a swap since the window was last opened.
pub record System : Type 0 where
  pub slot : RateCounter
  pub points : List Point
  pub since_opening : ℕ

-- A worker that is back takes a request at some time, or a worker takes one step.
pub data Event : Type 0 where
  arrives : ℕ → ℕ → Event
  runs : ℕ → Event

abbrev pub idle : Point
idle = returned refused

abbrev pub taken : Point → ℕ → Point
taken (returned v) now_ms = enter now_ms
taken p now_ms = p

-- The number of admissions since the opening, after a step of a worker at `p`.
abbrev pub counted : ℕ → Point → RateCounter → ℕ → ℕ
counted window_ms (swapping tries now snap cand) slot n =
    if same_counter slot snap
    then (if leb window_ms (minus32 now snap.window_start_ms) then 1 else suc n)
    else n
counted window_ms _ slot n = n

unfoldable pub happens : ℕ → ℕ → Event → System → System
happens budget window_ms (arrives i now_ms) s = record s {
  points = set s.points i (taken (get_or s.points i idle) now_ms);
}
happens budget window_ms (runs i) s =
    let p = get_or s.points i idle in
    let (next, after) = step budget window_ms p s.slot in
    record {
      slot = after;
      points = set s.points i next;
      since_opening = counted window_ms p s.slot s.since_opening;
    }

unfoldable pub run : ℕ → ℕ → List Event → System → System
run budget window_ms [] s = s
run budget window_ms (e ∷ es) s = run budget window_ms es (happens budget window_ms e s)

-- What a worker is about to store is what it computed from what it loaded.
abbrev Sound : ℕ → ℕ → Point → Type 0
Sound budget window_ms (swapping tries now snap cand) =
    candidate budget window_ms now snap ≡ some cand
Sound budget window_ms _ = Unit

abbrev AllSound : ℕ → ℕ → List Point → Type 0
AllSound budget window_ms [] = Unit
AllSound budget window_ms (p ∷ ps) = Sound budget window_ms p × AllSound budget window_ms ps

get-Sound :
    (budget window_ms : ℕ) (ps : List Point) (i : ℕ)
    → AllSound budget window_ms ps
    → Sound budget window_ms (get_or ps i idle)
get-Sound budget window_ms [] i h = tt
get-Sound budget window_ms (p ∷ ps) zero h = h.0
get-Sound budget window_ms (p ∷ ps) (suc i) h = get-Sound budget window_ms ps i h.1

set-AllSound :
    (budget window_ms : ℕ) (ps : List Point) (i : ℕ) (p : Point)
    → AllSound budget window_ms ps
    → Sound budget window_ms p
    → AllSound budget window_ms (set ps i p)
set-AllSound budget window_ms [] i p h hp = tt
set-AllSound budget window_ms (q ∷ ps) zero p h hp = (hp, h.1)
set-AllSound budget window_ms (q ∷ ps) (suc i) p h hp =
    (h.0, set-AllSound budget window_ms ps i p h.1 hp)

taken-Sound :
    (budget window_ms now_ms : ℕ) (p : Point)
    → Sound budget window_ms p
    → Sound budget window_ms (taken p now_ms)
taken-Sound budget window_ms now_ms (loading tries now) h = tt
taken-Sound budget window_ms now_ms (swapping tries now snap cand) h = h
taken-Sound budget window_ms now_ms (returned v) h = tt

load-Sound :
    (budget window_ms tries now : ℕ) (slot : RateCounter) (o : Option RateCounter)
    → candidate budget window_ms now slot ≡ o
    → Sound budget window_ms (after_load tries now slot o)
load-Sound budget window_ms tries now slot none e = tt
load-Sound budget window_ms tries now slot (some cand) e = e

step-Sound :
    (budget window_ms : ℕ) (p : Point) (slot : RateCounter)
    → Sound budget window_ms ((step budget window_ms p slot).0)
unfolding step
step-Sound budget window_ms (loading zero now) slot = tt
step-Sound budget window_ms (loading (suc tries) now) slot =
    load-Sound budget window_ms tries now slot (candidate budget window_ms now slot) refl
step-Sound budget window_ms (swapping tries now snap cand) slot =
    elim (Bool-cases (same_counter slot snap)) [ inl e ↦ rw e tt | inr e ↦ rw e tt ]
step-Sound budget window_ms (returned v) slot = tt

-- The counter holds the number of admissions since the opening, and that is no more than the budget.
Tallied : ℕ → RateCounter → ℕ → Type 0
Tallied budget slot n = (slot.count ≡ n) × (n ≤ budget)

swap-Tallied :
    (budget window_ms now n : ℕ) (slot snap cand : RateCounter)
    → 0 < budget
    → budget < 2 ^ 32
    → candidate budget window_ms now snap ≡ some cand
    → same_counter slot snap ≡ true
    → Tallied budget slot n
    → Tallied budget cand (if leb window_ms (minus32 now snap.window_start_ms) then 1 else suc n)
unfolding candidate Tallied
swap-Tallied budget window_ms now n slot snap cand some_left small e same tally =
    let counts : slot.count ≡ snap.count = ground (arith, same) in
    elim (Bool-cases (leb window_ms (minus32 now snap.window_start_ms))) [
      | inl rolls ↦ rw rolls (
          let e2 : some (record { count = 1; window_start_ms = now }) ≡ some cand =
            rw (candidate, rolls) at e in
          let e3 : record { count = 1; window_start_ms = now } ≡ cand = cc in
          (sym (ap (λ (c : RateCounter). c.count) e3), omega (arith, some_left)))
      | inr holds ↦ rw holds (elim (Bool-cases (leb budget snap.count)) [
        | inl full ↦ absurd (ground (arith, e, holds, full))
        | inr free ↦
            let more : RateCounter = record {
              count = (snap.count + 1) % 2 ^ 32;
              window_start_ms = snap.window_start_ms;
            } in
            let e2 : some more ≡ some cand = rw (candidate, holds, free) at e in
            let e3 : more ≡ cand = cc in
            let counted_up : (snap.count + 1) % 2 ^ 32 ≡ cand.count =
              ap (λ (c : RateCounter). c.count) e3 in
            let below : snap.count < budget = ground (arith, free) in
            (
              omega (arith, counted_up, counts, tally.0, below, small),
              omega (arith, counts, tally.0, below),
            )
      ])
    ]

step-Tallied :
    (budget window_ms n : ℕ) (p : Point) (slot : RateCounter)
    → 0 < budget
    → budget < 2 ^ 32
    → Sound budget window_ms p
    → Tallied budget slot n
    → Tallied budget ((step budget window_ms p slot).1) (counted window_ms p slot n)
unfolding step
step-Tallied budget window_ms n (loading zero now) slot some_left small h tally = tally
step-Tallied budget window_ms n (loading (suc tries) now) slot some_left small h tally = tally
step-Tallied budget window_ms n (swapping tries now snap cand) slot some_left small h tally =
    elim (Bool-cases (same_counter slot snap)) [
      | inl same ↦
          rw same (swap-Tallied budget window_ms now n slot snap cand some_left small h same tally)
      | inr other ↦ rw other tally
    ]
step-Tallied budget window_ms n (returned v) slot some_left small h tally = tally

run-Tallied :
    (budget window_ms : ℕ) (es : List Event) (s : System)
    → 0 < budget
    → budget < 2 ^ 32
    → AllSound budget window_ms s.points
    → Tallied budget s.slot s.since_opening
    → let final = run budget window_ms es s in Tallied budget final.slot final.since_opening
unfolding run happens
run-Tallied budget window_ms [] s some_left small sound tally = tally
run-Tallied budget window_ms (arrives i now_ms ∷ es) s some_left small sound tally =
    run-Tallied budget window_ms es (happens budget window_ms (arrives i now_ms) s) some_left small
      (set-AllSound budget window_ms s.points i (taken (get_or s.points i idle) now_ms) sound (
        taken-Sound budget window_ms now_ms (get_or s.points i idle)
          (get-Sound budget window_ms s.points i sound)))
      tally
run-Tallied budget window_ms (runs i ∷ es) s some_left small sound tally =
    let p : Point = get_or s.points i idle in
    run-Tallied budget window_ms es (happens budget window_ms (runs i) s) some_left small
      (set-AllSound budget window_ms s.points i ((step budget window_ms p s.slot).0) sound
        (step-Sound budget window_ms p s.slot))
      (step-Tallied budget window_ms s.since_opening p s.slot some_left small
        (get-Sound budget window_ms s.points i sound) tally)

-- The counter in zeroed memory, and workers that have nothing to do.
abbrev pub at_start : List Point → System
at_start points = record {
  slot = record { count = 0; window_start_ms = 0 };
  points = points;
  since_opening = 0;
}

abbrev pub AllReturned : List Point → Type 0
AllReturned [] = Unit
AllReturned (p ∷ ps) = ((v : Verdict) × (p ≡ returned v)) × AllReturned ps

AllReturned-AllSound :
    (budget window_ms : ℕ) (ps : List Point) → AllReturned ps → AllSound budget window_ms ps
AllReturned-AllSound budget window_ms [] h = tt
AllReturned-AllSound budget window_ms (p ∷ ps) ((v, e), h) =
    (subst (Sound budget window_ms) (sym e) tt, AllReturned-AllSound budget window_ms ps h)

-- From zeroed memory, whatever the number of workers, the times at which requests arrive and the
-- order of the workers' steps: since the window was last opened no more requests than the budget
-- were admitted by a swap, and the counter is the number of them.
pub swaps_within_budget :
    (budget window_ms : ℕ) (ps : List Point) (es : List Event)
    → 0 < budget
    → budget < 2 ^ 32
    → AllReturned ps
    → let final = run budget window_ms es (at_start ps) in
      (final.slot.count ≡ final.since_opening) × (final.since_opening ≤ budget)
unfolding Tallied
swaps_within_budget budget window_ms ps es some_left small idle_all =
    run-Tallied budget window_ms es (at_start ps) some_left small
      (AllReturned-AllSound budget window_ms ps idle_all) (refl, omega arith)
