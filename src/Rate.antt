-- ===== src/Rate.antt =====
-- The request budgets of src/policy.c: the counter of `bs_rate_counter_admit`, a pair of 32-bit
-- words that every worker changes by one compare-and-swap, and `bs_rate_flag_ttl`. A worker is a
-- program point; one of its steps is one access to the shared counter.
pub mod Window
pub mod Schedule
pub mod Directive
use botshield.Prelude.{
  ℕ, zero, suc, ◌+◌, ◌-◌, ◌/◌, ◌%◌, ◌^◌, Bool, true, false, ◌&&◌, Option, none, some, ltb, leb,
  ◌==◌, if◌then◌else◌,
}

-- `bs_rate_counter`
pub record RateCounter : Type 0 where
  pub count : ℕ
  pub window_start_ms : ℕ

-- `(apr_uint32_t)(a - b)` of two 32-bit numbers.
abbrev pub minus32 : ℕ → ℕ → ℕ
minus32 a b = (a + 2 ^ 32 - b) % 2 ^ 32

-- The counter that a try wants to store; `none` refuses the request.
unfoldable pub candidate : ℕ → ℕ → ℕ → RateCounter → Option RateCounter
candidate budget window_ms now snap =
    if leb window_ms (minus32 now (snap.window_start_ms))
    then some (record { count = 1; window_start_ms = now })
    else if leb budget (snap.count)
    then none
    else some (record { count = (snap.count + 1) % 2 ^ 32; window_start_ms = snap.window_start_ms })

abbrev pub same_counter : RateCounter → RateCounter → Bool
same_counter a b = a.count == b.count && a.window_start_ms == b.window_start_ms

-- How a call ended: refused, admitted by a swap, or admitted after the last lost swap.
pub data Verdict : Type 0 where
  refused swapped waved : Verdict

-- Where a worker is: about to load with `tries` left, about to swap, or back with a verdict.
pub data Point : Type 0 where
  loading : ℕ → ℕ → Point
  swapping : ℕ → ℕ → RateCounter → RateCounter → Point
  returned : Verdict → Point

-- The tries of the loop.
abbrev pub max_tries : ℕ
max_tries = 32

abbrev pub enter : ℕ → Point
enter now_ms = loading max_tries (now_ms % 2 ^ 32)

abbrev pub after_load : ℕ → ℕ → RateCounter → Option RateCounter → Point
after_load tries now snap none = returned refused
after_load tries now snap (some cand) = swapping tries now snap cand

-- One step of the loop's body: the worker's next point and the counter after it.
unfoldable pub step : ℕ → ℕ → Point → RateCounter → Point × RateCounter
step budget window_ms (loading zero now) slot = (returned waved, slot)
step budget window_ms (loading (suc tries) now) slot =
    (after_load tries now slot (candidate budget window_ms now slot), slot)
step budget window_ms (swapping tries now snap cand) slot =
    if same_counter slot snap then (returned swapped, cand) else (loading tries now, slot)
step budget window_ms (returned v) slot = (returned v, slot)

abbrev pub flag_ttl_min : ℕ
flag_ttl_min = 60

abbrev pub flag_ttl_max : ℕ
flag_ttl_max = 86400

-- `bs_rate_flag_ttl`; the sum is one of 32-bit numbers.
unfoldable pub rate_flag_ttl : ℕ → ℕ
rate_flag_ttl window_ms =
    let sec = (window_ms + 999) % 2 ^ 32 / 1000 in
    if ltb sec flag_ttl_min
    then flag_ttl_min
    else if ltb flag_ttl_max sec
    then flag_ttl_max
    else sec
