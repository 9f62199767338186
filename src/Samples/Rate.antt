-- ===== src/Samples/Rate.antt =====
-- Rate counters at concrete inputs.
use botshield.Prelude.{
  codes, replicate, none, ◌≡◌, refl, [], ◌∷◌, arith, true, false, List, ◌≤◌, ◌*◌, some, get_or,
}
use botshield.Rate.{
  RateCounter, candidate, step, returned, refused, swapped, enter, rate_flag_ttl, flag_ttl_min,
  flag_ttl_max,
}
use botshield.Rate.Window.{
  drive, HasReturned, admit-HasReturned, serve, admit, alone, window_budget, rate_flag_ttl_bounds,
}
use botshield.Codec.Number.{read_signed, signed_digits, whole_digits, digits_value}
use botshield.Robots.Agents.{equal_nocase}
use botshield.Rate.Directive.{
  parse_directive, budget_per, delay, parse_budget_window, parse_delay, long_to_end, window_of,
  directive_limits, zero_window_admits,
}
use botshield.Rate.Schedule.{Event, arrives, runs, run, happens, at_start, swaps_within_budget}

abbrev old_window : RateCounter
old_window = record { count = 7; window_start_ms = 100 }

-- The fourth request of the window is refused; a time past the 32-bit clock's end counts on.
three_of_five :
    (serve 3 1000
      (4294967200 ∷ 4294967290 ∷ 4294967300 ∷ 4294967301 ∷ 4294967302 ∷ [])
      old_window).0
    ≡ true ∷ true ∷ true ∷ false ∷ false ∷ []
unfolding serve admit alone step candidate
three_of_five = refl

-- Two workers load the same counter; the second one's swap is lost, and its next try finds the
-- window full.
abbrev race : List Event
race = arrives 0 5000 ∷ arrives 1 5000 ∷ runs 0 ∷ runs 1 ∷ runs 0 ∷ runs 1 ∷ runs 1 ∷ []

race_outcome :
    get_or
      (run 1 1000 race (at_start (returned refused ∷ returned refused ∷ []))).points
      1
      (enter 0)
    ≡ returned refused
unfolding run happens step candidate
race_outcome = refl

-- A worker whose clock reading is a millisecond older than the window opens the window again.
older_reading_opens :
    candidate 3 1000 4999 (record { count = 3; window_start_ms = 5000 })
    ≡ some (record { count = 1; window_start_ms = 4999 })
unfolding candidate
older_reading_opens = refl

admit-HasReturned_example :
    HasReturned
      (drive 1 1000 65 (λ i. record { count = i; window_start_ms = i * 5000 }) 0 (enter 8000))
admit-HasReturned_example =
    admit-HasReturned 1 1000 8000 (λ i. record { count = i; window_start_ms = i * 5000 })

window_budget_example :
    (serve 2 1000 (5000 ∷ 5400 ∷ 5999 ∷ []) old_window).0 ≡ true ∷ true ∷ false ∷ []
window_budget_example =
    window_budget 2 1000 5000 (5400 ∷ 5999 ∷ []) old_window (omega arith) (omega arith)
      (omega arith, (omega arith, tt)) (omega arith)

swaps_within_budget_example :
    let final = run 1 1000 race (at_start (returned refused ∷ returned swapped ∷ [])) in
    (final.slot.count ≡ final.since_opening) × (final.since_opening ≤ 1)
swaps_within_budget_example =
    swaps_within_budget 1 1000 (returned refused ∷ returned swapped ∷ []) race (omega arith)
      (omega arith) ((refused, refl), ((swapped, refl), tt))

rate_flag_ttl_bounds_example :
    (flag_ttl_min ≤ rate_flag_ttl 90500)
    × (rate_flag_ttl 90500 ≤ flag_ttl_max)
    × (90500 ≤ rate_flag_ttl 90500 * 1000)
rate_flag_ttl_bounds_example = rate_flag_ttl_bounds 90500 (omega arith)

-- An empty delay is accepted, as 0.
directives :
    (parse_directive (budget_per (codes "30") (codes "Min")) ≡ some (30, 60000))
    × (parse_directive (budget_per (codes "0") (codes "min")) ≡ none)
    × (parse_directive (delay (codes "90")) ≡ some (1, 90000))
    × (parse_directive (delay []) ≡ some (1, 0))
unfolding parse_directive parse_budget_window parse_delay long_to_end window_of read_signed
    signed_digits whole_digits digits_value equal_nocase
directives = (refl, refl, refl, refl)

directive_limits_example :
    (1 ≤ 30) × (30 ≤ 1000000) × (60000 ≤ 86400000) × (60000 ≤ rate_flag_ttl 60000 * 1000)
directive_limits_example =
    directive_limits (budget_per (codes "30") (codes "Min")) 30 60000 directives.0

zero_window_admits_example : (serve 1 0 (5000 ∷ 5000 ∷ 5000 ∷ []) old_window).0 ≡ replicate 3 true
zero_window_admits_example = zero_window_admits 1 (5000 ∷ 5000 ∷ 5000 ∷ []) old_window
