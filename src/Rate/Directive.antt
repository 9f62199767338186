-- ===== src/Rate/Directive.antt =====
-- The rate directives of src/bot_rate.c: `parse_budget_window` and `parse_delay`, and what their
-- values mean to the counter and to the flag of a client that overspends.
use botshield.Prelude.{
  ℕ, ◌*◌, ◌%◌, ◌^◌, ◌≤◌, ◌≡◌, refl, Bool, true, false, ◌||◌, Option, none, some, List, [], ◌∷◌,
  Bytes, codes, arith, ltb, leb, ◌==◌, if◌then◌else◌, length, replicate, subst,
}
use botshield.Codec.Number.{read_signed}
use botshield.Robots.Agents.{equal_nocase}
use botshield.Rate.{RateCounter, candidate, minus32, rate_flag_ttl}
use botshield.Rate.Window.{serve, admit-candidate, rate_flag_ttl_bounds}

-- `strtol` where only the end of the text is tested: an empty text is 0, a text without digits is
-- refused, and so is a number below zero, by the bound of either caller. A number that does not fit
-- a `long` is above both bounds.
abbrev pub long_or_none : Bool × Option ℕ → Option ℕ
long_or_none (negative, none) = none
long_or_none (true, some v) = if v == 0 then some 0 else none
long_or_none (false, some v) = some v

unfoldable pub long_to_end : Bytes → Option ℕ
long_to_end [] = some 0
long_to_end (c ∷ text) = long_or_none (read_signed (c ∷ text))

-- The window of a unit, in milliseconds.
unfoldable pub window_of : Bytes → Option ℕ
window_of per =
    if equal_nocase per (codes "sec") || equal_nocase per (codes "s")
    then some 1000
    else if equal_nocase per (codes "min") || equal_nocase per (codes "m")
    then some 60000
    else if equal_nocase per (codes "hour") || equal_nocase per (codes "h")
    then some 3600000
    else none

abbrev pub in_bounds : ℕ → ℕ → Option ℕ → Option ℕ
in_bounds lo hi none = none
in_bounds lo hi (some v) = if ltb v lo || ltb hi v then none else some v

abbrev pub both : Option ℕ → Option ℕ → Option (ℕ × ℕ)
both none window = none
both (some budget) none = none
both (some budget) (some window) = some (budget, window)

-- `parse_budget_window`: the budget and the window
unfoldable pub parse_budget_window : Bytes → Bytes → Option (ℕ × ℕ)
parse_budget_window budget per = both (in_bounds 1 1000000 (long_to_end budget)) (window_of per)

abbrev pub delay_window : Option ℕ → Option (ℕ × ℕ)
delay_window none = none
delay_window (some seconds) = some (1, seconds * 1000 % 2 ^ 32)

-- `parse_delay`
unfoldable pub parse_delay : Bytes → Option (ℕ × ℕ)
parse_delay delay = delay_window (in_bounds 0 86400 (long_to_end delay))

-- The two forms of the directive.
pub data Directive : Type 0 where
  budget_per : Bytes → Bytes → Directive
  delay : Bytes → Directive

unfoldable pub parse_directive : Directive → Option (ℕ × ℕ)
parse_directive (budget_per budget per) = parse_budget_window budget per
parse_directive (delay seconds) = parse_delay seconds

in_bounds-some : (lo hi v : ℕ) (o : Option ℕ) → in_bounds lo hi o ≡ some v → (lo ≤ v) × (v ≤ hi)
in_bounds-some lo hi v none h = absurd (ground (arith, h))
in_bounds-some lo hi v (some w) h = (ground (arith, h), ground (arith, h))

window_le : (per : Bytes) (window : ℕ) → window_of per ≡ some window → window ≤ 3600000
unfolding window_of
window_le per window h = ground (arith, h)

Fits : ℕ × ℕ → Type 0
Fits (budget, window) = (1 ≤ budget) × (budget ≤ 1000000) × (window ≤ 86400000)

both-Fits :
    (budget window : Option ℕ) (limit : ℕ × ℕ)
    → ((b : ℕ) → budget ≡ some b → (1 ≤ b) × (b ≤ 1000000))
    → ((w : ℕ) → window ≡ some w → w ≤ 3600000)
    → both budget window ≡ some limit
    → Fits limit
unfolding Fits
both-Fits none window limit hb hw h = absurd (ground (arith, h))
both-Fits (some budget) none limit hb hw h = absurd (ground (arith, h))
both-Fits (some budget) (some window) limit hb hw h =
    subst (λ (o : Option (ℕ × ℕ)). elim o [ none ↦ Unit | some l ↦ Fits l ]) h
      ((hb budget refl).0, (hb budget refl).1, omega (arith, hw window refl))

delay-Fits :
    (o : Option ℕ) (limit : ℕ × ℕ)
    → ((v : ℕ) → o ≡ some v → v ≤ 86400)
    → delay_window o ≡ some limit
    → Fits limit
unfolding Fits
delay-Fits none limit hv h = absurd (ground (arith, h))
delay-Fits (some v) limit hv h =
    subst (λ (o : Option (ℕ × ℕ)). elim o [ none ↦ Unit | some l ↦ Fits l ]) h
      (omega arith, omega arith, omega (arith, hv v refl))

directive-Fits : (d : Directive) (limit : ℕ × ℕ) → parse_directive d ≡ some limit → Fits limit
unfolding parse_directive parse_budget_window parse_delay
directive-Fits (budget_per budget per) limit h =
    both-Fits (in_bounds 1 1000000 (long_to_end budget)) (window_of per) limit
      (λ b e. in_bounds-some 1 1000000 b (long_to_end budget) e) (window_le per) h
directive-Fits (delay seconds) limit h =
    delay-Fits (in_bounds 0 86400 (long_to_end seconds)) limit
      (λ v e. (in_bounds-some 0 86400 v (long_to_end seconds) e).1) h

-- What a directive accepts fits the counter: a budget from 1 to a million, and a window of a day at
-- most, which the flag of a client that overspends it outlasts.
pub directive_limits :
    (d : Directive) (budget window : ℕ)
    → parse_directive d ≡ some (budget, window)
    → (1 ≤ budget)
      × (budget ≤ 1000000)
      × (window ≤ 86400000)
      × (window ≤ rate_flag_ttl window * 1000)
unfolding Fits
directive_limits d budget window h =
    let (lo, hi, day) = directive-Fits d (budget, window) h in
    (lo, hi, day, (rate_flag_ttl_bounds window day).2)

-- A window of no length, as a delay of 0 makes it, lets every request through, whatever the budget
-- and the counter.
pub zero_window_admits :
    (budget : ℕ) (nows : List ℕ) (slot : RateCounter)
    → (serve budget 0 nows slot).0 ≡ replicate (length nows) true
unfolding serve candidate
zero_window_admits budget [] slot = refl
zero_window_admits budget (now ∷ nows) slot =
    let always : leb 0 (minus32 (now % 2 ^ 32) slot.window_start_ms) ≡ true = ground arith in
    let rest =
      zero_window_admits budget nows (record { count = 1; window_start_ms = now % 2 ^ 32 }) in
    rw (admit-candidate budget 0 now slot, always, rest) refl
