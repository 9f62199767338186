-- ===== src/Rate/Window.antt =====
-- A request that no other worker disturbs, the requests of one window, and the flag's lifetime.
use botshield.Prelude.{
  ℕ, zero, suc, ◌+◌, ◌-◌, ◌*◌, ◌%◌, ◌^◌, ◌≤◌, ◌<◌, ◌≡◌, refl, sym, ap, inl, inr, Bool, true, false,
  Option, none, some, List, [], ◌∷◌, arith, leb, ==_refl, if◌then◌else◌, length, Bool-cases,
  Option-cases,
}
use botshield.Rate.{
  RateCounter, candidate, minus32, same_counter, Verdict, refused, swapped, waved, Point, loading,
  returned, enter, max_tries, step, rate_flag_ttl, flag_ttl_min, flag_ttl_max,
}

-- The worker's own steps, `n` of them, with the counter that others may have changed before each.
unfoldable pub drive : ℕ → ℕ → ℕ → (ℕ → RateCounter) → ℕ → Point → Point
drive budget window_ms zero others i p = p
drive budget window_ms (suc n) others i p =
    drive budget window_ms n others (i + 1) ((step budget window_ms p (others i)).0)

pub HasReturned : Point → Type 0
HasReturned p = (v : Verdict) × (p ≡ returned v)

drive-returned :
    (budget window_ms n : ℕ) (others : ℕ → RateCounter) (i : ℕ) (v : Verdict)
    → drive budget window_ms n others i (returned v) ≡ returned v
unfolding drive step
drive-returned budget window_ms zero others i v = refl
drive-returned budget window_ms (suc n) others i v =
    drive-returned budget window_ms n others (i + 1) v

drive-HasReturned :
    (budget window_ms n tries now : ℕ) (others : ℕ → RateCounter) (i : ℕ)
    → tries * 2 < n
    → HasReturned (drive budget window_ms n others i (loading tries now))
unfolding drive step HasReturned
drive-HasReturned budget window_ms zero tries now others i h = absurd (omega (arith, h))
drive-HasReturned budget window_ms (suc n) zero now others i h =
    (waved, drive-returned budget window_ms n others (i + 1) waved)
drive-HasReturned budget window_ms (suc zero) (suc tries) now others i h = absurd (omega (arith, h))
drive-HasReturned budget window_ms (suc (suc n)) (suc tries) now others i h =
    elim (Option-cases (candidate budget window_ms now (others i))) [
      | inl e ↦ rw e (refused, drive-returned budget window_ms n others (i + 1 + 1) refused)
      | inr (cand, e) ↦ rw e (elim (Bool-cases (same_counter (others (i + 1)) (others i))) [
        | inl s ↦ rw s (swapped, drive-returned budget window_ms n others (i + 1 + 1) swapped)
        | inr s ↦
            rw s
              (drive-HasReturned budget window_ms n tries now others (i + 1 + 1) (omega (arith, h)))
      ])
    ]

-- A worker is back after at most 65 steps of its own, whatever the others do to the counter between
-- any two of them.
pub admit-HasReturned :
    (budget window_ms now_ms : ℕ) (others : ℕ → RateCounter)
    → HasReturned (drive budget window_ms 65 others 0 (enter now_ms))
admit-HasReturned budget window_ms now_ms others =
    drive-HasReturned budget window_ms 65 max_tries (now_ms % 2 ^ 32) others 0 (omega arith)

-- The steps of a worker that is alone.
unfoldable pub alone : ℕ → ℕ → ℕ → Point × RateCounter → Point × RateCounter
alone budget window_ms zero s = s
alone budget window_ms (suc n) (p, slot) = alone budget window_ms n (step budget window_ms p slot)

abbrev pub was_admitted : Point → Bool
was_admitted (returned refused) = false
was_admitted (returned swapped) = true
was_admitted (returned waved) = true
was_admitted _ = false

-- `bs_rate_counter_admit` of a worker that is alone: whether the request is let through.
unfoldable pub admit : ℕ → ℕ → ℕ → RateCounter → Bool × RateCounter
admit budget window_ms now_ms slot =
    let (p, after) = alone budget window_ms 65 (enter now_ms, slot) in (was_admitted p, after)

-- A sequence of requests at the given times, one after the other.
unfoldable pub serve : ℕ → ℕ → List ℕ → RateCounter → List Bool × RateCounter
serve budget window_ms [] slot = ([], slot)
serve budget window_ms (now ∷ nows) slot =
    let (ok, next) = admit budget window_ms now slot in
    let (oks, last) = serve budget window_ms nows next in (ok ∷ oks, last)

same_counter_refl : (a : RateCounter) → same_counter a a ≡ true
same_counter_refl a = rw (==_refl (a.count), ==_refl (a.window_start_ms)) refl

alone-returned :
    (budget window_ms n : ℕ) (v : Verdict) (slot : RateCounter)
    → alone budget window_ms n (returned v, slot) ≡ (returned v, slot)
unfolding alone step
alone-returned budget window_ms zero v slot = refl
alone-returned budget window_ms (suc n) v slot = alone-returned budget window_ms n v slot

abbrev pub outcome : RateCounter → Option RateCounter → Bool × RateCounter
outcome slot none = (false, slot)
outcome slot (some cand) = (true, cand)

abbrev settled : RateCounter → Option RateCounter → Point × RateCounter
settled slot none = (returned refused, slot)
settled slot (some cand) = (returned swapped, cand)

alone-loading :
    (budget window_ms n tries now : ℕ) (slot : RateCounter)
    → alone budget window_ms (suc (suc n)) (loading (suc tries) now, slot)
      ≡ settled slot (candidate budget window_ms now slot)
unfolding alone step
alone-loading budget window_ms n tries now slot =
    elim (Option-cases (candidate budget window_ms now slot)) [
      | inl e ↦ rw e (alone-returned budget window_ms n refused slot)
      | inr (cand, e) ↦
          rw (e, same_counter_refl slot) (alone-returned budget window_ms n swapped cand)
    ]

pub admit-candidate :
    (budget window_ms now_ms : ℕ) (slot : RateCounter)
    → admit budget window_ms now_ms slot
      ≡ outcome slot (candidate budget window_ms (now_ms % 2 ^ 32) slot)
unfolding admit
admit-candidate budget window_ms now_ms slot =
    rw (alone-loading budget window_ms 63 31 (now_ms % 2 ^ 32) slot)
      (elim (Option-cases (candidate budget window_ms (now_ms % 2 ^ 32) slot)) [
        | inl e ↦ rw e refl
        | inr (cand, e) ↦ rw e refl
      ])

-- A time that falls into the window that opened at `start`.
abbrev pub InWindow : ℕ → ℕ → ℕ → Type 0
InWindow window_ms start now_ms = minus32 (now_ms % 2 ^ 32) start < window_ms

abbrev pub AllInWindow : ℕ → ℕ → List ℕ → Type 0
AllInWindow window_ms start [] = Unit
AllInWindow window_ms start (now ∷ nows) =
    InWindow window_ms start now × AllInWindow window_ms start nows

-- `n` answers, of which the first `k` are yes.
abbrev pub first_of : ℕ → ℕ → List Bool
first_of k zero = []
first_of zero (suc n) = false ∷ first_of zero n
first_of (suc k) (suc n) = true ∷ first_of k n

abbrev counter : ℕ → ℕ → RateCounter
counter c start = record { count = c; window_start_ms = start }

candidate-InWindow :
    (budget window_ms c start now_ms : ℕ)
    → InWindow window_ms start now_ms
    → c + 1 < 2 ^ 32
    → candidate budget window_ms (now_ms % 2 ^ 32) (counter c start)
      ≡ (if leb budget c then none else some (counter (c + 1) start))
unfolding candidate
candidate-InWindow budget window_ms c start now_ms inside small =
    let held : leb window_ms (minus32 (now_ms % 2 ^ 32) start) ≡ false = ground (arith, inside) in
    let whole : (c + 1) % 2 ^ 32 ≡ c + 1 = omega (arith, small) in rw (held, whole) refl

serve-InWindow :
    (budget window_ms start : ℕ) (nows : List ℕ) (c : ℕ)
    → c + length nows < 2 ^ 32
    → AllInWindow window_ms start nows
    → (serve budget window_ms nows (counter c start)).0 ≡ first_of (budget - c) (length nows)
unfolding serve
serve-InWindow budget window_ms start [] c small inside = refl
serve-InWindow budget window_ms start (now ∷ nows) c small inside =
    rw
      (
        admit-candidate budget window_ms now (counter c start),
        candidate-InWindow budget window_ms c start now inside.0 (omega (arith, small)),
      )
      (elim (Bool-cases (leb budget c)) [
        | inl full ↦
            let none_left : budget - c ≡ 0 = ground (arith, full) in
            let rest =
              serve-InWindow budget window_ms start nows c (omega (arith, small)) inside.1 in
            rw (full, rest, none_left) refl
        | inr free ↦
            let left : budget - c ≡ suc (budget - (c + 1)) = ground (arith, free) in
            let rest =
              serve-InWindow budget window_ms start nows (c + 1) (omega (arith, small)) inside.1 in
            rw (free, rest, left) refl
      ])

-- Of a request that opens a window and the requests after it within that window, one after the other,
-- the first `budget` are let through and every later one is refused.
pub window_budget :
    (budget window_ms now_ms : ℕ) (nows : List ℕ) (slot : RateCounter)
    → 0 < budget
    → window_ms ≤ minus32 (now_ms % 2 ^ 32) slot.window_start_ms
    → AllInWindow window_ms (now_ms % 2 ^ 32) nows
    → suc (length nows) < 2 ^ 32
    → (serve budget window_ms (now_ms ∷ nows) slot).0 ≡ first_of budget (suc (length nows))
unfolding serve candidate
window_budget budget window_ms now_ms nows slot some_left rolls inside small =
    let over : leb window_ms (minus32 (now_ms % 2 ^ 32) slot.window_start_ms) ≡ true =
      ground (arith, rolls) in
    let left : budget ≡ suc (budget - 1) = omega (arith, some_left) in
    let rest =
      serve-InWindow budget window_ms (now_ms % 2 ^ 32) nows 1 (omega (arith, small)) inside in
    rw (admit-candidate budget window_ms now_ms slot, over, rest)
      (ap (λ k. first_of k (suc (length nows))) (sym left))

-- A flag's lifetime lies between a minute and a day; the flag outlasts the window in which the client
-- overspent, if that is no longer than a day.
pub rate_flag_ttl_bounds :
    (window_ms : ℕ)
    → window_ms ≤ 86400000
    → (flag_ttl_min ≤ rate_flag_ttl window_ms)
      × (rate_flag_ttl window_ms ≤ flag_ttl_max)
      × (window_ms ≤ rate_flag_ttl window_ms * 1000)
unfolding rate_flag_ttl
rate_flag_ttl_bounds window_ms h = (ground (arith, h), ground (arith, h), ground (arith, h))
