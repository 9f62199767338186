-- ===== src/Score/Floor.antt =====
-- How the demands of several rules combine.
use botshield.Prelude.{
  ℕ, ◌≡◌, refl, ◌∙◌, ap, Option, none, some, List, [], ◌∷◌, Bytes, arith, ltb, if◌then◌else◌, inl,
  inr, Option-cases,
}
use botshield.Shm.State.{pos, negsuc}
use botshield.Score.{
  Notes, tier_captcha, get_tier_floor, set_tier_floor, set_captcha, Demand, tier, provider, demand,
  demand_all,
}

abbrev larger : ℕ → ℕ → ℕ
larger a b = if ltb a b then b else a

-- The tier that one demand asks for, 0 if it names none or one out of range.
abbrev asked : Demand → ℕ
asked (tier (pos t)) = if ltb tier_captcha t then 0 else t
asked (tier (negsuc n)) = 0
asked (provider p) = 0

-- The largest of a number and the tiers that the demands ask for.
abbrev pub highest : ℕ → List Demand → ℕ
highest t [] = t
highest t (d ∷ ds) = highest (larger t (asked d)) ds

-- The first of a choice and the providers that the demands name.
abbrev named : Option Bytes → Demand → Option Bytes
named (some picked) d = some picked
named none (tier t) = none
named none (provider none) = none
named none (provider (some [])) = none
named none (provider (some (c ∷ name))) = some (c ∷ name)

abbrev pub first_named : Option Bytes → List Demand → Option Bytes
first_named picked [] = picked
first_named picked (d ∷ ds) = first_named (named picked d) ds

floor-tier :
    (t : ℕ) (notes : Notes)
    → get_tier_floor (set_tier_floor (pos t) notes)
      ≡ larger (get_tier_floor notes) (asked (tier (pos t)))
unfolding set_tier_floor get_tier_floor
floor-tier t notes = elim (Option-cases notes.tier_floor) [
  | inl e ↦ ground (arith, e)
  | inr (f, e) ↦ ground (arith, e)
]

larger_zero : (t : ℕ) → t ≡ larger t 0
larger_zero t = ground arith

floor-demand :
    (notes : Notes) (d : Demand)
    → get_tier_floor (demand notes d) ≡ larger (get_tier_floor notes) (asked d)
unfolding demand set_captcha get_tier_floor
floor-demand notes (tier (pos t)) = floor-tier t notes
floor-demand notes (tier (negsuc n)) = unfold set_tier_floor in larger_zero (get_tier_floor notes)
floor-demand notes (provider none) = unfold set_captcha in larger_zero (get_tier_floor notes)
floor-demand notes (provider (some [])) = unfold set_captcha in larger_zero (get_tier_floor notes)
floor-demand notes (provider (some (c ∷ name))) = elim (Option-cases notes.captcha) [
  | inl e ↦ rw (set_captcha, e) (larger_zero (get_tier_floor notes))
  | inr (p, e) ↦ rw (set_captcha, e) (larger_zero (get_tier_floor notes))
]

captcha-demand : (notes : Notes) (d : Demand) → (demand notes d).captcha ≡ named notes.captcha d
unfolding demand set_captcha set_tier_floor
captcha-demand notes (tier (pos t)) = elim (Option-cases notes.captcha) [
  | inl e ↦ ground (arith, e)
  | inr (p, e) ↦ ground (arith, e)
]
captcha-demand notes (tier (negsuc n)) = elim (Option-cases notes.captcha) [
  | inl e ↦ ground (arith, e)
  | inr (p, e) ↦ ground (arith, e)
]
captcha-demand notes (provider none) = elim (Option-cases notes.captcha) [
  | inl e ↦ ground (arith, e)
  | inr (p, e) ↦ ground (arith, e)
]
captcha-demand notes (provider (some [])) = elim (Option-cases notes.captcha) [
  | inl e ↦ ground (arith, e)
  | inr (p, e) ↦ ground (arith, e)
]
captcha-demand notes (provider (some (c ∷ name))) = elim (Option-cases notes.captcha) [
  | inl e ↦ ground (arith, e)
  | inr (p, e) ↦ ground (arith, e)
]

-- After any demands, in any order, the request's tier floor is the highest tier in range that any of
-- them or the floor before asked for, and its captcha is the first provider named.
pub demands_combine :
    (notes : Notes) (ds : List Demand)
    → (get_tier_floor (demand_all notes ds) ≡ highest (get_tier_floor notes) ds)
      × ((demand_all notes ds).captcha ≡ first_named notes.captcha ds)
unfolding demand_all
demands_combine notes [] = (refl, refl)
demands_combine notes (d ∷ ds) =
    let rest = demands_combine (demand notes d) ds in
    (
      rest.0 ∙ ap (λ (t : ℕ). highest t ds) (floor-demand notes d),
      rest.1 ∙ ap (λ (p : Option Bytes). first_named p ds) (captcha-demand notes d),
    )
