-- ===== src/Score.antt =====
-- What the rules demand of one request: the tier floor and the captcha's provider of src/score.c.
pub mod Names
pub mod Floor
use botshield.Prelude.{
  ℕ, Bool, true, false, Option, none, some, List, [], ◌∷◌, Bytes, ltb, leb, if◌then◌else◌,
}
use botshield.Shm.State.{ℤ, pos, negsuc}

-- The two notes of a request. The tier's text, a decimal number, stands as that number.
pub record Notes : Type 0 where
  pub tier_floor : Option ℕ
  pub captcha : Option Bytes

-- BS_TIER_CAPTCHA, the last tier; BS_TIER_PASS is 0.
abbrev pub tier_captcha : ℕ
tier_captcha = 3

-- `bs_get_request_tier_floor`
unfoldable pub get_tier_floor : Notes → ℕ
get_tier_floor notes = elim notes.tier_floor [
  | none ↦ 0
  | some t ↦ if ltb tier_captcha t then 0 else t
]

-- `bs_set_request_tier_floor`
unfoldable pub set_tier_floor : ℤ → Notes → Notes
set_tier_floor (negsuc n) notes = notes
set_tier_floor (pos tier) notes =
    if ltb tier_captcha tier
    then notes
    else if leb tier (get_tier_floor notes)
    then notes
    else record notes { tier_floor = some tier }

-- `bs_set_request_captcha`; a null provider is `none`.
unfoldable pub set_captcha : Option Bytes → Notes → Notes
set_captcha none notes = notes
set_captcha (some []) notes = notes
set_captcha (some (c ∷ provider)) notes = elim notes.captcha [
  | some picked ↦ notes
  | none ↦ record notes { captcha = some (c ∷ provider) }
]

-- The demand of one rule that matches the request.
pub data Demand : Type 0 where
  tier : ℤ → Demand
  provider : Option Bytes → Demand

unfoldable pub demand : Notes → Demand → Notes
demand notes (tier t) = set_tier_floor t notes
demand notes (provider p) = set_captcha p notes

unfoldable pub demand_all : Notes → List Demand → Notes
demand_all notes [] = notes
demand_all notes (d ∷ ds) = demand_all (demand notes d) ds
