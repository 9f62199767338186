-- ===== src/Samples/Score.antt =====
-- The demands of rules at concrete inputs.
use botshield.Prelude.{◌≡◌, refl, none, some, [], ◌∷◌, codes}
use botshield.Shm.State.{pos}
use botshield.Score.{Notes, get_tier_floor, tier, provider, demand_all}
use botshield.Robots.Agents.{equal_nocase}
use botshield.Score.Names.{parse_flag_names, parse_pieces, pieces, flag_bit, trim_left, trim_right}
use botshield.Score.Floor.{demands_combine}

abbrev no_notes : Notes
no_notes = record { tier_floor = none; captcha = none }

demands_combine_example :
    (get_tier_floor (
        demand_all no_notes (
          tier (pos 2)
          ∷ tier (pos 9)
          ∷ provider (some (codes "a"))
          ∷ tier (pos 1)
          ∷ provider (some (codes "b"))
          ∷ []))
      ≡ 2)
    × ((demand_all no_notes (
          tier (pos 2)
          ∷ tier (pos 9)
          ∷ provider (some (codes "a"))
          ∷ tier (pos 1)
          ∷ provider (some (codes "b"))
          ∷ [])).captcha
        ≡ some (codes "a"))
unfolding get_tier_floor
demands_combine_example = demands_combine no_notes (
    tier (pos 2)
    ∷ tier (pos 9)
    ∷ provider (some (codes "a"))
    ∷ tier (pos 1)
    ∷ provider (some (codes "b"))
    ∷ [])

two_flags : parse_flag_names (codes "Fake_Bot ,\tblocked,") ≡ some 132
unfolding parse_flag_names parse_pieces pieces flag_bit trim_left trim_right equal_nocase
two_flags = refl

unknown_flag : parse_flag_names (codes "blocked,nonsense") ≡ none
unfolding parse_flag_names parse_pieces pieces flag_bit trim_left trim_right equal_nocase
unknown_flag = refl

empty_piece : parse_flag_names (codes ",blocked") ≡ none
unfolding parse_flag_names parse_pieces pieces flag_bit trim_left trim_right equal_nocase
empty_piece = refl
