-- ===== src/Samples/Triggers.antt =====
-- Triggers at concrete inputs.
use botshield.Prelude.{
  ℕ, ◌+◌, ◌≤◌, ◌≡◌, ◌⊎◌, refl, true, false, none, some, [], ◌∷◌, codes, if◌then◌else◌, bytes_eq,
}
use botshield.Robots.Agents.{equal_nocase}
use botshield.Score.Names.{trim_left, trim_right, pieces, parse_flag_names, parse_pieces, flag_bit}
use botshield.Triggers.{
  CookieMap, CookiePred, named_absent, named_eq, named_ne, named_contains, bulk_none, bulk_any,
  bulk_session, bs_verified, bs_missing, bs_invalid, cookie_pred_match, any_session,
  is_session_cookie_name, contains, FlagOps, failed, parsed, mixed, empty_name, read_op, take_ops,
  tokens, parse_flag_ops,
}
use botshield.Triggers.Cookies.{count, cookie_preds_divide}
use botshield.Triggers.Ops.{parse_flag_ops_unmixed}

abbrev cookies : CookieMap
cookies = record {
  get = λ name. if bytes_eq name (codes "lang") then some (codes "en-GB") else none;
  keys = codes "lang" ∷ [];
}

holding :
    (cookie_pred_match (named_contains (codes "lang") (codes "-G")) cookies [] none ≡ true)
    × (cookie_pred_match (named_ne (codes "theme") (codes "dark")) cookies [] none ≡ false)
    × (cookie_pred_match bulk_session cookies (codes "LANG" ∷ []) none ≡ true)
    × (cookie_pred_match bs_missing cookies [] none ≡ true)
unfolding cookie_pred_match contains any_session is_session_cookie_name equal_nocase bytes_eq
holding = (refl, refl, refl, refl)

cookie_preds_divide_example :
    let holds : CookiePred → ℕ =
      λ pred. count (cookie_pred_match pred cookies [] (some (codes "missing"))) in
    (holds (named_absent (codes "lang"))
        + holds (named_eq (codes "lang") (codes "fr"))
        + holds (named_ne (codes "lang") (codes "fr"))
      ≡ 1)
    × (holds (named_eq (codes "lang") (codes "fr"))
        ≤ holds (named_contains (codes "lang") (codes "fr")))
    × (holds bulk_none + holds bulk_any ≡ 1)
    × (holds bs_verified + holds bs_missing + holds bs_invalid ≤ 1)
cookie_preds_divide_example =
    cookie_preds_divide cookies [] (some (codes "missing")) (codes "lang") (codes "fr")

abbrev blocked_only : FlagOps
blocked_only = record { add = 130; del = 0; replace = true }

replaces : parse_flag_ops (codes "=blocked, = Scanner_Probe") ≡ parsed blocked_only
unfolding parse_flag_ops take_ops tokens read_op pieces parse_flag_names parse_pieces flag_bit
    trim_left trim_right equal_nocase
replaces = refl

refused_ops :
    (parse_flag_ops (codes "=blocked,-fake_bot") ≡ failed mixed)
    × (parse_flag_ops (codes "+ ,blocked") ≡ failed empty_name)
unfolding parse_flag_ops take_ops tokens read_op pieces parse_flag_names parse_pieces flag_bit
    trim_left trim_right equal_nocase
refused_ops = (refl, refl)

parse_flag_ops_unmixed_example : (blocked_only.replace ≡ false) ⊎ (blocked_only.del ≡ 0)
parse_flag_ops_unmixed_example =
    parse_flag_ops_unmixed (codes "=blocked, = Scanner_Probe") blocked_only replaces
