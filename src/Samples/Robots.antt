-- ===== src/Samples/Robots.antt =====
-- A robots.txt at concrete inputs.
use botshield.Prelude.{
  ◌≡◌, refl, ◌↔◌, true, false, none, some, [], ◌∷◌, Bytes, codes, arith, bytes_eq,
}
use botshield.Robots.Path.{
  path_match, split_anchor, segments, match_segments, match_segment, strip_literal, skip_to,
}
use botshield.Robots.Path.Glob.{Matches, Eats, path_match-Matches}
use botshield.Robots.Path.Greedy.{Short, path_match-exact}
use botshield.Robots.Agents.{
  enforce, unset, RobotsGroup, best_token_len, best_token, token_matches, ua_segment_match,
  any_segment_starts, starts_nocase, skip_lead, after_semicolons, group_qualifies, any_qualifies,
  token_qualifies,
}
use botshield.Robots.Query.{robots_query, walk_groups, weigh_group, walk_rules, weigh_rule}
use botshield.Robots.Names.{group_name_from_ua, name_chars, strip_dashes, rstrip}
use botshield.Robots.Query.Best.{Refused}
use botshield.Robots.Query.Groups.{Enforced}
use botshield.Robots.Query.Longest.{robots_query-refuses}

abbrev gptbot_ua : Bytes
gptbot_ua = codes "Mozilla/5.0 (compatible; GPTBot/1.0; +https://x)"

-- User-agent: gptbot, Disallow: /private, Allow: /private/ok*
abbrev gptbot_group : RobotsGroup
gptbot_group = record {
  user_agents = codes "gptbot" ∷ [];
  rules =
      record { pattern = codes "/private"; allow = false }
      ∷ record { pattern = codes "/private/ok*"; allow = true }
      ∷ [];
  crawl_delay_ms = 500;
  name = codes "gptbot";
  mode = unset;
  status = 0;
  log_tag = none;
}

-- User-agent: *, Disallow: /
abbrev star_group : RobotsGroup
star_group = record {
  user_agents = codes "*" ∷ [];
  rules = record { pattern = codes "/"; allow = false } ∷ [];
  crawl_delay_ms = 0;
  name = codes "wildcard";
  mode = unset;
  status = 0;
  log_tag = none;
}

private_refused :
    (robots_query
      (star_group ∷ gptbot_group ∷ [])
      (some gptbot_ua)
      none
      (some (codes "/private/x"))
      enforce).allowed
    ≡ false
unfolding robots_query walk_groups weigh_group walk_rules weigh_rule best_token_len best_token
    token_matches ua_segment_match any_segment_starts starts_nocase skip_lead after_semicolons
    group_qualifies any_qualifies token_qualifies bytes_eq path_match split_anchor segments
    match_segments match_segment strip_literal skip_to
private_refused = refl

longer_allow_wins :
    (robots_query
      (star_group ∷ gptbot_group ∷ [])
      (some gptbot_ua)
      none
      (some (codes "/private/ok.html"))
      enforce).allowed
    ≡ true
unfolding robots_query walk_groups weigh_group walk_rules weigh_rule best_token_len best_token
    token_matches ua_segment_match any_segment_starts starts_nocase skip_lead after_semicolons
    group_qualifies any_qualifies token_qualifies bytes_eq path_match split_anchor segments
    match_segments match_segment strip_literal skip_to
longer_allow_wins = refl

robots_query-refuses_example :
    ((robots_query
        (star_group ∷ gptbot_group ∷ [])
        (some gptbot_ua)
        none
        (some (codes "/private/x"))
        enforce).allowed
      ≡ false)
    ↔ Refused (
        Enforced gptbot_ua none
          (codes "/private/x")
          enforce
          (best_token_len gptbot_ua none (star_group ∷ gptbot_group ∷ []) (0, false)).0
          (star_group ∷ gptbot_group ∷ []))
robots_query-refuses_example =
    robots_query-refuses (star_group ∷ gptbot_group ∷ []) gptbot_ua none (codes "/private/x")
      enforce

glob_accepts : path_match (codes "/*.php$") (codes "/a/b.php") ≡ true
unfolding path_match split_anchor segments match_segments match_segment strip_literal skip_to
glob_accepts = refl

-- The first `.php` is taken, and the anchored test fails on the rest.
anchored_too_early : path_match (codes "/*.php$") (codes "/a.php.php") ≡ false
unfolding path_match split_anchor segments match_segments match_segment strip_literal skip_to
anchored_too_early = refl

star_before_anchor : path_match (codes "/foo*$") (codes "/foobar") ≡ false
unfolding path_match split_anchor segments match_segments match_segment strip_literal skip_to
star_before_anchor = refl

-- The pattern describes the path that the matcher refuses.
described_all_the_same : Matches (codes "/foo*$") (codes "/foobar")
unfolding Matches Eats split_anchor
described_all_the_same = (
  codes "foobar",
  refl,
  (codes "oobar", refl, (codes "obar", refl, (codes "bar", refl, (codes "bar", [], refl, refl)))),
)

path_match-Matches_example : Matches (codes "/*.php$") (codes "/a/b.php")
path_match-Matches_example = path_match-Matches (codes "/*.php$") (codes "/a/b.php") glob_accepts

unanchored : (split_anchor (codes "/*.php")).1 ≡ false
unfolding split_anchor
unanchored = refl

segments_fit : Short (segments (split_anchor (codes "/*.php")).0)
unfolding split_anchor segments Short
segments_fit = (omega arith, (omega arith, tt))

path_match-exact_example :
    (path_match (codes "/*.php") (codes "/a.php.php") ≡ true)
    ↔ Matches (codes "/*.php") (codes "/a.php.php")
path_match-exact_example =
    path_match-exact 47 (codes "*.php") (codes "/a.php.php") unanchored segments_fit

slug : group_name_from_ua (codes "--Some Bot/2.0 (+x)!") ≡ codes "--some-bot-2-0-x"
unfolding group_name_from_ua name_chars strip_dashes bytes_eq
slug = refl

stripped : rstrip (codes "a b \t") ≡ codes "a b"
unfolding rstrip
stripped = refl
