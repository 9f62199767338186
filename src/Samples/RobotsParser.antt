-- ===== src/Samples/RobotsParser.antt =====
-- The robots.txt parser at a concrete file, with a number reader that takes every text for half a
-- second.
use botshield.Prelude.{
  ◌≡◌, ◌≤◌, refl, subst, true, false, Option, none, some, List, [], ◌∷◌, ◌++◌, Bytes, codes,
  c_string, arith, length, Every, bytes_eq,
}
use botshield.Robots.Agents.{RobotsGroup, equal_nocase, unset}
use botshield.Robots.Names.{group_name_from_ua, name_chars, strip_dashes, rstrip}
use botshield.Robots.Parser.{
  Seconds, Parser, flush_group, skip_blanks, open_group, add_ua, add_rule, set_crawl_delay,
  handle_key, split_colon, handle_line, before_hash, skip_leading, take_line, split_lines,
  take_lines, skip_bom, parse, max_bytes, max_groups,
}
use botshield.Robots.Parser.Groups.{IsListed}
use botshield.Robots.Parser.Limits.{parse-IsListed}

abbrev half : Seconds
half = record { is_positive = true; is_over = false; milliseconds = 500; behind = [] }

abbrev half_second : Bytes → Option Seconds
half_second text = some half

within_hour :
    (text : Bytes) (v : Seconds)
    → half_second text ≡ some v
    → v.is_over ≡ false
    → v.milliseconds ≤ 3600000
within_hour text v e over =
    subst (λ (o : Option Seconds). elim o [ none ↦ Unit | some w ↦ w.milliseconds ≤ 3600000 ]) e
      (omega arith)

abbrev newline : Bytes
newline = 10 ∷ []

-- Rules without an agent are dropped; two agents in a row share a group; an agent behind a rule opens
-- another.
abbrev file : Bytes
file =
    codes "Disallow: /lost"
    ++ newline
    ++ codes "User-agent: GPTBot # one"
    ++ newline
    ++ codes "User-Agent:CCBot"
    ++ newline
    ++ codes "Disallow: /a"
    ++ newline
    ++ codes "Allow:"
    ++ newline
    ++ codes "user-agent: *"
    ++ newline
    ++ codes "Crawl-delay: 0.5"

abbrev groups : List RobotsGroup
groups =
    (record {
      user_agents = codes "gptbot" ∷ codes "ccbot" ∷ [];
      rules = (record { pattern = codes "/a"; allow = false }) ∷ [];
      crawl_delay_ms = 0;
      name = codes "gptbot";
      mode = unset;
      status = 0;
      log_tag = none;
    })
    ∷ (record {
      user_agents = codes "*" ∷ [];
      rules = [];
      crawl_delay_ms = 500;
      name = codes "wildcard";
      mode = unset;
      status = 0;
      log_tag = none;
    })
    ∷ []

abbrev document : Parser
document = record { groups = groups; truncated_lines = 0; cur = none; cur_expect_ua = false }

parsed_file : parse half_second file ≡ some document
unfolding parse split_lines skip_bom take_lines take_line before_hash skip_leading c_string
    handle_line split_colon handle_key set_crawl_delay add_rule add_ua open_group skip_blanks
    flush_group rstrip group_name_from_ua name_chars strip_dashes equal_nocase bytes_eq
parsed_file = refl

parse-IsListed_example :
    (length file ≤ max_bytes) × (length groups ≤ max_groups) × Every IsListed groups
parse-IsListed_example = parse-IsListed half_second within_hour file document parsed_file
