-- ===== src/Robots/Parser.antt =====
-- The parser of src/robots.c: `bs_rb_parse` with its lines, groups and rules. `strtod` and the
-- arithmetic on its result are a parameter.
pub mod Groups
pub mod Limits
use botshield.Prelude.{
  ℕ, zero, suc, ◌+◌, ◌-◌, Bool, true, false, not, ◌&&◌, ◌||◌, Option, none, some, List, [], ◌∷◌,
  ◌++◌, Bytes, codes, c_string, ltb, leb, ◌==◌, if◌then◌else◌, length, take, drop, map,
}
use botshield.Robots.Agents.{to_lower, equal_nocase, RobotsRule, RobotsGroup, unset}
use botshield.Robots.Names.{group_name_from_ua, rstrip}

abbrev pub max_bytes : ℕ
max_bytes = 1048576

abbrev pub max_line : ℕ
max_line = 2048

abbrev pub max_groups : ℕ
max_groups = 64

abbrev pub max_rules_per_group : ℕ
max_rules_per_group = 256

abbrev pub max_uas_per_group : ℕ
max_uas_per_group = 32

-- What the C library makes of a number's text: whether it is above zero, whether it exceeds
-- BOTSHIELD_ROBOTS_MAX_CRAWL_DELAY_SEC, its milliseconds, rounded to an int, and the text behind it.
pub record Seconds : Type 0 where
  pub is_positive : Bool
  pub is_over : Bool
  pub milliseconds : ℕ
  pub behind : Bytes

-- `bs_rb_parser`, with the document's groups and its count of truncated lines
pub record Parser : Type 0 where
  pub groups : List RobotsGroup
  pub truncated_lines : ℕ
  pub cur : Option RobotsGroup
  pub cur_expect_ua : Bool

-- `bs_rb_new_group`
abbrev pub new_group : RobotsGroup
new_group = record {
  user_agents = [];
  rules = [];
  crawl_delay_ms = 0;
  name = codes "unnamed";
  mode = unset;
  status = 0;
  log_tag = none;
}

abbrev pub push_group : List RobotsGroup → RobotsGroup → List Bytes → List RobotsGroup
push_group groups g [] = groups
push_group groups g (first_ua ∷ _) =
    if leb max_groups (length groups)
    then groups
    else groups ++ (record g { name = group_name_from_ua first_ua } ∷ [])

abbrev pub flushed : List RobotsGroup → Option RobotsGroup → List RobotsGroup
flushed groups none = groups
flushed groups (some g) = push_group groups g g.user_agents

-- `bs_rb_flush_group`
unfoldable pub flush_group : Parser → Parser
flush_group st = record st { groups = flushed st.groups st.cur; cur = none }

abbrev pub is_blank : ℕ → Bool
is_blank c = c == 32 || c == 9

unfoldable pub skip_blanks : Bytes → Bytes
skip_blanks [] = []
skip_blanks (c ∷ text) = let rest = skip_blanks text in if is_blank c then rest else c ∷ text

abbrev pub open_at : Parser → Option RobotsGroup → Parser
open_at st none = record st { cur = some new_group; cur_expect_ua = true }
open_at st (some g) =
    if st.cur_expect_ua
    then st
    else record (flush_group st) { cur = some new_group; cur_expect_ua = true }

-- A group to extend: the current one while it takes agents, else a new one, the old one flushed.
unfoldable pub open_group : Parser → Parser
open_group st = open_at st st.cur

abbrev pub with_ua : Bytes → RobotsGroup → RobotsGroup
with_ua ua g =
    if leb max_uas_per_group (length g.user_agents)
    then g
    else record g { user_agents = g.user_agents ++ (map to_lower ua ∷ []) }

abbrev pub change : (RobotsGroup → RobotsGroup) → Option RobotsGroup → Option RobotsGroup
change f none = none
change f (some g) = some (f g)

abbrev pub add_ua_text : Parser → Bytes → Parser
add_ua_text st [] = st
add_ua_text st (c ∷ ua) =
    let opened = open_group st in record opened { cur = change (with_ua (c ∷ ua)) opened.cur }

-- `bs_rb_add_ua`
unfoldable pub add_ua : Parser → Bytes → Parser
add_ua st ua_raw = add_ua_text st (skip_blanks ua_raw)

abbrev pub with_rule : Bytes → Bool → RobotsGroup → RobotsGroup
with_rule [] allow g = g
with_rule (c ∷ pattern) allow g =
    if leb max_rules_per_group (length g.rules)
    then g
    else record g { rules = g.rules ++ (record { pattern = c ∷ pattern; allow = allow } ∷ []) }

abbrev pub rule_at : Parser → Bytes → Bool → Option RobotsGroup → Parser
rule_at st pattern allow none = st
rule_at st pattern allow (some g) = record st {
  cur = some (with_rule pattern allow g);
  cur_expect_ua = false;
}

-- `bs_rb_add_rule`
unfoldable pub add_rule : Parser → Bytes → Bool → Parser
add_rule st pattern allow = rule_at st pattern allow st.cur

abbrev pub ends_number : Bytes → Bool
ends_number [] = true
ends_number (c ∷ text) = is_blank c

-- A delay that the directive accepts, in milliseconds.
abbrev pub accepted_delay : Option Seconds → Option ℕ
accepted_delay none = none
accepted_delay (some v) =
    if not (ends_number v.behind)
    then none
    else if not v.is_positive || v.is_over
    then none
    else if v.milliseconds == 0
    then none
    else some v.milliseconds

abbrev pub delay_at : Parser → Option ℕ → Option RobotsGroup → Parser
delay_at st ms none = st
delay_at st none (some g) = st
delay_at st (some ms) (some g) = record st {
  cur = some (record g { crawl_delay_ms = ms });
  cur_expect_ua = false;
}

abbrev pub push_key : ℕ → Option (Bytes × Bytes) → Option (Bytes × Bytes)
push_key c none = none
push_key c (some (key, value)) = some (c ∷ key, value)

-- The texts before and behind the first colon.
unfoldable pub split_colon : Bytes → Option (Bytes × Bytes)
split_colon [] = none
split_colon (c ∷ text) =
    let onward = push_key c (split_colon text) in if c == 58 then some ([], text) else onward

unfoldable pub before_hash : Bytes → Bytes
before_hash [] = []
before_hash (c ∷ text) = let rest = before_hash text in if c == 35 then [] else c ∷ rest

unfoldable pub skip_leading : Bytes → Bytes
skip_leading [] = []
skip_leading (c ∷ text) =
    let rest = skip_leading text in if is_blank c || c == 13 then rest else c ∷ text

abbrev pub onto_line : ℕ → List Bytes → List Bytes
onto_line c [] = (c ∷ []) ∷ []
onto_line c (line ∷ lines) = (c ∷ line) ∷ lines

unfoldable pub split_lines : Bytes → List Bytes
split_lines [] = []
split_lines (c ∷ text) =
    let lines = split_lines text in if c == 10 then [] ∷ lines else onto_line c lines

abbrev pub empty_parser : Parser
empty_parser = record { groups = []; truncated_lines = 0; cur = none; cur_expect_ua = false }

-- Behind the UTF-8 byte order mark, if there is one.
unfoldable pub skip_bom : Bytes → Bytes
skip_bom (a ∷ (b ∷ (c ∷ text))) =
    if a == 239 && (b == 187 && c == 191) then text else a ∷ (b ∷ (c ∷ text))
skip_bom text = text

module _ (strtod : Bytes → Option Seconds) where
  -- `bs_rb_set_crawl_delay`
  unfoldable pub set_crawl_delay : Parser → Bytes → Parser
  set_crawl_delay st value = delay_at st (accepted_delay (strtod value)) st.cur

  -- The dispatch on a key.
  unfoldable pub handle_key : Parser → Bytes → Bytes → Parser
  handle_key st key value =
      if length key == 0
      then st
      else if equal_nocase key (codes "user-agent")
      then add_ua st value
      else if equal_nocase key (codes "disallow")
      then add_rule st value false
      else if equal_nocase key (codes "allow")
      then add_rule st value true
      else if equal_nocase key (codes "crawl-delay")
      then set_crawl_delay st value
      else st

  abbrev pub handle_pair : Parser → Option (Bytes × Bytes) → Parser
  handle_pair st none = st
  handle_pair st (some (key, value)) = handle_key st (rstrip key) (rstrip (skip_blanks value))

  -- `bs_rb_handle_line`
  unfoldable pub handle_line : Parser → Bytes → Parser
  handle_line st line = handle_pair st (split_colon line)

  -- A line without its comment: cut to the scratch buffer, and handled.
  unfoldable pub take_line : Parser → Bytes → Parser
  take_line st [] = st
  take_line st (c ∷ text) =
      let long = leb max_line (length (c ∷ text)) in
      let line = if long then take (max_line - 1) (c ∷ text) else c ∷ text in
      let counted = if long then record st { truncated_lines = st.truncated_lines + 1 } else st in
      handle_line counted (skip_leading (c_string line))

  unfoldable pub take_lines : Parser → List Bytes → Parser
  take_lines st [] = st
  take_lines st (line ∷ lines) = take_lines (take_line st (before_hash line)) lines

  -- `bs_rb_parse`; `none` is EINVAL
  unfoldable pub parse : Bytes → Option Parser
  parse buf =
      if ltb max_bytes (length buf)
      then none
      else some (flush_group (take_lines empty_parser (split_lines (skip_bom buf))))
