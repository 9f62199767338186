-- ===== src/Robots/Query.antt =====
-- The verdict of src/robots.c on a request: `robots_query`.
pub mod Best
pub mod Groups
pub mod Longest
use botshield.Prelude.{
  ℕ, suc, Bool, true, false, not, ◌&&◌, Option, none, some, List, [], ◌∷◌, Bytes, length, ltb, ◌==◌,
  if◌then◌else◌, get_or,
}
use botshield.Robots.Path.{path_match}
use botshield.Robots.Agents.{
  RobotsMode, unset, enforce, observe, RobotsRule, RobotsGroup, best_token_len, group_qualifies,
}

-- robots_match; `none` for the index -1 and the null pointers.
pub record RobotsMatch : Type 0 where
  pub group_idx : Option ℕ
  pub is_wildcard : Bool
  pub allowed : Bool
  pub crawl_delay_ms : ℕ
  pub group_name : Option Bytes
  pub status : ℕ
  pub log_tag : Option Bytes
  pub observed_group : Option Bytes

-- The longest matching rule so far: its length, its verdict and its group. `none` for length -1.
pub record Verdict : Type 0 where
  pub len : ℕ
  pub allow : Bool
  pub gidx : ℕ

abbrev pub improve : ℕ → Bool → ℕ → Option Verdict → Option Verdict
improve len allow i none = some (record { len = len; allow = allow; gidx = i })
improve len allow i (some v) =
    if ltb v.len len
    then some (record { len = len; allow = allow; gidx = i })
    else if len == v.len && (allow && not v.allow)
    then some (record v { allow = true; gidx = i })
    else some v

-- One rule: all_* and enf_* after it.
unfoldable pub weigh_rule :
    Bytes
    → Bool
    → ℕ
    → RobotsRule
    → Option Verdict × Option Verdict
    → Option Verdict × Option Verdict
weigh_rule path observing i r (all, enf) =
    if path_match r.pattern path
    then (
      improve (length r.pattern) r.allow i all,
      if observing then enf else improve (length r.pattern) r.allow i enf,
    )
    else (all, enf)

-- The loop over the rules of one group.
unfoldable pub walk_rules :
    Bytes
    → Bool
    → ℕ
    → List RobotsRule
    → Option Verdict × Option Verdict
    → Option Verdict × Option Verdict
walk_rules path observing i [] best = best
walk_rules path observing i (r ∷ rules) best =
    walk_rules path observing i rules (weigh_rule path observing i r best)

abbrev pub is_observe : RobotsMode → Bool
is_observe unset = false
is_observe enforce = false
is_observe observe = true

abbrev pub effective_mode : RobotsMode → RobotsMode → RobotsMode
effective_mode default_mode unset = default_mode
effective_mode default_mode enforce = enforce
effective_mode default_mode observe = observe

-- What the loop over the groups keeps.
pub record Walk : Type 0 where
  pub first_relevant : Option ℕ
  pub max_crawl_delay : ℕ
  pub all : Option Verdict
  pub enf : Option Verdict

abbrev pub first_or : Option ℕ → ℕ → Option ℕ
first_or none i = some i
first_or (some j) i = some j

abbrev pub walk_path :
    Option Bytes
    → RobotsMode
    → ℕ
    → RobotsGroup
    → Option Verdict × Option Verdict
    → Option Verdict × Option Verdict
walk_path none default_mode i g best = best
walk_path (some path) default_mode i g best =
    walk_rules path (is_observe (effective_mode default_mode g.mode)) i g.rules best

-- One qualifying group.
abbrev pub walk_group : Option Bytes → RobotsMode → ℕ → RobotsGroup → Walk → Walk
walk_group path default_mode i g w = record {
  first_relevant = first_or w.first_relevant i;
  max_crawl_delay =
      if ltb w.max_crawl_delay g.crawl_delay_ms then g.crawl_delay_ms else w.max_crawl_delay;
  all = (walk_path path default_mode i g (w.all, w.enf)).0;
  enf = (walk_path path default_mode i g (w.all, w.enf)).1;
}

unfoldable pub weigh_group :
    Bytes → Option Bytes → Option Bytes → RobotsMode → ℕ → ℕ → RobotsGroup → Walk → Walk
weigh_group ua botgroup path default_mode best_len i g w =
    if group_qualifies g ua botgroup best_len then walk_group path default_mode i g w else w

unfoldable pub walk_groups :
    Bytes → Option Bytes → Option Bytes → RobotsMode → ℕ → ℕ → List RobotsGroup → Walk → Walk
walk_groups ua botgroup path default_mode best_len i [] w = w
walk_groups ua botgroup path default_mode best_len i (g ∷ groups) w =
    walk_groups ua botgroup path default_mode best_len (suc i) groups
      (weigh_group ua botgroup path default_mode best_len i g w)

-- A read of the groups at an index that the walk found.
abbrev blank_group : RobotsGroup
blank_group = record {
  user_agents = [];
  rules = [];
  crawl_delay_ms = 0;
  name = [];
  mode = unset;
  status = 0;
  log_tag = none;
}

abbrev pub no_match : RobotsMatch
no_match = record {
  group_idx = none;
  is_wildcard = false;
  allowed = true;
  crawl_delay_ms = 0;
  group_name = none;
  status = 0;
  log_tag = none;
  observed_group = none;
}

-- The knobs of the governing group.
abbrev pub governed : List RobotsGroup → Option Verdict → RobotsMatch → RobotsMatch
governed groups none out = record out { allowed = true }
governed groups (some v) out =
    let g = get_or groups v.gidx blank_group in
    record out {
      allowed = v.allow;
      group_name = some g.name;
      status = g.status;
      log_tag = g.log_tag;
    }

abbrev pub observed : List RobotsGroup → RobotsMode → Option Verdict → RobotsMatch → RobotsMatch
observed groups default_mode none out = out
observed groups default_mode (some v) out =
    let g = get_or groups v.gidx blank_group in
    if not v.allow && is_observe (effective_mode default_mode g.mode)
    then record out { observed_group = some g.name }
    else out

abbrev pub with_path :
    Option Bytes → List RobotsGroup → RobotsMode → Walk → RobotsMatch → RobotsMatch
with_path none groups default_mode w out = out
with_path (some path) groups default_mode w out =
    observed groups default_mode w.all (governed groups w.enf out)

abbrev pub answer : Option ℕ → Option Bytes → List RobotsGroup → RobotsMode → ℕ → Walk → RobotsMatch
answer none path groups default_mode best_len w = no_match
answer (some i) path groups default_mode best_len w =
    with_path path groups default_mode w (record no_match {
      group_idx = some i;
      is_wildcard = best_len == 0;
      crawl_delay_ms = w.max_crawl_delay;
      group_name = some (get_or groups i blank_group).name;
    })

abbrev pub start : Walk
start = record { first_relevant = none; max_crawl_delay = 0; all = none; enf = none }

-- `robots_query`. A null document is one with no groups; a null user agent is `none`.
unfoldable pub robots_query :
    List RobotsGroup → Option Bytes → Option Bytes → Option Bytes → RobotsMode → RobotsMatch
robots_query groups none botgroup path default_mode = no_match
robots_query groups (some ua) botgroup path default_mode =
    let (best_len, has_wildcard) = best_token_len ua botgroup groups (0, false) in
    let w = walk_groups ua botgroup path default_mode best_len 0 groups start in
    if best_len == 0 && not has_wildcard
    then no_match
    else answer w.first_relevant path groups default_mode best_len w
