-- ===== src/Robots/Agents.antt =====
-- Which groups of a robots.txt apply to a request: the User-agent tokens of src/robots.c.
use botshield.Prelude.{
  ℕ, ◌+◌, Bool, true, false, not, ◌&&◌, ◌||◌, Option, none, some, List, [], ◌∷◌, Bytes, length, ltb,
  leb, ◌==◌, if◌then◌else◌, bytes_eq,
}

-- `tolower` of the C locale.
abbrev pub to_lower : ℕ → ℕ
to_lower c = if leb 65 c && leb c 90 then c + 32 else c

-- `strcasecmp(a, b) == 0`
unfoldable pub equal_nocase : Bytes → Bytes → Bool
equal_nocase [] [] = true
equal_nocase (a ∷ s) (b ∷ t) = to_lower a == to_lower b && equal_nocase s t
equal_nocase _ _ = false

-- `strncasecmp(text, token, strlen(token)) == 0`
unfoldable pub starts_nocase : Bytes → Bytes → Bool
starts_nocase text [] = true
starts_nocase [] (b ∷ token) = false
starts_nocase (a ∷ text) (b ∷ token) = to_lower a == to_lower b && starts_nocase text token

-- The inner loop of `bs_rb_ua_segment_match`: blanks, tabs and `(` are skipped.
unfoldable pub skip_lead : Bytes → Bytes
skip_lead [] = []
skip_lead (c ∷ seg) =
    let rest = skip_lead seg in if c == 32 || (c == 9 || c == 40) then rest else c ∷ seg

-- The places where the outer loop of `bs_rb_ua_segment_match` sets `seg`: after every `;`.
unfoldable pub after_semicolons : Bytes → List Bytes
after_semicolons [] = []
after_semicolons (c ∷ ua) = let rest = after_semicolons ua in if c == 59 then ua ∷ rest else rest

unfoldable pub any_segment_starts : Bytes → List Bytes → Bool
any_segment_starts token [] = false
any_segment_starts token (seg ∷ segs) =
    starts_nocase (skip_lead seg) token || any_segment_starts token segs

-- `bs_rb_ua_segment_match`
unfoldable pub ua_segment_match : Bytes → Bytes → Bool
ua_segment_match ua [] = false
ua_segment_match ua (c ∷ token) = any_segment_starts (c ∷ token) (ua ∷ after_semicolons ua)

abbrev pub same_botgroup : Bytes → Option Bytes → Bool
same_botgroup token none = false
same_botgroup token (some botgroup) = equal_nocase token botgroup

-- `bs_rb_token_matches`; 64 is `@`.
unfoldable pub token_matches : Bytes → Bytes → Option Bytes → Bool
token_matches [] ua botgroup = false
token_matches (c ∷ token) ua botgroup =
    if c == 64 then same_botgroup token botgroup else ua_segment_match ua (c ∷ token)

-- `strcmp(tok, "*") == 0`
abbrev pub is_star : Bytes → Bool
is_star token = bytes_eq token (42 ∷ [])

-- bs_robots_mode, and the fields of robots_rule and robots_group that a query reads.
pub data RobotsMode : Type 0 where
  unset : RobotsMode
  enforce : RobotsMode
  observe : RobotsMode

pub record RobotsRule : Type 0 where
  pub pattern : Bytes
  pub allow : Bool

pub record RobotsGroup : Type 0 where
  pub user_agents : List Bytes
  pub rules : List RobotsRule
  pub crawl_delay_ms : ℕ
  pub name : Bytes
  pub mode : RobotsMode
  pub status : ℕ
  pub log_tag : Option Bytes

-- The inner loop of `bs_rb_best_token_len`, on the tokens of one group: best_len, has_wildcard.
unfoldable pub best_token : Bytes → Option Bytes → List Bytes → ℕ × Bool → ℕ × Bool
best_token ua botgroup [] best = best
best_token ua botgroup (token ∷ tokens) (best_len, has_wildcard) = best_token ua botgroup tokens (
    if is_star token
    then (best_len, true)
    else if token_matches token ua botgroup && ltb best_len (length token)
    then (length token, has_wildcard)
    else (best_len, has_wildcard))

-- `bs_rb_best_token_len`
unfoldable pub best_token_len : Bytes → Option Bytes → List RobotsGroup → ℕ × Bool → ℕ × Bool
best_token_len ua botgroup [] best = best
best_token_len ua botgroup (g ∷ groups) best =
    best_token_len ua botgroup groups (best_token ua botgroup g.user_agents best)

-- One token of the loop of `bs_rb_group_qualifies`.
unfoldable pub token_qualifies : Bytes → Option Bytes → ℕ → Bytes → Bool
token_qualifies ua botgroup best_len token =
    if best_len == 0
    then is_star token
    else not (is_star token) && (length token == best_len && token_matches token ua botgroup)

unfoldable pub any_qualifies : Bytes → Option Bytes → ℕ → List Bytes → Bool
any_qualifies ua botgroup best_len [] = false
any_qualifies ua botgroup best_len (token ∷ tokens) =
    token_qualifies ua botgroup best_len token || any_qualifies ua botgroup best_len tokens

-- `bs_rb_group_qualifies`
unfoldable pub group_qualifies : RobotsGroup → Bytes → Option Bytes → ℕ → Bool
group_qualifies g ua botgroup best_len = any_qualifies ua botgroup best_len g.user_agents
