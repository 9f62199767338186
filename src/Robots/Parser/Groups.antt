-- ===== src/Robots/Parser/Groups.antt =====
-- The limits that the parser of src/robots.c keeps in its groups, and that each of its operations
-- on the current group preserves.
use botshield.Prelude.{
  ℕ, ◌≤◌, ◌<◌, ◌≡◌, refl, sym, Bool, Option, none, some, List, [], ◌∷◌, Bytes, arith, leb, length,
  map, inl, inr, Bool-cases, Every, Every-snoc, length-snoc, subst,
}
use botshield.Robots.Agents.{to_lower, RobotsRule, RobotsGroup}
use botshield.Robots.Names.{group_name_from_ua}
use botshield.Robots.Parser.{
  Parser, new_group, flushed, flush_group, open_group, with_ua, change, add_ua_text, with_rule,
  delay_at, rule_at, open_at, push_group, max_groups, max_rules_per_group, max_uas_per_group,
}

abbrev pub IsFilled : Bytes → Type 0
IsFilled text = 0 < length text

abbrev pub HasPattern : RobotsRule → Type 0
HasPattern r = 0 < length r.pattern

-- A group within its limits: no empty agent, no empty pattern, no delay above an hour.
pub record IsLimited (g : RobotsGroup) : Type 0 where
  pub few_uas : length g.user_agents ≤ 32
  pub few_rules : length g.rules ≤ 256
  pub uas_filled : Every IsFilled g.user_agents
  pub rules_filled : Every HasPattern g.rules
  pub short_delay : g.crawl_delay_ms ≤ 3600000

abbrev pub NamedBy : Bytes → List Bytes → Type 0
NamedBy name [] = ⊥
NamedBy name (first_ua ∷ _) = name ≡ group_name_from_ua first_ua

-- A group of the document: within its limits, with an agent at least, and named by its first one.
abbrev pub IsListed : RobotsGroup → Type 0
IsListed g = IsLimited g × NamedBy g.name g.user_agents

abbrev pub CurOk : Option RobotsGroup → Type 0
CurOk none = Unit
CurOk (some g) = IsLimited g

pub record ParserOk (st : Parser) : Type 0 where
  pub few : length st.groups ≤ 64
  pub listed : Every IsListed st.groups
  pub cur_ok : CurOk st.cur

new-IsLimited : IsLimited new_group
new-IsLimited = record {
  few_uas = omega arith;
  few_rules = omega arith;
  uas_filled = tt;
  rules_filled = tt;
  short_delay = omega arith;
}

-- The groups after a flush.
Flushed : List RobotsGroup → Type 0
Flushed groups = (length groups ≤ 64) × Every IsListed groups

push_group-Flushed :
    (groups : List RobotsGroup) (g : RobotsGroup) (uas : List Bytes)
    → length groups ≤ 64
    → Every IsListed groups
    → IsLimited g
    → g.user_agents ≡ uas
    → Flushed (push_group groups g uas)
unfolding Flushed
push_group-Flushed groups g [] few listed ok e = (few, listed)
push_group-Flushed groups g (first_ua ∷ uas) few listed ok e =
    elim (Bool-cases (leb max_groups (length groups))) [
      | inl full ↦ rw full (few, listed)
      | inr room ↦
          let named : RobotsGroup = record g { name = group_name_from_ua first_ua } in
          let below : length groups < 64 = ground (arith, room) in
          let limited : IsLimited named = record {
            few_uas = ok.few_uas;
            few_rules = ok.few_rules;
            uas_filled = ok.uas_filled;
            rules_filled = ok.rules_filled;
            short_delay = ok.short_delay;
          } in
          rw room (
            omega (arith, length-snoc groups named, below),
            Every-snoc IsListed groups named listed
                (limited, subst (NamedBy (group_name_from_ua first_ua)) (sym e) refl),
          )
    ]

flushed-Flushed :
    (groups : List RobotsGroup) (cur : Option RobotsGroup)
    → length groups ≤ 64
    → Every IsListed groups
    → CurOk cur
    → Flushed (flushed groups cur)
flushed-Flushed groups none few listed ok = unfold Flushed in (few, listed)
flushed-Flushed groups (some g) few listed ok =
    push_group-Flushed groups g g.user_agents few listed ok refl

pub flush-ParserOk : (st : Parser) → ParserOk st → ParserOk (flush_group st)
unfolding flush_group Flushed
flush-ParserOk st ok =
    let (few, listed) = flushed-Flushed st.groups st.cur ok.few ok.listed ok.cur_ok in
    record { few = few; listed = listed; cur_ok = tt }

open_at-ParserOk :
    (st : Parser) (cur : Option RobotsGroup) → ParserOk st → ParserOk (open_at st cur)
open_at-ParserOk st none ok = record { few = ok.few; listed = ok.listed; cur_ok = new-IsLimited }
open_at-ParserOk st (some g) ok = elim (Bool-cases st.cur_expect_ua) [
  | inl more ↦ simp more ok
  | inr closed ↦
      let after = flush-ParserOk st ok in
      simp closed (record { few = after.few; listed = after.listed; cur_ok = new-IsLimited })
]

map-IsFilled : (text : Bytes) → IsFilled text → IsFilled (map to_lower text)
map-IsFilled [] h = h
map-IsFilled (c ∷ text) h = omega arith

with_ua-IsLimited :
    (ua : Bytes) (g : RobotsGroup) → IsFilled ua → IsLimited g → IsLimited (with_ua ua g)
with_ua-IsLimited ua g filled ok =
    elim (Bool-cases (leb max_uas_per_group (length g.user_agents))) [
      | inl full ↦ simp full ok
      | inr room ↦
          let below : length g.user_agents < 32 = ground (arith, room) in
          simp room (record {
            few_uas = omega (arith, length-snoc g.user_agents (map to_lower ua), below);
            few_rules = ok.few_rules;
            uas_filled =
                Every-snoc IsFilled g.user_agents (map to_lower ua) ok.uas_filled
                  (map-IsFilled ua filled);
            rules_filled = ok.rules_filled;
            short_delay = ok.short_delay;
          })
    ]

change-CurOk :
    (f : RobotsGroup → RobotsGroup) (cur : Option RobotsGroup)
    → ((g : RobotsGroup) → IsLimited g → IsLimited (f g))
    → CurOk cur
    → CurOk (change f cur)
change-CurOk f none keeps ok = tt
change-CurOk f (some g) keeps ok = keeps g ok

pub add_ua-ParserOk : (st : Parser) (ua : Bytes) → ParserOk st → ParserOk (add_ua_text st ua)
unfolding open_group
add_ua-ParserOk st [] ok = ok
add_ua-ParserOk st (c ∷ ua) ok =
    let opened = open_at-ParserOk st st.cur ok in
    record {
      few = opened.few;
      listed = opened.listed;
      cur_ok =
          change-CurOk (with_ua (c ∷ ua)) (open_at st st.cur).cur
            (λ g. with_ua-IsLimited (c ∷ ua) g (omega arith)) opened.cur_ok;
    }

with_rule-IsLimited :
    (pattern : Bytes) (allow : Bool) (g : RobotsGroup)
    → IsLimited g
    → IsLimited (with_rule pattern allow g)
with_rule-IsLimited [] allow g ok = ok
with_rule-IsLimited (c ∷ pattern) allow g ok =
    elim (Bool-cases (leb max_rules_per_group (length g.rules))) [
      | inl full ↦ simp full ok
      | inr room ↦
          let rule : RobotsRule = record { pattern = c ∷ pattern; allow = allow } in
          let below : length g.rules < 256 = ground (arith, room) in
          simp room (record {
            few_uas = ok.few_uas;
            few_rules = omega (arith, length-snoc g.rules rule, below);
            uas_filled = ok.uas_filled;
            rules_filled = Every-snoc HasPattern g.rules rule ok.rules_filled (omega arith);
            short_delay = ok.short_delay;
          })
    ]

pub rule_at-ParserOk :
    (st : Parser) (pattern : Bytes) (allow : Bool) (cur : Option RobotsGroup)
    → ParserOk st
    → CurOk cur
    → ParserOk (rule_at st pattern allow cur)
rule_at-ParserOk st pattern allow none ok cur_ok = ok
rule_at-ParserOk st pattern allow (some g) ok cur_ok = record {
  few = ok.few;
  listed = ok.listed;
  cur_ok = with_rule-IsLimited pattern allow g cur_ok;
}

pub delay_at-ParserOk :
    (st : Parser) (delay : Option ℕ) (cur : Option RobotsGroup)
    → ((ms : ℕ) → delay ≡ some ms → ms ≤ 3600000)
    → ParserOk st
    → CurOk cur
    → ParserOk (delay_at st delay cur)
delay_at-ParserOk st delay none short ok cur_ok = ok
delay_at-ParserOk st none (some g) short ok cur_ok = ok
delay_at-ParserOk st (some ms) (some g) short ok cur_ok = record {
  few = ok.few;
  listed = ok.listed;
  cur_ok = record {
    few_uas = cur_ok.few_uas;
    few_rules = cur_ok.few_rules;
    uas_filled = cur_ok.uas_filled;
    rules_filled = cur_ok.rules_filled;
    short_delay = short ms refl;
  };
}
