-- ===== src/Robots/Query/Groups.antt =====
-- The walk of a robots.txt query over groups and rules weighs every rule that is enforced.
use botshield.Prelude.{
  ℕ, suc, ◌≡◌, refl, Bool, true, false, Option, none, some, List, [], ◌∷◌, Bytes, arith, length,
  if◌then◌else◌, ◌⊎◌, inl, inr,
}
use botshield.Robots.Path.{path_match}
use botshield.Robots.Agents.{RobotsMode, RobotsRule, RobotsGroup, group_qualifies}
use botshield.Robots.Query.{
  Verdict, improve, weigh_rule, weigh_group, walk_rules, is_observe, effective_mode, Walk,
  walk_group, walk_groups, first_or,
}
use botshield.Robots.Query.Best.{Describes, Describes-ext, With, improve-Describes}

-- A matching rule of the list has this length and this verdict.
abbrev pub RuleTested : Bool → RobotsRule → ℕ → Bool → Type 0
RuleTested matched r n a = (matched ≡ true) × (length r.pattern ≡ n) × (r.allow ≡ a)

abbrev pub RuleIs : Bytes → RobotsRule → ℕ → Bool → Type 0
RuleIs path r n a = RuleTested (path_match r.pattern path) r n a

unfoldable pub RuleIn : Bytes → List RobotsRule → ℕ → Bool → Type 0
RuleIn path [] n a = ⊥
RuleIn path (r ∷ rules) n a = RuleIs path r n a ⊎ RuleIn path rules n a

-- So has one of a group that qualifies and is not merely observed.
abbrev pub GroupEnforces :
    Bytes → Option Bytes → Bytes → RobotsMode → ℕ → RobotsGroup → ℕ → Bool → Type 0
GroupEnforces ua botgroup path default_mode best_len g n a =
    (group_qualifies g ua botgroup best_len ≡ true)
    × (is_observe (effective_mode default_mode g.mode) ≡ false)
    × RuleIn path g.rules n a

unfoldable pub Enforced :
    Bytes → Option Bytes → Bytes → RobotsMode → ℕ → List RobotsGroup → ℕ → Bool → Type 0
Enforced ua botgroup path default_mode best_len [] n a = ⊥
Enforced ua botgroup path default_mode best_len (g ∷ groups) n a =
    GroupEnforces ua botgroup path default_mode best_len g n a
    ⊎ Enforced ua botgroup path default_mode best_len groups n a

rule-Describes :
    (S : ℕ → Bool → Type 0) (path : Bytes) (observing : Bool) (i : ℕ) (r : RobotsRule)
    (best : Option Verdict × Option Verdict)
    → Describes S best.1
    → Describes
        (λ n a. S n a ⊎ ((observing ≡ false) × RuleIs path r n a))
        (weigh_rule path observing i r best).1
unfolding weigh_rule
rule-Describes S path observing i r (all, enf) d = go (path_match r.pattern path) observing
  where
    go :
        (m o : Bool)
        → Describes
            (λ n a. S n a ⊎ ((o ≡ false) × RuleTested m r n a))
            (if◌then◌else◌ {A = Option Verdict × Option Verdict} m
              (
                improve (length r.pattern) r.allow i all,
                if o then enf else improve (length r.pattern) r.allow i enf,
              )
              (all, enf)).1
    go false o =
        Describes-ext S _ enf (λ n a s. inl s)
          (λ n a. elim [ inl s ↦ s | inr x ↦ absurd (ground (arith, x.1.0)) ]) d
    go true true =
        Describes-ext S _ enf (λ n a s. inl s)
          (λ n a. elim [ inl s ↦ s | inr x ↦ absurd (ground (arith, x.0)) ]) d
    go true false =
        Describes-ext (With S (length r.pattern) r.allow) _ _
          (λ n a. elim [ inl s ↦ inl s | inr e ↦ inr (refl, (refl, e.0, e.1)) ])
          (λ n a. elim [ inl s ↦ inl s | inr x ↦ inr (x.1.1, x.1.2) ])
          (improve-Describes S (length r.pattern) r.allow i enf d)

rules-Describes :
    (S : ℕ → Bool → Type 0) (path : Bytes) (observing : Bool) (i : ℕ) (rules : List RobotsRule)
    (best : Option Verdict × Option Verdict)
    → Describes S best.1
    → Describes
        (λ n a. S n a ⊎ ((observing ≡ false) × RuleIn path rules n a))
        (walk_rules path observing i rules best).1
unfolding walk_rules RuleIn
rules-Describes S path observing i [] best d =
    Describes-ext S _ best.1 (λ n a s. inl s) (λ n a. elim [ inl s ↦ s | inr x ↦ absurd x.1 ]) d
rules-Describes S path observing i (r ∷ rules) best d =
    Describes-ext _ _ _
      (λ n a. elim [
        | inl (inl s) ↦ inl s
        | inl (inr x) ↦ inr (x.0, inl x.1)
        | inr x ↦ inr (x.0, inr x.1)
      ])
      (λ n a. elim [
        | inl s ↦ inl (inl s)
        | inr (o, inl x) ↦ inl (inr (o, x))
        | inr (o, inr x) ↦ inr (o, x)
      ])
      (rules-Describes (λ n a. S n a ⊎ ((observing ≡ false) × RuleIs path r n a)) path observing i
        rules (weigh_rule path observing i r best) (rule-Describes S path observing i r best d))

-- What the walk over the groups keeps: its enforcing verdict, and that a group stands behind it.
abbrev pub Kept : (ℕ → Bool → Type 0) → Walk → Type 0
Kept S w = Describes S w.enf × (w.first_relevant ≡ none → (n : ℕ) (a : Bool) → S n a → ⊥)

pub Kept-ext :
    (S T : ℕ → Bool → Type 0) (w : Walk)
    → ((n : ℕ) (a : Bool) → S n a → T n a)
    → ((n : ℕ) (a : Bool) → T n a → S n a)
    → Kept S w
    → Kept T w
Kept-ext S T w f g k = (Describes-ext S T w.enf f g k.0, λ e n a t. k.1 e n a (g n a t))

first_or-some : (o : Option ℕ) (i : ℕ) → first_or o i ≡ none → ⊥
first_or-some none i e = ground (arith, e)
first_or-some (some j) i e = ground (arith, e)

group-Kept :
    (S : ℕ → Bool → Type 0) (ua : Bytes) (botgroup : Option Bytes) (path : Bytes)
    (default_mode : RobotsMode) (best_len i : ℕ) (g : RobotsGroup) (w : Walk)
    → Kept S w
    → Kept
        (λ n a. S n a ⊎ GroupEnforces ua botgroup path default_mode best_len g n a)
        (weigh_group ua botgroup (some path) default_mode best_len i g w)
unfolding weigh_group
group-Kept S ua botgroup path default_mode best_len i g w k =
    go (group_qualifies g ua botgroup best_len)
  where
    observing : Bool
    observing = is_observe (effective_mode default_mode g.mode)

    go :
        (q : Bool)
        → Kept
            (λ n a. S n a ⊎ ((q ≡ true) × (observing ≡ false) × RuleIn path g.rules n a))
            (if q then walk_group (some path) default_mode i g w else w)
    go false =
        Kept-ext S _ w (λ n a s. inl s)
          (λ n a. elim [ inl s ↦ s | inr x ↦ absurd (ground (arith, x.0)) ]) k
    go true =
        Kept-ext (λ n a. S n a ⊎ ((observing ≡ false) × RuleIn path g.rules n a)) _
          (walk_group (some path) default_mode i g w)
          (λ n a. elim [ inl s ↦ inl s | inr x ↦ inr (refl, x.0, x.1) ])
          (λ n a. elim [ inl s ↦ inl s | inr x ↦ inr (x.1, x.2) ])
          (
            rules-Describes S path observing i g.rules (w.all, w.enf) k.0,
            λ e. absurd (first_or-some w.first_relevant i e),
          )

pub groups-Kept :
    (S : ℕ → Bool → Type 0) (ua : Bytes) (botgroup : Option Bytes) (path : Bytes)
    (default_mode : RobotsMode) (best_len i : ℕ) (groups : List RobotsGroup) (w : Walk)
    → Kept S w
    → Kept
        (λ n a. S n a ⊎ Enforced ua botgroup path default_mode best_len groups n a)
        (walk_groups ua botgroup (some path) default_mode best_len i groups w)
unfolding walk_groups Enforced
groups-Kept S ua botgroup path default_mode best_len i [] w k =
    Kept-ext S _ w (λ n a s. inl s) (λ n a. elim [ inl s ↦ s | inr x ↦ absurd x ]) k
groups-Kept S ua botgroup path default_mode best_len i (g ∷ groups) w k =
    Kept-ext _ _ (walk_groups ua botgroup (some path) default_mode best_len i (g ∷ groups) w)
      (λ n a. elim [ inl (inl s) ↦ inl s | inl (inr x) ↦ inr (inl x) | inr x ↦ inr (inr x) ])
      (λ n a. elim [ inl s ↦ inl (inl s) | inr (inl x) ↦ inl (inr x) | inr (inr x) ↦ inr x ])
      (groups-Kept (λ n a. S n a ⊎ GroupEnforces ua botgroup path default_mode best_len g n a) ua
        botgroup path default_mode best_len (suc i) groups
        (weigh_group ua botgroup (some path) default_mode best_len i g w)
        (group-Kept S ua botgroup path default_mode best_len i g w k))
