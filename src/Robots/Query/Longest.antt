-- ===== src/Robots/Query/Longest.antt =====
-- The longest matching rule decides a robots.txt query, and Allow wins a tie.
use botshield.Prelude.{
  ℕ, ◌≡◌, refl, subst, Bool, true, false, not, ◌&&◌, Option, none, some, List, [], ◌∷◌, Bytes,
  arith, length, ◌==◌, ◌⊎◌, ◌↔◌, inl, inr, Bool-cases,
}
use botshield.Robots.Agents.{
  RobotsMode, RobotsGroup, best_token, best_token_len, token_qualifies, any_qualifies,
  group_qualifies, is_star,
}
use botshield.Robots.Query.{
  RobotsMatch, Verdict, Walk, walk_groups, observed, answer, start, robots_query,
}
use botshield.Robots.Query.Best.{Describes, Describes-allow, Refused}
use botshield.Robots.Query.Groups.{Enforced, Kept, Kept-ext, groups-Kept}

-- With no specific token, a group qualifies only by a star, which the search for tokens reports.
wildcard_stays :
    (ua : Bytes) (botgroup : Option Bytes) (tokens : List Bytes) (best_len : ℕ)
    → (best_token ua botgroup tokens (best_len, true)).1 ≡ true
unfolding best_token
wildcard_stays ua botgroup [] best_len = refl
wildcard_stays ua botgroup (token ∷ tokens) best_len = ground (
  arith,
  wildcard_stays ua botgroup tokens best_len,
  wildcard_stays ua botgroup tokens (length token),
)

wildcard_stays_all :
    (ua : Bytes) (botgroup : Option Bytes) (groups : List RobotsGroup) (best : ℕ × Bool)
    → best.1 ≡ true
    → (best_token_len ua botgroup groups best).1 ≡ true
unfolding best_token_len
wildcard_stays_all ua botgroup [] best h = h
wildcard_stays_all ua botgroup (g ∷ groups) (best_len, has) h =
    wildcard_stays_all ua botgroup groups _
      (rw h (wildcard_stays ua botgroup g.user_agents best_len))

star_found :
    (ua : Bytes) (botgroup : Option Bytes) (tokens : List Bytes) (best : ℕ × Bool)
    → any_qualifies ua botgroup 0 tokens ≡ true
    → (best_token ua botgroup tokens best).1 ≡ true
unfolding any_qualifies token_qualifies best_token
star_found ua botgroup [] best h = absurd (ground (arith, h))
star_found ua botgroup (token ∷ tokens) (best_len, has) h = elim (Bool-cases (is_star token)) [
  | inl star ↦ rw (best_token, star) (wildcard_stays ua botgroup tokens best_len)
  | inr other ↦
      let later : any_qualifies ua botgroup 0 tokens ≡ true = ground (arith, h, other) in
      star_found ua botgroup tokens _ later
]

star_found_all :
    (ua : Bytes) (botgroup : Option Bytes) (groups : List RobotsGroup) (best : ℕ × Bool)
    (path : Bytes) (default_mode : RobotsMode) (n : ℕ) (a : Bool)
    → Enforced ua botgroup path default_mode 0 groups n a
    → (best_token_len ua botgroup groups best).1 ≡ true
unfolding best_token_len Enforced group_qualifies
star_found_all ua botgroup [] best path default_mode n a h = absurd h
star_found_all ua botgroup (g ∷ groups) best path default_mode n a (inl here) =
    wildcard_stays_all ua botgroup groups _ (star_found ua botgroup g.user_agents best here.0)
star_found_all ua botgroup (g ∷ groups) best path default_mode n a (inr there) =
    star_found_all ua botgroup groups _ path default_mode n a there

observed-allowed :
    (groups : List RobotsGroup) (default_mode : RobotsMode) (all : Option Verdict)
    (out : RobotsMatch)
    → (observed groups default_mode all out).allowed ≡ out.allowed
observed-allowed groups default_mode none out = refl
observed-allowed groups default_mode (some v) out = ground arith

none_refused :
    (S : ℕ → Bool → Type 0) → ((n : ℕ) (a : Bool) → S n a → ⊥) → (true ≡ false) ↔ Refused S
none_refused S no_one = (λ h. absurd (ground (arith, h)), λ r. absurd (no_one r.0 false r.1))

answer-Refused :
    (S : ℕ → Bool → Type 0) (groups : List RobotsGroup) (path : Bytes) (default_mode : RobotsMode)
    (best_len : ℕ) (first : Option ℕ) (enf : Option Verdict) (w : Walk)
    → w.first_relevant ≡ first
    → w.enf ≡ enf
    → Kept S w
    → ((answer first (some path) groups default_mode best_len w).allowed ≡ false) ↔ Refused S
answer-Refused S groups path default_mode best_len none enf w ef ee k = none_refused S (k.1 ef)
answer-Refused S groups path default_mode best_len (some i) none w ef ee k =
    let d : Describes S none = subst (Describes S) ee k.0 in
    rw (observed-allowed groups default_mode w.all, ee) (none_refused S d)
answer-Refused S groups path default_mode best_len (some i) (some v) w ef ee k =
    let d : Describes S (some v) = subst (Describes S) ee k.0 in
    rw (observed-allowed groups default_mode w.all, ee) (Describes-allow S v d)

-- A request with a user agent and a path is refused exactly if some Disallow rule, of a group that
-- qualifies and is not merely observed, matches the path, and every Allow rule of such a group that
-- matches it is shorter.
pub robots_query-refuses :
    (groups : List RobotsGroup) (ua : Bytes) (botgroup : Option Bytes) (path : Bytes)
    (default_mode : RobotsMode)
    → ((robots_query groups (some ua) botgroup (some path) default_mode).allowed ≡ false)
      ↔ Refused (
          Enforced ua botgroup path default_mode
            (best_token_len ua botgroup groups (0, false)).0
            groups)
unfolding robots_query
robots_query-refuses groups ua botgroup path default_mode =
    elim (Bool-cases (best.0 == 0 && not best.1)) [
      | inl idle ↦ rw idle (none_refused S (no_one idle))
      | inr busy ↦
          rw busy (
            answer-Refused S groups path default_mode best.0 w.first_relevant w.enf w refl refl
              kept)
    ]
  where
    best : ℕ × Bool
    best = best_token_len ua botgroup groups (0, false)

    S : ℕ → Bool → Type 0
    S = Enforced ua botgroup path default_mode best.0 groups

    w : Walk
    w = walk_groups ua botgroup (some path) default_mode best.0 0 groups start

    kept : Kept S w
    kept =
        Kept-ext (λ n a. ⊥ ⊎ S n a) S w (λ n a. elim [ inl x ↦ absurd x | inr s ↦ s ])
          (λ n a s. inr s)
          (groups-Kept (λ n a. ⊥) ua botgroup path default_mode best.0 0 groups start
            (λ n a x. x, λ e n a x. x))

    no_one : (best.0 == 0 && not best.1) ≡ true → (n : ℕ) (a : Bool) → S n a → ⊥
    no_one idle n a s =
        let zero_len : best.0 ≡ 0 = ground (arith, idle) in
        let star : best.1 ≡ true =
          star_found_all ua botgroup groups (0, false) path default_mode n a
            (subst (λ l. Enforced ua botgroup path default_mode l groups n a) zero_len s) in
        ground (arith, idle, star)
