-- ===== src/Classifier/Walk.antt =====
-- What one walk down the trie, and the walks from all starts of a text, make of the best match.
use botshield.Prelude.{
  ℕ, zero, suc, ◌+◌, ◌≤◌, ◌<◌, ◌≡◌, ◌⊎◌, refl, sym, ◌∙◌, ap, Option, none, some, [], ◌∷◌, Bytes,
  arith, ltb, length, take, drop, inl, inr, Bool-cases, Option-cases,
}
use botshield.Robots.Agents.{to_lower}
use botshield.Classifier.{Node, kids_of, name_of, find_kid, Best, improve, match_from, slide}
use botshield.Classifier.Stored.{stored, stored-none, stored-some, lower}

-- The trie holds this name at the first `k` characters of the text.
abbrev pub Hit : Node → Bytes → ℕ → Bytes → Type 0
Hit n text k name = (0 < k) × (k ≤ length text) × (stored n (lower (take k text)) ≡ some name)

-- What the walk from `n` makes of `best`, the walk being `len` characters deep: it is as good as
-- anything that was met, and either nothing was changed or it was met.
record Walked (n : Node) (len : ℕ) (best : Best) (text : Bytes) (after : Best) : Type 0 where
  kept : best.1 ≤ after.1
  covers : (k : ℕ) (name : Bytes) → Hit n text k name → len + k ≤ after.1
  met :
      (after ≡ best)
      ⊎ ((k : ℕ) × (name : Bytes) × Hit n text k name × (after ≡ (some name, len + k)))

improve-kept : (o : Option Bytes) (len : ℕ) (best : Best) → best.1 ≤ (improve o len best).1
improve-kept none len best = omega arith
improve-kept (some name) len best = ground arith

improve-covers :
    (o : Option Bytes) (len : ℕ) (best : Best) (name : Bytes)
    → o ≡ some name
    → len ≤ (improve o len best).1
improve-covers none len best name e = absurd (ground (arith, e))
improve-covers (some n) len best name e = ground arith

improve-met :
    (o : Option Bytes) (len : ℕ) (best : Best)
    → (improve o len best ≡ best)
      ⊎ ((name : Bytes) × (o ≡ some name) × (improve o len best ≡ (some name, len)))
improve-met none len best = inl refl
improve-met (some name) len best = elim (Bool-cases (ltb best.1 len)) [
  | inl e ↦ inr (name, refl, rw e refl)
  | inr e ↦ inl (rw e refl)
]

-- One character more.
Hit-deeper :
    (n child : Node) (c k : ℕ) (text name : Bytes)
    → find_kid (to_lower c) (kids_of n) ≡ some child
    → Hit child text k name
    → Hit n (c ∷ text) (suc k) name
Hit-deeper n child c k text name f (some_left, fits, held) = (
  omega arith,
  omega (arith, fits),
  stored-some n child (to_lower c) (lower (take k text)) f ∙ held,
)

Hit-child :
    (n child : Node) (c : ℕ) (text name : Bytes)
    → find_kid (to_lower c) (kids_of n) ≡ some child
    → name_of child ≡ some name
    → Hit n (c ∷ text) 1 name
unfolding stored
Hit-child n child c text name f named =
    (omega arith, omega arith, stored-some n child (to_lower c) [] f ∙ named)

Hit-shallow :
    (n : Node) (c k : ℕ) (text name : Bytes)
    → find_kid (to_lower c) (kids_of n) ≡ none
    → Hit n (c ∷ text) k name
    → ⊥
Hit-shallow n c zero text name f hit = absurd (omega (arith, hit.0))
Hit-shallow n c (suc k) text name f (_, _, held) =
    absurd (ground (arith, held, stored-none n (to_lower c) (lower (take k text)) f))

Hit-split :
    (n child : Node) (c k : ℕ) (text name : Bytes)
    → find_kid (to_lower c) (kids_of n) ≡ some child
    → Hit n (c ∷ text) k name
    → ((k ≡ 1) × (name_of child ≡ some name)) ⊎ ((j : ℕ) × (k ≡ suc j) × Hit child text j name)
unfolding stored
Hit-split n child c zero text name f hit = absurd (omega (arith, hit.0))
Hit-split n child c (suc zero) text name f (_, _, held) =
    inl (refl, sym (stored-some n child (to_lower c) [] f) ∙ held)
Hit-split n child c (suc (suc j)) text name f (_, fits, held) = inr (
  suc j,
  refl,
  (
    omega arith,
    omega (arith, fits),
    sym (stored-some n child (to_lower c) (lower (take (suc j) text)) f) ∙ held,
  ),
)

deepen :
    (n child : Node) (len c : ℕ) (best after : Best) (text : Bytes)
    → find_kid (to_lower c) (kids_of n) ≡ some child
    → Walked child (len + 1) (improve (name_of child) (len + 1) best) text after
    → Walked n len best (c ∷ text) after
deepen n child len c best after text f walked =
    let better : Best = improve (name_of child) (len + 1) best in
    let grown : best.1 ≤ better.1 = improve-kept (name_of child) (len + 1) best in
    record {
      kept = omega (arith, grown, walked.kept);
      covers = λ k name hit. elim (Hit-split n child c k text name f hit) [
        | inl (one, named) ↦
            let reached = improve-covers (name_of child) (len + 1) best name named in
            omega (arith, one, reached, walked.kept)
        | inr (j, more, deeper) ↦
            let reached = walked.covers j name deeper in omega (arith, more, reached)
      ];
      met = elim walked.met [
        | inl same ↦ elim (improve-met (name_of child) (len + 1) best) [
          | inl unchanged ↦ inl (same ∙ unchanged)
          | inr (name, named, e) ↦ inr (1, name, Hit-child n child c text name f named, same ∙ e)
        ]
        | inr (k, name, hit, e) ↦ inr (
          suc k,
          name,
          Hit-deeper n child c k text name f hit,
          e ∙ ap (λ (l : ℕ). (some name, l)) (omega arith),
        )
      ];
    }

match-Walked :
    (n : Node) (len : ℕ) (best : Best) (text : Bytes)
    → Walked n len best text (match_from n len best text)
unfolding match_from
match-Walked n len best [] = record {
  kept = omega arith;
  covers = λ k name hit. absurd (omega (arith, hit.0, hit.1));
  met = inl refl;
}
match-Walked n len best (c ∷ text) = elim (Option-cases (find_kid (to_lower c) (kids_of n))) [
  | inl f ↦
      rw (match_from, f)
        (record {
          kept = omega arith;
          covers = λ k name hit. absurd (Hit-shallow n c k text name f hit);
          met = inl refl;
        })
  | inr (child, f) ↦
      let walked = match-Walked child (len + 1) (improve (name_of child) (len + 1) best) text in
      rw (match_from, f)
        (deepen n child len c best
          (match_from child (len + 1) (improve (name_of child) (len + 1) best) text) text f walked)
]

-- The same of all starts of a text.
pub record Slid (root : Node) (best : Best) (text : Bytes) (after : Best) : Type 0 where
  pub kept : best.1 ≤ after.1
  pub covers : (i k : ℕ) (name : Bytes) → Hit root (drop i text) k name → k ≤ after.1
  pub met :
      (after ≡ best)
      ⊎ ((i : ℕ) × (k : ℕ) × (name : Bytes) × Hit root (drop i text) k name
          × (after ≡ (some name, k)))

pub slide-Slid :
    (root : Node) (best : Best) (text : Bytes) → Slid root best text (slide root best text)
unfolding slide
slide-Slid root best [] = record {
  kept = omega arith;
  covers = λ i k name hit. absurd (go i k name hit);
  met = inl refl;
}
  where
    go : (i k : ℕ) (name : Bytes) → Hit root (drop i []) k name → ⊥
    go zero k name hit = absurd (omega (arith, hit.0, hit.1))
    go (suc i) k name hit = absurd (omega (arith, hit.0, hit.1))
slide-Slid root best (c ∷ text) =
    let walked = match-Walked root 0 best (c ∷ text) in
    let better : Best = match_from root 0 best (c ∷ text) in
    let rest = slide-Slid root better text in
    record {
      kept = omega (arith, walked.kept, rest.kept);
      covers = λ i.
          elim i
            as (λ i.
              (k : ℕ) (name : Bytes)
              → Hit root (drop i (c ∷ text)) k name
              → k ≤ (slide root better text).1) [
                | zero ↦ λ k name hit.
                    let reached = walked.covers k name hit in omega (arith, reached, rest.kept)
                | suc j ↦ λ k name hit. rest.covers j k name hit
              ];
      met = elim rest.met [
        | inl same ↦ elim walked.met [
          | inl unchanged ↦ inl (same ∙ unchanged)
          | inr (k, name, hit, e) ↦
              inr (0, k, name, hit, same ∙ e ∙ ap (λ (l : ℕ). (some name, l)) (omega arith))
        ]
        | inr (i, k, name, hit, e) ↦ inr (suc i, k, name, hit, e)
      ];
    }
