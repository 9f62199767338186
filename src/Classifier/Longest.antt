-- ===== src/Classifier/Longest.antt =====
-- The classifier finds the longest registered pattern that occurs in the user agent.
use botshield.Prelude.{
  ℕ, zero, suc, ◌≤◌, ◌<◌, ◌≡◌, sym, subst, ◌∙◌, ap, Option, none, some, List, [], ◌∷◌, Bytes, arith,
  length, take, drop, inl, inr,
}
use botshield.Robots.Agents.{to_lower}
use botshield.Classifier.{Best, slide, classify}
use botshield.Classifier.Stored.{stored, lower, built, last_name, stored-built}
use botshield.Classifier.Walk.{Hit, Slid, slide-Slid}

-- At place `i` of the user agent, `k` characters are, but for case, a registered pattern, and this is
-- the name last registered for it.
Occurs : List (Bytes × Bytes) → Bytes → ℕ → ℕ → Bytes → Type 0
Occurs rows ua i k name =
    (0 < k) × (k ≤ length (drop i ua)) × (last_name rows (lower (take k (drop i ua))) ≡ some name)

-- With no name, no registered pattern occurs; a name is that of an occurring pattern, and no longer
-- one occurs.
unfoldable pub IsLongest : List (Bytes × Bytes) → Bytes → Option Bytes → Type 0
unfolding Occurs
IsLongest rows ua none = (i k : ℕ) (name : Bytes) → Occurs rows ua i k name → ⊥
IsLongest rows ua (some name) =
    (i : ℕ) × (k : ℕ) × Occurs rows ua i k name
    × ((j l : ℕ) (other : Bytes) → Occurs rows ua j l other → l ≤ k)

stored-lower :
    (rows : List (Bytes × Bytes)) (k : ℕ) (text : Bytes)
    → 0 < k
    → k ≤ length text
    → stored (built rows) (lower (take k text)) ≡ last_name rows (lower (take k text))
stored-lower rows zero text some_left fits = absurd (omega (arith, some_left))
stored-lower rows (suc k) [] some_left fits = absurd (omega (arith, fits))
stored-lower rows (suc k) (c ∷ text) some_left fits =
    stored-built rows (to_lower c) (lower (take k text))

Hit-Occurs :
    (rows : List (Bytes × Bytes)) (ua : Bytes) (i k : ℕ) (name : Bytes)
    → Hit (built rows) (drop i ua) k name
    → Occurs rows ua i k name
unfolding Occurs
Hit-Occurs rows ua i k name (some_left, fits, held) =
    (some_left, fits, sym (stored-lower rows k (drop i ua) some_left fits) ∙ held)

Occurs-Hit :
    (rows : List (Bytes × Bytes)) (ua : Bytes) (i k : ℕ) (name : Bytes)
    → Occurs rows ua i k name
    → Hit (built rows) (drop i ua) k name
unfolding Occurs
Occurs-Hit rows ua i k name (some_left, fits, held) =
    (some_left, fits, stored-lower rows k (drop i ua) some_left fits ∙ held)

Occurs-from :
    (rows : List (Bytes × Bytes)) (ua : Bytes) (i k : ℕ) (name : Bytes)
    → Occurs rows ua i k name
    → 0 < k
unfolding Occurs
Occurs-from rows ua i k name occurs = occurs.0

Slid-IsLongest :
    (rows : List (Bytes × Bytes)) (ua : Bytes) (after : Best)
    → Slid (built rows) (none, 0) ua after
    → IsLongest rows ua after.0
unfolding IsLongest
Slid-IsLongest rows ua (none, len) slid = elim slid.met [
  | inl same ↦ λ i k name occurs.
      let reached = slid.covers i k name (Occurs-Hit rows ua i k name occurs) in
      let zero_len : len ≡ 0 = ap (λ (b : Best). b.1) same in
      absurd (omega (arith, reached, zero_len, Occurs-from rows ua i k name occurs))
  | inr (i, k, name, hit, e) ↦ absurd (ground (arith, ap (λ (b : Best). b.0) e))
]
Slid-IsLongest rows ua (some name, len) slid = elim slid.met [
  | inl same ↦ absurd (ground (arith, ap (λ (b : Best). b.0) same))
  | inr (i, k, n, hit, e) ↦
      let same_name : n ≡ name = sym (ap (λ (b : Best). elim b.0 [ none ↦ name | some x ↦ x ]) e) in
      let same_len : len ≡ k = ap (λ (b : Best). b.1) e in
      (
        i,
        k,
        Hit-Occurs rows ua i k name (subst (Hit (built rows) (drop i ua) k) same_name hit),
        λ j l other occurs.
            let reached = slid.covers j l other (Occurs-Hit rows ua j l other occurs) in
            omega (arith, reached, same_len),
      )
]

-- The classifier built from any sequence of registrations names the longest registered pattern that
-- occurs in the user agent, whatever the case of either, by the name last registered for it; if it
-- gives no name, no registered pattern occurs.
pub classify-IsLongest :
    (rows : List (Bytes × Bytes)) (ua : Bytes) → IsLongest rows ua (classify (built rows) ua)
unfolding classify
classify-IsLongest rows ua =
    Slid-IsLongest rows ua (slide (built rows) (none, 0) ua) (slide-Slid (built rows) (none, 0) ua)
