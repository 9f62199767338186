-- ===== src/Robots/Query/Best.antt =====
-- The verdict that a robots.txt query keeps describes the rules that it has weighed.
use botshield.Prelude.{
  ℕ, ◌<◌, ◌≡◌, refl, sym, ◌∙◌, subst, Bool, true, false, not, ◌&&◌, Option, none, some, arith, ltb,
  ◌==◌, ◌⊎◌, ◌↔◌, inl, inr, Bool-cases,
}
use botshield.Robots.Query.{Verdict, improve}

-- The verdict is the longest of a set of rules, and allows if a longest one does.
abbrev pub Describes : (ℕ → Bool → Type 0) → Option Verdict → Type 0
Describes S none = (n : ℕ) (a : Bool) → S n a → ⊥
Describes S (some v) =
    S v.len v.allow
    × ((n : ℕ) (a : Bool) → S n a → (n < v.len) ⊎ ((n ≡ v.len) × (a ≡ true → v.allow ≡ true)))

pub Describes-ext :
    (S T : ℕ → Bool → Type 0) (best : Option Verdict)
    → ((n : ℕ) (a : Bool) → S n a → T n a)
    → ((n : ℕ) (a : Bool) → T n a → S n a)
    → Describes S best
    → Describes T best
Describes-ext S T none f g d = λ n a t. d n a (g n a t)
Describes-ext S T (some v) f g d = (f v.len v.allow d.0, λ n a t. d.1 n a (g n a t))

abbrev pub With : (ℕ → Bool → Type 0) → ℕ → Bool → ℕ → Bool → Type 0
With S len allow n a = S n a ⊎ ((len ≡ n) × (allow ≡ a))

pub improve-Describes :
    (S : ℕ → Bool → Type 0) (len : ℕ) (allow : Bool) (i : ℕ) (best : Option Verdict)
    → Describes S best
    → Describes (With S len allow) (improve len allow i best)
improve-Describes S len allow i none d = (inr (refl, refl), last)
  where
    last :
        (n : ℕ) (a : Bool)
        → With S len allow n a
        → (n < len) ⊎ ((n ≡ len) × (a ≡ true → allow ≡ true))
    last n a (inl s) = absurd (d n a s)
    last n a (inr (e, f)) = inr (sym e, λ h. f ∙ h)
improve-Describes S len allow i (some v) d = elim (Bool-cases (ltb v.len len)) [
  | inl longer ↦ rw longer (inr (refl, refl), longest longer)
  | inr short ↦ elim (Bool-cases (len == v.len && (allow && not v.allow))) [
    | inl tie ↦ rw (short, tie) (inr (ground (arith, tie)), ties short tie)
    | inr rest ↦ rw (short, rest) (inl d.0, keeps short rest)
  ]
]
  where
    longest :
        ltb v.len len ≡ true
        → (n : ℕ) (a : Bool) → With S len allow n a
        → (n < len) ⊎ ((n ≡ len) × (a ≡ true → allow ≡ true))
    longest l n a (inl s) =
        inl (elim (d.1 n a s) [ inl lt ↦ ground (arith, l, lt) | inr e ↦ ground (arith, l, e.0) ])
    longest l n a (inr (e, f)) = inr (sym e, λ h. f ∙ h)

    ties :
        ltb v.len len ≡ false
        → (len == v.len && (allow && not v.allow)) ≡ true
        → (n : ℕ) (a : Bool) → With S len allow n a
        → (n < v.len) ⊎ ((n ≡ v.len) × (a ≡ true → true ≡ true))
    ties l t n a (inl s) = elim (d.1 n a s) [ inl lt ↦ inl lt | inr e ↦ inr (e.0, λ h. refl) ]
    ties l t n a (inr (e, f)) = inr (ground (arith, t, e), λ h. refl)

    keeps :
        ltb v.len len ≡ false
        → (len == v.len && (allow && not v.allow)) ≡ false
        → (n : ℕ) (a : Bool) → With S len allow n a
        → (n < v.len) ⊎ ((n ≡ v.len) × (a ≡ true → v.allow ≡ true))
    keeps l t n a (inl s) = d.1 n a s
    keeps l t n a (inr (e, f)) = elim (Bool-cases (ltb n v.len)) [
      | inl lt ↦ inl (ground (arith, lt))
      | inr ge ↦ inr (ground (arith, ge, l, e), λ h. ground (arith, ge, l, e, f, h, t))
    ]

-- The longest rule refuses and none as long allows.
abbrev pub Refused : (ℕ → Bool → Type 0) → Type 0
Refused S = (n : ℕ) × S n false × ((m : ℕ) → S m true → m < n)

pub Describes-allow :
    (S : ℕ → Bool → Type 0) (v : Verdict) → Describes S (some v) → (v.allow ≡ false) ↔ Refused S
Describes-allow S v d = (refuses, refused)
  where
    refuses : v.allow ≡ false → Refused S
    refuses h = (
      v.len,
      subst (S v.len) h d.0,
      λ m s. elim (d.1 m true s) [ inl lt ↦ lt | inr e ↦ absurd (ground (arith, h, e.1 refl)) ],
    )

    refused : Refused S → v.allow ≡ false
    refused r = elim (Bool-cases v.allow) [
      | inr no_allow ↦ no_allow
      | inl allows ↦
          let longer : v.len < r.0 = r.2 v.len (subst (S v.len) allows d.0) in
          elim (d.1 r.0 false r.1) [
            | inl lt ↦ absurd (omega (arith, lt, longer))
            | inr e ↦ absurd (omega (arith, e.0, longer))
          ]
    ]
