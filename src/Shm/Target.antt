-- ===== src/Shm/Target.antt =====
-- Where a writer's scan ends, and what stood there.
use botshield.Prelude.{
  length, ℕ, suc, ◌<◌, ◌≡◌, ◌≢◌, refl, sym, Bool, true, false, Option, none, some, List, [], ◌∷◌,
  arith, get_or, Bool-cases, ◌⊎◌, inl, inr,
}
use botshield.Shm.Slots.{Scan, hit, miss, scan, target, find, window}
use botshield.Shm.Probe.{Reaches, In, bucket_first, find-Reaches, window-lt}

module _ {A : Type 0} (blank : A) (matches reusable : A → Bool) (table : List A) where
  abbrev pub NoMatch : List ℕ → Type 0
  NoMatch [] = Unit
  NoMatch (idx ∷ rest) = (matches (get_or table idx blank) ≡ false) × NoMatch rest

  abbrev pub Ends : Option ℕ → List ℕ → Scan → Type 0
  Ends victim idxs (hit j) =
      (matches (get_or table j blank) ≡ true) × Reaches blank matches table j idxs
  Ends (some v) idxs (miss o) = NoMatch idxs × (o ≡ some v)
  Ends none idxs (miss none) = NoMatch idxs
  Ends none idxs (miss (some v)) =
      NoMatch idxs × (reusable (get_or table v blank) ≡ true) × Reaches blank matches table v idxs

  pub find-NoMatch : (idxs : List ℕ) → NoMatch idxs → find blank matches table idxs ≡ none
  unfolding find
  find-NoMatch [] h = refl
  find-NoMatch (idx ∷ rest) h = rw (h.0, find-NoMatch rest h.1)

  pub NoMatch-In :
      (idxs : List ℕ) (i : ℕ) → NoMatch idxs → In i idxs → matches (get_or table i blank) ≡ false
  NoMatch-In [] i h m = elim m [ ]
  NoMatch-In (idx ∷ rest) i h m = elim m [
    | inl e ↦ rw (← e) h.0
    | inr m' ↦ NoMatch-In rest i h.1 m'
  ]

  Ends-skip :
      (victim : Option ℕ) (idx : ℕ) (rest : List ℕ) (out : Scan)
      → matches (get_or table idx blank) ≡ false
      → Ends victim rest out
      → Ends victim (idx ∷ rest) out
  Ends-skip victim idx rest (hit j) h e = (e.0, inr (h, e.1))
  Ends-skip (some v) idx rest (miss o) h e = ((h, e.0), e.1)
  Ends-skip none idx rest (miss none) h e = (h, e)
  Ends-skip none idx rest (miss (some v)) h e = ((h, e.0), e.1, inr (h, e.2))

  Ends-take :
      (idx : ℕ) (rest : List ℕ) (out : Scan)
      → matches (get_or table idx blank) ≡ false
      → reusable (get_or table idx blank) ≡ true
      → Ends (some idx) rest out
      → Ends none (idx ∷ rest) out
  Ends-take idx rest (hit j) h r e = (e.0, inr (h, e.1))
  Ends-take idx rest (miss none) h r e = absurd (ground (arith, e.1))
  Ends-take idx rest (miss (some v)) h r e =
      let same : v ≡ idx = ground (arith, e.1) in ((h, e.0), rw same r, inl (sym same))

  -- What a scan says of the window.
  pub scan-Ends :
      (victim : Option ℕ) (idxs : List ℕ)
      → Ends victim idxs (scan blank matches reusable table victim idxs)
  unfolding scan
  scan-Ends none [] = tt
  scan-Ends (some v) [] = (tt, refl)
  scan-Ends none (idx ∷ rest) = elim (Bool-cases (matches (get_or table idx blank))) [
    | inl m ↦ rw m (m, inl refl)
    | inr m ↦ elim (Bool-cases (reusable (get_or table idx blank))) [
      | inl r ↦ rw (m, r) (Ends-take idx rest _ m r (scan-Ends (some idx) rest))
      | inr r ↦ rw (m, r) (Ends-skip none idx rest _ m (scan-Ends none rest))
    ]
  ]
  scan-Ends (some v) (idx ∷ rest) = elim (Bool-cases (matches (get_or table idx blank))) [
    | inl m ↦ rw m (m, inl refl)
    | inr m ↦ elim (Bool-cases (reusable (get_or table idx blank))) [
      | inl r ↦ rw (m, r) (Ends-skip (some v) idx rest _ m (scan-Ends (some v) rest))
      | inr r ↦ rw (m, r) (Ends-skip (some v) idx rest _ m (scan-Ends (some v) rest))
    ]
  ]

  -- Whatever the scan says, its target stands in the window with no match before it.
  pub target-Reaches :
      (base capacity n : ℕ)
      → base < capacity
      → Reaches blank matches table
          (target base (scan blank matches reusable table none (window base capacity 0 (suc n))))
          (window base capacity 0 (suc n))
  target-Reaches base capacity n h =
      go (scan blank matches reusable table none (window base capacity 0 (suc n)))
        (scan-Ends none (window base capacity 0 (suc n)))
    where
      go :
          (out : Scan)
          → Ends none (window base capacity 0 (suc n)) out
          → Reaches blank matches table (target base out) (window base capacity 0 (suc n))
      go (hit j) e = e.1
      go (miss none) e = unfold window in inl (bucket_first base capacity h)
      go (miss (some v)) e = e.2

  scan-some : (v : ℕ) (idxs : List ℕ) → scan blank matches reusable table (some v) idxs ≢ miss none
  unfolding scan
  scan-some v [] e = ground (arith, e)
  scan-some v (idx ∷ rest) e = elim (Bool-cases (matches (get_or table idx blank))) [
    | inl m ↦ ground (arith, rw m at e)
    | inr m ↦ elim (Bool-cases (reusable (get_or table idx blank))) [
      | inl r ↦ scan-some v rest (rw (m, r) at e)
      | inr r ↦ scan-some v rest (rw (m, r) at e)
    ]
  ]

  -- A window with a match or with a slot to reuse is not saturated.
  pub scan_room :
      (idxs : List ℕ) (i : ℕ)
      → In i idxs
      → (matches (get_or table i blank) ≡ true) ⊎ (reusable (get_or table i blank) ≡ true)
      → scan blank matches reusable table none idxs ≢ miss none
  unfolding scan
  scan_room [] i m room e = elim m [ ]
  scan_room (idx ∷ rest) i m room e = elim (Bool-cases (matches (get_or table idx blank))) [
    | inl y ↦ ground (arith, rw y at e)
    | inr n ↦ elim (Bool-cases (reusable (get_or table idx blank))) [
      | inl r ↦ scan-some idx rest (rw (n, r) at e)
      | inr r ↦ elim m [
        | inl same ↦ elim (rw (← same) at room) [
          | inl y ↦ absurd (ground (arith, y, n))
          | inr y ↦ absurd (ground (arith, y, r))
        ]
        | inr later ↦ scan_room rest i later room (rw (n, r) at e)
      ]
    ]
  ]

  -- Short of saturation the target held a match or could be reused.
  pub target_old :
      (base : ℕ) (idxs : List ℕ)
      → scan blank matches reusable table none idxs ≢ miss none
      → (matches (get_or table (target base (scan blank matches reusable table none idxs)) blank)
          ≡ true)
        ⊎ (reusable (get_or table (target base (scan blank matches reusable table none idxs)) blank)
            ≡ true)
  target_old base idxs = go (scan blank matches reusable table none idxs) (scan-Ends none idxs)
    where
      go :
          (out : Scan)
          → Ends none idxs out
          → out ≢ miss none
          → (matches (get_or table (target base out) blank) ≡ true)
            ⊎ (reusable (get_or table (target base out) blank) ≡ true)
      go (hit j) e ne = inl e.0
      go (miss none) e ne = absurd (ne refl)
      go (miss (some v)) e ne = inr e.1

-- The target stands inside the table.
pub target-lt :
    {A : Type 0} (blank : A) (matches reusable : A → Bool) (table : List A) (base capacity n : ℕ)
    → base < capacity
    → length table ≡ capacity
    → target base (scan blank matches reusable table none (window base capacity 0 (suc n)))
      < length table
target-lt blank matches reusable table base capacity n h e = rw e (
    window-lt blank matches table base capacity 0 (suc n) (omega arith)
      (target-Reaches blank matches reusable table base capacity n h))

-- The slot of a match.
abbrev pub found_at : {A : Type 0} → A → List A → Scan → Option A
found_at blank table (hit j) = some (get_or table j blank)
found_at blank table (miss v) = none

-- Where nothing matched, the search finds nothing; at a match it finds that slot.
pub find-Ends :
    {A : Type 0} (blank : A) (matches reusable : A → Bool) (table : List A) (idxs : List ℕ)
    (out : Scan)
    → Ends blank matches reusable table none idxs out
    → find blank matches table idxs ≡ found_at blank table out
find-Ends blank matches reusable table idxs (hit j) e =
    find-Reaches blank matches table j idxs e.0 e.1
find-Ends blank matches reusable table idxs (miss none) e =
    find-NoMatch blank matches reusable table idxs e
find-Ends blank matches reusable table idxs (miss (some v)) e =
    find-NoMatch blank matches reusable table idxs e.0
