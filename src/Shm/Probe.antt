-- ===== src/Shm/Probe.antt =====
-- What the reader's search finds after a slot was overwritten.
use botshield.Prelude.{
  ℕ, zero, suc, ◌+◌, ◌%◌, ◌<◌, ◌≡◌, ◌≢◌, refl, sym, Bool, true, false, none, some, List, [], ◌∷◌,
  arith, if◌then◌else◌, length, get_or, set, get_or-set_self, get_or-set_ne, Bool-cases, ◌⊎◌, inl,
  inr, ℕ_discrete,
}
use botshield.Shm.Slots.{find, window}

module _ {A : Type 0} (blank : A) (accepts : A → Bool) where
  -- `j` stands in the window and no slot before it is accepted.
  abbrev pub Reaches : List A → ℕ → List ℕ → Type 0
  Reaches table j [] = ⊥
  Reaches table j (idx ∷ rest) =
      (idx ≡ j) ⊎ ((accepts (get_or table idx blank) ≡ false) × Reaches table j rest)

  pub find-Reaches :
      (table : List A) (j : ℕ) (idxs : List ℕ)
      → accepts (get_or table j blank) ≡ true
      → Reaches table j idxs
      → find blank accepts table idxs ≡ some (get_or table j blank)
  unfolding find
  find-Reaches table j [] h r = elim r [ ]
  find-Reaches table j (idx ∷ rest) h r = elim r [
    | inl e ↦ rw (e, h)
    | inr r' ↦ rw (r'.0, find-Reaches table j rest h r'.1)
  ]

  -- A slot that is accepted and reached is what the reader finds.
  pub find-set_self :
      (table : List A) (j : ℕ) (slot : A) (idxs : List ℕ)
      → j < length table
      → accepts slot ≡ true
      → Reaches table j idxs
      → find blank accepts (set table j slot) idxs ≡ some slot
  unfolding find
  find-set_self table j slot [] h ok r = elim r [ ]
  find-set_self table j slot (idx ∷ rest) h ok r = elim (ℕ_discrete idx j) [
    | yes e ↦ rw (e, get_or-set_self table j slot blank h, ok)
    | no ne ↦ elim r [
      | inl e ↦ absurd (ne e)
      | inr r' ↦ rw (
        get_or-set_ne table j idx slot blank (λ e. ne (sym e)),
        r'.0,
        find-set_self table j slot rest h ok r'.1,
      )
    ]
  ]

  -- A slot that the reader did not accept may be overwritten by one that it does not accept.
  pub find-set_other :
      (table : List A) (j : ℕ) (slot : A) (idxs : List ℕ)
      → j < length table
      → accepts (get_or table j blank) ≡ false
      → accepts slot ≡ false
      → find blank accepts (set table j slot) idxs ≡ find blank accepts table idxs
  unfolding find
  find-set_other table j slot [] h old new = refl
  find-set_other table j slot (idx ∷ rest) h old new = elim (ℕ_discrete idx j) [
    | yes e ↦ rw (
      e,
      get_or-set_self table j slot blank h,
      new,
      old,
      find-set_other table j slot rest h old new,
    )
    | no ne ↦ rw (
      get_or-set_ne table j idx slot blank (λ e. ne (sym e)),
      find-set_other table j slot rest h old new,
    )
  ]

abbrev pub In : ℕ → List ℕ → Type 0
In j [] = ⊥
In j (idx ∷ rest) = (idx ≡ j) ⊎ In j rest

module _ {A : Type 0} (blank : A) (accepts : A → Bool) where
  pub Reaches-In :
      (table : List A) (j : ℕ) (idxs : List ℕ) → Reaches blank accepts table j idxs → In j idxs
  Reaches-In table j [] r = r
  Reaches-In table j (idx ∷ rest) r = elim r [
    | inl e ↦ inl e
    | inr r' ↦ inr (Reaches-In table j rest r'.1)
  ]

  pub find-none :
      (table : List A) (idxs : List ℕ)
      → ((i : ℕ) → In i idxs → accepts (get_or table i blank) ≡ false)
      → find blank accepts table idxs ≡ none
  unfolding find
  find-none table [] no_one = refl
  find-none table (idx ∷ rest) no_one =
      rw (no_one idx (inl refl), find-none table rest (λ i mi. no_one i (inr mi)))

  found_first :
      (table : List A) (idx : ℕ) (x : A) (rest : List ℕ)
      → accepts (get_or table idx blank) ≡ true
      → find blank accepts table (idx ∷ rest) ≡ some x
      → get_or table idx blank ≡ x
  unfolding find
  found_first table idx x rest a h =
      let e : some (get_or table idx blank) ≡ some x = rw a at h in cc

  -- Overwriting a slot other than the one found, by one that is not accepted, changes nothing.
  pub find-set_unrelated :
      (table : List A) (j : ℕ) (slot x : A) (idxs : List ℕ)
      → j < length table
      → get_or table j blank ≢ x
      → accepts slot ≡ false
      → find blank accepts table idxs ≡ some x
      → find blank accepts (set table j slot) idxs ≡ some x
  unfolding find
  find-set_unrelated table j slot x [] lt ne no_slot h = h
  find-set_unrelated table j slot x (idx ∷ rest) lt ne no_slot h = elim (ℕ_discrete idx j) [
    | yes e ↦ elim (Bool-cases (accepts (get_or table idx blank))) [
      | inl a ↦ absurd (ne (rw (← e) (found_first table idx x rest a h)))
      | inr a ↦
          rw (e, get_or-set_self table j slot blank lt, no_slot)
            (find-set_unrelated table j slot x rest lt ne no_slot (rw a at h))
    ]
    | no n ↦ elim (Bool-cases (accepts (get_or table idx blank))) [
      | inl a ↦ rw (get_or-set_ne table j idx slot blank (λ e. n (sym e)), a) (rw a at h)
      | inr a ↦
          rw (get_or-set_ne table j idx slot blank (λ e. n (sym e)), a)
            (find-set_unrelated table j slot x rest lt ne no_slot (rw a at h))
    ]
  ]

  -- Where no slot but the `k`-th can be accepted, that one decides the search.
  pub find_only :
      (table : List A) (k : ℕ) (idxs : List ℕ)
      → ((i : ℕ) → In i idxs → i ≢ k → accepts (get_or table i blank) ≡ false)
      → In k idxs
      → find blank accepts table idxs
        ≡ (if accepts (get_or table k blank) then some (get_or table k blank) else none)
  unfolding find
  find_only table k [] only m = elim m [ ]
  find_only table k (idx ∷ rest) only m = elim (Bool-cases (accepts (get_or table k blank))) [
    | inl a ↦ elim (ℕ_discrete idx k) [
      | yes e ↦ rw (e, a)
      | no ne ↦ elim m [
        | inl e ↦ absurd (ne e)
        | inr m' ↦ rw (only idx (inl refl) ne, find_only table k rest (λ i mi. only i (inr mi)) m')
      ]
    ]
    | inr a ↦ rw a (
        find-none table (idx ∷ rest)
          (λ i mi. elim (ℕ_discrete i k) [ yes e ↦ rw e a | no ne ↦ only i mi ne ]))
  ]

-- A reader that accepts less still reaches the slot.
pub Reaches-weaken :
    {A : Type 0} (blank : A) (p q : A → Bool) (table : List A) (j : ℕ) (idxs : List ℕ)
    → ((x : A) → p x ≡ false → q x ≡ false)
    → Reaches blank p table j idxs
    → Reaches blank q table j idxs
Reaches-weaken blank p q table j [] h r = r
Reaches-weaken blank p q table j (idx ∷ rest) h r = elim r [
  | inl e ↦ inl e
  | inr r' ↦ inr (h (get_or table idx blank) r'.0, Reaches-weaken blank p q table j rest h r'.1)
]

-- The bucket starts its own window.
pub bucket_first : (base capacity : ℕ) → base < capacity → (base + 0) % capacity ≡ base
bucket_first base capacity h = grind arith

-- The slots of a window stand inside the table.
pub window-lt :
    {A : Type 0} (blank : A) (accepts : A → Bool) (table : List A) (base capacity i n : ℕ) {j : ℕ}
    → 0 < capacity
    → Reaches blank accepts table j (window base capacity i n)
    → j < capacity
unfolding window
window-lt blank accepts table base capacity i zero h r = elim r [ ]
window-lt blank accepts table base capacity i (suc n) h r = elim r [
  | inl e ↦ omega arith
  | inr r' ↦ window-lt blank accepts table base capacity (i + 1) n h r'.1
]
