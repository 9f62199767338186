-- ===== src/Cookie/Fields.antt =====
-- The fields of a canonical text are found again by the split.
use botshield.Prelude.{
  c_string, ℕ, zero, suc, ◌+◌, ◌/◌, ◌%◌, ◌≤◌, ◌≡◌, refl, ◌∙◌, ap, Bool, true, false, not, ◌&&◌,
  some, List, [], ◌∷◌, ◌++◌, Bytes, arith, ◌==◌, ltb, length, inl, inr, Bool-cases, bytes_eq,
  bytes_eq→eq, subst,
}
use botshield.Codec.{to_hex}
use botshield.Codec.RoundTrip.{AllBytes, digit_code}
use botshield.Codec.Number.{digits_of, decimal}
use botshield.Cookie.{Algorithm, algorithms, search, bar, split_fields, joined}

-- Neither the separator nor the end of a string stands in the text.
abbrev pub is_clean : Bytes → Bool
is_clean [] = true
is_clean (c ∷ text) = not (c == 0) && (not (c == bar) && is_clean text)

abbrev pub all_clean : List Bytes → Bool
all_clean [] = true
all_clean (f ∷ fs) = is_clean f && all_clean fs

split-clean : (n : ℕ) (f : Bytes) → is_clean f ≡ true → split_fields n f ≡ f ∷ []
unfolding split_fields
split-clean zero f h = refl
split-clean (suc n) [] h = refl
split-clean (suc n) (c ∷ f) h =
    let plain : (c == bar) ≡ false = ground (arith, h) in
    rw (plain, split-clean (suc n) f (ground (arith, h))) refl

split-bar :
    (n : ℕ) (f rest : Bytes)
    → is_clean f ≡ true
    → split_fields (suc n) (f ++ (bar ∷ rest)) ≡ f ∷ split_fields n rest
unfolding split_fields
split-bar n [] rest h = refl
split-bar n (c ∷ f) rest h =
    let plain : (c == bar) ≡ false = ground (arith, h) in
    rw (plain, split-bar n f rest (ground (arith, h))) refl

split-joined :
    (n : ℕ) (f : Bytes) (fs : List Bytes)
    → length fs ≤ n
    → all_clean (f ∷ fs) ≡ true
    → split_fields n (joined (f ∷ fs)) ≡ f ∷ fs
unfolding joined
split-joined n f [] h clean = split-clean n f (ground (arith, clean))
split-joined zero f (g ∷ fs) h clean = absurd (omega (arith, h))
split-joined (suc n) f (g ∷ fs) h clean =
    split-bar n f (joined (g ∷ fs)) (ground (arith, clean))
    ∙ ap (λ rest. f ∷ rest) (split-joined n g fs (omega (arith, h)) (ground (arith, clean)))

c_string-clean-append :
    (f rest : Bytes) → is_clean f ≡ true → c_string (f ++ rest) ≡ f ++ c_string rest
unfolding c_string
c_string-clean-append [] rest h = refl
c_string-clean-append (c ∷ f) rest h =
    let plain : (c == 0) ≡ false = ground (arith, h) in
    rw (plain, c_string-clean-append f rest (ground (arith, h))) refl

append-nil : (f : Bytes) → f ++ [] ≡ f
append-nil [] = refl
append-nil (c ∷ f) = ap (λ rest. c ∷ rest) (append-nil f)

c_string-clean : (f : Bytes) → is_clean f ≡ true → c_string f ≡ f
unfolding c_string
c_string-clean [] h = refl
c_string-clean (c ∷ f) h =
    let plain : (c == 0) ≡ false = ground (arith, h) in
    rw (plain, c_string-clean f (ground (arith, h))) refl

c_string-joined :
    (f : Bytes) (fs : List Bytes)
    → all_clean (f ∷ fs) ≡ true
    → c_string (joined (f ∷ fs)) ≡ joined (f ∷ fs)
unfolding joined c_string
c_string-joined f [] clean = c_string-clean f (ground (arith, clean))
c_string-joined f (g ∷ fs) clean =
    c_string-clean-append f (bar ∷ joined (g ∷ fs)) (ground (arith, clean))
    ∙ ap (λ rest. f ++ (bar ∷ rest)) (c_string-joined g fs (ground (arith, clean)))

-- What is joined from clean fields, and read as a C string, is split into them.
pub split-joined-c_string :
    (n : ℕ) (f : Bytes) (fs : List Bytes)
    → length fs ≤ n
    → all_clean (f ∷ fs) ≡ true
    → split_fields n (c_string (joined (f ∷ fs))) ≡ f ∷ fs
split-joined-c_string n f fs h clean =
    ap (split_fields n) (c_string-joined f fs clean) ∙ split-joined n f fs h clean

clean-digits_of :
    (n v : ℕ) (out : Bytes) → is_clean out ≡ true → is_clean (digits_of n v out) ≡ true
unfolding digits_of
clean-digits_of zero v out h = h
clean-digits_of (suc n) v out h =
    let more = clean-digits_of n (v / 10) ((48 + v % 10) ∷ out) (ground (arith, h)) in
    elim (Bool-cases (ltb v 10)) [
      | inl small ↦ rw small (ground (arith, h, small))
      | inr big ↦ rw big more
    ]

pub clean-decimal : (v : ℕ) → is_clean (decimal v) ≡ true
clean-decimal v = clean-digits_of 20 v [] refl

pub clean-to_hex : (bytes : Bytes) → AllBytes bytes → is_clean (to_hex bytes) ≡ true
unfolding to_hex
clean-to_hex [] h = refl
clean-to_hex (b ∷ bytes) h =
    let rest = clean-to_hex bytes h.1 in
    rw (digit_code (b / 16) (omega (arith, h.0)), digit_code (b % 16) (omega arith))
      (ground (arith, rest))

abbrev names_clean : List Algorithm → Bool
names_clean [] = true
names_clean ((known, verifier) ∷ rest) = is_clean known && names_clean rest

clean-search :
    (rows : List Algorithm) (name : Bytes) (row : Algorithm)
    → names_clean rows ≡ true
    → search rows name ≡ some row
    → is_clean name ≡ true
unfolding search
clean-search [] name row clean h = absurd (ground (arith, h))
clean-search ((known, verifier) ∷ rest) name row clean h = elim (Bool-cases (bytes_eq known name)) [
  | inl e ↦
      subst (λ (n : Bytes). is_clean n ≡ true) (bytes_eq→eq known name e) (ground (arith, clean))
  | inr e ↦ clean-search rest name row (ground (arith, clean)) (rw (search, e) at h)
]

-- No name of the registry has a bar in it.
pub clean-algorithm :
    (name : Bytes) (row : Algorithm) → search algorithms name ≡ some row → is_clean name ≡ true
clean-algorithm name row h = clean-search algorithms name row refl h
