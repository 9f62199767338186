-- ===== src/Triggers/Cookies.antt =====
-- How the predicates of a cookie trigger divide the requests.
use botshield.Prelude.{
  ℕ, ◌+◌, ◌≤◌, ◌≡◌, refl, sym, Bool, true, false, not, ◌||◌, Option, none, some, List, [], ◌∷◌,
  Bytes, codes, arith, ==_refl, bytes_eq, bytes_eq→eq, inl, inr, Bool-cases, subst,
}
use botshield.Triggers.{
  CookieMap, CookiePred, named_absent, named_eq, named_ne, named_contains, bulk_none, bulk_any,
  bs_verified, bs_missing, bs_invalid, begins_with, contains, is_present, value_passes, is_state,
  is_empty_table, cookie_pred_match,
}

abbrev pub count : Bool → ℕ
count true = 1
count false = 0

begins_with_refl : (text : Bytes) → begins_with text text ≡ true
begins_with_refl [] = refl
begins_with_refl (c ∷ text) = rw (==_refl c) (begins_with_refl text)

contains_refl : (text : Bytes) → contains text text ≡ true
unfolding contains
contains_refl [] = refl
contains_refl (c ∷ text) = rw (begins_with_refl (c ∷ text)) refl

one_of_three :
    (o : Option Bytes) (value : Bytes)
    → count (not (is_present o))
        + count (value_passes (λ v. bytes_eq v value) o)
        + count (value_passes (λ v. not (bytes_eq v value)) o)
      ≡ 1
one_of_three none value = refl
one_of_three (some v) value = elim (Bool-cases (bytes_eq v value)) [
  | inl e ↦ rw e refl
  | inr e ↦ rw e refl
]

equal_contains :
    (o : Option Bytes) (value : Bytes)
    → count (value_passes (λ v. bytes_eq v value) o)
      ≤ count (value_passes (λ v. contains v value) o)
equal_contains none value = omega arith
equal_contains (some v) value = elim (Bool-cases (bytes_eq v value)) [
  | inl e ↦
      let held : contains v value ≡ true =
        subst (λ (w : Bytes). contains w value ≡ true) (sym (bytes_eq→eq v value e))
          (contains_refl value) in
      rw (e, held) (omega arith)
  | inr e ↦ rw e (omega arith)
]

-- A text is equal to one at most of three different ones.
states_exclude_text :
    (s a b c : Bytes)
    → bytes_eq a b ≡ false
    → bytes_eq a c ≡ false
    → bytes_eq b c ≡ false
    → count (bytes_eq s a) + count (bytes_eq s b) + count (bytes_eq s c) ≤ 1
states_exclude_text s a b c ab ac bc = elim (Bool-cases (bytes_eq s a)) [
  | inl e ↦
      let same : a ≡ s = sym (bytes_eq→eq s a e) in
      let not_b = subst (λ (w : Bytes). bytes_eq w b ≡ false) same ab in
      let not_c = subst (λ (w : Bytes). bytes_eq w c ≡ false) same ac in
      rw (e, not_b, not_c) (omega arith)
  | inr e ↦ elim (Bool-cases (bytes_eq s b)) [
    | inl d ↦
        let same : b ≡ s = sym (bytes_eq→eq s b d) in
        let not_c = subst (λ (w : Bytes). bytes_eq w c ≡ false) same bc in
        rw (e, d, not_c) (omega arith)
    | inr d ↦
        rw (e, d)
          (elim (Bool-cases (bytes_eq s c)) [
            | inl f ↦ rw f (omega arith)
            | inr f ↦ rw f (omega arith)
          ])
  ]
]

states_exclude :
    (o : Option Bytes)
    → count (is_state o (codes "verified"))
        + count (not (is_present o) || is_state o (codes "missing"))
        + count (is_state o (codes "invalid"))
      ≤ 1
states_exclude none = omega arith
states_exclude (some s) =
    states_exclude_text s (codes "verified") (codes "missing") (codes "invalid")
      (unfold bytes_eq in refl) (unfold bytes_eq in refl) (unfold bytes_eq in refl)

-- Of a named cookie exactly one holds: it is absent, or equal to a value, or different from it; an
-- equal one also contains the value. Of the predicates on all cookies, `none` and `any`, exactly one
-- holds; of the three on the module's own cookie, at most one.
pub cookie_preds_divide :
    (cmap : CookieMap) (session_names : List Bytes) (bs_state : Option Bytes) (name value : Bytes)
    → let holds : CookiePred → ℕ =
        λ pred. count (cookie_pred_match pred cmap session_names bs_state) in
      (holds (named_absent name) + holds (named_eq name value) + holds (named_ne name value) ≡ 1)
      × (holds (named_eq name value) ≤ holds (named_contains name value))
      × (holds bulk_none + holds bulk_any ≡ 1)
      × (holds bs_verified + holds bs_missing + holds bs_invalid ≤ 1)
unfolding cookie_pred_match
cookie_preds_divide cmap session_names bs_state name value = (
  one_of_three (cmap.get name) value,
  equal_contains (cmap.get name) value,
  bulk (is_empty_table cmap.keys),
  states_exclude bs_state,
)
  where
    bulk : (b : Bool) → count b + count (not b) ≡ 1
    bulk true = refl
    bulk false = refl
