-- ===== src/Classifier/Stored.antt =====
-- What the trie holds after a sequence of registrations.
use botshield.Prelude.{
  ℕ, ◌≡◌, refl, sym, subst, ◌∙◌, ap, false, Option, none, some, List, [], ◌∷◌, Bytes, arith, ◌==◌,
  ==_refl, if◌then◌else◌, map, bytes_eq, inl, inr, Bool-cases, Option-cases,
}
use botshield.Robots.Agents.{to_lower}
use botshield.Classifier.{
  Node, node, Kids, no_kids, kid, empty, kids_of, name_of, find_kid, edge_get_or_add, register,
  classifier_add,
}

-- The name at the end of the path that a lower-case text takes.
unfoldable pub stored : Node → Bytes → Option Bytes
stored n [] = name_of n
stored n (c ∷ text) = elim (find_kid c (kids_of n)) [ none ↦ none | some child ↦ stored child text ]

abbrev pub lower : Bytes → Bytes
lower text = map to_lower text

stored-empty : (text : Bytes) → stored empty text ≡ none
unfolding stored find_kid
stored-empty [] = refl
stored-empty (c ∷ text) = refl

-- The child that is found after one was changed or added.
abbrev or_empty : Option Node → Node
or_empty none = empty
or_empty (some n) = n

find_kid_self :
    (c : ℕ) (change : Node → Node) (kids : Kids)
    → find_kid c (edge_get_or_add c change kids) ≡ some (change (or_empty (find_kid c kids)))
unfolding find_kid edge_get_or_add
find_kid_self c change no_kids = rw (==_refl c) refl
find_kid_self c change (kid d child rest) = elim (Bool-cases (d == c)) [
  | inl e ↦ rw (e, e) refl
  | inr e ↦ rw (e, e) (find_kid_self c change rest)
]

find_kid_other :
    (c b : ℕ) (change : Node → Node) (kids : Kids)
    → (c == b) ≡ false
    → find_kid b (edge_get_or_add c change kids) ≡ find_kid b kids
unfolding find_kid edge_get_or_add
find_kid_other c b change no_kids h = rw h refl
find_kid_other c b change (kid d child rest) h = elim (Bool-cases (d == c)) [
  | inl e ↦ let other : (d == b) ≡ false = ground (arith, e, h) in rw (e, other) refl
  | inr e ↦ rw (e, find_kid_other c b change rest h) refl
]

pub stored-none :
    (n : Node) (c : ℕ) (text : Bytes) → find_kid c (kids_of n) ≡ none → stored n (c ∷ text) ≡ none
unfolding stored
stored-none n c text e = rw (stored, e) refl

pub stored-some :
    (n child : Node) (c : ℕ) (text : Bytes)
    → find_kid c (kids_of n) ≡ some child
    → stored n (c ∷ text) ≡ stored child text
unfolding stored
stored-some n child c text e = rw (stored, e) refl

stored-or_empty :
    (n : Node) (c : ℕ) (text : Bytes)
    → stored (or_empty (find_kid c (kids_of n))) text ≡ stored n (c ∷ text)
stored-or_empty n c text = elim (Option-cases (find_kid c (kids_of n))) [
  | inl e ↦ rw e (stored-empty text ∙ sym (stored-none n c text e))
  | inr (child, e) ↦ rw e (sym (stored-some n child c text e))
]

stored-same_kid :
    (n m : Node) (c : ℕ) (text : Bytes)
    → find_kid c (kids_of n) ≡ find_kid c (kids_of m)
    → stored n (c ∷ text) ≡ stored m (c ∷ text)
stored-same_kid n m c text e = elim (Option-cases (find_kid c (kids_of m))) [
  | inl f ↦ stored-none n c text (e ∙ f) ∙ sym (stored-none m c text f)
  | inr (child, f) ↦ stored-some n child c text (e ∙ f) ∙ sym (stored-some m child c text f)
]

-- A registration changes the name at its own pattern, and at no other.
pub stored-register :
    (name pattern text : Bytes) (n : Node)
    → stored (register name pattern n) text
      ≡ (if bytes_eq (lower pattern) text then some name else stored n text)
unfolding register bytes_eq
stored-register name [] [] (node old kids) = unfold stored in refl
stored-register name [] (c ∷ text) (node old kids) =
    stored-same_kid (node (some name) kids) (node old kids) c text refl
stored-register name (c ∷ pattern) [] (node old kids) = unfold stored in refl
stored-register name (c ∷ pattern) (b ∷ text) (node old kids) =
    elim (Bool-cases (to_lower c == b)) [
      | inl e ↦
          let same : to_lower c ≡ b = ground (arith, e) in
          let deeper = stored-register name pattern text (or_empty (find_kid b kids)) in
          rw e (
            stored-some (node old (edge_get_or_add (to_lower c) (register name pattern) kids))
              (register name pattern (or_empty (find_kid b kids))) b text
              (subst
                (λ (k : ℕ).
                  find_kid k (edge_get_or_add (to_lower c) (register name pattern) kids)
                  ≡ some (register name pattern (or_empty (find_kid k kids))))
                same (find_kid_self (to_lower c) (register name pattern) kids))
            ∙ deeper
            ∙ ap (λ (o : Option Bytes). if bytes_eq (lower pattern) text then some name else o)
                (stored-or_empty (node old kids) b text))
      | inr e ↦ rw e (
          stored-same_kid (node old (edge_get_or_add (to_lower c) (register name pattern) kids))
            (node old kids) b text (find_kid_other (to_lower c) b (register name pattern) kids e))
    ]

-- Names and patterns as they are registered, one after the other, from an empty trie.
unfoldable pub built : List (Bytes × Bytes) → Node
built [] = empty
built ((name, pattern) ∷ earlier) = (classifier_add name pattern (built earlier)).1

-- The name last registered for a pattern that is the text but for case.
unfoldable pub last_name : List (Bytes × Bytes) → Bytes → Option Bytes
last_name [] text = none
last_name ((name, pattern) ∷ earlier) text =
    let before = last_name earlier text in
    if bytes_eq (lower pattern) text then some name else before

-- The texts at which the trie holds a name are the registered patterns.
pub stored-built :
    (rows : List (Bytes × Bytes)) (c : ℕ) (text : Bytes)
    → stored (built rows) (c ∷ text) ≡ last_name rows (c ∷ text)
unfolding built last_name classifier_add bytes_eq
stored-built [] c text = stored-empty (c ∷ text)
stored-built ((name, []) ∷ earlier) c text = stored-built earlier c text
stored-built ((name, d ∷ pattern) ∷ earlier) c text =
    stored-register name (d ∷ pattern) (c ∷ text) (built earlier)
    ∙ ap (λ (o : Option Bytes). if bytes_eq (lower (d ∷ pattern)) (c ∷ text) then some name else o)
        (stored-built earlier c text)
