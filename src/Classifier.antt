-- ===== src/Classifier.antt =====
-- The user-agent classifier of src/allowlist.c: a trie of patterns with lower-case edges, built by
-- `bs_ua_classifier_add` and read by `bs_ua_classify`.
pub mod Stored
pub mod Walk
pub mod Longest
use botshield.Prelude.{
  ℕ, zero, suc, ◌+◌, Bool, true, false, ◌&&◌, Option, none, some, List, [], ◌∷◌, Bytes, ltb, ◌==◌,
  if◌then◌else◌, length, map,
}
use botshield.Robots.Agents.{to_lower}

-- `bs_ua_trie_node` and its array of `bs_ua_trie_child`
mutual
  pub data Node : Type 0 where
    node : Option Bytes → Kids → Node

  pub data Kids : Type 0 where
    no_kids : Kids
    kid : ℕ → Node → Kids → Kids

abbrev pub empty : Node
empty = node none no_kids

abbrev pub kids_of : Node → Kids
kids_of (node name kids) = kids

abbrev pub name_of : Node → Option Bytes
name_of (node name kids) = name

unfoldable pub find_kid : ℕ → Kids → Option Node
find_kid c no_kids = none
find_kid c (kid d child rest) =
    let onward = find_kid c rest in if d == c then some child else onward

-- `bs_ua_trie_walk`
abbrev pub trie_walk : Node → ℕ → Option Node
trie_walk n c = find_kid (to_lower c) (kids_of n)

-- `bs_ua_trie_edge_get_or_add`, with what becomes of the child that it returns.
unfoldable pub edge_get_or_add : ℕ → (Node → Node) → Kids → Kids
edge_get_or_add c change no_kids = kid c (change empty) no_kids
edge_get_or_add c change (kid d child rest) =
    let onward = edge_get_or_add c change rest in
    if d == c then kid d (change child) rest else kid d child onward

-- The loop of `bs_ua_classifier_add`: the node at the end of the pattern gets the name.
unfoldable pub register : Bytes → Bytes → Node → Node
register name [] (node old kids) = node (some name) kids
register name (c ∷ pattern) (node old kids) =
    node old (edge_get_or_add (to_lower c) (register name pattern) kids)

-- `bs_ua_classifier_add`; an empty pattern is an error, and changes nothing.
unfoldable pub classifier_add : Bytes → Bytes → Node → Bool × Node
classifier_add name [] root = (false, root)
classifier_add name (c ∷ pattern) root = (true, register name (c ∷ pattern) root)

-- The best name so far, and the length of its pattern.
abbrev pub Best : Type 0
Best = Option Bytes × ℕ

abbrev pub improve : Option Bytes → ℕ → Best → Best
improve none len best = best
improve (some name) len best = if ltb best.1 len then (some name, len) else best

-- The inner loop of `bs_ua_classify`, from one start, `len` characters into the trie.
unfoldable pub match_from : Node → ℕ → Best → Bytes → Best
match_from n len best [] = best
match_from n len best (c ∷ text) = elim (trie_walk n c) [
  | none ↦ best
  | some child ↦ match_from child (len + 1) (improve (name_of child) (len + 1) best) text
]

-- The outer loop, over the starts.
unfoldable pub slide : Node → Best → Bytes → Best
slide root best [] = best
slide root best (c ∷ text) = slide root (match_from root 0 best (c ∷ text)) text

-- `bs_ua_classify`
unfoldable pub classify : Node → Bytes → Option Bytes
classify root ua = (slide root (none, 0) ua).0
