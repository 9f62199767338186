-- ===== src/Robots/Path.antt =====
-- The path patterns of src/robots.c: `bs_path_match`.
pub mod Glob
pub mod Greedy
use botshield.Prelude.{
  ℕ, Bool, true, false, Option, none, some, [], ◌∷◌, List, Bytes, leb, ◌==◌, ◌&&◌, if◌then◌else◌,
  length,
}

-- The remaining text after a literal at its start: `strncmp`, then the step past it.
unfoldable pub strip_literal : Bytes → Bytes → Option Bytes
strip_literal [] text = some text
strip_literal (c ∷ seg) [] = none
strip_literal (c ∷ seg) (d ∷ text) =
    let rest = strip_literal seg text in if c == d then rest else none

-- The remaining text after the first occurrence of a literal: `strstr`, then the step past it.
unfoldable pub skip_to : Bytes → Bytes → Option Bytes
skip_to seg [] = strip_literal seg []
skip_to seg (d ∷ text) =
    let later = skip_to seg text in
    elim (strip_literal seg (d ∷ text)) [ some rest ↦ some rest | none ↦ later ]

abbrev pub push_char : ℕ → List Bytes → List Bytes
push_char c [] = (c ∷ []) ∷ []
push_char c (seg ∷ segs) = (c ∷ seg) ∷ segs

-- The segments between the stars. An empty one at the end, which the loop does not reach, has
-- no effect.
unfoldable pub segments : Bytes → List Bytes
segments [] = [] ∷ []
segments (c ∷ pattern) =
    let rest = segments pattern in if c == 42 then [] ∷ rest else push_char c rest

-- One turn of the loop: `ppos` moves past the segment, or there is no match. A segment after a star
-- has to fit the buffer `needle[256]`.
unfoldable pub match_segment : Bool → Bytes → Bytes → Option Bytes
match_segment first [] ppos = some ppos
match_segment true (c ∷ seg) ppos = strip_literal (c ∷ seg) ppos
match_segment false (c ∷ seg) ppos =
    if leb 256 (length (c ∷ seg)) then none else skip_to (c ∷ seg) ppos

-- The loop over the segments; the result is `ppos` after it.
unfoldable pub match_segments : Bool → List Bytes → Bytes → Option Bytes
match_segments first [] ppos = some ppos
match_segments first (seg ∷ segs) ppos = elim (match_segment first seg ppos) [
  | none ↦ none
  | some ppos' ↦ match_segments false segs ppos'
]

-- A pattern without its final `$`, and whether it had one.
unfoldable pub split_anchor : Bytes → Bytes × Bool
split_anchor [] = ([], false)
split_anchor (c ∷ []) = if c == 36 then ([], true) else (c ∷ [], false)
split_anchor (c ∷ (d ∷ pattern)) =
    let (body, anchored) = split_anchor (d ∷ pattern) in (c ∷ body, anchored)

-- The two tests at the end of `bs_path_match`.
abbrev pub at_end : Bool → Option Bytes → Bool
at_end anchored none = false
at_end true (some []) = true
at_end true (some (d ∷ ppos)) = false
at_end false (some ppos) = true

-- `bs_path_match`. For the pattern `$` alone the loop has nothing to do, and the last test is the
-- early return's.
unfoldable pub path_match : Bytes → Bytes → Bool
path_match [] path = false
path_match (c ∷ pattern) path =
    let (body, anchored) = split_anchor (c ∷ pattern) in
    at_end anchored (match_segments true (segments body) path)
