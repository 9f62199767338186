-- ===== src/Robots/Path/Greedy.antt =====
-- The greedy search of the path matcher finds every unanchored match.
use botshield.Prelude.{
  ℕ, zero, suc, subst, ◌↔◌, ◌≤◌, ◌<◌, ◌≡◌, refl, sym, ◌∙◌, ap, true, false, some, List, [], ◌∷◌,
  ◌++◌, Bytes, arith, length, length-append, drop, leb, inl, inr, Option-cases,
}
use botshield.Robots.Path.{
  strip_literal, skip_to, segments, match_segment, match_segments, split_anchor, at_end, path_match,
}
use botshield.Robots.Path.Glob.{
  Laid, LaidFirst, Eats, Matches, Anchored, Eats-LaidFirst, strip-append, append-strip, first-strip,
  path_match-Matches,
}

append_assoc : (a b c : Bytes) → (a ++ b) ++ c ≡ a ++ (b ++ c)
append_assoc [] b c = refl
append_assoc (x ∷ a) b c = ap (◌∷◌ x) (append_assoc a b c)

drop-append : (n : ℕ) (a b : Bytes) → n ≤ length a → drop n (a ++ b) ≡ drop n a ++ b
drop-append zero a b h = refl
drop-append (suc n) [] b h = absurd (omega (arith, h))
drop-append (suc n) (x ∷ a) b h = drop-append n a b (omega (arith, h))

drop_all : (a b : Bytes) → drop (length a) (a ++ b) ≡ b
drop_all [] b = refl
drop_all (x ∷ a) b = drop_all a b

-- Of two occurrences of a literal the earlier one leaves at least as much.
earlier_leaves_more :
    (seg rest before mid : Bytes)
    → seg ++ rest ≡ before ++ (seg ++ mid)
    → rest ≡ drop (length seg) (before ++ seg) ++ mid
earlier_leaves_more seg rest before mid e =
    sym (drop_all seg rest)
    ∙ ap (drop (length seg)) (e ∙ sym (append_assoc before seg mid))
    ∙ drop-append (length seg) (before ++ seg) mid (omega (arith, length-append before seg))

strip-skip :
    (seg text rest : Bytes) → strip_literal seg text ≡ some rest → skip_to seg text ≡ some rest
unfolding skip_to
strip-skip seg [] rest h = h
strip-skip seg (d ∷ text) rest h = rw (skip_to, h) refl

skip_reaches :
    (seg before mid : Bytes)
    → (more : Bytes) × (skip_to seg (before ++ (seg ++ mid)) ≡ some (more ++ mid))
unfolding skip_to
skip_reaches seg [] mid = ([], strip-skip seg (seg ++ mid) mid (append-strip seg mid))
skip_reaches seg (c ∷ before) mid =
    elim (Option-cases (strip_literal seg (c ∷ (before ++ (seg ++ mid))))) [
      | inl e ↦ let (more, h) = skip_reaches seg before mid in (more, rw (skip_to, e) h)
      | inr (rest, e) ↦ (
        drop (length seg) (c ∷ (before ++ seg)),
        strip-skip seg (c ∷ (before ++ (seg ++ mid))) rest e
            ∙ ap some (
                earlier_leaves_more seg rest (c ∷ before) mid
                  (sym (strip-append seg (c ∷ (before ++ (seg ++ mid))) rest e))),
      )
    ]

segment_reaches :
    (seg before mid : Bytes)
    → length seg < 256
    → (more : Bytes) × (match_segment false seg (before ++ (seg ++ mid)) ≡ some (more ++ mid))
unfolding match_segment
segment_reaches [] before mid h = (before, refl)
segment_reaches (c ∷ seg) before mid h =
    let fits : leb 256 (length (c ∷ seg)) ≡ false = ground arith in
    let (more, e) = skip_reaches (c ∷ seg) before mid in (more, rw fits e)

-- Every segment fits the matcher's buffer.
unfoldable pub Short : List Bytes → Type 0
Short [] = Unit
Short (seg ∷ segs) = (length seg < 256) × Short segs

-- What is laid out in a text is found in it, after anything that stands before the text.
found_in_order :
    (segs : List Bytes) (before text left : Bytes)
    → Short segs
    → Laid segs text left
    → (out : Bytes) × (match_segments false segs (before ++ text) ≡ some out)
unfolding match_segments Short
found_in_order [] before text left short h = (before ++ text, refl)
found_in_order (seg ∷ segs) before text left short (skipped, mid, e, h) =
    let (more, found) = segment_reaches seg (before ++ skipped) mid short.0 in
    let (out, rest) = found_in_order segs more mid left short.1 h in
    let same : before ++ text ≡ (before ++ skipped) ++ (seg ++ mid) =
      ap (◌++◌ before) e ∙ sym (append_assoc before skipped (seg ++ mid)) in
    (out, rw (same, match_segments, found) rest)

first_is_found :
    (segs : List Bytes) (text left : Bytes)
    → Short segs
    → LaidFirst segs text left
    → (out : Bytes) × (match_segments true segs text ≡ some out)
unfolding match_segments Short
first_is_found [] text left short h = absurd h
first_is_found (seg ∷ segs) text left short (mid, e, h) =
    let (out, rest) = found_in_order segs [] mid left short.1 h in
    let found : match_segment true seg text ≡ some mid =
      first-strip seg text ∙ ap (strip_literal seg) e ∙ append-strip seg mid in
    (out, rw (match_segments, found) rest)

accepted :
    (body path left : Bytes)
    → Short (segments body)
    → Eats body path left
    → at_end false (match_segments true (segments body) path) ≡ true
accepted body path left short h =
    let (out, e) =
      first_is_found (segments body) path left short (Eats-LaidFirst body path left h) in
    rw e refl

-- An unanchored pattern that is not empty, and no segment of which has 256 characters or more,
-- matches exactly the paths that it describes.
pub path_match-exact :
    (c : ℕ) (pattern path : Bytes)
    → (split_anchor (c ∷ pattern)).1 ≡ false
    → Short (segments (split_anchor (c ∷ pattern)).0)
    → (path_match (c ∷ pattern) path ≡ true) ↔ Matches (c ∷ pattern) path
unfolding path_match Matches split_anchor
path_match-exact c pattern path un short = (path_match-Matches (c ∷ pattern) path, found)
  where
    found : Matches (c ∷ pattern) path → path_match (c ∷ pattern) path ≡ true
    found h =
        let h0 : Anchored false (split_anchor (c ∷ pattern)).0 path =
          subst (λ b. Anchored b (split_anchor (c ∷ pattern)).0 path) un h in
        rw un (accepted (split_anchor (c ∷ pattern)).0 path h0.0 short h0.1)
