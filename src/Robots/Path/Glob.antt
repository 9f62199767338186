-- ===== src/Robots/Path/Glob.antt =====
-- What a path pattern means, character by character, and the matcher against it.
use botshield.Prelude.{
  ℕ, ◌≡◌, refl, sym, ◌∙◌, ap, subst, Bool, true, false, Option, none, some, List, [], ◌∷◌, ◌++◌,
  Bytes, arith, length, leb, ◌==◌, if◌then◌else◌, inl, inr, Bool-cases, Option-cases,
}
use botshield.Robots.Path.{
  strip_literal, skip_to, push_char, segments, match_segment, match_segments, split_anchor, at_end,
  path_match,
}

-- One pattern character before the rest of the pattern: a star stands for any text, any other
-- character for itself.
abbrev pub Eat : Bool → ℕ → (Bytes → Type 0) → Bytes → Type 0
Eat true c after text = (skipped left : Bytes) × (text ≡ skipped ++ left) × after left
Eat false c after text = (left : Bytes) × (text ≡ c ∷ left) × after left

-- The pattern describes the text up to `left`.
unfoldable pub Eats : Bytes → Bytes → Bytes → Type 0
Eats [] text left = text ≡ left
Eats (c ∷ pattern) text left = Eat (c == 42) c (λ t. Eats pattern t left) text

-- The pattern describes the path: all of it if the pattern ends in `$`, else a start of it.
abbrev pub Anchored : Bool → Bytes → Bytes → Type 0
Anchored true body path = Eats body path []
Anchored false body path = (left : Bytes) × Eats body path left

unfoldable pub Matches : Bytes → Bytes → Type 0
Matches pattern path = Anchored (split_anchor pattern).1 (split_anchor pattern).0 path

-- The segments stand in the text one after the other, with anything before each.
abbrev pub Laid : List Bytes → Bytes → Bytes → Type 0
Laid [] text left = text ≡ left
Laid (seg ∷ segs) text left =
    (skipped mid : Bytes) × (text ≡ skipped ++ (seg ++ mid)) × Laid segs mid left

-- The same with nothing before the first.
abbrev pub LaidFirst : List Bytes → Bytes → Bytes → Type 0
LaidFirst [] text left = ⊥
LaidFirst (seg ∷ segs) text left = (mid : Bytes) × (text ≡ seg ++ mid) × Laid segs mid left

first-Laid :
    (segs : List Bytes) (text skipped mid left : Bytes)
    → text ≡ skipped ++ mid
    → LaidFirst segs mid left
    → Laid segs text left
first-Laid [] text skipped mid left e h = absurd h
first-Laid (seg ∷ segs) text skipped mid left e (rest, e', h) = (skipped, rest, rw (e, e'), h)

push-LaidFirst :
    (c : ℕ) (segs : List Bytes) (text mid left : Bytes)
    → text ≡ c ∷ mid
    → LaidFirst segs mid left
    → LaidFirst (push_char c segs) text left
push-LaidFirst c [] text mid left e h = absurd h
push-LaidFirst c (seg ∷ segs) text mid left e (rest, e', h) = (rest, rw (e, e'), h)

Eat-LaidFirst :
    (star : Bool) (c : ℕ) (after : Bytes → Type 0) (segs : List Bytes) (text left : Bytes)
    → ((t : Bytes) → after t → LaidFirst segs t left)
    → Eat star c after text
    → LaidFirst (if star then [] ∷ segs else push_char c segs) text left
Eat-LaidFirst true c after segs text left rec (skipped, mid, e, h) =
    (text, refl, first-Laid segs text skipped mid left e (rec mid h))
Eat-LaidFirst false c after segs text left rec (mid, e, h) =
    push-LaidFirst c segs text mid left e (rec mid h)

pub Eats-LaidFirst :
    (pattern text left : Bytes) → Eats pattern text left → LaidFirst (segments pattern) text left
unfolding Eats segments
Eats-LaidFirst [] text left h = (text, refl, h)
Eats-LaidFirst (c ∷ pattern) text left h =
    Eat-LaidFirst (c == 42) c (λ t. Eats pattern t left) (segments pattern) text left
      (λ t. Eats-LaidFirst pattern t left) h

pub segments_cons :
    (pattern : Bytes) → (seg : Bytes) × (segs : List Bytes) × (segments pattern ≡ seg ∷ segs)
unfolding segments
segments_cons [] = ([], [], refl)
segments_cons (c ∷ pattern) =
    let (seg, segs, e) = segments_cons pattern in
    elim (Bool-cases (c == 42)) [
      | inl star ↦ ([], segments pattern, rw star refl)
      | inr other ↦ (c ∷ seg, segs, rw (other, e) refl)
    ]

-- Where a later segment may start.
Laid-first :
    (segs : List Bytes) (seg : Bytes) (tail : List Bytes) (text left : Bytes)
    → segs ≡ seg ∷ tail
    → Laid segs text left
    → (skipped mid : Bytes) × (text ≡ skipped ++ mid) × LaidFirst segs mid left
Laid-first segs seg tail text left e h =
    let h0 : Laid (seg ∷ tail) text left = subst (λ l. Laid l text left) e h in
    let (skipped, mid, e', h') = h0 in (skipped, seg ++ mid, e', rw e (mid, refl, h'))

LaidFirst-Eat :
    (star : Bool) (c : ℕ) (after : Bytes → Type 0) (segs : List Bytes) (seg : Bytes)
    (tail : List Bytes) (text left : Bytes)
    → segs ≡ seg ∷ tail
    → ((t : Bytes) → LaidFirst segs t left → after t)
    → LaidFirst (if star then [] ∷ segs else push_char c segs) text left
    → Eat star c after text
LaidFirst-Eat true c after segs seg tail text left e rec (mid, e', h) =
    let (skipped, t, e2, h2) = Laid-first segs seg tail mid left e h in
    (skipped, t, e' ∙ e2, rec t h2)
LaidFirst-Eat false c after segs seg tail text left e rec h =
    let h0 : LaidFirst (push_char c (seg ∷ tail)) text left =
      subst (λ l. LaidFirst (push_char c l) text left) e h in
    let (mid, e', h') = h0 in (seg ++ mid, e', rec (seg ++ mid) (rw e (mid, refl, h')))

LaidFirst-Eats :
    (pattern text left : Bytes) → LaidFirst (segments pattern) text left → Eats pattern text left
unfolding Eats segments
LaidFirst-Eats [] text left (mid, e, h) = e ∙ h
LaidFirst-Eats (c ∷ pattern) text left h =
    let (seg, tail, e) = segments_cons pattern in
    LaidFirst-Eat (c == 42) c (λ t. Eats pattern t left) (segments pattern) seg tail text left e
      (λ t. LaidFirst-Eats pattern t left) h

-- A literal that is stripped is a start of the text.
pub strip-append : (seg text rest : Bytes) → strip_literal seg text ≡ some rest → text ≡ seg ++ rest
unfolding strip_literal
strip-append [] text rest h = cc
strip-append (c ∷ seg) [] rest h = absurd (ground (arith, h))
strip-append (c ∷ seg) (d ∷ text) rest h = elim (Bool-cases (c == d)) [
  | inl e ↦
      let eq : d ≡ c = ground (arith, e) in rw (eq, strip-append seg text rest (rw e at h)) refl
  | inr e ↦ absurd (ground (arith, h, e))
]

pub append-strip : (seg rest : Bytes) → strip_literal seg (seg ++ rest) ≡ some rest
unfolding strip_literal
append-strip [] rest = refl
append-strip (c ∷ seg) rest = ground (arith, append-strip seg rest)

skip-append :
    (seg text rest : Bytes)
    → skip_to seg text ≡ some rest
    → (skipped : Bytes) × (text ≡ skipped ++ (seg ++ rest))
unfolding skip_to
skip-append seg [] rest h = ([], strip-append seg [] rest h)
skip-append seg (d ∷ text) rest h = elim (Option-cases (strip_literal seg (d ∷ text))) [
  | inl e ↦
      let later : skip_to seg text ≡ some rest = rw (skip_to, e) at h in
      let (skipped, e') = skip-append seg text rest later in (d ∷ skipped, ap (◌∷◌ d) e')
  | inr (r, e) ↦
      let same : some r ≡ some rest = rw (skip_to, e) at h in
      ([], strip-append seg (d ∷ text) rest (e ∙ same))
]

segment-Laid :
    (seg text rest : Bytes)
    → match_segment false seg text ≡ some rest
    → (skipped : Bytes) × (text ≡ skipped ++ (seg ++ rest))
unfolding match_segment
segment-Laid [] text rest h = ([], cc)
segment-Laid (c ∷ seg) text rest h = elim (Bool-cases (leb 256 (length (c ∷ seg)))) [
  | inl long ↦ absurd (ground (arith, h, long))
  | inr fits ↦ skip-append (c ∷ seg) text rest (rw fits at h)
]

segments-Laid :
    (segs : List Bytes) (text left : Bytes)
    → match_segments false segs text ≡ some left
    → Laid segs text left
unfolding match_segments
segments-Laid [] text left h = cc
segments-Laid (seg ∷ segs) text left h = elim (Option-cases (match_segment false seg text)) [
  | inl e ↦ absurd (ground (arith, h, e))
  | inr (rest, e) ↦
      let (skipped, e') = segment-Laid seg text rest e in
      (skipped, rest, e', segments-Laid segs rest left (rw (match_segments, e) at h))
]

pub first-strip : (seg text : Bytes) → match_segment true seg text ≡ strip_literal seg text
unfolding match_segment strip_literal
first-strip [] text = refl
first-strip (c ∷ seg) text = refl

segments-LaidFirst :
    (seg : Bytes) (segs : List Bytes) (text left : Bytes)
    → match_segments true (seg ∷ segs) text ≡ some left
    → LaidFirst (seg ∷ segs) text left
unfolding match_segments
segments-LaidFirst seg segs text left h = elim (Option-cases (match_segment true seg text)) [
  | inl e ↦ absurd (ground (arith, h, e))
  | inr (rest, e) ↦ (
    rest,
    strip-append seg text rest (sym (first-strip seg text) ∙ e),
    segments-Laid segs rest left (rw (match_segments, e) at h),
  )
]

pattern-Eats :
    (body text left : Bytes)
    → match_segments true (segments body) text ≡ some left
    → Eats body text left
pattern-Eats body text left h =
    let (seg, segs, e) = segments_cons body in
    LaidFirst-Eats body text left (rw e (segments-LaidFirst seg segs text left (rw e at h)))

-- A path that the matcher accepts is one that the pattern describes, to its end if it is anchored.
pub path_match-Matches :
    (pattern path : Bytes) → path_match pattern path ≡ true → Matches pattern path
unfolding path_match Matches split_anchor
path_match-Matches [] path h = absurd (ground (arith, h))
path_match-Matches (c ∷ pattern) path h =
    go (split_anchor (c ∷ pattern)).1
      (match_segments true (segments (split_anchor (c ∷ pattern)).0) path) refl h
  where
    go :
        (anchored : Bool) (out : Option Bytes)
        → match_segments true (segments (split_anchor (c ∷ pattern)).0) path ≡ out
        → at_end anchored out ≡ true
        → Anchored anchored (split_anchor (c ∷ pattern)).0 path
    go anchored none e h = absurd (ground (arith, h))
    go true (some []) e h = pattern-Eats (split_anchor (c ∷ pattern)).0 path [] e
    go true (some (d ∷ left)) e h = absurd (ground (arith, h))
    go false (some left) e h = (left, pattern-Eats (split_anchor (c ∷ pattern)).0 path left e)
