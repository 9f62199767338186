-- ===== src/Robots/Names.antt =====
-- The names of robots.txt groups in src/robots.c: `bs_rb_group_name_from_ua`, and `bs_rb_rstrip`.
use botshield.Prelude.{
  ℕ, Bool, true, not, ◌&&◌, ◌||◌, [], ◌∷◌, Bytes, codes, leb, ◌==◌, if◌then◌else◌, bytes_eq,
}
use botshield.Robots.Agents.{to_lower}

-- The characters that a name keeps.
abbrev pub keeps : ℕ → Bool
keeps c = (leb 97 c && leb c 122) || ((leb 48 c && leb c 57) || c == 45)

-- The loop of `bs_rb_group_name_from_ua`.
unfoldable pub name_chars : Bool → Bytes → Bytes
name_chars last_dash [] = []
name_chars last_dash (q ∷ ua) =
    let c = to_lower q in
    let kept = c ∷ name_chars (c == 45) ua in
    let dashed = 45 ∷ name_chars true ua in
    let skipped = name_chars last_dash ua in
    if keeps c then kept else if not last_dash then dashed else skipped

abbrev pub push_unless_dash : ℕ → Bytes → Bytes
push_unless_dash c [] = if c == 45 then [] else c ∷ []
push_unless_dash c (d ∷ rest) = c ∷ (d ∷ rest)

-- The loop that strips dashes at the end.
unfoldable pub strip_dashes : Bytes → Bytes
strip_dashes [] = []
strip_dashes (c ∷ name) = push_unless_dash c (strip_dashes name)

abbrev pub or_unnamed : Bytes → Bytes
or_unnamed [] = codes "unnamed"
or_unnamed (c ∷ name) = c ∷ name

-- `bs_rb_group_name_from_ua`
unfoldable pub group_name_from_ua : Bytes → Bytes
group_name_from_ua [] = codes "unnamed"
group_name_from_ua (c ∷ ua) =
    if bytes_eq (c ∷ ua) (42 ∷ [])
    then codes "wildcard"
    else or_unnamed (strip_dashes (name_chars true (c ∷ ua)))

abbrev pub push_unless_blank : ℕ → Bytes → Bytes
push_unless_blank c [] = if c == 32 || (c == 9 || (c == 13 || c == 10)) then [] else c ∷ []
push_unless_blank c (d ∷ rest) = c ∷ (d ∷ rest)

-- `bs_rb_rstrip`
unfoldable pub rstrip : Bytes → Bytes
rstrip [] = []
rstrip (c ∷ text) = push_unless_blank c (rstrip text)
