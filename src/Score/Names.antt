-- ===== src/Score/Names.antt =====
-- The flag names of src/score.c: `bs_parse_flag_names`.
use botshield.Prelude.{
  ℕ, Bool, ◌||◌, Option, none, some, List, [], ◌∷◌, Bytes, codes, ◌==◌, if◌then◌else◌, bit_or,
}
use botshield.Robots.Agents.{equal_nocase}

-- `bs_flag_names`
abbrev pub flag_names : List (Bytes × ℕ)
flag_names =
    (codes "honeypot_hit", 1)
    ∷ (codes "scanner_probe", 2)
    ∷ (codes "fake_bot", 4)
    ∷ (codes "pow_fail_streak", 8)
    ∷ (codes "app_verified_human", 16)
    ∷ (codes "app_verified_session", 32)
    ∷ (codes "app_trust_signal", 64)
    ∷ (codes "blocked", 128)
    ∷ (codes "rate_abuse", 256)
    ∷ (codes "robots_ignored", 512)
    ∷ []

-- A blank or a tab.
abbrev pub is_blank : ℕ → Bool
is_blank c = c == 32 || c == 9

unfoldable pub trim_left : Bytes → Bytes
trim_left [] = []
trim_left (c ∷ text) = let rest = trim_left text in if is_blank c then rest else c ∷ text

abbrev pub push_trimmed : ℕ → Bytes → Bytes
push_trimmed c [] = if is_blank c then [] else c ∷ []
push_trimmed c (d ∷ rest) = c ∷ (d ∷ rest)

unfoldable pub trim_right : Bytes → Bytes
trim_right [] = []
trim_right (c ∷ text) = push_trimmed c (trim_right text)

-- The bit of the first name that is equal but for case.
unfoldable pub flag_bit : Bytes → List (Bytes × ℕ) → Option ℕ
flag_bit name [] = none
flag_bit name ((known, bit) ∷ names) =
    let rest = flag_bit name names in if equal_nocase name known then some bit else rest

abbrev pub push_piece : ℕ → List Bytes → List Bytes
push_piece c [] = (c ∷ []) ∷ []
push_piece c (piece ∷ pieces) = (c ∷ piece) ∷ pieces

-- The pieces between the commas, the last one the rest of the text.
unfoldable pub pieces : Bytes → List Bytes
pieces [] = [] ∷ []
pieces (c ∷ text) = let rest = pieces text in if c == 44 then [] ∷ rest else push_piece c rest

abbrev pub or_bits : Option ℕ → Option ℕ → Option ℕ
or_bits none rest = none
or_bits (some bit) none = none
or_bits (some bit) (some bits) = some (bit_or bit bits)

-- The loop, which ends where no text is left: an empty piece counts unless it is the last.
unfoldable pub parse_pieces : List Bytes → Option ℕ
parse_pieces [] = some 0
parse_pieces ([] ∷ []) = some 0
parse_pieces ((c ∷ piece) ∷ []) = flag_bit (trim_right (trim_left (c ∷ piece))) flag_names
parse_pieces (piece ∷ (next ∷ rest)) =
    or_bits (flag_bit (trim_right (trim_left piece)) flag_names) (parse_pieces (next ∷ rest))

-- `bs_parse_flag_names`; `none` for an unknown name.
unfoldable pub parse_flag_names : Bytes → Option ℕ
parse_flag_names text = parse_pieces (pieces text)
