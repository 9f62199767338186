-- ===== src/Triggers.antt =====
-- The triggers of src/triggers.c: the predicates of a cookie trigger, and the operations on flags
-- that an action names. The table of a request's cookies is APR's: its lookup is a parameter.
pub mod Cookies
pub mod Ops
use botshield.Prelude.{
  ℕ, Bool, true, false, not, ◌&&◌, ◌||◌, Option, none, some, List, [], ◌∷◌, Bytes, codes, bytes_eq,
  ◌==◌, if◌then◌else◌, length, bit_or,
}
use botshield.Robots.Agents.{equal_nocase}
use botshield.Score.Names.{trim_left, trim_right, pieces, parse_flag_names}

-- `apr_table_get`, and the keys of the table in its order.
pub record CookieMap : Type 0 where
  pub get : Bytes → Option Bytes
  pub keys : List Bytes

-- `bs_cookie_pred_kind`, with the name and the value that a kind takes.
pub data CookiePred : Type 0 where
  named_present named_absent : Bytes → CookiePred
  named_eq named_ne named_contains : Bytes → Bytes → CookiePred
  bulk_none bulk_any bulk_session bs_verified bs_missing bs_invalid : CookiePred

-- `bs_is_session_cookie_name`; a null list is empty.
unfoldable pub is_session_cookie_name : List Bytes → Bytes → Bool
is_session_cookie_name [] name = false
is_session_cookie_name (known ∷ names) name =
    equal_nocase known name || is_session_cookie_name names name

unfoldable pub any_session : List Bytes → List Bytes → Bool
any_session session_names [] = false
any_session session_names (key ∷ keys) =
    is_session_cookie_name session_names key || any_session session_names keys

abbrev pub begins_with : Bytes → Bytes → Bool
begins_with text [] = true
begins_with [] (d ∷ part) = false
begins_with (c ∷ text) (d ∷ part) = c == d && begins_with text part

-- `strstr(text, part) != NULL`
unfoldable pub contains : Bytes → Bytes → Bool
contains [] part = begins_with [] part
contains (c ∷ text) part = begins_with (c ∷ text) part || contains text part

abbrev pub is_present : Option Bytes → Bool
is_present none = false
is_present (some v) = true

abbrev pub value_passes : (Bytes → Bool) → Option Bytes → Bool
value_passes test none = false
value_passes test (some v) = test v

abbrev pub is_state : Option Bytes → Bytes → Bool
is_state none state = false
is_state (some s) state = bytes_eq s state

abbrev pub is_empty_table : List Bytes → Bool
is_empty_table [] = true
is_empty_table (key ∷ keys) = false

-- `bs_cookie_pred_match`
unfoldable pub cookie_pred_match : CookiePred → CookieMap → List Bytes → Option Bytes → Bool
cookie_pred_match (named_present name) cmap session_names bs_state = is_present (cmap.get name)
cookie_pred_match (named_absent name) cmap session_names bs_state = not (is_present (cmap.get name))
cookie_pred_match (named_eq name value) cmap session_names bs_state =
    value_passes (λ v. bytes_eq v value) (cmap.get name)
cookie_pred_match (named_ne name value) cmap session_names bs_state =
    value_passes (λ v. not (bytes_eq v value)) (cmap.get name)
cookie_pred_match (named_contains name value) cmap session_names bs_state =
    value_passes (λ v. contains v value) (cmap.get name)
cookie_pred_match bulk_none cmap session_names bs_state = is_empty_table cmap.keys
cookie_pred_match bulk_any cmap session_names bs_state = not (is_empty_table cmap.keys)
cookie_pred_match bulk_session cmap session_names bs_state = any_session session_names cmap.keys
cookie_pred_match bs_verified cmap session_names bs_state = is_state bs_state (codes "verified")
cookie_pred_match bs_missing cmap session_names bs_state =
    not (is_present bs_state) || is_state bs_state (codes "missing")
cookie_pred_match bs_invalid cmap session_names bs_state = is_state bs_state (codes "invalid")

-- What a list of flag operations comes to: `add`, `del`, `replace`.
pub record FlagOps : Type 0 where
  pub add : ℕ
  pub del : ℕ
  pub replace : Bool

-- The loop's locals: the two sets, and whether a replacement, a delta, or any name was seen.
pub record OpsSoFar : Type 0 where
  pub adding : ℕ
  pub deleting : ℕ
  pub saw_replace : Bool
  pub saw_delta : Bool
  pub saw_any : Bool

pub data OpsError : Type 0 where
  empty_name unknown_flag names_no_flag mixed : OpsError

pub data OpsResult : Type 0 where
  failed : OpsError → OpsResult
  parsed : FlagOps → OpsResult

-- A name with its prefix, which is `+` where there is none.
abbrev pub split_op : Bytes → ℕ × Bytes
split_op [] = (43, [])
split_op (c ∷ text) = if c == 43 || (c == 45 || c == 61) then (c, text) else (43, c ∷ text)

abbrev pub with_bit : ℕ → ℕ → OpsSoFar → OpsSoFar
with_bit op bit so_far =
    if op == 61
    then record so_far { adding = bit_or so_far.adding bit; saw_replace = true; saw_any = true }
    else if op == 45
    then record so_far { deleting = bit_or so_far.deleting bit; saw_delta = true; saw_any = true }
    else record so_far { adding = bit_or so_far.adding bit; saw_delta = true; saw_any = true }

abbrev pub finish_ops : OpsSoFar → OpsResult
finish_ops so_far =
    if not so_far.saw_any
    then failed names_no_flag
    else if so_far.saw_replace && so_far.saw_delta
    then failed mixed
    else parsed
        (record { add = so_far.adding; del = so_far.deleting; replace = so_far.saw_replace })

-- `apr_strtok` on commas skips empty tokens.
unfoldable pub tokens : List Bytes → List Bytes
tokens [] = []
tokens ([] ∷ rest) = tokens rest
tokens ((c ∷ token) ∷ rest) = (c ∷ token) ∷ tokens rest

-- One token: an error, or a prefix with a flag's bit.
pub data OpRead : Type 0 where
  bad : OpsError → OpRead
  good : ℕ → ℕ → OpRead

abbrev pub named_bit : ℕ → Bytes → Option ℕ → OpRead
named_bit op [] bits = bad empty_name
named_bit op (c ∷ name) none = bad unknown_flag
named_bit op (c ∷ name) (some bit) = good op bit

unfoldable pub read_op : Bytes → OpRead
read_op token =
    let (op, text) = split_op (trim_left token) in
    let name = trim_right (trim_left text) in named_bit op name (parse_flag_names name)

unfoldable pub take_ops : OpsSoFar → List Bytes → OpsResult
take_ops so_far [] = finish_ops so_far
take_ops so_far (token ∷ rest) = elim (read_op token) [
  | bad error ↦ failed error
  | good op bit ↦ take_ops (with_bit op bit so_far) rest
]

abbrev pub nothing_yet : OpsSoFar
nothing_yet = record {
  adding = 0;
  deleting = 0;
  saw_replace = false;
  saw_delta = false;
  saw_any = false;
}

-- `bs_parse_flag_ops`
unfoldable pub parse_flag_ops : Bytes → OpsResult
parse_flag_ops text = take_ops nothing_yet (tokens (pieces text))
