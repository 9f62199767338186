-- ===== src/Triggers/Ops.antt =====
-- The flag operations that src/triggers.c accepts.
use botshield.Prelude.{
  ℕ, ◌≡◌, ◌⊎◌, refl, true, false, List, [], ◌∷◌, Bytes, ◌==◌, inl, inr, Bool-cases, subst,
}
use botshield.Score.Names.{pieces}
use botshield.Triggers.{
  FlagOps, OpsSoFar, OpsResult, failed, parsed, with_bit, finish_ops, tokens, OpRead, bad, good,
  read_op, take_ops, nothing_yet, parse_flag_ops,
}

-- What was deleted came as a delta.
Told : OpsSoFar → Type 0
Told so_far = (so_far.saw_delta ≡ true) ⊎ (so_far.deleting ≡ 0)

with_bit-Told : (op bit : ℕ) (so_far : OpsSoFar) → Told so_far → Told (with_bit op bit so_far)
unfolding Told
with_bit-Told op bit so_far told = elim (Bool-cases (op == 61)) [
  | inl e ↦ simp e told
  | inr e ↦ elim (Bool-cases (op == 45)) [
    | inl d ↦ simp (e, d) (inl refl)
    | inr d ↦ simp (e, d) (inl refl)
  ]
]

-- A replacement deletes nothing.
IsUnmixed : OpsResult → Type 0
IsUnmixed (failed error) = Unit
IsUnmixed (parsed ops) = (ops.replace ≡ false) ⊎ (ops.del ≡ 0)

finish-IsUnmixed : (so_far : OpsSoFar) → Told so_far → IsUnmixed (finish_ops so_far)
unfolding Told IsUnmixed
finish-IsUnmixed so_far told = elim (Bool-cases so_far.saw_any) [
  | inr none_seen ↦ simp none_seen tt
  | inl seen ↦ elim (Bool-cases so_far.saw_replace) [
    | inr delta ↦ simp (seen, delta) (inl refl)
    | inl whole ↦ elim told [
      | inl also ↦ simp (seen, whole, also) tt
      | inr kept ↦ elim (Bool-cases so_far.saw_delta) [
        | inl also ↦ simp (seen, whole, also) tt
        | inr alone ↦ simp (seen, whole, alone, kept) (inr refl)
      ]
    ]
  ]
]

take-IsUnmixed :
    (texts : List Bytes) (so_far : OpsSoFar) → Told so_far → IsUnmixed (take_ops so_far texts)
unfolding take_ops
take-IsUnmixed [] so_far told = finish-IsUnmixed so_far told
take-IsUnmixed (token ∷ rest) so_far told =
    go (read_op token)
      (λ op bit. take-IsUnmixed rest (with_bit op bit so_far) (with_bit-Told op bit so_far told))
  where
    go :
        (r : OpRead)
        → ((op bit : ℕ) → IsUnmixed (take_ops (with_bit op bit so_far) rest))
        → IsUnmixed (elim r [
          | bad error ↦ failed error
          | good op bit ↦ take_ops (with_bit op bit so_far) rest
        ])
    go (bad error) onward = unfold IsUnmixed in tt
    go (good op bit) onward = onward op bit

-- A list of flag operations that is accepted and gives the whole set of flags deletes none.
pub parse_flag_ops_unmixed :
    (text : Bytes) (ops : FlagOps)
    → parse_flag_ops text ≡ parsed ops
    → (ops.replace ≡ false) ⊎ (ops.del ≡ 0)
unfolding parse_flag_ops IsUnmixed Told
parse_flag_ops_unmixed text ops h =
    subst IsUnmixed h (take-IsUnmixed (tokens (pieces text)) nothing_yet (inr refl))
