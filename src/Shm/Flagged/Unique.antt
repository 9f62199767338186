-- ===== src/Shm/Flagged/Unique.antt =====
-- A key in at most one slot of its window of the flagged-IP table: what writes and clears keep of that.
use botshield.Prelude.{
  ℕ, ◌<◌, ◌≡◌, ◌≢◌, sym, ◌∙◌, Bool, true, false, not, ◌&&◌, none, some, List, Bytes, arith, length,
  get_or, set, get_or-set_self, get_or-set_ne, bytes_eq→eq, ◌==◌, inl, inr, Bool-cases, ℕ_discrete,
}
use botshield.Shm.Slots.{Scan, hit, miss, scan, acquired}
use botshield.Shm.Probe.{In, window-lt, Reaches}
use botshield.Shm.State.{FlaggedSlot, Shm, blank_flagged}
use botshield.Shm.Flagged.{
  flagged_matches, flagged_accepts, flagged_window, flagged_write_slot, flagged_clear,
  flagged_clear_found, flagged_rewrite, flagged_bucket, flagged_written,
}
use botshield.Shm.Flagged.Window.{Ready, accepts-matches}
use botshield.Shm.Flagged.Lookup.{}

-- Every key stands in at most one slot of its window, torn slots left aside.
abbrev pub Unique : Shm → List FlaggedSlot → Type 0
Unique s table =
    (ip : Bytes) (ns i j : ℕ)
    → In i (flagged_window s ip ns)
    → In j (flagged_window s ip ns)
    → flagged_matches ip ns (get_or table i blank_flagged) ≡ true
    → flagged_matches ip ns (get_or table j blank_flagged) ≡ true
    → i ≡ j

abbrev pub clear_outcome : Bytes → ℕ → Shm → List FlaggedSlot → Scan
clear_outcome ip ns s table =
    scan blank_flagged (flagged_matches ip ns) (λ _. false) table none (flagged_window s ip ns)

abbrev pub clear_result : Bytes → ℕ → ℕ → Bool → ℕ → Shm → List FlaggedSlot → Shm
clear_result ip del_bits set_bits replace ns s table = record s {
  flagged_table =
      some
        (flagged_clear_found (clear_outcome ip ns s table) ip del_bits set_bits replace ns table);
}

pub clear-locked :
    (ip : Bytes) (del_bits set_bits : ℕ) (replace : Bool) (ns : ℕ) (s : Shm)
    (table : List FlaggedSlot)
    → Ready s table
    → (not replace && del_bits == 0) ≡ false
    → flagged_clear acquired ip del_bits set_bits replace ns s
      ≡ clear_result ip del_bits set_bits replace ns s table
unfolding flagged_clear
clear-locked ip del_bits set_bits replace ns s table r h = ground (arith, r.mapped, r.guarded, h)

pub In-lt :
    {s : Shm} {table : List FlaggedSlot} (ip : Bytes) (ns k : ℕ)
    → Ready s table
    → Reaches blank_flagged (flagged_matches ip ns) table k (flagged_window s ip ns)
    → k < length table
In-lt {s} {table} ip ns k r reach = rw r.sized (
    window-lt blank_flagged (flagged_matches ip ns) table (flagged_bucket s ip ns)
      s.flagged_capacity 0 10 r.nonempty reach)

-- A slot may be overwritten by one whose key stands nowhere else in its window.
pub Unique-set :
    (s : Shm) (table : List FlaggedSlot) (k : ℕ) (w : FlaggedSlot)
    → k < length table
    → Unique s table
    → ((ip : Bytes) (ns j : ℕ)
        → flagged_matches ip ns w ≡ true
        → In j (flagged_window s ip ns)
        → flagged_matches ip ns (get_or table j blank_flagged) ≡ true
        → j ≡ k)
    → Unique s (set table k w)
Unique-set s table k w lt u only ip ns i j mi mj hi hj = elim (ℕ_discrete i k) [
  | yes ei ↦ elim (ℕ_discrete j k) [
    | yes ej ↦ ei ∙ sym ej
    | no nj ↦ ei ∙ sym (only ip ns j (new i ei hi) mj (old j nj hj))
  ]
  | no ni ↦ elim (ℕ_discrete j k) [
    | yes ej ↦ only ip ns i (new j ej hj) mi (old i ni hi) ∙ sym ej
    | no nj ↦ u ip ns i j mi mj (old i ni hi) (old j nj hj)
  ]
]
  where
    old :
        (x : ℕ)
        → x ≢ k
        → flagged_matches ip ns (get_or (set table k w) x blank_flagged) ≡ true
        → flagged_matches ip ns (get_or table x blank_flagged) ≡ true
    old x ne h = rw (get_or-set_ne table k x w blank_flagged (λ e. ne (sym e))) at h

    new :
        (x : ℕ)
        → x ≡ k
        → flagged_matches ip ns (get_or (set table k w) x blank_flagged) ≡ true
        → flagged_matches ip ns w ≡ true
    new x e h = rw (e, get_or-set_self table k w blank_flagged lt) at h

matches_written :
    (ip ip' : Bytes) (ns ns' flags expires_at : ℕ) (slot : FlaggedSlot)
    → flagged_matches ip' ns' (flagged_write_slot slot ip flags expires_at ns) ≡ true
    → (ip ≡ ip') × (ns ≡ ns')
unfolding flagged_matches
matches_written ip ip' ns ns' flags expires_at slot h = ground (arith, bytes_eq→eq ip ip')

pub matches_added :
    (out : Scan) (ip ip' : Bytes) (ns ns' bits expires_at : ℕ) (slot : FlaggedSlot)
    → flagged_matches ip' ns' (flagged_written out slot ip bits expires_at ns) ≡ true
    → (ip ≡ ip') × (ns ≡ ns')
matches_added (hit k) ip ip' ns ns' bits expires_at slot h =
    matches_written ip ip' ns ns' _ _ slot h
matches_added (miss v) ip ip' ns ns' bits expires_at slot h =
    matches_written ip ip' ns ns' _ _ slot h

pub matches_rewritten :
    (ip ip' : Bytes) (ns ns' flags : ℕ) (slot : FlaggedSlot)
    → flagged_matches ip' ns' (flagged_rewrite slot ip flags ns) ≡ true
    → (ip ≡ ip') × (ns ≡ ns')
unfolding flagged_matches
matches_rewritten ip ip' ns ns' flags slot h = ground (arith, bytes_eq→eq ip ip')

-- The other slots of the window are not the key's, if `k` is.
pub others :
    (t : ℕ) (ip : Bytes) (ns k : ℕ) (s : Shm) (table : List FlaggedSlot)
    → Unique s table
    → In k (flagged_window s ip ns)
    → flagged_matches ip ns (get_or table k blank_flagged) ≡ true
    → (i : ℕ) → In i (flagged_window s ip ns)
    → i ≢ k
    → flagged_accepts t ip ns (get_or table i blank_flagged) ≡ false
others t ip ns k s table u mk m i mi ne =
    elim (Bool-cases (flagged_matches ip ns (get_or table i blank_flagged))) [
      | inl m' ↦ absurd (ne (u ip ns i k mi mk m' m))
      | inr m' ↦ accepts-matches t ip ns _ m'
    ]
