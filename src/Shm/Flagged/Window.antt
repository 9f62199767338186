-- ===== src/Shm/Flagged/Window.antt =====
-- What the proofs about the flagged-IP table share: a table that is ready, and the key's entry.
use botshield.Prelude.{
  ℕ, ◌%◌, ◌≤◌, ◌<◌, ◌≡◌, ◌⊎◌, inl, inr, ◌||◌, not, ltb, Bool-cases, true, false, Option, none, some,
  List, Bytes, arith, length, bytes_eq_refl, bytes_eq→eq, bit_or,
}
use botshield.Shm.Slots.{is_torn, is_readable_lem, find, published, published-even}
use botshield.Shm.State.{FlaggedSlot, Shm, blank_flagged}
use botshield.Shm.Flagged.{
  flagged_matches, flagged_accepts, flagged_reusable, flagged_window, flags_of, flagged_write_slot,
}

-- The table is mapped with its capacity, and there is a mutex.
pub record Ready (s : Shm) (table : List FlaggedSlot) : Type 0 where
  pub mapped : s.flagged_table ≡ some table
  pub sized : length table ≡ s.flagged_capacity
  pub nonempty : 0 < s.flagged_capacity
  pub guarded : s.mutex ≡ true

-- The flags that the key's slot holds, expired or not.
unfoldable pub flagged_held : Bytes → ℕ → Shm → List FlaggedSlot → Option ℕ
flagged_held ip ns s table =
    flags_of (find blank_flagged (flagged_matches ip ns) table (flagged_window s ip ns))

-- New flags over those held.
abbrev pub merged : Option ℕ → ℕ → ℕ
merged none bits = bits
merged (some old) bits = bit_or old bits

pub accepts-matches :
    (now : ℕ) (ip : Bytes) (ns : ℕ) (slot : FlaggedSlot)
    → flagged_matches ip ns slot ≡ false
    → flagged_accepts now ip ns slot ≡ false
unfolding flagged_matches flagged_accepts
accepts-matches now ip ns slot h = ground (arith, is_readable_lem slot.version)

-- A slot just written for the key is accepted until it expires.
pub accepts-written :
    (t : ℕ) (ip : Bytes) (ns flags expires_at : ℕ) (slot : FlaggedSlot)
    → t ≤ expires_at
    → flagged_accepts t ip ns (flagged_write_slot slot ip flags expires_at ns) ≡ true
unfolding flagged_accepts
accepts-written t ip ns flags expires_at slot h =
    ground (
      arith,
      is_readable_lem (published slot.version),
      published-even slot.version,
      bytes_eq_refl ip,
    )

-- A slot that a writer may reuse is no live entry of anybody.
pub accepts-reusable :
    (now t : ℕ) (ip : Bytes) (ns : ℕ) (slot : FlaggedSlot)
    → now ≤ t
    → flagged_reusable now slot ≡ true
    → flagged_accepts t ip ns slot ≡ false
unfolding flagged_reusable flagged_accepts
accepts-reusable now t ip ns slot h r = ground (arith, is_readable_lem slot.version)

-- A slot with room for the key: left torn, empty, expired before `now`, or the key's own.
abbrev pub HasRoom : ℕ → Bytes → ℕ → FlaggedSlot → Type 0
HasRoom now ip ns slot =
    (slot.version % 2 ≡ 1)
    ⊎ (slot.used ≡ false)
    ⊎ (slot.expires_at < now)
    ⊎ ((slot.ip ≡ ip) × (slot.ns_id ≡ ns))

pub room_taken :
    (now : ℕ) (ip : Bytes) (ns : ℕ) (slot : FlaggedSlot)
    → HasRoom now ip ns slot
    → (flagged_matches ip ns slot ≡ true) ⊎ (flagged_reusable now slot ≡ true)
unfolding flagged_matches flagged_reusable
room_taken now ip ns slot h = elim h [
  | inl torn ↦ inr (ground (arith, torn))
  | inr h1 ↦ elim h1 [
    | inl empty ↦ inr (ground (arith, empty))
    | inr h2 ↦ elim h2 [
      | inl old ↦ inr (ground (arith, old))
      | inr (same, space) ↦
          elim (Bool-cases (is_torn slot.version || (not slot.used || ltb slot.expires_at now))) [
            | inl e ↦ inr e
            | inr e ↦ inl (rw (same, space) (ground (arith, e, bytes_eq_refl ip)))
          ]
    ]
  ]
]

-- A slot of one key is no entry of another.
pub accepts_other :
    (t : ℕ) (ip ip' : Bytes) (ns ns' : ℕ) (slot : FlaggedSlot)
    → ¬ ((ip ≡ ip') × (ns ≡ ns'))
    → flagged_matches ip ns slot ≡ true
    → flagged_accepts t ip' ns' slot ≡ false
unfolding flagged_matches flagged_accepts
accepts_other t ip ip' ns ns' slot h m =
    ground (arith, bytes_eq→eq slot.ip ip, bytes_eq→eq slot.ip ip')

pub accepts-written_other :
    (t : ℕ) (ip ip' : Bytes) (ns ns' flags expires_at : ℕ) (slot : FlaggedSlot)
    → ¬ ((ip ≡ ip') × (ns ≡ ns'))
    → flagged_accepts t ip' ns' (flagged_write_slot slot ip flags expires_at ns) ≡ false
unfolding flagged_accepts
accepts-written_other t ip ip' ns ns' flags expires_at slot h = ground (arith, bytes_eq→eq ip ip')
