-- ===== src/Shm/Slots.antt =====
-- The idiom shared by the tables of src/shm.c: open addressing in a fixed probe window, a seqlock
-- version in each slot, and a trylock round every writer. The scan of a writer keeps the first slot
-- that it may reuse and goes on for a match; the scan of a reader returns the first slot it accepts.
use botshield.Prelude.{
  ℕ, zero, suc, ◌+◌, ◌*◌, ◌/◌, ◌%◌, ◌^◌, ◌≡◌, Bool, true, false, not, Option, none, some, List, [],
  ◌∷◌, arith, ◌==◌, if◌then◌else◌, get_or,
}

-- `v & 1U`: a write is in progress, or its writer died in it.
abbrev pub is_torn : ℕ → Bool
is_torn v = v % 2 == 1

-- The version after a whole write, `(v | 1U) + 1U`.
abbrev pub published : ℕ → ℕ
published v = (v / 2 * 2 + 2) % 2 ^ 32

pub published-even : (v : ℕ) → is_torn (published v) ≡ false
published-even v = ground arith

-- What `apr_global_mutex_trylock` answers: the lock, EBUSY, or another error.
pub data Lock : Type 0 where
  acquired busy failed : Lock

-- The slots `(base + i) % capacity` for `i` from `i` on, `n` of them.
unfoldable pub window : ℕ → ℕ → ℕ → ℕ → List ℕ
window base capacity i zero = []
window base capacity i (suc n) = (base + i) % capacity ∷ window base capacity (i + 1) n

-- A victim once chosen is kept.
abbrev pub keep_first : Option ℕ → ℕ → Option ℕ
keep_first none idx = some idx
keep_first (some v) idx = some v

-- Where a writer's scan ends: at a match, or at the end with the first slot it may reuse.
pub data Scan : Type 0 where
  hit : ℕ → Scan
  miss : Option ℕ → Scan

module _ {A : Type 0} (blank : A) (matches reusable : A → Bool) where
  unfoldable pub scan : List A → Option ℕ → List ℕ → Scan
  scan table victim [] = miss victim
  scan table victim (idx ∷ rest) =
      let slot = get_or table idx blank in
      let onward = scan table (if reusable slot then keep_first victim idx else victim) rest in
      if matches slot then hit idx else onward

-- A match, else the slot to reuse, else the first slot of the window.
abbrev pub target : ℕ → Scan → ℕ
target base (hit idx) = idx
target base (miss (some idx)) = idx
target base (miss none) = base

module _ {A : Type 0} (blank : A) (accepts : A → Bool) where
  unfoldable pub find : List A → List ℕ → Option A
  find table [] = none
  find table (idx ∷ rest) =
      let slot = get_or table idx blank in
      let onward = find table rest in if accepts slot then some slot else onward

-- One round of the seqlock reader: the version before, the copied slot, the version after.
abbrev pub Sample : Type 0 → Type 0
Sample A = ℕ × A × ℕ

-- The reader's loop. It gives up (`none`) when `spins` rounds have met a writer.
unfoldable pub seq_read : {A : Type 0} → ℕ → (ℕ → Sample A) → ℕ → Option A
seq_read zero sees i = none
seq_read (suc spins) sees i =
    let again = seq_read spins sees (i + 1) in
    let (before, copy, after) = sees i in
    if is_torn before then again else if before == after then some copy else again

-- BS_FLAGGED_MAX_READ_SPINS
abbrev pub max_read_spins : ℕ
max_read_spins = 3

-- Whether the reader gets a copy of a slot that no writer touches meanwhile.
unfoldable pub is_readable : ℕ → Bool
unfolding seq_read
is_readable v = elim (seq_read max_read_spins (λ _. (v, v, v)) 0) [ none ↦ false | some _ ↦ true ]

pub is_readable_lem : (v : ℕ) → is_readable v ≡ not (is_torn v)
unfolding is_readable
is_readable_lem v = ground arith
