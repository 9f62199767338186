-- ===== src/Seqlock.antt =====
-- The per-slot seqlock of src/shm.c, as `bs_flagged_write_slot`, the two clears and the reader's loop
-- of `bs_flagged_ip_lookup` have it: one writer, as writers hold the table's mutex, and a reader that
-- takes no lock, every access to shared memory a step of its own. A slot's payload is its cells. A
-- clear that leaves no flags stores 0 into the cell `used` after it has published the version, outside
-- the bracket of the version. The version is counted here without a bound; the word in memory is its
-- last 32 bits. Steps are interleaved, and memory is sequentially consistent.
pub mod Whole
pub mod Spins
use botshield.Prelude.{
  ℕ, zero, suc, ◌+◌, ◌*◌, ◌/◌, ◌%◌, ◌^◌, ◌≡◌, Bool, true, false, List, [], ◌∷◌, leb, ◌==◌,
  if◌then◌else◌,
}
use botshield.Shm.Slots.{is_torn, max_read_spins}

abbrev pub Payload : Type 0
Payload = ℕ → ℕ

abbrev pub put : ℕ → ℕ → Payload → Payload
put c value p = λ d. if c == d then value else p d

-- The slot in shared memory; `whole` remembers which payload a version was published for, and `freed`
-- whether by a clear that goes on to release the slot.
pub record SharedSlot : Type 0 where
  pub version : ℕ
  pub cells : Payload
  pub whole : ℕ → Payload
  pub freed : ℕ → Bool

-- `v | 1U`
abbrev pub marked : ℕ → ℕ
marked v = v / 2 * 2 + 1

-- Where the writer is: without the mutex, with the version that it loaded, with cells to store, or,
-- in a clear that leaves no flags, about to store that the slot is not used. The Boolean says whether
-- it is such a clear.
pub data Writer : Type 0 where
  resting : Writer
  beginning : ℕ → Payload → Bool → Writer
  storing : ℕ → List ℕ → Payload → Bool → Writer
  releasing : Writer

-- Where the reader is: about to load the version, with cells to load, or at an end.
pub data Reader : Type 0 where
  starting : ℕ → Reader
  loading : ℕ → ℕ → List ℕ → Payload → Reader
  accepted : ℕ → ℕ → Payload → Reader
  contended : Reader

-- One more spin, unless these were enough.
abbrev pub spin : ℕ → Reader
spin spins = if leb max_read_spins (spins + 1) then contended else starting (spins + 1)

abbrev pub nothing : Payload
nothing c = 0

abbrev pub word : ℕ → ℕ
word v = v % 2 ^ 32

-- `slot->used = 0`, the store by which a clear that leaves no flags releases the slot.
abbrev pub release_slot : ℕ → SharedSlot → SharedSlot
release_slot used s = record s { cells = put used 0 s.cells }

-- The order in which the cells are stored, and the order in which they are loaded.
module _ (stores loads : List ℕ) where
  -- The reader's next access.
  unfoldable pub reader_step : SharedSlot → Reader → Reader
  reader_step s (starting spins) =
      if is_torn (word s.version) then spin spins else loading spins s.version loads nothing
  reader_step s (loading spins v (c ∷ rest) copy) = loading spins v rest (put c (s.cells c) copy)
  reader_step s (loading spins v [] copy) =
      if word v == word s.version then accepted v s.version copy else spin spins
  reader_step s (accepted v w copy) = accepted v w copy
  reader_step s contended = contended

  -- The cell of the field `used`.
  module _ (used : ℕ) where
    -- The writer's next access.
    unfoldable pub writer_step : SharedSlot → Writer → SharedSlot × Writer
    writer_step s resting = (s, resting)
    writer_step s (beginning v p frees) =
        (record s { version = marked v }, storing v stores p frees)
    writer_step s (storing v (c ∷ rest) p frees) =
        (record s { cells = put c (p c) s.cells }, storing v rest p frees)
    writer_step s (storing v [] p frees) = (
      record s {
        version = marked v + 1;
        whole = λ w. if marked v + 1 == w then p else s.whole w;
        freed = λ w. if marked v + 1 == w then frees else s.freed w;
      },
      if frees then releasing else resting,
    )
    writer_step s releasing = (release_slot used s, resting)

    pub record System : Type 0 where
      pub slot : SharedSlot
      pub writer : Writer
      pub reader : Reader

    -- A writer takes the mutex, with any payload, and loads the version; it makes an access; it dies
    -- with the mutex, which the next one recovers; or the reader makes an access.
    pub data Step (s : System) : System → Type 0 where
      locks :
          (p : Payload) (frees : Bool)
          → s.writer ≡ resting
          → Step s (record s { writer = beginning s.slot.version p frees })
      writes : Step s (record s {
        slot = (writer_step s.slot s.writer).0;
        writer = (writer_step s.slot s.writer).1;
      })
      dies : Step s (record s { writer = resting })
      reads : Step s (record s { reader = reader_step s.slot s.reader })

    -- From a slot at rest that holds the payload of its version, and a reader that begins.
    pub data Reach (from : SharedSlot) : System → Type 0 where
      start : Reach from (record { slot = from; writer = resting; reader = starting 0 })
      later : {s t : System} → Reach from s → Step s t → Reach from t
