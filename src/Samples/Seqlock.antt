-- ===== src/Samples/Seqlock.antt =====
-- The seqlock at concrete inputs: a slot of two cells, and a writer that comes in between the
-- reader's loads.
use botshield.Prelude.{ℕ, ◌+◌, ◌*◌, ◌≡◌, refl, true, false, inl, List, [], ◌∷◌, arith}
use botshield.Seqlock.{
  Payload, put, SharedSlot, starting, accepted, nothing, writer_step, reader_step, System, locks,
  writes, reads, Reach, start, later,
}
use botshield.Seqlock.Whole.{Holds, among, accepted-whole}
use botshield.Seqlock.Spins.{IsDone, attend, attend-starting, attend_undisturbed}

abbrev store_order : List ℕ
store_order = 0 ∷ 1 ∷ []

abbrev load_order : List ℕ
load_order = 1 ∷ 0 ∷ []

abbrev first_slot : SharedSlot
first_slot = record { version = 0; cells = λ c. 5; whole = λ v c. 5; freed = λ v. false }

abbrev written : Payload
written c = c + 7

-- The reader loads the version and one cell; a clear writes and publishes; the reader loads the other
-- cell, sees another version, and loads the version anew; the clear releases the slot by its cell 0
-- before the reader has loaded that.
abbrev retried : (s : System store_order load_order 0) × Reach store_order load_order 0 first_slot s
retried = (
  _,
  later
      (later
        (later
          (later
            (later
              (later
                (later
                  (later
                    (later
                      (later
                        (later (later (later (later start reads) reads) (locks written true refl))
                          writes)
                        writes)
                      writes)
                    writes)
                  reads)
                reads)
              reads)
            reads)
          writes)
        reads)
      reads,
)

abbrev copied : Payload
copied = put 0 0 (put 1 8 nothing)

ends_accepted : retried.0.reader ≡ accepted 2 2 copied
unfolding writer_step reader_step
ends_accepted = refl

load-among-store : (c : ℕ) → among c load_order ≡ true → among c store_order ≡ true
load-among-store c h = ground (arith, h)

accepted-whole_example : Holds 0 (retried.0.slot.freed 2) (retried.0.slot.whole 2) 0 (copied 0)
accepted-whole_example =
    accepted-whole store_order load_order 0 load-among-store first_slot retried.0 2 2 copied
      (λ even c into out. inl refl) retried.1 ends_accepted (omega arith) 0 refl

abbrev always_torn : ℕ → SharedSlot
always_torn i = record { version = i * 2 + 1; cells = λ c. i; whole = λ v c. 0; freed = λ v. false }

attend-starting_example : IsDone (attend store_order load_order 12 always_torn 0 (starting 0))
attend-starting_example = attend-starting store_order load_order always_torn

attend_undisturbed_example :
    (copy : Payload) × (attend store_order load_order 4 (λ _. first_slot) 0 (starting 0)
      ≡ accepted 0 0 copy)
    × ((c : ℕ) → among c load_order ≡ true → copy c ≡ 5)
attend_undisturbed_example = attend_undisturbed store_order load_order first_slot refl
