-- ===== src/Seqlock/Whole.antt =====
-- The invariant of the seqlock, of which copies a reader accepts, and what follows from it.
use botshield.Prelude.{
  ℕ, ◌+◌, ◌%◌, ◌^◌, ◌≤◌, ◌<◌, ◌≡◌, refl, Bool, true, false, List, [], ◌∷◌, arith, leb, ◌==◌,
  ==_refl, if◌then◌else◌, ◌⊎◌, inl, inr, Bool-cases, subst,
}
use botshield.Shm.Slots.{is_torn, max_read_spins}
use botshield.Seqlock.{
  Payload, put, SharedSlot, marked, Writer, resting, beginning, storing, Reader, starting, loading,
  accepted, contended, spin, nothing, word, releasing, writer_step, reader_step, System, Step,
  locks, writes, dies, reads, Reach, start, later,
}

abbrev pub among : ℕ → List ℕ → Bool
among c [] = false
among c (d ∷ rest) = if d == c then true else among c rest

-- Cell `c` has the payload's value, or the clear that published the payload has released the slot.
abbrev pub Holds : ℕ → Bool → Payload → ℕ → ℕ → Type 0
Holds used freed p c value = (value ≡ p c) ⊎ ((c ≡ used) × (value ≡ 0) × (freed ≡ true))

-- The cells of the first list that are not in the second hold the payload.
abbrev Agree : ℕ → Bool → List ℕ → List ℕ → Payload → Payload → Type 0
Agree used freed cells rest a b =
    (c : ℕ) → among c cells ≡ true → among c rest ≡ false → Holds used freed b c (a c)

Agree-none :
    (used : ℕ) (freed : Bool) (cells : List ℕ) (a b : Payload) → Agree used freed cells cells a b
Agree-none used freed cells a b c into out = absurd (ground (arith, into, out))

-- Cell `d` was copied as well.
Agree-put :
    (used : ℕ) (freed : Bool) (cells rest : List ℕ) (d value : ℕ) (a b : Payload)
    → (among d cells ≡ true → Holds used freed b d value)
    → Agree used freed cells (d ∷ rest) a b
    → Agree used freed cells rest (put d value a) b
Agree-put used freed cells rest d value a b copied agree c into out = elim (Bool-cases (d == c)) [
  | inl e ↦
      let same : d ≡ c = ground (arith, e) in
      rw e (subst (λ (x : ℕ). among x cells ≡ true → Holds used freed b x value) same copied into)
  | inr e ↦
      let before : among c (d ∷ rest) ≡ false = ground (arith, e, out) in rw e (agree c into before)
]

-- The slot of the payload is released.
Agree-release :
    (used : ℕ) (freed : Bool) (cells : List ℕ) (a b : Payload)
    → freed ≡ true
    → Agree used freed cells [] a b
    → Agree used freed cells [] (put used 0 a) b
Agree-release used freed cells a b f agree c into out = elim (Bool-cases (used == c)) [
  | inl e ↦ rw e (inr (ground (arith, e), refl, f))
  | inr e ↦ rw e (agree c into out)
]

module _ (stores loads : List ℕ) (used : ℕ) where
  abbrev WriterOk : SharedSlot → Writer → Type 0
  WriterOk s resting = Unit
  WriterOk s (beginning v p frees) = s.version ≡ v
  WriterOk s (storing v rest p frees) =
      (s.version ≡ marked v) × Agree used frees stores rest s.cells p
  WriterOk s releasing = (s.version % 2 ≡ 0) × (s.freed s.version ≡ true)

  abbrev ReaderOk : SharedSlot → Reader → Type 0
  ReaderOk s (starting spins) = Unit
  ReaderOk s (loading spins v rest copy) =
      (v % 2 ≡ 0)
      × (v ≤ s.version)
      × (s.version ≡ v → Agree used (s.freed v) loads rest copy (s.whole v))
  ReaderOk s (accepted v w copy) =
      (v ≤ s.version) × (w < v + 2 ^ 32 → Agree used (s.freed v) loads [] copy (s.whole v))
  ReaderOk s contended = Unit

  -- At an even version the cells are the payload that it was published for, but for a release.
  abbrev pub Settled : SharedSlot → Type 0
  Settled s =
      s.version % 2 ≡ 0 → Agree used (s.freed s.version) stores [] s.cells (s.whole s.version)

  record Inv (s : System stores loads used) : Type 0 where
    settled : Settled s.slot
    writer_ok : WriterOk s.slot s.writer
    reader_ok : ReaderOk s.slot s.reader

  -- What the writer does is later than what the reader has.
  ReaderOk-later :
      (s t : SharedSlot) (r : Reader)
      → s.version ≤ t.version
      → (t.version % 2 ≡ 0 → s.version < t.version)
      → ((v : ℕ) → v ≤ s.version → (t.whole v ≡ s.whole v) × (t.freed v ≡ s.freed v))
      → ReaderOk s r
      → ReaderOk t r
  ReaderOk-later s t (starting spins) le lt keeps ok = tt
  ReaderOk-later s t (loading spins v rest copy) le lt keeps (even, from, agree) = (
    even,
    omega (arith, from, le),
    λ same. absurd (omega (arith, lt (omega (arith, same, even)), from, same)),
  )
  ReaderOk-later s t (accepted v w copy) le lt keeps (from, agree) =
      (omega (arith, from, le), λ close. rw ((keeps v from).0, (keeps v from).1) (agree close))
  ReaderOk-later s t contended le lt keeps ok = tt

  marked_odd : (v : ℕ) → marked v % 2 ≡ 0 → ⊥
  marked_odd v e = omega (arith, e)

  write-Inv :
      (slot : SharedSlot) (w : Writer) (r : Reader)
      → Settled slot
      → WriterOk slot w
      → ReaderOk slot r
      → let (after, next) = writer_step stores loads used slot w in
        Settled after × WriterOk after next × ReaderOk after r
  unfolding writer_step
  write-Inv slot resting r settled wok rok = (settled, tt, rok)
  write-Inv slot (beginning v p frees) r settled wok rok = (
    λ even. absurd (marked_odd v even),
    (refl, Agree-none used frees stores slot.cells p),
    ReaderOk-later slot (record slot { version = marked v }) r (omega (arith, wok))
        (λ even. absurd (marked_odd v even)) (λ u le. (refl, refl)) rok,
  )
  write-Inv slot (storing v (c ∷ rest) p frees) r settled wok rok = (
    λ even. absurd (omega (arith, even, wok.0)),
    (wok.0, Agree-put used frees stores rest c (p c) slot.cells p (λ into. inl refl) wok.1),
    ReaderOk-later slot (record slot { cells = put c (p c) slot.cells }) r (omega arith)
        (λ even. absurd (omega (arith, even, wok.0))) (λ u le. (refl, refl)) rok,
  )
  write-Inv slot (storing v [] p frees) r settled wok rok = (
    λ even. rw (==_refl (marked v + 1)) wok.1,
    next frees,
    ReaderOk-later slot
        (record slot {
          version = marked v + 1;
          whole = λ w. if marked v + 1 == w then p else slot.whole w;
          freed = λ w. if marked v + 1 == w then frees else slot.freed w;
        })
        r (omega (arith, wok.0)) (λ even. omega (arith, wok.0))
        (λ u le.
          let other : (marked v + 1 == u) ≡ false = ground (arith, le, wok.0) in
          rw other (refl, refl))
        rok,
  )
    where
      next :
          (f : Bool)
          → WriterOk
              (record slot {
                version = marked v + 1;
                whole = λ w. if marked v + 1 == w then p else slot.whole w;
                freed = λ w. if marked v + 1 == w then f else slot.freed w;
              })
              (if f then releasing else resting)
      next true = (omega arith, rw (==_refl (marked v + 1)) refl)
      next false = tt
  write-Inv slot releasing r settled wok rok = (
    λ even.
        Agree-release used (slot.freed slot.version) stores slot.cells (slot.whole slot.version)
          wok.1 (settled even),
    tt,
    rok,
  )

  spin-ReaderOk : (s : SharedSlot) (spins : ℕ) → ReaderOk s (spin spins)
  spin-ReaderOk s spins = elim (Bool-cases (leb max_read_spins (spins + 1))) [
    | inl e ↦ rw e tt
    | inr e ↦ rw e tt
  ]

  module _ (stored : (c : ℕ) → among c loads ≡ true → among c stores ≡ true) where
    read-ReaderOk :
        (slot : SharedSlot) (r : Reader)
        → Settled slot
        → ReaderOk slot r
        → ReaderOk slot (reader_step stores loads slot r)
    unfolding reader_step
    read-ReaderOk slot (starting spins) settled ok =
        elim (Bool-cases (is_torn (word slot.version))) [
          | inl e ↦ rw e (spin-ReaderOk slot spins)
          | inr e ↦ rw e (
            ground (arith, e),
            omega arith,
            λ same.
                Agree-none used (slot.freed slot.version) loads nothing (slot.whole slot.version),
          )
        ]
    read-ReaderOk slot (loading spins v (c ∷ rest) copy) settled (even, from, agree) = (
      even,
      from,
      λ same.
          Agree-put used (slot.freed v) loads rest c (slot.cells c) copy (slot.whole v)
            (λ into.
              subst (λ (w : ℕ). Holds used (slot.freed w) (slot.whole w) c (slot.cells c)) same
                (settled (omega (arith, same, even)) c (stored c into) refl))
            (agree same),
    )
    read-ReaderOk slot (loading spins v [] copy) settled (even, from, agree) =
        elim (Bool-cases (word v == word slot.version)) [
          | inl e ↦ rw e (from, λ close. agree (ground (arith, e, from, close)))
          | inr e ↦ rw e (spin-ReaderOk slot spins)
        ]
    read-ReaderOk slot (accepted v w copy) settled ok = ok
    read-ReaderOk slot contended settled ok = ok

    Step-Inv : {s t : System stores loads used} → Step stores loads used s t → Inv s → Inv t
    Step-Inv {s} (locks p frees e) inv = record {
      settled = inv.settled;
      writer_ok = refl;
      reader_ok = inv.reader_ok;
    }
    Step-Inv {s} writes inv =
        let (settled, writer_ok, reader_ok) =
          write-Inv s.slot s.writer s.reader inv.settled inv.writer_ok inv.reader_ok in
        record { settled = settled; writer_ok = writer_ok; reader_ok = reader_ok }
    Step-Inv {s} dies inv = record {
      settled = inv.settled;
      writer_ok = tt;
      reader_ok = inv.reader_ok;
    }
    Step-Inv {s} reads inv = record {
      settled = inv.settled;
      writer_ok = inv.writer_ok;
      reader_ok = read-ReaderOk s.slot s.reader inv.settled inv.reader_ok;
    }

    Reach-Inv :
        {from : SharedSlot} {s : System stores loads used}
        → Settled from
        → Reach stores loads used from s
        → Inv s
    Reach-Inv settled start = record { settled = settled; writer_ok = tt; reader_ok = tt }
    Reach-Inv settled (later r step) = Step-Inv step (Reach-Inv settled r)

    -- Whatever writers and clears do meanwhile, and wherever they die: if fewer than 2 ^ 32 versions
    -- went by while a reader read, its accepted copy is, in every cell that it loads, the payload that
    -- was published with the version that it read first. The one exception is the cell `used`, which
    -- may be 0 already if a clear that leaves no flags published that version.
    pub accepted-whole :
        (from : SharedSlot) (s : System stores loads used) (v w : ℕ) (copy : Payload)
        → Settled from
        → Reach stores loads used from s
        → s.reader ≡ accepted v w copy
        → w < v + 2 ^ 32
        → (c : ℕ) → among c loads ≡ true
        → Holds used (s.slot.freed v) (s.slot.whole v) c (copy c)
    accepted-whole from s v w copy settled reach e close c into =
        let ok = subst (ReaderOk s.slot) e (Reach-Inv settled reach).reader_ok in
        ok.1 close c into refl
