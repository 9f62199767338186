-- ===== src/Seqlock/Spins.antt =====
-- How many accesses a reader of the seqlock makes.
use botshield.Prelude.{
  ℕ, zero, suc, ◌+◌, ◌*◌, ◌≤◌, ◌<◌, ◌≡◌, refl, ap, true, false, List, [], ◌∷◌, arith, leb, ◌==◌,
  ==_refl, length, inl, inr, Bool-cases,
}
use botshield.Shm.Slots.{is_torn}
use botshield.Seqlock.Whole.{among}
use botshield.Seqlock.{
  Payload, put, SharedSlot, Reader, starting, loading, accepted, contended, spin, nothing, word,
  reader_step,
}

-- The reader has a copy, or it has given the slot up.
unfoldable pub IsDone : Reader → Type 0
IsDone (accepted v w copy) = Unit
IsDone contended = Unit
IsDone _ = ⊥

put_same : (d c : ℕ) (cells copy : Payload) → (d == c) ≡ true → put d (cells d) copy c ≡ cells c
put_same d c cells copy e = let same : d ≡ c = ground (arith, e) in rw e (ap cells same)

put_agrees : (d c : ℕ) (cells copy : Payload) → copy c ≡ cells c → put d (cells d) copy c ≡ cells c
put_agrees d c cells copy h = elim (Bool-cases (d == c)) [
  | inl e ↦ put_same d c cells copy e
  | inr e ↦ rw e h
]

module _ (stores loads : List ℕ) where
  -- `n` accesses of a reader, to a slot that others may have changed before each.
  unfoldable pub attend : ℕ → (ℕ → SharedSlot) → ℕ → Reader → Reader
  attend zero others i r = r
  attend (suc n) others i r = attend n others (i + 1) (reader_step stores loads (others i) r)

  attend-IsDone :
      (n : ℕ) (others : ℕ → SharedSlot) (i : ℕ) (r : Reader)
      → IsDone r
      → IsDone (attend n others i r)
  unfolding attend reader_step IsDone
  attend-IsDone zero others i r done = done
  attend-IsDone (suc n) others i (starting spins) done = absurd done
  attend-IsDone (suc n) others i (loading spins v rest copy) done = absurd done
  attend-IsDone (suc n) others i (accepted v w copy) done =
      attend-IsDone n others (i + 1) (accepted v w copy) done
  attend-IsDone (suc n) others i contended done = attend-IsDone n others (i + 1) contended done

  abbrev round : ℕ
  round = length loads + 2

  -- With `k` more spins to go, this many accesses are enough from a start.
  Enough : ℕ → (ℕ → SharedSlot) → Type 0
  Enough k others =
      (n i spins : ℕ)
      → spins + k ≡ 3
      → k * round ≤ n
      → 0 < k
      → IsDone (attend n others i (starting spins))

  spin-IsDone :
      (k n i spins : ℕ) (others : ℕ → SharedSlot)
      → Enough k others
      → spins + 1 + k ≡ 3
      → k * round ≤ n
      → IsDone (attend n others i (spin spins))
  unfolding Enough
  spin-IsDone zero n i spins others enough e h =
      let last : leb 3 (spins + 1) ≡ true = ground (arith, e) in
      rw last (attend-IsDone n others i contended (unfold IsDone in tt))
  spin-IsDone (suc k) n i spins others enough e h =
      let more : leb 3 (spins + 1) ≡ false = ground (arith, e) in
      rw more (enough n i (spins + 1) (omega (arith, e)) h (omega arith))

  load-IsDone :
      (rest : List ℕ) (k n i spins v : ℕ) (copy : Payload) (others : ℕ → SharedSlot)
      → Enough k others
      → spins + 1 + k ≡ 3
      → length rest + 1 + k * round ≤ n
      → IsDone (attend n others i (loading spins v rest copy))
  unfolding attend reader_step
  load-IsDone rest k zero i spins v copy others enough e h = absurd (omega (arith, h))
  load-IsDone [] k (suc n) i spins v copy others enough e h =
      elim (Bool-cases (word v == word (others i).version)) [
        | inl same ↦ rw same (
            attend-IsDone n others (i + 1) (accepted v (others i).version copy)
              (unfold IsDone in tt))
        | inr other ↦ rw other (spin-IsDone k n (i + 1) spins others enough e (omega (arith, h)))
      ]
  load-IsDone (c ∷ rest) k (suc n) i spins v copy others enough e h =
      load-IsDone rest k n (i + 1) spins v (put c ((others i).cells c) copy) others enough e
        (omega (arith, h))

  start-Enough : (k : ℕ) (others : ℕ → SharedSlot) → Enough k others
  unfolding Enough attend reader_step
  start-Enough zero others n i spins e h some_left = absurd (omega (arith, some_left))
  start-Enough (suc k) others zero i spins e h some_left = absurd (omega (arith, h))
  start-Enough (suc k) others (suc n) i spins e h some_left =
      elim (Bool-cases (is_torn (word (others i).version))) [
        | inl torn ↦ rw torn (
            spin-IsDone k n (i + 1) spins others (start-Enough k others) (omega (arith, e))
              (omega (arith, h)))
        | inr whole ↦ rw whole (
            load-IsDone loads k n (i + 1) spins (others i).version nothing others
              (start-Enough k others) (omega (arith, e)) (omega (arith, h)))
      ]

  -- A reader ends after at most three times as many accesses as it loads cells, and two more for the
  -- version: with a copy, or giving the slot up, whatever is written between any two of them.
  pub attend-starting :
      (others : ℕ → SharedSlot) → IsDone (attend (3 * round) others 0 (starting 0))
  unfolding Enough
  attend-starting others = start-Enough 3 others (3 * round) 0 0 refl (omega arith) (omega arith)

  -- What a reader has copied after the given cells.
  abbrev gathered : List ℕ → Payload → Payload → Payload
  gathered [] cells copy = copy
  gathered (c ∷ rest) cells copy = gathered rest cells (put c (cells c) copy)

  gathered_kept :
      (rest : List ℕ) (cells copy : Payload) (c : ℕ)
      → copy c ≡ cells c
      → gathered rest cells copy c ≡ cells c
  gathered_kept [] cells copy c h = h
  gathered_kept (d ∷ rest) cells copy c h =
      gathered_kept rest cells (put d (cells d) copy) c (put_agrees d c cells copy h)

  gathered-among :
      (rest : List ℕ) (cells copy : Payload) (c : ℕ)
      → among c rest ≡ true
      → gathered rest cells copy c ≡ cells c
  gathered-among [] cells copy c h = absurd (ground (arith, h))
  gathered-among (d ∷ rest) cells copy c h = elim (Bool-cases (d == c)) [
    | inl e ↦ gathered_kept rest cells (put d (cells d) copy) c (put_same d c cells copy e)
    | inr e ↦ gathered-among rest cells (put d (cells d) copy) c (ground (arith, h, e))
  ]

  attend-loading :
      (rest : List ℕ) (s : SharedSlot) (i spins : ℕ) (copy : Payload)
      → attend (suc (length rest)) (λ _. s) i (loading spins s.version rest copy)
        ≡ accepted s.version s.version (gathered rest s.cells copy)
  unfolding attend reader_step
  attend-loading [] s i spins copy = rw (==_refl (word s.version)) refl
  attend-loading (c ∷ rest) s i spins copy =
      attend-loading rest s (i + 1) spins (put c (s.cells c) copy)

  -- While no writer is at work, a reader has its copy at the first try, after as many accesses as it
  -- loads cells and two more, and the copy is what the slot holds.
  pub attend_undisturbed :
      (s : SharedSlot)
      → is_torn (word s.version) ≡ false
      → (copy : Payload) × (attend (suc (suc (length loads))) (λ _. s) 0 (starting 0)
          ≡ accepted s.version s.version copy)
        × ((c : ℕ) → among c loads ≡ true → copy c ≡ s.cells c)
  unfolding attend reader_step
  attend_undisturbed s whole = (
    gathered loads s.cells nothing,
    rw (attend, reader_step, whole) (attend-loading loads s 1 0 nothing),
    gathered-among loads s.cells nothing,
  )
