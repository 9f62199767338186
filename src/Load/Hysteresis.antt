-- ===== src/Load/Hysteresis.antt =====
-- How many ticks in a row a change of the load state takes.
use botshield.Prelude.{
  ℕ, ◌+◌, ◌≤◌, ◌<◌, ◌%◌, ◌^◌, ◌≡◌, refl, ◌∙◌, ap, true, false, List, [], ◌∷◌, arith, length, ltb,
  leb, if◌then◌else◌, inl, inr, Bool-cases, subst,
}
use botshield.Load.{
  LoadState, normal, warm, hot, rank, LoadHeader, LoadConfig, step_up, step_down, rise_need, rise,
  recover, apply_tick, load_run,
}

-- All candidates satisfy a condition.
abbrev pub AllToward : (LoadState → Type 0) → List (ℕ × LoadState) → Type 0
AllToward Toward [] = Unit
AllToward Toward ((now, candidate) ∷ ticks) = Toward candidate × AllToward Toward ticks

rank-step_up : (s c : LoadState) → rank s < rank c → rank (step_up s) ≡ rank s + 1
rank-step_up normal c h = refl
rank-step_up warm c h = refl
rank-step_up hot normal h = absurd (omega (arith, h))
rank-step_up hot warm h = absurd (omega (arith, h))
rank-step_up hot hot h = absurd (omega (arith, h))

rank-step_down : (s c : LoadState) → rank c < rank s → rank (step_down s) + 1 ≡ rank s
rank-step_down normal normal h = absurd (omega (arith, h))
rank-step_down normal warm h = absurd (omega (arith, h))
rank-step_down normal hot h = absurd (omega (arith, h))
rank-step_down warm c h = refl
rank-step_down hot c h = refl

-- One tick above the state, short of the ticks that a rise needs, or with the last of them.
tick_above :
    (cfg : LoadConfig) (now : ℕ) (candidate : LoadState) (h : LoadHeader)
    → rank h.load_state < rank candidate
    → h.load_escalation_streak + 1 < 2 ^ 31
    → ((h.load_escalation_streak + 1 < rise_need cfg h.load_state
          → (apply_tick cfg now candidate h).load_state ≡ h.load_state)
        × (h.load_escalation_streak + 1 < rise_need cfg h.load_state
            → (apply_tick cfg now candidate h).load_escalation_streak
              ≡ h.load_escalation_streak + 1)
        × (rise_need cfg h.load_state ≤ h.load_escalation_streak + 1
            → (apply_tick cfg now candidate h).load_state ≡ step_up h.load_state))
unfolding apply_tick rise
tick_above cfg now candidate h above small =
    let up : ltb (rank h.load_state) (rank candidate) ≡ true = ground (arith, above) in
    let fits : (h.load_escalation_streak + 1) % 2 ^ 32 ≡ h.load_escalation_streak + 1 =
      omega (arith, small) in
    let moved : rank (step_up h.load_state) ≡ rank h.load_state + 1 =
      rank-step_up h.load_state candidate above in
    (
      λ few. rw up (ground (arith, fits, few)),
      λ few. rw up (ground (arith, fits, few)),
      λ enough. rw up (ground (arith, fits, enough, small, moved)),
    )

tick_under :
    (cfg : LoadConfig) (now : ℕ) (candidate : LoadState) (h : LoadHeader)
    → rank candidate < rank h.load_state
    → h.load_recovery_streak + 1 < 2 ^ 31
    → ((h.load_recovery_streak + 1 < cfg.fall
          → (apply_tick cfg now candidate h).load_state ≡ h.load_state)
        × (h.load_recovery_streak + 1 < cfg.fall
            → (apply_tick cfg now candidate h).load_recovery_streak ≡ h.load_recovery_streak + 1)
        × (cfg.fall ≤ h.load_recovery_streak + 1
            → (apply_tick cfg now candidate h).load_state ≡ step_down h.load_state))
unfolding apply_tick recover
tick_under cfg now candidate h under small =
    let not_up : ltb (rank h.load_state) (rank candidate) ≡ false = ground (arith, under) in
    let down : ltb (rank candidate) (rank h.load_state) ≡ true = ground (arith, under) in
    let fits : (h.load_recovery_streak + 1) % 2 ^ 32 ≡ h.load_recovery_streak + 1 =
      omega (arith, small) in
    let moved : rank (step_down h.load_state) + 1 ≡ rank h.load_state =
      rank-step_down h.load_state candidate under in
    (
      λ few. rw (not_up, down) (ground (arith, fits, few)),
      λ few. rw (not_up, down) (ground (arith, fits, few)),
      λ enough. rw (not_up, down) (ground (arith, fits, enough, small, moved)),
    )

-- What a tick towards `target` does to a state that needs so many of them in a row.
abbrev Moves : LoadState → LoadState → ℕ → (LoadHeader → ℕ) → LoadHeader → LoadHeader → Type 0
Moves s target need streak h h' =
    (streak h + 1 < need → h'.load_state ≡ s)
    × (streak h + 1 < need → streak h' ≡ streak h + 1)
    × (need ≤ streak h + 1 → h'.load_state ≡ target)

module _ (cfg : LoadConfig) (s target : LoadState) (need : ℕ) (streak : LoadHeader → ℕ)
    (Toward : LoadState → Type 0) (small : need < 2 ^ 31)
    (one : (now : ℕ) (candidate : LoadState) (h : LoadHeader)
      → h.load_state ≡ s
      → Toward candidate
      → streak h + 1 < 2 ^ 31
      → Moves s target need streak h (apply_tick cfg now candidate h)) where
  last_tick :
      (h h' : LoadHeader) (rest : List (ℕ × LoadState))
      → Moves s target need streak h h'
      → leb need (streak h + 1) ≡ true
      → streak h + 1 + length rest ≤ need
      → (load_run cfg h' rest).load_state
        ≡ (if leb need (streak h + 1 + length rest) then target else s)
  unfolding load_run
  last_tick h h' [] moves last fit = moves.2 (ground (arith, last)) ∙ ground (arith, last)
  last_tick h h' (t ∷ rest) moves last fit = absurd (ground (arith, last, fit))

  moves_after :
      (ticks : List (ℕ × LoadState)) (h : LoadHeader)
      → h.load_state ≡ s
      → streak h < need
      → streak h + length ticks ≤ need
      → AllToward Toward ticks
      → (load_run cfg h ticks).load_state
        ≡ (if leb need (streak h + length ticks) then target else s)
  unfolding load_run
  moves_after [] h es short fit toward = es ∙ ground (arith, short)
  moves_after ((now, candidate) ∷ ticks) h es short fit toward =
      let moves = one now candidate h es toward.0 (omega (arith, short, small)) in
      let count : streak h + 1 + length ticks ≡ streak h + length ((now, candidate) ∷ ticks) =
        omega arith in
      elim (Bool-cases (leb need (streak h + 1))) [
        | inl last ↦
            last_tick h (apply_tick cfg now candidate h) ticks moves last (omega (arith, fit))
            ∙ ap (λ (n : ℕ). if leb need n then target else s) count
        | inr more ↦
            let few : streak h + 1 < need = ground (arith, more) in
            let counted = moves.1 few in
            moves_after ticks (apply_tick cfg now candidate h) (moves.0 few)
              (omega (arith, counted, few)) (omega (arith, counted, fit)) toward.1
            ∙ ap (λ (n : ℕ). if leb need n then target else s)
                (ap (λ (n : ℕ). n + length ticks) counted ∙ count)
      ]

-- Ticks in a row with candidates above the state, as many as the rise needs or fewer, counted with
-- those before: the state rises by one level with the last tick needed, and not before.
pub load_rises :
    (cfg : LoadConfig) (h : LoadHeader) (ticks : List (ℕ × LoadState))
    → h.load_escalation_streak < rise_need cfg h.load_state
    → rise_need cfg h.load_state < 2 ^ 31
    → h.load_escalation_streak + length ticks ≤ rise_need cfg h.load_state
    → AllToward (λ c. rank h.load_state < rank c) ticks
    → (load_run cfg h ticks).load_state ≡ (
        if leb (rise_need cfg h.load_state) (h.load_escalation_streak + length ticks)
        then step_up h.load_state
        else h.load_state)
load_rises cfg h ticks short small fit above =
    moves_after cfg h.load_state (step_up h.load_state) (rise_need cfg h.load_state)
      (λ g. g.load_escalation_streak) (λ c. rank h.load_state < rank c) small
      (λ now candidate g e a lt.
        subst
          (λ s.
            Moves s (step_up s) (rise_need cfg s) (λ g. g.load_escalation_streak) g
              (apply_tick cfg now candidate g))
          e (tick_above cfg now candidate g (rw e a) lt))
      ticks h refl short fit above

-- Ticks in a row with candidates below the state, so from hot also warm ones, as many as the fall
-- needs or fewer, counted with those before: the state falls by one level with the last tick needed,
-- and not before.
pub load_falls :
    (cfg : LoadConfig) (h : LoadHeader) (ticks : List (ℕ × LoadState))
    → h.load_recovery_streak < cfg.fall
    → cfg.fall < 2 ^ 31
    → h.load_recovery_streak + length ticks ≤ cfg.fall
    → AllToward (λ c. rank c < rank h.load_state) ticks
    → (load_run cfg h ticks).load_state ≡ (
        if leb cfg.fall (h.load_recovery_streak + length ticks)
        then step_down h.load_state
        else h.load_state)
load_falls cfg h ticks short small fit under =
    moves_after cfg h.load_state (step_down h.load_state) cfg.fall (λ g. g.load_recovery_streak)
      (λ c. rank c < rank h.load_state) small
      (λ now candidate g e a lt.
        subst
          (λ s.
            Moves s (step_down s) cfg.fall (λ g. g.load_recovery_streak) g
              (apply_tick cfg now candidate g))
          e (tick_under cfg now candidate g (rw e a) lt))
      ticks h refl short fit under
