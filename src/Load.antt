-- ===== src/Load.antt =====
-- The load state machine of src/load.c: the tick of the watchdog and its hysteresis.
pub mod Hysteresis
use botshield.Prelude.{
  ℕ, ◌+◌, ◌%◌, ◌^◌, Bool, true, false, ◌&&◌, Option, none, some, List, [], ◌∷◌, ltb, leb, ◌==◌,
  if◌then◌else◌,
}

-- bs_load_state, with its values.
pub data LoadState : Type 0 where
  normal : LoadState
  warm : LoadState
  hot : LoadState

abbrev pub rank : LoadState → ℕ
rank normal = 0
rank warm = 1
rank hot = 2

-- The fields of the segment's header that the machine keeps.
pub record LoadHeader : Type 0 where
  pub load_state : LoadState
  pub load_state_since_sec : ℕ
  pub load_escalation_streak : ℕ
  pub load_recovery_streak : ℕ
  pub load_state_changes : ℕ

-- The ticks that a change needs, positive as `bs_load_effective_int` leaves them.
pub record LoadConfig : Type 0 where
  pub warm_rise : ℕ
  pub hot_rise : ℕ
  pub fall : ℕ

-- `bs_load_state_from_pct`
unfoldable pub state_from_pct : ℕ → ℕ → ℕ → LoadState
state_from_pct busy_pct warm_pct hot_pct =
    if leb hot_pct busy_pct then hot else if leb warm_pct busy_pct then warm else normal

-- `(int)streak >= need`, where a counter past the largest int is negative.
abbrev pub int_ge : ℕ → ℕ → Bool
int_ge streak need = ltb streak (2 ^ 31) && leb need streak

-- `current + 1` below hot, and `current - 1` above normal.
abbrev pub step_up : LoadState → LoadState
step_up normal = warm
step_up warm = hot
step_up hot = hot

abbrev pub step_down : LoadState → LoadState
step_down normal = normal
step_down warm = normal
step_down hot = warm

abbrev pub rise_need : LoadConfig → LoadState → ℕ
rise_need cfg normal = cfg.warm_rise
rise_need cfg warm = cfg.hot_rise
rise_need cfg hot = cfg.hot_rise

-- The last part of the tick: a new state is published.
abbrev pub publish : ℕ → LoadState → LoadHeader → LoadHeader
publish now next h = if rank next == rank h.load_state then h else record h {
  load_state_since_sec = now % 2 ^ 32;
  load_state_changes = (h.load_state_changes + 1) % 2 ^ 32;
  load_state = next;
}

-- The branch for a candidate above the current state.
unfoldable pub rise : LoadConfig → ℕ → LoadHeader → LoadHeader
rise cfg now h =
    let streak = (h.load_escalation_streak + 1) % 2 ^ 32 in
    if int_ge streak (rise_need cfg h.load_state)
    then publish now (step_up h.load_state)
        (record h { load_recovery_streak = 0; load_escalation_streak = 0 })
    else record h { load_recovery_streak = 0; load_escalation_streak = streak }

-- The branch for a candidate below it.
unfoldable pub recover : LoadConfig → ℕ → LoadHeader → LoadHeader
recover cfg now h =
    let streak = (h.load_recovery_streak + 1) % 2 ^ 32 in
    if int_ge streak cfg.fall
    then publish now (step_down h.load_state)
        (record h { load_escalation_streak = 0; load_recovery_streak = 0 })
    else record h { load_escalation_streak = 0; load_recovery_streak = streak }

-- `bs_load_apply_tick` on a mapped segment; `now` is its clock reading.
unfoldable pub apply_tick : LoadConfig → ℕ → LoadState → LoadHeader → LoadHeader
apply_tick cfg now candidate h =
    if ltb (rank h.load_state) (rank candidate)
    then rise cfg now h
    else if ltb (rank candidate) (rank h.load_state)
    then recover cfg now h
    else record h { load_escalation_streak = 0; load_recovery_streak = 0 }

-- Ticks with their clock readings and candidates.
unfoldable pub load_run : LoadConfig → LoadHeader → List (ℕ × LoadState) → LoadHeader
load_run cfg h [] = h
load_run cfg h ((now, candidate) ∷ ticks) = load_run cfg (apply_tick cfg now candidate h) ticks
