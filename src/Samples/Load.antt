-- ===== src/Samples/Load.antt =====
-- The load state machine at concrete inputs.
use botshield.Prelude.{◌≡◌, refl, [], ◌∷◌, arith}
use botshield.Load.{normal, warm, hot, LoadHeader, LoadConfig, load_run, apply_tick, rise, recover}
use botshield.Load.Hysteresis.{load_rises, load_falls}

abbrev config : LoadConfig
config = record { warm_rise = 3; hot_rise = 2; fall = 2 }

abbrev at_normal : LoadHeader
at_normal = record {
  load_state = normal;
  load_state_since_sec = 0;
  load_escalation_streak = 0;
  load_recovery_streak = 0;
  load_state_changes = 0;
}

abbrev at_hot : LoadHeader
at_hot = record {
  load_state = hot;
  load_state_since_sec = 0;
  load_escalation_streak = 0;
  load_recovery_streak = 1;
  load_state_changes = 2;
}

-- A tick at the current level starts the count again.
count_broken :
    (load_run config at_normal ((1, hot) ∷ (2, hot) ∷ (3, normal) ∷ (4, hot) ∷ [])).load_state
    ≡ normal
unfolding load_run apply_tick rise recover
count_broken = refl

load_rises_example :
    (load_run config at_normal ((1, hot) ∷ (2, warm) ∷ (3, hot) ∷ [])).load_state ≡ warm
load_rises_example =
    load_rises config at_normal ((1, hot) ∷ (2, warm) ∷ (3, hot) ∷ []) (omega arith) (omega arith)
      (omega arith) (omega arith, (omega arith, (omega arith, tt)))

load_falls_example : (load_run config at_hot ((1, normal) ∷ [])).load_state ≡ warm
load_falls_example =
    load_falls config at_hot ((1, normal) ∷ []) (omega arith) (omega arith) (omega arith)
      (omega arith, tt)
