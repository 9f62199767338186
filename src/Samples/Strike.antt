-- ===== src/Samples/Strike.antt =====
-- The strike table at concrete inputs.
use botshield.Prelude.{◌≡◌, refl, true, false, none, some, [], ◌∷◌, arith, replicate}
use botshield.Shm.Slots.{acquired, is_readable, window, find}
use botshield.Shm.State.{blank_strike}
use botshield.Shm.Hash.{siphash24}
use botshield.Shm.Strike.{strike_record, strike_check, strike_accepts, strike_bucket}
use botshield.Shm.Strike.Entry.{StrikeReady, strike_entry, count_strike, escalate, record-entry}
use botshield.Shm.Strike.Ladder.{strike_run, strike_ladder}
use botshield.Samples.Tables.{zeroed, client}

zeroed-StrikeReady : StrikeReady zeroed (replicate 16 blank_strike)
zeroed-StrikeReady = record { mapped = refl; sized = refl; nonempty = omega arith; guarded = refl }

no_strikes : strike_entry client 3 0 zeroed ≡ none
unfolding strike_entry find window strike_accepts is_readable strike_bucket siphash24
no_strikes = refl

record-entry_example :
    (strike_entry client 3 0 (strike_record acquired 100 100000000 client 3 60 2 600 0 zeroed).0
      ≡ some (escalate (count_strike (strike_entry client 3 0 zeroed) 100 60) 100 2 600).0)
    × ((strike_record acquired 100 100000000 client 3 60 2 600 0 zeroed).1
        ≡ (escalate (count_strike (strike_entry client 3 0 zeroed) 100 60) 100 2 600).1)
record-entry_example =
    record-entry 100 100000000 client 3 60 2 600 0 zeroed (replicate 16 blank_strike)
      zeroed-StrikeReady

strike_ladder_example :
    ((strike_run client 3 60 3 600 0 zeroed (100 ∷ 120 ∷ [])).1 ≡ false ∷ false ∷ [])
    × ((strike_record acquired 150 150000000 client 3 60 3 600 0
          (strike_run client 3 60 3 600 0 zeroed (100 ∷ 120 ∷ [])).0).1
        ≡ true)
    × (strike_check client 3 700 0
          (strike_record acquired 150 150000000 client 3 60 3 600 0
            (strike_run client 3 60 3 600 0 zeroed (100 ∷ 120 ∷ [])).0).0
        ≡ true)
strike_ladder_example =
    strike_ladder client 3 60 3 600 0 zeroed (replicate 16 blank_strike) 100 150 700 (120 ∷ [])
      zeroed-StrikeReady no_strikes (omega arith) (omega arith)
      ((omega arith, omega arith, omega arith), tt) ((omega arith, omega arith, omega arith), tt)
      refl (omega arith)
