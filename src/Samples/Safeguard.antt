-- ===== src/Samples/Safeguard.antt =====
-- The safeguard table at concrete inputs.
use botshield.Prelude.{◌≡◌, refl, true, false, none, some, [], ◌∷◌, arith, replicate}
use botshield.Shm.Slots.{acquired, is_readable, window, find}
use botshield.Shm.State.{blank_safeguard}
use botshield.Shm.Hash.{siphash24}
use botshield.Shm.Safeguard.{
  record_presentation, safeguard_check, safeguard_accepts, safeguard_bucket,
}
use botshield.Shm.Safeguard.Entry.{
  SafeguardReady, safeguard_entry, count_shown, trip, presentation-entry,
}
use botshield.Shm.Safeguard.Loop.{presentation_run, safeguard_trips}
use botshield.Samples.Tables.{zeroed, client}

zeroed-SafeguardReady : SafeguardReady zeroed (replicate 16 blank_safeguard)
zeroed-SafeguardReady = record {
  mapped = refl;
  sized = refl;
  nonempty = omega arith;
  guarded = refl;
}

not_shown : safeguard_entry client 0 zeroed ≡ none
unfolding safeguard_entry find window safeguard_accepts is_readable safeguard_bucket siphash24
not_shown = refl

presentation-entry_example :
    safeguard_entry client 0 (record_presentation acquired 100 100000000 client 3 60 600 0 zeroed)
    ≡ some (trip (count_shown (safeguard_entry client 0 zeroed) 100 60) 100 3 600)
presentation-entry_example =
    presentation-entry 100 100000000 client 3 60 600 0 zeroed (replicate 16 blank_safeguard)
      zeroed-SafeguardReady

safeguard_trips_example :
    (safeguard_check client 700 0 (presentation_run client 3 60 600 0 zeroed (100 ∷ 120 ∷ []))
      ≡ false)
    × (safeguard_check client 700 0 (
          record_presentation acquired 150 150000000 client 3 60 600 0
            (presentation_run client 3 60 600 0 zeroed (100 ∷ 120 ∷ [])))
        ≡ true)
safeguard_trips_example =
    safeguard_trips client 3 60 600 0 zeroed (replicate 16 blank_safeguard) 100 150 700 (120 ∷ [])
      zeroed-SafeguardReady not_shown (omega arith) (omega arith)
      ((omega arith, omega arith, omega arith), tt) ((omega arith, omega arith, omega arith), tt)
      refl (omega arith)
