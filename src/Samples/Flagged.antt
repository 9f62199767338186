-- ===== src/Samples/Flagged.antt =====
-- The flagged-IP table at concrete inputs.
use botshield.Prelude.{
  ℕ, length, List, inl, inr, ◌≡◌, refl, true, false, none, some, [], ◌∷◌, arith, bytes_eq,
  replicate,
}
use botshield.Codec.RoundTrip.{AllBytes}
use botshield.Address.Prefix.{SharePrefix}
use botshield.Shm.Probe.{In}
use botshield.Shm.Slots.{acquired, busy, is_readable, window, scan, find}
use botshield.Shm.State.{Shm, FlaggedSlot, blank_flagged, pos, negsuc}
use botshield.Shm.Hash.{siphash24}
use botshield.Shm.Flagged.{
  flagged_window, flagged_add, flagged_clear, flagged_clear_range, flagged_lookup, flagged_bucket,
  flagged_matches, flagged_reusable, flagged_accepts, ip_in_prefix,
}
use botshield.Shm.Flagged.Window.{Ready, flagged_held, merged}
use botshield.Shm.Flagged.Lookup.{lookup-add, lookup-add_other}
use botshield.Shm.Flagged.Clear.{lookup-clear, lookup-clear_other, cleared}
use botshield.Shm.Flagged.Range.{lookup-clear_range, range_cleared}
use botshield.Shm.Flagged.Calls.{
  FlaggedCall, Sound, adds, clears, clears_range, flagged_step, flagged_step-Sound,
}
use botshield.Shm.Flagged.History.{flagged_run, IsOnce, init-Sound, flagged_history}
use botshield.Samples.Tables.{zeroed, client, neighbour}

zeroed-Sound : Sound zeroed
zeroed-Sound = init-Sound zeroed refl (omega arith) refl

-- The segment after the flag 8 was put on the client at time 100 for an hour.
abbrev flagged : Shm
flagged = flagged_step zeroed (adds acquired 100 100000000 client 8 (pos 3600) 0)

flagged-Sound : Sound flagged
flagged-Sound =
    flagged_step-Sound zeroed (adds acquired 100 100000000 client 8 (pos 3600) 0) zeroed-Sound

found_flag : flagged_lookup 3700 client 0 flagged ≡ some 8
unfolding flagged_lookup flagged_step flagged_add find window flagged_accepts is_readable scan
    flagged_matches flagged_bucket siphash24 flagged_reusable bytes_eq
found_flag = refl

flag_expired : flagged_lookup 3701 client 0 flagged ≡ none
unfolding flagged_lookup flagged_step flagged_add find window flagged_accepts is_readable scan
    flagged_matches flagged_bucket siphash24 flagged_reusable bytes_eq
flag_expired = refl

shed_under_load :
    flagged_lookup 100 client 0 (flagged_add busy 100 100000000 client 8 (pos 3600) 0 zeroed) ≡ none
unfolding flagged_lookup flagged_add find window flagged_accepts is_readable flagged_bucket
    siphash24
shed_under_load = refl

no_ttl : flagged_add acquired 100 100000000 client 8 (negsuc 4) 0 zeroed ≡ zeroed
unfolding flagged_add
no_ttl = refl

lookup-add_example :
    flagged_lookup 500 client 0 (flagged_add acquired 200 200000000 client 1 (pos 600) 0 flagged)
    ≡ some (merged (flagged_held client 0 flagged flagged-Sound.0) 1)
lookup-add_example =
    lookup-add 500 200 200000000 client 1 600 0 flagged flagged-Sound.0 flagged-Sound.1
      (omega arith) (omega arith) (omega arith)

zeroed-Ready : Ready zeroed (replicate 16 blank_flagged)
zeroed-Ready = record { mapped = refl; sized = refl; nonempty = omega arith; guarded = refl }

empty_slot_holds : In 4 (flagged_window zeroed neighbour 0)
unfolding window flagged_bucket siphash24
empty_slot_holds = inl refl

neighbour_ne : ¬ ((neighbour ≡ client) × ◌≡◌ {A = ℕ} 0 0)
neighbour_ne e = cc (e.0)

lookup-add_other_example :
    flagged_lookup 500 client 0 (flagged_add acquired 200 200000000 neighbour 1 (pos 600) 0 zeroed)
    ≡ flagged_lookup 500 client 0 zeroed
lookup-add_other_example =
    lookup-add_other 500 200 200000000 neighbour client 1 600 0 0 zeroed
      (replicate 16 blank_flagged) 4 zeroed-Ready (omega arith) (omega arith) (omega arith)
      neighbour_ne empty_slot_holds (inr (inl refl))

lookup-clear_example :
    flagged_lookup 500 client 0 (flagged_clear acquired client 8 0 false 0 flagged)
    ≡ cleared 8 0 false (flagged_lookup 500 client 0 flagged)
lookup-clear_example =
    lookup-clear 500 client 8 0 false 0 flagged flagged-Sound.0 flagged-Sound.1 flagged-Sound.2 refl

client_ne : ¬ ((client ≡ neighbour) × ◌≡◌ {A = ℕ} 0 0)
client_ne e = cc (e.0)

lookup-clear_other_example :
    flagged_lookup 500 neighbour 0 (flagged_clear acquired client 8 0 false 0 flagged)
    ≡ flagged_lookup 500 neighbour 0 flagged
lookup-clear_other_example =
    lookup-clear_other 500 client 8 0 false 0 flagged flagged-Sound.0 neighbour 0 flagged-Sound.1
      refl client_ne

client_bytes : AllBytes client
client_bytes = ground arith

neighbour_bytes : AllBytes neighbour
neighbour_bytes = ground arith

lookup-clear_range_example :
    ((◌≡◌ {A = ℕ} 0 0) × SharePrefix 120 client neighbour
      → flagged_lookup 500 client 0 (flagged_clear_range true neighbour (pos 120) 0 0 flagged).0
        ≡ range_cleared 0 (flagged_lookup 500 client 0 flagged))
    × (¬ ((◌≡◌ {A = ℕ} 0 0) × SharePrefix 120 client neighbour)
        → flagged_lookup 500 client 0 (flagged_clear_range true neighbour (pos 120) 0 0 flagged).0
          ≡ flagged_lookup 500 client 0 flagged)
lookup-clear_range_example =
    lookup-clear_range 500 neighbour 120 0 0 client 0 flagged flagged-Sound.0 flagged-Sound.1
      flagged-Sound.2 (omega arith) client_bytes neighbour_bytes

one_prefix_of_both : SharePrefix 120 client neighbour
one_prefix_of_both = (refl, refl)

in_the_prefix : ip_in_prefix client neighbour 124 ≡ true
unfolding ip_in_prefix bytes_eq
in_the_prefix = refl

not_in_the_prefix : ip_in_prefix client neighbour 125 ≡ false
unfolding ip_in_prefix bytes_eq
not_in_the_prefix = refl

flagged_step-Sound_example : Sound (flagged_step flagged (clears acquired client 8 0 false 0))
flagged_step-Sound_example =
    flagged_step-Sound flagged (clears acquired client 8 0 false 0) flagged-Sound

abbrev history : List FlaggedCall
history =
    adds acquired 100 100000000 client 8 (pos 3600) 0 ∷ clears_range true client (pos 128) 0 0 ∷ []

flagged_history_example :
    (table : List FlaggedSlot) × ((flagged_run zeroed history).flagged_table ≡ some table)
    × (length table ≡ 16)
    × IsOnce table
flagged_history_example = flagged_history zeroed history refl (omega arith) refl
