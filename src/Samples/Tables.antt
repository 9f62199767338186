-- ===== src/Samples/Tables.antt =====
-- Small shared segments for the runs below.
use botshield.Prelude.{true, some, [], ◌∷◌, Bytes, replicate}
use botshield.Shm.State.{Shm, blank_flagged, blank_strike, blank_safeguard, blank_nonce}

abbrev pub sample_key : Bytes
sample_key = 7 ∷ 1 ∷ 2 ∷ 3 ∷ 4 ∷ 5 ∷ 6 ∷ 7 ∷ 8 ∷ 9 ∷ 10 ∷ 11 ∷ 12 ∷ 13 ∷ 14 ∷ 15 ∷ []

-- A zeroed segment with room for sixteen entries in each table.
abbrev pub zeroed : Shm
zeroed = record {
  mutex = true;
  siphash_key = sample_key;
  probe_warn_flagged_us = 0;
  probe_warn_strike_us = 0;
  probe_warn_safeguard_us = 0;
  flagged_table = some (replicate 16 blank_flagged);
  flagged_capacity = 16;
  strike_table = some (replicate 16 blank_strike);
  strike_capacity = 16;
  safeguard_table = some (replicate 16 blank_safeguard);
  safeguard_capacity = 16;
  nonce_table = some (replicate 16 blank_nonce);
  nonce_capacity = 16;
}

-- ::ffff:192.0.2.1 and ::ffff:192.0.2.9, the first 32 bits of which agree.
abbrev pub client : Bytes
client = 0 ∷ 0 ∷ 0 ∷ 0 ∷ 0 ∷ 0 ∷ 0 ∷ 0 ∷ 0 ∷ 0 ∷ 255 ∷ 255 ∷ 192 ∷ 0 ∷ 2 ∷ 1 ∷ []

abbrev pub neighbour : Bytes
neighbour = 0 ∷ 0 ∷ 0 ∷ 0 ∷ 0 ∷ 0 ∷ 0 ∷ 0 ∷ 0 ∷ 0 ∷ 255 ∷ 255 ∷ 192 ∷ 0 ∷ 2 ∷ 9 ∷ []
