-- ===== src/Shm/State.antt =====
-- `bs_shm` of src/shm.c and the slot types of src/shm.h: the tables in shared memory, the key of
-- their hash and the throttles of their saturation warnings. A table that is not mapped (`NULL`) is
-- `none`. Times are counted from 1970 and stay far below the width of their fields, except where
-- the source stores them in 32 bits.
use botshield.Prelude.{
  ℕ, ◌+◌, ◌-◌, ◌%◌, ◌^◌, Bool, false, Option, List, [], Bytes, ltb, if◌then◌else◌,
}

-- `bs_flagged_ip_slot`
pub record FlaggedSlot : Type 0 where
  pub version : ℕ
  pub used : Bool
  pub ip : Bytes
  pub flags : ℕ
  pub ns_id : ℕ
  pub expires_at : ℕ

-- `bs_strike_slot`
pub record StrikeSlot : Type 0 where
  pub version : ℕ
  pub used : Bool
  pub ip : Bytes
  pub rule_slot : ℕ
  pub ns_id : ℕ
  pub strike_window_start : ℕ
  pub strike_count : ℕ
  pub escalation_until : ℕ

-- `bs_safeguard_slot`
pub record SafeguardSlot : Type 0 where
  pub version : ℕ
  pub used : Bool
  pub ip : Bytes
  pub present_window_start : ℕ
  pub present_count : ℕ
  pub safeguard_until : ℕ
  pub ns_id : ℕ

-- `bs_nonce_slot`
pub record NonceSlot : Type 0 where
  pub version : ℕ
  pub used : Bool
  pub nonce_hash : ℕ
  pub expires_at : ℕ
  pub ns_id : ℕ

-- `bs_shm`, with the fields of its header that the tables use.
pub record Shm : Type 0 where
  pub mutex : Bool
  pub siphash_key : Bytes
  pub probe_warn_flagged_us : ℕ
  pub probe_warn_strike_us : ℕ
  pub probe_warn_safeguard_us : ℕ
  pub flagged_table : Option (List FlaggedSlot)
  pub flagged_capacity : ℕ
  pub strike_table : Option (List StrikeSlot)
  pub strike_capacity : ℕ
  pub safeguard_table : Option (List SafeguardSlot)
  pub safeguard_capacity : ℕ
  pub nonce_table : Option (List NonceSlot)
  pub nonce_capacity : ℕ

-- The zeroed slot that `apr_shm_create` leaves; it also stands for a read out of range, which
-- the length of the tables rules out.
abbrev pub blank_flagged : FlaggedSlot
blank_flagged = record { version = 0; used = false; ip = []; flags = 0; ns_id = 0; expires_at = 0 }

abbrev pub blank_strike : StrikeSlot
blank_strike = record {
  version = 0;
  used = false;
  ip = [];
  rule_slot = 0;
  ns_id = 0;
  strike_window_start = 0;
  strike_count = 0;
  escalation_until = 0;
}

abbrev pub blank_safeguard : SafeguardSlot
blank_safeguard = record {
  version = 0;
  used = false;
  ip = [];
  present_window_start = 0;
  present_count = 0;
  safeguard_until = 0;
  ns_id = 0;
}

abbrev pub blank_nonce : NonceSlot
blank_nonce = record { version = 0; used = false; nonce_hash = 0; expires_at = 0; ns_id = 0 }

-- A C `int` that an operator or an application supplies.
pub data ℤ : Type 0 where
  pos : ℕ → ℤ
  negsuc : ℕ → ℤ

abbrev pub is_positive : ℤ → Bool
is_positive (pos n) = ltb 0 n
is_positive (negsuc n) = false

abbrev pub pos_part : ℤ → ℕ
pos_part (pos n) = n
pos_part (negsuc n) = 0

-- `(apr_uint32_t)now`, and the unsigned difference of two such stamps.
abbrev pub stamp : ℕ → ℕ
stamp now = now % 2 ^ 32

abbrev pub elapsed : ℕ → ℕ → ℕ
elapsed now_sec start = (now_sec + 2 ^ 32 - start) % 2 ^ 32

-- The warning throttle of a saturated window: at most one in 60 seconds.
abbrev pub throttle : ℕ → ℕ → ℕ
throttle prev now_us = if ltb (prev + 60000000) now_us then now_us else prev
