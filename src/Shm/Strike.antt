-- ===== src/Shm/Strike.antt =====
-- The strike table of src/shm.c, which escalates repeated refusals by a rate rule:
-- `bs_strike_check_escalated` and `bs_strike_record_429`.
pub mod Entry
pub mod Ladder
use botshield.Prelude.{
  ℕ, ◌+◌, ◌%◌, ◌^◌, Bool, true, false, not, ◌&&◌, ◌||◌, Option, none, some, List, [], ◌∷◌, ◌++◌,
  Bytes, ltb, leb, ◌==◌, if◌then◌else◌, get_or, set, bytes_eq,
}
use botshield.Shm.Hash.{siphash24, le_bytes32, bucket_of}
use botshield.Shm.Slots.{
  is_torn, published, is_readable, Lock, acquired, busy, failed, window, Scan, hit, miss, scan,
  find, target,
}
use botshield.Shm.State.{StrikeSlot, Shm, blank_strike, stamp, elapsed, throttle}

-- BS_STRIKE_PROBE_LIMIT
abbrev pub strike_probe_limit : ℕ
strike_probe_limit = 8

-- `bs_strike_bucket`
unfoldable pub strike_bucket : Shm → Bytes → ℕ → ℕ → ℕ
strike_bucket s ip rule ns =
    bucket_of (siphash24 s.siphash_key (ip ++ (le_bytes32 rule ++ le_bytes32 ns))) s.strike_capacity

abbrev pub strike_window : Shm → Bytes → ℕ → ℕ → List ℕ
strike_window s ip rule ns =
    window (strike_bucket s ip rule ns) s.strike_capacity 0 strike_probe_limit

unfoldable pub strike_matches : Bytes → ℕ → ℕ → StrikeSlot → Bool
strike_matches ip rule ns slot =
    not (is_torn slot.version)
    && (slot.used && (slot.rule_slot == rule && (slot.ns_id == ns && bytes_eq slot.ip ip)))

-- The window of the slot's strikes has rolled, by the caller's length of it.
abbrev pub window_rolled : ℕ → ℕ → ℕ → Bool
window_rolled start now_sec per_sec = start == 0 || leb per_sec (elapsed now_sec start)

-- A torn or empty slot, or one whose window has rolled and whose escalation is over.
unfoldable pub strike_reusable : ℕ → ℕ → StrikeSlot → Bool
strike_reusable now per_sec slot =
    is_torn slot.version
    || (not slot.used
        || (window_rolled slot.strike_window_start (stamp now) per_sec
            && (slot.escalation_until == 0 || ltb slot.escalation_until now)))

abbrev pub strike_scan : ℕ → ℕ → Bytes → ℕ → ℕ → List StrikeSlot → List ℕ → Scan
strike_scan now per_sec ip rule ns table idxs =
    scan blank_strike (strike_matches ip rule ns) (strike_reusable now per_sec) table none idxs

-- The slot with this strike counted: a fresh entry, a rolled window, or one more in the window.
abbrev pub strike_counted : Scan → StrikeSlot → ℕ → ℕ → Bytes → ℕ → ℕ → StrikeSlot
strike_counted (hit _) slot now per_sec ip rule ns =
    if window_rolled slot.strike_window_start (stamp now) per_sec
    then record slot { strike_window_start = stamp now; strike_count = 1 }
    else record slot { strike_count = (slot.strike_count + 1) % 2 ^ 32 }
strike_counted (miss _) slot now per_sec ip rule ns = record slot {
  used = true;
  ip = ip;
  rule_slot = rule;
  ns_id = ns;
  strike_window_start = stamp now;
  strike_count = 1;
  escalation_until = 0;
}

-- The escalation, and whether this call crossed into it.
abbrev pub strike_escalated : StrikeSlot → ℕ → ℕ → ℕ → StrikeSlot × Bool
strike_escalated slot now strikes ttl =
    if leb strikes slot.strike_count
    then (record slot { escalation_until = now + ttl }, leb slot.escalation_until now)
    else (slot, false)

abbrev pub strike_written : Scan → StrikeSlot → ℕ → ℕ → ℕ → ℕ → Bytes → ℕ → ℕ → StrikeSlot × Bool
strike_written out slot now per_sec strikes ttl ip rule ns =
    let (slot', crossed) =
      strike_escalated (strike_counted out slot now per_sec ip rule ns) now strikes ttl in
    (record slot' { version = published slot.version }, crossed)

abbrev pub strike_warned : Scan → ℕ → ℕ → ℕ
strike_warned (miss none) prev now_us = throttle prev now_us
strike_warned _ prev now_us = prev

-- `bs_strike_record_429` under the lock.
unfoldable pub strike_locked :
    ℕ → ℕ → Bytes → ℕ → ℕ → ℕ → ℕ → ℕ → List StrikeSlot → Shm → Shm × Bool
strike_locked now warn_us ip rule per_sec strikes ttl ns table s =
    let out = strike_scan now per_sec ip rule ns table (strike_window s ip rule ns) in
    let idx = target (strike_bucket s ip rule ns) out in
    let (slot', crossed) =
      strike_written out (get_or table idx blank_strike) now per_sec strikes ttl ip rule ns in
    (
      record s {
        strike_table = some (set table idx slot');
        probe_warn_strike_us = strike_warned out s.probe_warn_strike_us warn_us;
      },
      crossed,
    )

-- `bs_strike_record_429`; true is the result 1, a call that crossed into escalation.
unfoldable pub strike_record : Lock → ℕ → ℕ → Bytes → ℕ → ℕ → ℕ → ℕ → ℕ → Shm → Shm × Bool
strike_record lock now warn_us ip rule per_sec strikes ttl ns s = elim s.strike_table [
  | none ↦ (s, false)
  | some table ↦ if not s.mutex then (s, false) else elim lock [
    | acquired ↦ strike_locked now warn_us ip rule per_sec strikes ttl ns table s
    | busy ↦ (s, false)
    | failed ↦ (s, false)
  ]
]

unfoldable pub strike_accepts : Bytes → ℕ → ℕ → StrikeSlot → Bool
strike_accepts ip rule ns slot =
    is_readable slot.version
    && (slot.used && (slot.rule_slot == rule && (slot.ns_id == ns && bytes_eq slot.ip ip)))

abbrev pub escalated_at : ℕ → Option StrikeSlot → Bool
escalated_at now none = false
escalated_at now (some slot) = ltb now slot.escalation_until

-- `bs_strike_check_escalated`, with no writer at work.
unfoldable pub strike_check : Bytes → ℕ → ℕ → ℕ → Shm → Bool
strike_check ip rule now ns s = elim s.strike_table [
  | none ↦ false
  | some table ↦
      if s.strike_capacity == 0
      then false
      else escalated_at now
          (find blank_strike (strike_accepts ip rule ns) table (strike_window s ip rule ns))
]
