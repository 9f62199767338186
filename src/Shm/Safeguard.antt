-- ===== src/Shm/Safeguard.antt =====
-- The safeguard table of src/shm.c, which breaks a client out of a challenge that it cannot
-- complete: `bs_safeguard_record_presentation`, `_check`, `_present_count` and `_clear`.
pub mod Entry
pub mod Loop
use botshield.Prelude.{
  ℕ, ◌+◌, ◌%◌, ◌^◌, Bool, true, false, not, ◌&&◌, ◌||◌, Option, none, some, List, [], ◌∷◌, ◌++◌,
  Bytes, ltb, leb, ◌==◌, if◌then◌else◌, get_or, set, bytes_eq, bit_xor,
}
use botshield.Shm.Hash.{siphash24, le_bytes32, bucket_of}
use botshield.Shm.Slots.{
  is_torn, published, is_readable, Lock, acquired, busy, failed, window, Scan, hit, miss, scan,
  find, target,
}
use botshield.Shm.State.{SafeguardSlot, Shm, blank_safeguard, stamp, elapsed, throttle}

-- BS_SAFEGUARD_PROBE_LIMIT and BS_DEFAULT_SAFEGUARD_WINDOW
abbrev pub safeguard_probe_limit : ℕ
safeguard_probe_limit = 8

abbrev pub default_safeguard_window : ℕ
default_safeguard_window = 600

-- `bs_safeguard_bucket`
unfoldable pub safeguard_bucket : Shm → Bytes → ℕ → ℕ
safeguard_bucket s ip ns =
    bucket_of (bit_xor (siphash24 s.siphash_key (ip ++ le_bytes32 ns)) 0xC0FFEE00BA5EBA11)
      s.safeguard_capacity

abbrev pub safeguard_window : Shm → Bytes → ℕ → List ℕ
safeguard_window s ip ns =
    window (safeguard_bucket s ip ns) s.safeguard_capacity 0 safeguard_probe_limit

unfoldable pub safeguard_matches : Bytes → ℕ → SafeguardSlot → Bool
safeguard_matches ip ns slot =
    not (is_torn slot.version) && (slot.used && (slot.ns_id == ns && bytes_eq slot.ip ip))

-- `bs_safeguard_slot_dead`
unfoldable pub safeguard_slot_dead : SafeguardSlot → ℕ → ℕ → Bool
safeguard_slot_dead slot now per =
    if not slot.used
    then true
    else if not (slot.present_window_start == 0)
        && ltb (elapsed (stamp now) slot.present_window_start) per
    then false
    else if not (slot.safeguard_until == 0) && leb now slot.safeguard_until
    then false
    else true

unfoldable pub safeguard_reusable : ℕ → ℕ → SafeguardSlot → Bool
safeguard_reusable now per slot = is_torn slot.version || safeguard_slot_dead slot now per

abbrev pub safeguard_scan : ℕ → ℕ → Bytes → ℕ → List SafeguardSlot → List ℕ → Scan
safeguard_scan now per ip ns table idxs =
    scan blank_safeguard (safeguard_matches ip ns) (safeguard_reusable now per) table none idxs

-- The slot with this presentation counted.
abbrev pub presentation_counted : Scan → SafeguardSlot → ℕ → ℕ → Bytes → ℕ → SafeguardSlot
presentation_counted (hit _) slot now per ip ns =
    if slot.present_window_start == 0 || leb per (elapsed (stamp now) slot.present_window_start)
    then record slot { present_window_start = stamp now; present_count = 1 }
    else record slot { present_count = (slot.present_count + 1) % 2 ^ 32 }
presentation_counted (miss _) slot now per ip ns = record slot {
  ip = ip;
  used = true;
  ns_id = ns;
  present_window_start = stamp now;
  present_count = 1;
  safeguard_until = 0;
}

abbrev pub safeguard_granted : SafeguardSlot → ℕ → ℕ → ℕ → SafeguardSlot
safeguard_granted slot now threshold ttl =
    if leb threshold slot.present_count then record slot { safeguard_until = now + ttl } else slot

abbrev pub safeguard_written : Scan → SafeguardSlot → ℕ → ℕ → ℕ → ℕ → Bytes → ℕ → SafeguardSlot
safeguard_written out slot now threshold per ttl ip ns =
    let slot' = safeguard_granted (presentation_counted out slot now per ip ns) now threshold ttl in
    record slot' { version = published slot.version }

abbrev pub safeguard_warned : Scan → ℕ → ℕ → ℕ
safeguard_warned (miss none) prev now_us = throttle prev now_us
safeguard_warned _ prev now_us = prev

-- `bs_safeguard_record_presentation` under the lock; its window is `per` seconds.
unfoldable pub presentation_locked : ℕ → ℕ → Bytes → ℕ → ℕ → ℕ → ℕ → List SafeguardSlot → Shm → Shm
presentation_locked now warn_us ip threshold per ttl ns table s =
    let out = safeguard_scan now per ip ns table (safeguard_window s ip ns) in
    let idx = target (safeguard_bucket s ip ns) out in
    record s {
      safeguard_table = some (
          set table idx
            (safeguard_written out (get_or table idx blank_safeguard) now threshold per ttl ip ns));
      probe_warn_safeguard_us = safeguard_warned out s.probe_warn_safeguard_us warn_us;
    }

-- `bs_safeguard_record_presentation`; its callers pass positive settings.
unfoldable pub record_presentation : Lock → ℕ → ℕ → Bytes → ℕ → ℕ → ℕ → ℕ → Shm → Shm
record_presentation lock now warn_us ip threshold per ttl ns s = elim s.safeguard_table [
  | none ↦ s
  | some table ↦ if not s.mutex then s else elim lock [
    | acquired ↦ presentation_locked now warn_us ip threshold per ttl ns table s
    | busy ↦ s
    | failed ↦ s
  ]
]

unfoldable pub safeguard_accepts : Bytes → ℕ → SafeguardSlot → Bool
safeguard_accepts ip ns slot =
    is_readable slot.version && (slot.used && (slot.ns_id == ns && bytes_eq slot.ip ip))

abbrev pub granted_at : ℕ → Option SafeguardSlot → Bool
granted_at now none = false
granted_at now (some slot) = ltb now slot.safeguard_until

-- `bs_safeguard_check`, with no writer at work.
unfoldable pub safeguard_check : Bytes → ℕ → ℕ → Shm → Bool
safeguard_check ip now ns s = elim s.safeguard_table [
  | none ↦ false
  | some table ↦
      if s.safeguard_capacity == 0
      then false
      else granted_at now
          (find blank_safeguard (safeguard_accepts ip ns) table (safeguard_window s ip ns))
]

abbrev pub count_at : ℕ → Option SafeguardSlot → ℕ
count_at now none = 0
count_at now (some slot) =
    if slot.present_window_start == 0
      || leb default_safeguard_window (elapsed (stamp now) slot.present_window_start)
    then 0
    else slot.present_count

-- `bs_safeguard_present_count`, with no writer at work. Its window is the default one.
unfoldable pub present_count : Bytes → ℕ → ℕ → Shm → ℕ
present_count ip now ns s = elim s.safeguard_table [
  | none ↦ 0
  | some table ↦
      if s.safeguard_capacity == 0
      then 0
      else count_at now
          (find blank_safeguard (safeguard_accepts ip ns) table (safeguard_window s ip ns))
]

abbrev pub safeguard_wiped : SafeguardSlot → SafeguardSlot
safeguard_wiped slot = record {
  version = published slot.version;
  used = false;
  ip = 0 ∷ 0 ∷ 0 ∷ 0 ∷ 0 ∷ 0 ∷ 0 ∷ 0 ∷ 0 ∷ 0 ∷ 0 ∷ 0 ∷ 0 ∷ 0 ∷ 0 ∷ 0 ∷ [];
  present_window_start = 0;
  present_count = 0;
  safeguard_until = 0;
  ns_id = 0;
}

abbrev pub safeguard_clear_found : Scan → List SafeguardSlot → List SafeguardSlot
safeguard_clear_found (hit idx) table =
    set table idx (safeguard_wiped (get_or table idx blank_safeguard))
safeguard_clear_found (miss _) table = table

-- `bs_safeguard_clear`
unfoldable pub safeguard_clear : Lock → Bytes → ℕ → Shm → Shm
safeguard_clear lock ip ns s = elim s.safeguard_table [
  | none ↦ s
  | some table ↦ if not s.mutex then s else elim lock [
    | acquired ↦
        let out =
          scan blank_safeguard (safeguard_matches ip ns) (λ _. false) table none
            (safeguard_window s ip ns) in
        record s { safeguard_table = some (safeguard_clear_found out table) }
    | busy ↦ s
    | failed ↦ s
  ]
]
