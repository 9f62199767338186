-- ===== src/Shm/Flagged.antt =====
-- The flagged-IP table of src/shm.c: `bs_flagged_ip_add`, `_lookup`, `_clear` and `_clear_range`.
-- The caller's clock readings and the answer of the mutex are arguments.
pub mod Window
pub mod Lookup
pub mod Prefix
pub mod Unique
pub mod Clear
pub mod Range
pub mod Calls
pub mod History
use botshield.Prelude.{
  ℕ, zero, suc, ◌+◌, ◌-◌, ◌*◌, ◌/◌, ◌%◌, ◌^◌, ◌<◌, Bool, true, false, not, ◌&&◌, ◌||◌, Option, none,
  some, List, [], ◌∷◌, ◌++◌, Bytes, ltb, leb, ◌==◌, if◌then◌else◌, get_or, set, take, bytes_eq,
  bit_and, bit_or, bit_xor,
}
use botshield.Shm.Hash.{siphash24, le_bytes32, bucket_of}
use botshield.Shm.Slots.{
  is_torn, published, is_readable, Lock, acquired, busy, failed, window, Scan, hit, miss, scan,
  find, target,
}
use botshield.Shm.State.{
  FlaggedSlot, Shm, blank_flagged, ℤ, pos, negsuc, is_positive, pos_part, throttle,
}

-- BS_FLAGGED_PROBE_LIMIT
abbrev pub flagged_probe_limit : ℕ
flagged_probe_limit = 10

-- `bs_flagged_bucket`
unfoldable pub flagged_bucket : Shm → Bytes → ℕ → ℕ
flagged_bucket s ip ns =
    bucket_of (siphash24 s.siphash_key (ip ++ le_bytes32 ns)) s.flagged_capacity

abbrev pub flagged_window : Shm → Bytes → ℕ → List ℕ
flagged_window s ip ns = window (flagged_bucket s ip ns) s.flagged_capacity 0 flagged_probe_limit

-- `bs_flagged_write_slot`
abbrev pub flagged_write_slot : FlaggedSlot → Bytes → ℕ → ℕ → ℕ → FlaggedSlot
flagged_write_slot slot ip flags expires_at ns = record slot {
  version = published slot.version;
  used = true;
  ip = ip;
  flags = flags;
  ns_id = ns;
  expires_at = expires_at;
}

-- The slot is the key's, and no write was left unfinished in it.
unfoldable pub flagged_matches : Bytes → ℕ → FlaggedSlot → Bool
flagged_matches ip ns slot =
    not (is_torn slot.version) && (slot.used && (slot.ns_id == ns && bytes_eq slot.ip ip))

-- What a writer may overwrite: a torn slot, an empty one, or one that has expired.
unfoldable pub flagged_reusable : ℕ → FlaggedSlot → Bool
flagged_reusable now slot = is_torn slot.version || (not slot.used || ltb slot.expires_at now)

-- The scan of `bs_flagged_ip_add`
abbrev pub flagged_scan : ℕ → Bytes → ℕ → List FlaggedSlot → List ℕ → Scan
flagged_scan now ip ns table idxs =
    scan blank_flagged (flagged_matches ip ns) (flagged_reusable now) table none idxs

-- The slot that a match becomes: the flags merged, the later of the two expiries.
abbrev pub flagged_merge : FlaggedSlot → Bytes → ℕ → ℕ → ℕ → FlaggedSlot
flagged_merge slot ip bits expires_at ns =
    flagged_write_slot slot ip (bit_or slot.flags bits)
      (if ltb expires_at slot.expires_at then slot.expires_at else expires_at) ns

-- What is written over the slot where the scan ended.
abbrev pub flagged_written : Scan → FlaggedSlot → Bytes → ℕ → ℕ → ℕ → FlaggedSlot
flagged_written (hit _) slot ip bits expires_at ns = flagged_merge slot ip bits expires_at ns
flagged_written (miss _) slot ip bits expires_at ns = flagged_write_slot slot ip bits expires_at ns

abbrev pub flagged_store : Scan → ℕ → Bytes → ℕ → ℕ → ℕ → List FlaggedSlot → List FlaggedSlot
flagged_store out base ip bits expires_at ns table =
    let idx = target base out in
    set table idx (flagged_written out (get_or table idx blank_flagged) ip bits expires_at ns)

-- The warning of a saturated window is throttled.
abbrev pub warn_saturated : Scan → ℕ → ℕ → ℕ
warn_saturated (miss none) prev now_us = throttle prev now_us
warn_saturated _ prev now_us = prev

-- `bs_flagged_ip_add` under the lock.
pub flagged_add_locked : ℕ → ℕ → Bytes → ℕ → ℕ → ℕ → List FlaggedSlot → Shm → Shm
flagged_add_locked now warn_us ip bits expires_at ns table s =
    let base = flagged_bucket s ip ns in
    let out = flagged_scan now ip ns table (flagged_window s ip ns) in
    record s {
      flagged_table = some (flagged_store out base ip bits expires_at ns table);
      probe_warn_flagged_us = warn_saturated out s.probe_warn_flagged_us warn_us;
    }

-- `bs_flagged_ip_add`. `now` is its first clock reading in seconds, `warn_us` its second in
-- microseconds; a lock that is not acquired sheds the write.
unfoldable pub flagged_add : Lock → ℕ → ℕ → Bytes → ℕ → ℤ → ℕ → Shm → Shm
unfolding flagged_add_locked
flagged_add lock now warn_us ip bits ttl ns s = elim s.flagged_table [
  | none ↦ s
  | some table ↦ if not s.mutex || (bits == 0 || not (is_positive ttl)) then s else elim lock [
    | acquired ↦ flagged_add_locked now warn_us ip bits (now + pos_part ttl) ns table s
    | busy ↦ s
    | failed ↦ s
  ]
]

-- What the reader's loop takes for the key's live entry.
unfoldable pub flagged_accepts : ℕ → Bytes → ℕ → FlaggedSlot → Bool
flagged_accepts now ip ns slot =
    is_readable slot.version
    && (slot.used && (not (ltb slot.expires_at now) && (slot.ns_id == ns && bytes_eq slot.ip ip)))

abbrev pub flags_of : Option FlaggedSlot → Option ℕ
flags_of none = none
flags_of (some slot) = some slot.flags

-- `bs_flagged_ip_lookup` at time `now`, with no writer at work: `some flags` for a result of 1.
unfoldable pub flagged_lookup : ℕ → Bytes → ℕ → Shm → Option ℕ
flagged_lookup now ip ns s = elim s.flagged_table [
  | none ↦ none
  | some table ↦
      flags_of (find blank_flagged (flagged_accepts now ip ns) table (flagged_window s ip ns))
]

-- `~x` on 32 bits.
abbrev pub not32 : ℕ → ℕ
not32 x = 2 ^ 32 - 1 - x

-- A slot rewritten with no flags is released.
abbrev pub flagged_rewrite : FlaggedSlot → Bytes → ℕ → ℕ → FlaggedSlot
flagged_rewrite slot ip now_flags ns =
    if now_flags == 0
    then record (flagged_write_slot slot ip 0 0 ns) { used = false }
    else flagged_write_slot slot ip now_flags slot.expires_at ns

abbrev pub flagged_clear_found :
    Scan → Bytes → ℕ → ℕ → Bool → ℕ → List FlaggedSlot → List FlaggedSlot
flagged_clear_found (miss _) ip del_bits set_bits replace ns table = table
flagged_clear_found (hit idx) ip del_bits set_bits replace ns table =
    let slot = get_or table idx blank_flagged in
    let now_flags = if replace then set_bits else bit_and slot.flags (not32 del_bits) in
    set table idx (flagged_rewrite slot ip now_flags ns)

-- `bs_flagged_ip_clear`
unfoldable pub flagged_clear : Lock → Bytes → ℕ → ℕ → Bool → ℕ → Shm → Shm
flagged_clear lock ip del_bits set_bits replace ns s = elim s.flagged_table [
  | none ↦ s
  | some table ↦ if not s.mutex || (not replace && del_bits == 0) then s else elim lock [
    | acquired ↦
        let out =
          scan blank_flagged (flagged_matches ip ns) (λ _. false) table none
            (flagged_window s ip ns) in
        record s {
          flagged_table = some (flagged_clear_found out ip del_bits set_bits replace ns table);
        }
    | busy ↦ s
    | failed ↦ s
  ]
]

-- `bs_ip_in_prefix`, for a prefix of at most 128 bits.
unfoldable pub ip_in_prefix : Bytes → Bytes → ℕ → Bool
ip_in_prefix ip net bits =
    let whole = bits / 8 in
    let rem = bits % 8 in
    let mask = 256 - 2 ^ (8 - rem) in
    if not (bytes_eq (take whole ip) (take whole net))
    then false
    else if rem == 0
    then true
    else bit_and (bit_xor (get_or ip whole 0) (get_or net whole 0)) mask == 0

-- Whether `bs_flagged_ip_clear_range` looks at the slot's flags.
unfoldable pub in_range : Bytes → ℕ → ℕ → FlaggedSlot → Bool
in_range net bits ns slot =
    not (is_torn slot.version) && (slot.used && (slot.ns_id == ns && ip_in_prefix slot.ip net bits))

-- The flags that a slot in the range keeps; `del_bits` of 0 asks for all to go.
abbrev pub range_flags : ℕ → FlaggedSlot → ℕ
range_flags del_bits slot = if del_bits == 0 then 0 else bit_and slot.flags (not32 del_bits)

unfoldable pub range_changes : Bytes → ℕ → ℕ → ℕ → FlaggedSlot → Bool
unfolding in_range
range_changes net bits del_bits ns slot =
    in_range net bits ns slot && not (range_flags del_bits slot == slot.flags)

-- The loop of `bs_flagged_ip_clear_range`, with the number of slots that it changed.
unfoldable pub clear_slots : Bytes → ℕ → ℕ → ℕ → List FlaggedSlot → List FlaggedSlot × ℕ
unfolding range_changes
clear_slots net bits del_bits ns [] = ([], 0)
clear_slots net bits del_bits ns (slot ∷ rest) =
    let (rest', changed) = clear_slots net bits del_bits ns rest in
    if range_changes net bits del_bits ns slot
    then (flagged_rewrite slot slot.ip (range_flags del_bits slot) ns ∷ rest', changed + 1)
    else (slot ∷ rest', changed)

-- `bs_flagged_ip_clear_range`, which waits for the lock: `locked` says that it was given.
unfoldable pub flagged_clear_range : Bool → Bytes → ℤ → ℕ → ℕ → Shm → Shm × ℕ
unfolding clear_slots
flagged_clear_range locked net (negsuc bits) del_bits ns s = (s, 0)
flagged_clear_range locked net (pos bits) del_bits ns s = elim s.flagged_table [
  | none ↦ (s, 0)
  | some table ↦
      if not s.mutex || (ltb 128 bits || not locked)
      then (s, 0)
      else (let (table', changed) = clear_slots net bits del_bits ns table in
          (record s { flagged_table = some table' }, changed))
]
