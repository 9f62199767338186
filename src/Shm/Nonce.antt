-- ===== src/Shm/Nonce.antt =====
-- The embedded-bootstrap nonce table of src/shm.c: `bs_embedded_nonce_consume`.
pub mod Replay
pub mod History
use botshield.Prelude.{
  ℕ, ◌+◌, ◌%◌, Bool, true, false, not, ◌&&◌, ◌||◌, Option, none, some, List, [], ◌∷◌, ◌++◌, Bytes,
  ltb, ◌==◌, if◌then◌else◌, get_or, set, length,
}
use botshield.Shm.Hash.{siphash24, le_bytes32, bucket_of}
use botshield.Shm.Slots.{is_torn, published, Lock, acquired, busy, failed, window, keep_first}
use botshield.Shm.State.{NonceSlot, Shm, blank_nonce, throttle}

-- BS_NONCE_PROBE_LIMIT
abbrev pub nonce_probe_limit : ℕ
nonce_probe_limit = 8

-- The fingerprint that stands for a nonce in a namespace.
unfoldable pub fingerprint : Bytes → Bytes → ℕ → ℕ
fingerprint key nonce ns = siphash24 key (nonce ++ le_bytes32 ns)

abbrev pub nonce_window : ℕ → ℕ → List ℕ
nonce_window fp capacity = window (bucket_of fp capacity) capacity 0 nonce_probe_limit

-- The end of the probe: a fresh duplicate, or the first empty slot and the slot to evict.
pub data NonceScan : Type 0 where
  replay : NonceScan
  ended : Option ℕ → Option ℕ → NonceScan

unfoldable pub nonce_scan : ℕ → ℕ → ℕ → List NonceSlot → Option ℕ → Option ℕ → List ℕ → NonceScan
nonce_scan fp ns now table empty evict [] = ended empty evict
nonce_scan fp ns now table empty evict (idx ∷ rest) =
    let slot = get_or table idx blank_nonce in
    let past_empty = nonce_scan fp ns now table (keep_first empty idx) evict rest in
    let past_other =
      nonce_scan fp ns now table empty
        (if ltb slot.expires_at now then keep_first evict idx else evict) rest in
    if is_torn slot.version || not slot.used
    then past_empty
    else if slot.nonce_hash == fp && slot.ns_id == ns
    then (if ltb now slot.expires_at then replay else ended empty (some idx))
    else past_other

-- The empty slot if there is one, else the one to evict.
abbrev pub nonce_target : Option ℕ → Option ℕ → Option ℕ
nonce_target (some idx) evict = some idx
nonce_target none evict = evict

abbrev pub nonce_write : NonceSlot → ℕ → ℕ → ℕ → NonceSlot
nonce_write slot fp ns expires_at = record {
  version = published slot.version;
  used = true;
  nonce_hash = fp;
  expires_at = expires_at;
  ns_id = ns;
}

abbrev pub nonce_store : Option ℕ → ℕ → ℕ → ℕ → ℕ → List NonceSlot → Shm → Shm × Bool
nonce_store none fp ns expires_at warn_us table s =
    (record s { probe_warn_safeguard_us = throttle s.probe_warn_safeguard_us warn_us }, false)
nonce_store (some idx) fp ns expires_at warn_us table s = (
  record s {
    nonce_table =
        some (set table idx (nonce_write (get_or table idx blank_nonce) fp ns expires_at));
  },
  true,
)

-- The part under the lock.
unfoldable pub nonce_locked : NonceScan → ℕ → ℕ → ℕ → ℕ → List NonceSlot → Shm → Shm × Bool
nonce_locked replay fp ns expires_at warn_us table s = (s, false)
nonce_locked (ended empty evict) fp ns expires_at warn_us table s =
    nonce_store (nonce_target empty evict) fp ns expires_at warn_us table s

-- `bs_embedded_nonce_consume`; true is the result 1. `now` is its clock reading in seconds and
-- `warn_us` the one for the warning. A null nonce is refused as the empty one is.
unfoldable pub nonce_consume : Lock → ℕ → ℕ → Bytes → ℕ → ℕ → Shm → Shm × Bool
nonce_consume lock now warn_us nonce expires_at ns s = elim s.nonce_table [
  | none ↦ (s, false)
  | some table ↦
      if not s.mutex || s.nonce_capacity == 0
      then (s, false)
      else if length nonce == 0 || ltb 32 (length nonce)
      then (s, false)
      else elim lock [
        | acquired ↦
            let fp = fingerprint s.siphash_key nonce ns in
            nonce_locked (nonce_scan fp ns now table none none (nonce_window fp s.nonce_capacity))
              fp ns expires_at warn_us table s
        | busy ↦ (s, false)
        | failed ↦ (s, false)
      ]
]
