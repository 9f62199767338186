-- ===== src/Shm/Bloom.antt =====
-- The rotating Bloom filter of src/shm.c, which remembers the addresses that were served lately.
pub mod Bits
pub mod Remember
use botshield.Prelude.{
  ℕ, zero, suc, ◌+◌, ◌*◌, ◌/◌, ◌%◌, ◌^◌, bit_xor, Bool, true, false, not, ◌&&◌, ◌||◌, Option, none,
  some, List, [], ◌∷◌, ◌++◌, Bytes, ltb, if◌then◌else◌, get_or, set, replicate, length,
}
use botshield.Shm.Hash.{siphash24, le_bytes32}

-- A byte of a buffer, as its eight bits, and a buffer.
abbrev pub Octet : Type 0
Octet = List Bool

abbrev pub Buffer : Type 0
Buffer = List Octet

-- The fields of the segment that the filter uses. `bloom_active` is 0 or 1: false or true.
pub record Bloom : Type 0 where
  pub siphash_key : Bytes
  pub bloom_bufs : Option (Buffer × Buffer)
  pub bloom_buf_bytes : ℕ
  pub bloom_active : Bool
  pub bloom_next_rotate : ℕ
  pub bloom_window_secs : ℕ

-- The first byte under the domain separator.
abbrev pub separated : Bytes → Bytes
separated [] = []
separated (b ∷ buf) = bit_xor b 0x9e ∷ buf

-- The loop over BS_BLOOM_K hashes, `left` of which are still to come.
unfoldable pub indices_from : ℕ → ℕ → ℕ → ℕ → ℕ → List ℕ
indices_from zero i h1 h2 m_bits = []
indices_from (suc left) i h1 h2 m_bits =
    ((h1 + i * h2) % 2 ^ 64 % m_bits) % 2 ^ 32 ∷ indices_from left (suc i) h1 h2 m_bits

-- `bs_bloom_indices`
unfoldable pub bloom_indices : Bytes → Bytes → ℕ → ℕ → List ℕ
bloom_indices key ip m_bits ns =
    let buf = ip ++ le_bytes32 ns in
    indices_from 7 0 (siphash24 key buf) (siphash24 key (separated buf)) m_bits

abbrev pub m_bits_of : Bloom → ℕ
m_bits_of b = b.bloom_buf_bytes * 8

-- The write of one bit: `buf[bit_idx / 8] |= 1U << (bit_idx % 8)`.
unfoldable pub set_bit : Buffer → ℕ → Buffer
set_bit buf bit_idx = set buf (bit_idx / 8) (set (get_or buf (bit_idx / 8) []) (bit_idx % 8) true)

-- The test of one bit.
unfoldable pub bit_at : Buffer → ℕ → Bool
bit_at buf bit_idx = get_or (get_or buf (bit_idx / 8) []) (bit_idx % 8) false

unfoldable pub set_bits : Buffer → List ℕ → Buffer
set_bits buf [] = buf
set_bits buf (i ∷ indices) = set_bits (set_bit buf i) indices

-- The loop that clears a buffer.
abbrev pub cleared_buffer : ℕ → Buffer
cleared_buffer bytes = replicate bytes (replicate 8 false)

abbrev pub put_buffer : Bool → Buffer → Buffer × Buffer → Buffer × Buffer
put_buffer false buf (a, c) = (buf, c)
put_buffer true buf (a, c) = (a, buf)

abbrev pub buffer_at : Bool → Buffer × Buffer → Buffer
buffer_at false (a, c) = a
buffer_at true (a, c) = c

-- `bs_bloom_rotate_if_due`, with no other worker in between.
unfoldable pub rotate_if_due : ℕ → Bloom → Bloom
rotate_if_due now b = elim b.bloom_bufs [
  | none ↦ b
  | some bufs ↦ if ltb now b.bloom_next_rotate then b else record b {
    bloom_next_rotate = now + b.bloom_window_secs / 2;
    bloom_bufs = some (put_buffer (not b.bloom_active) (cleared_buffer b.bloom_buf_bytes) bufs);
    bloom_active = not b.bloom_active;
  }
]

abbrev pub insert_bits : List ℕ → Bloom → Bloom
insert_bits indices b = elim b.bloom_bufs [
  | none ↦ b
  | some bufs ↦ record b {
    bloom_bufs =
        some (put_buffer b.bloom_active (set_bits (buffer_at b.bloom_active bufs) indices) bufs);
  }
]

-- `bs_bloom_add`; `now` is its clock reading.
unfoldable pub bloom_add : ℕ → Bytes → ℕ → Bloom → Bloom
bloom_add now ip ns b =
    insert_bits (bloom_indices b.siphash_key ip (m_bits_of b) ns) (rotate_if_due now b)

-- The loop of `bs_bloom_seen`, which stops when neither buffer can hold the address.
unfoldable pub seen_in : Buffer × Buffer → Bool → Bool → List ℕ → Bool
seen_in bufs in_a in_b [] = in_a || in_b
seen_in bufs in_a in_b (i ∷ indices) =
    let in_a' = in_a && bit_at bufs.0 i in
    let in_b' = in_b && bit_at bufs.1 i in
    let rest = seen_in bufs in_a' in_b' indices in if not in_a' && not in_b' then false else rest

-- `bs_bloom_seen`
unfoldable pub bloom_seen : Bytes → ℕ → Bloom → Bool
bloom_seen ip ns b = elim b.bloom_bufs [
  | none ↦ false
  | some bufs ↦ seen_in bufs true true (bloom_indices b.siphash_key ip (m_bits_of b) ns)
]
