-- ===== src/Shm/Hash.antt =====
-- `bs_siphash24` of src/shm.c: SipHash-2-4 over 64-bit words, read little-endian. A bucket index
-- and a nonce's fingerprint are computed by it; the proofs about the tables keep it shut.
use botshield.Prelude.{
  ℕ, zero, suc, ◌+◌, ◌-◌, ◌*◌, ◌/◌, ◌%◌, ◌^◌, ◌<◌, Bytes, [], ◌∷◌, arith, length, take, drop,
  bit_xor,
}

abbrev pub u64_mod : ℕ
u64_mod = 0x1_0000_0000_0000_0000

add64 : ℕ → ℕ → ℕ
add64 a b = (a + b) % u64_mod

-- `(x << b) | (x >> (64 - b))`: the two parts share no bit, so the `|` is a sum.
rotl64 : ℕ → ℕ → ℕ
rotl64 x b = x * 2 ^ b % u64_mod + x / 2 ^ (64 - b)

record SipState : Type 0 where
  v0 : ℕ
  v1 : ℕ
  v2 : ℕ
  v3 : ℕ

-- BS_SIPROUND, one statement to a line.
sip_round : SipState → SipState
unfolding add64 rotl64
sip_round s =
    let a0 = add64 s.v0 s.v1 in
    let a1 = bit_xor (rotl64 s.v1 13) a0 in
    let a0' = rotl64 a0 32 in
    let a2 = add64 s.v2 s.v3 in
    let a3 = bit_xor (rotl64 s.v3 16) a2 in
    let b0 = add64 a0' a3 in
    let b3 = bit_xor (rotl64 a3 21) b0 in
    let b2 = add64 a2 a1 in
    let b1 = bit_xor (rotl64 a1 17) b2 in record { v0 = b0; v1 = b1; v2 = rotl64 b2 32; v3 = b3 }

-- A little-endian word.
le_word : Bytes → ℕ
le_word [] = 0
le_word (b ∷ bs) = b + 256 * le_word bs

-- One message block.
sip_block : SipState → ℕ → SipState
unfolding sip_round
sip_block s m =
    let t = sip_round (sip_round (record s { v3 = bit_xor s.v3 m })) in
    record t { v0 = bit_xor t.v0 m }

-- The whole blocks, by their number, and the bytes that are left.
sip_blocks : ℕ → SipState → Bytes → SipState × Bytes
unfolding sip_block le_word
sip_blocks zero s rest = (s, rest)
sip_blocks (suc n) s rest = sip_blocks n (sip_block s (le_word (take 8 rest))) (drop 8 rest)

sip_start : Bytes → SipState
unfolding le_word
sip_start key =
    let k0 = le_word (take 8 key) in
    let k1 = le_word (take 8 (drop 8 key)) in
    record {
      v0 = bit_xor 0x736f6d6570736575 k0;
      v1 = bit_xor 0x646f72616e646f6d k1;
      v2 = bit_xor 0x6c7967656e657261 k0;
      v3 = bit_xor 0x7465646279746573 k1;
    }

-- Four rounds and the fold of the four words.
sip_finish : SipState → ℕ
unfolding sip_round
sip_finish s =
    let w = sip_round (sip_round (sip_round (sip_round (record s { v2 = bit_xor s.v2 0xff })))) in
    bit_xor (bit_xor w.v0 w.v1) (bit_xor w.v2 w.v3)

-- `bs_siphash24(key, data, len)`. The last block carries the length and the bytes left over.
unfoldable pub siphash24 : Bytes → Bytes → ℕ
unfolding sip_start sip_blocks sip_finish
siphash24 key input =
    let (s, rest) = sip_blocks (length input / 8) (sip_start key) input in
    sip_finish (sip_block s (length input % 256 * 2 ^ 56 + le_word rest))

-- The four bytes of a 32-bit word, lowest first.
abbrev pub le_bytes32 : ℕ → Bytes
le_bytes32 n = n % 256 ∷ n / 256 % 256 ∷ n / 65536 % 256 ∷ n / 16777216 % 256 ∷ []

-- `(apr_uint32_t)(h % capacity)`, for capacities below 2^32.
abbrev pub bucket_of : ℕ → ℕ → ℕ
bucket_of h capacity = h % capacity

pub bucket_of-lt : (h capacity : ℕ) → 0 < capacity → bucket_of h capacity < capacity
bucket_of-lt h capacity p = omega arith
