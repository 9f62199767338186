-- ===== src/Samples/Bloom.antt =====
-- The Bloom filter at concrete inputs.
use botshield.Prelude.{◌≡◌, refl, true, false, some, [], ◌∷◌, arith, Bool}
use botshield.Shm.Hash.{siphash24}
use botshield.Shm.Bloom.{
  Bloom, cleared_buffer, buffer_at, bloom_add, bloom_seen, rotate_if_due, bloom_indices,
  indices_from, set_bits, set_bit, bit_at, seen_in,
}
use botshield.Shm.Bloom.Bits.{Sized, cleared_buffer-Sized}
use botshield.Shm.Bloom.Remember.{BloomReady, adds, rotates, bloom_run, bloom_remembers}
use botshield.Samples.Tables.{sample_key, client, neighbour}

-- A filter of 16 bytes and a window of ten minutes.
abbrev filter : Bloom
filter = record {
  siphash_key = sample_key;
  bloom_bufs = some (cleared_buffer 16, cleared_buffer 16);
  bloom_buf_bytes = 16;
  bloom_active = false;
  bloom_next_rotate = 1000;
  bloom_window_secs = 600;
}

both-Sized : (active : Bool) → Sized (buffer_at active (cleared_buffer 16, cleared_buffer 16)) 16
both-Sized false = cleared_buffer-Sized 16
both-Sized true = cleared_buffer-Sized 16

filter-BloomReady : BloomReady filter (cleared_buffer 16, cleared_buffer 16)
filter-BloomReady = record { mapped = refl; sized = both-Sized; nonempty = omega arith }

unseen : bloom_seen client 0 (bloom_add 900 neighbour 0 filter) ≡ false
unfolding bloom_seen bloom_add rotate_if_due bloom_indices indices_from set_bits set_bit bit_at
    seen_in siphash24
unseen = refl

forgotten :
    bloom_seen client 0 (rotate_if_due 1300 (rotate_if_due 1000 (bloom_add 900 client 0 filter)))
    ≡ false
unfolding bloom_seen bloom_add rotate_if_due bloom_indices indices_from set_bits set_bit bit_at
    seen_in siphash24
forgotten = refl

bloom_remembers_example :
    bloom_seen client 0
      (bloom_run (bloom_add 900 client 0 filter) (adds 1100 neighbour 0 ∷ rotates 1199 ∷ []))
    ≡ true
bloom_remembers_example =
    bloom_remembers filter (cleared_buffer 16, cleared_buffer 16) 900 client 0
      (adds 1100 neighbour 0 ∷ rotates 1199 ∷ []) filter-BloomReady (omega arith, (omega arith, tt))
