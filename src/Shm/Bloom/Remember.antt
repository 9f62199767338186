-- ===== src/Shm/Bloom/Remember.antt =====
-- How long the Bloom filter remembers an address.
use botshield.Prelude.{
  ℕ, ◌+◌, ◌*◌, ◌/◌, ◌≤◌, ◌<◌, ◌≡◌, refl, Bool, true, false, not, some, List, [], ◌∷◌, arith, Bytes,
  ltb, ◌⊎◌, inl, inr, Bool-cases,
}
use botshield.Shm.Bloom.{
  Buffer, Bloom, bloom_indices, set_bits, cleared_buffer, put_buffer, buffer_at, rotate_if_due,
  insert_bits, bloom_add, seen_in, bloom_seen,
}
use botshield.Shm.Bloom.Bits.{
  Sized, AllSet, cleared_buffer-Sized, set_bits-Sized, AllSet-set_bits, set_bits-AllSet,
  seen-AllSet_a, seen-AllSet_b, bloom_indices-AllBelow,
}

-- The filter is mapped, and its buffers have their size.
pub record BloomReady (b : Bloom) (bufs : Buffer × Buffer) : Type 0 where
  pub mapped : b.bloom_bufs ≡ some bufs
  pub sized : (active : Bool) → Sized (buffer_at active bufs) b.bloom_buf_bytes
  pub nonempty : 0 < b.bloom_buf_bytes

-- A call of bs_bloom_add or of bs_bloom_rotate_if_due, with its clock reading.
pub data BloomCall : Type 0 where
  adds : ℕ → Bytes → ℕ → BloomCall
  rotates : ℕ → BloomCall

unfoldable pub bloom_step : Bloom → BloomCall → Bloom
bloom_step b (adds now ip ns) = bloom_add now ip ns b
bloom_step b (rotates now) = rotate_if_due now b

unfoldable pub bloom_run : Bloom → List BloomCall → Bloom
bloom_run b [] = b
bloom_run b (c ∷ cs) = bloom_run (bloom_step b c) cs

abbrev call_time : BloomCall → ℕ
call_time (adds now ip ns) = now
call_time (rotates now) = now

-- Every call reads a time before the deadline.
abbrev pub Before : ℕ → List BloomCall → Type 0
Before deadline [] = Unit
Before deadline (c ∷ cs) = (call_time c < deadline) × Before deadline cs

-- The bits stand in the active buffer with one rotation to spare, or in the other with none.
abbrev Spare : ℕ → List ℕ → Bloom → Buffer × Buffer → Type 0
Spare deadline indices b bufs =
    (AllSet (buffer_at b.bloom_active bufs) indices
      × (deadline ≤ b.bloom_next_rotate + b.bloom_window_secs / 2))
    ⊎ (AllSet (buffer_at (not b.bloom_active) bufs) indices × (deadline ≤ b.bloom_next_rotate))

record Kept (deadline : ℕ) (key : Bytes) (bytes : ℕ) (indices : List ℕ) (b : Bloom) : Type 0 where
  bufs : Buffer × Buffer
  ready : BloomReady b bufs
  keyed : b.siphash_key ≡ key
  bytes_eq : b.bloom_buf_bytes ≡ bytes
  spare : Spare deadline indices b bufs

put-Sized :
    (at : Bool) (buf : Buffer) (bufs : Buffer × Buffer) (bytes : ℕ)
    → Sized buf bytes
    → ((active : Bool) → Sized (buffer_at active bufs) bytes)
    → (active : Bool) → Sized (buffer_at active (put_buffer at buf bufs)) bytes
put-Sized false buf bufs bytes s all false = s
put-Sized false buf bufs bytes s all true = all true
put-Sized true buf bufs bytes s all false = all false
put-Sized true buf bufs bytes s all true = s

buffer-put_self :
    (at : Bool) (buf : Buffer) (bufs : Buffer × Buffer)
    → buffer_at at (put_buffer at buf bufs) ≡ buf
buffer-put_self false buf bufs = refl
buffer-put_self true buf bufs = refl

buffer-put_not :
    (at : Bool) (buf : Buffer) (bufs : Buffer × Buffer)
    → buffer_at (not at) (put_buffer at buf bufs) ≡ buffer_at (not at) bufs
buffer-put_not false buf bufs = refl
buffer-put_not true buf bufs = refl

buffer-not_put :
    (at : Bool) (buf : Buffer) (bufs : Buffer × Buffer)
    → buffer_at (not (not at)) (put_buffer (not at) buf bufs) ≡ buffer_at at bufs
buffer-not_put false buf bufs = refl
buffer-not_put true buf bufs = refl

-- A turn of the buffers.
turned : ℕ → Bloom → Buffer × Buffer → Bloom
turned now b bufs = record b {
  bloom_next_rotate = now + b.bloom_window_secs / 2;
  bloom_bufs = some (put_buffer (not b.bloom_active) (cleared_buffer b.bloom_buf_bytes) bufs);
  bloom_active = not b.bloom_active;
}

rotate_cases :
    (now : ℕ) (b : Bloom) (bufs : Buffer × Buffer)
    → BloomReady b bufs
    → ((now < b.bloom_next_rotate) × (rotate_if_due now b ≡ b))
      ⊎ ((b.bloom_next_rotate ≤ now) × (rotate_if_due now b ≡ turned now b bufs))
unfolding rotate_if_due turned
rotate_cases now b bufs r = elim (Bool-cases (ltb now b.bloom_next_rotate)) [
  | inl e ↦ inl (ground (arith, e), rw (r.mapped, e) refl)
  | inr e ↦ inr (ground (arith, e), rw (r.mapped, e) refl)
]

turned-Ready :
    (now : ℕ) (b : Bloom) (bufs : Buffer × Buffer)
    → BloomReady b bufs
    → BloomReady
        (turned now b bufs)
        (put_buffer (not b.bloom_active) (cleared_buffer b.bloom_buf_bytes) bufs)
unfolding turned
turned-Ready now b bufs r = record {
  mapped = refl;
  sized =
      put-Sized (not b.bloom_active) (cleared_buffer b.bloom_buf_bytes) bufs b.bloom_buf_bytes
        (cleared_buffer-Sized b.bloom_buf_bytes) r.sized;
  nonempty = r.nonempty;
}

rotate_keeps :
    (deadline : ℕ) (key : Bytes) (bytes : ℕ) (indices : List ℕ) (now : ℕ) (b : Bloom)
    → now < deadline
    → Kept deadline key bytes indices b
    → Kept deadline key bytes indices (rotate_if_due now b)
rotate_keeps deadline key bytes indices now b lt k = elim (rotate_cases now b k.bufs k.ready) [
  | inl (early, e) ↦ rw e k
  | inr (due, e) ↦ rw e (go due k.spare)
]
  where
    go :
        b.bloom_next_rotate ≤ now
        → Spare deadline indices b k.bufs
        → Kept deadline key bytes indices (turned now b k.bufs)
    go due (inr late) = absurd (omega (arith, late.1, due, lt))
    go due (inl h) = record {
      bufs = put_buffer (not b.bloom_active) (cleared_buffer b.bloom_buf_bytes) k.bufs;
      ready = turned-Ready now b k.bufs k.ready;
      keyed = unfold turned in k.keyed;
      bytes_eq = unfold turned in k.bytes_eq;
      spare =
          unfold turned in
          inr (
            rw (buffer-not_put b.bloom_active (cleared_buffer b.bloom_buf_bytes) k.bufs) h.0,
            omega (arith, h.1, due),
          );
    }

-- The insertion of an address in a mapped filter.
inserted : List ℕ → Bloom → Buffer × Buffer → Buffer × Buffer
inserted more b bufs =
    put_buffer b.bloom_active (set_bits (buffer_at b.bloom_active bufs) more) bufs

insert-mapped :
    (more : List ℕ) (b : Bloom) (bufs : Buffer × Buffer)
    → BloomReady b bufs
    → insert_bits more b ≡ record b { bloom_bufs = some (inserted more b bufs) }
unfolding inserted
insert-mapped more b bufs r = rw r.mapped refl

insert-Ready :
    (more : List ℕ) (b : Bloom) (bufs : Buffer × Buffer)
    → BloomReady b bufs
    → BloomReady (record b { bloom_bufs = some (inserted more b bufs) }) (inserted more b bufs)
unfolding inserted
insert-Ready more b bufs r = record {
  mapped = refl;
  sized =
      put-Sized b.bloom_active (set_bits (buffer_at b.bloom_active bufs) more) bufs
        b.bloom_buf_bytes
        (set_bits-Sized more (buffer_at b.bloom_active bufs) b.bloom_buf_bytes
          (r.sized b.bloom_active))
        r.sized;
  nonempty = r.nonempty;
}

insert_keeps :
    (deadline : ℕ) (key : Bytes) (bytes : ℕ) (indices more : List ℕ) (b : Bloom)
    → Kept deadline key bytes indices b
    → Kept deadline key bytes indices (insert_bits more b)
insert_keeps deadline key bytes indices more b k = rw (insert-mapped more b k.bufs k.ready) record {
  bufs = inserted more b k.bufs;
  ready = insert-Ready more b k.bufs k.ready;
  keyed = k.keyed;
  bytes_eq = k.bytes_eq;
  spare =
      unfold inserted in
      elim (k.spare) [
        | inl h ↦ inl (
          rw
              (buffer-put_self b.bloom_active (set_bits (buffer_at b.bloom_active k.bufs) more)
                k.bufs)
              (AllSet-set_bits more indices (buffer_at b.bloom_active k.bufs) h.0),
          h.1,
        )
        | inr h ↦ inr (
          rw
              (buffer-put_not b.bloom_active (set_bits (buffer_at b.bloom_active k.bufs) more)
                k.bufs)
              h.0,
          h.1,
        )
      ];
}

step_keeps :
    (deadline : ℕ) (key : Bytes) (bytes : ℕ) (indices : List ℕ) (b : Bloom) (c : BloomCall)
    → call_time c < deadline
    → Kept deadline key bytes indices b
    → Kept deadline key bytes indices (bloom_step b c)
unfolding bloom_step bloom_add
step_keeps deadline key bytes indices b (adds now ip ns) lt k =
    insert_keeps deadline key bytes indices _ (rotate_if_due now b)
      (rotate_keeps deadline key bytes indices now b lt k)
step_keeps deadline key bytes indices b (rotates now) lt k =
    rotate_keeps deadline key bytes indices now b lt k

run_keeps :
    (deadline : ℕ) (key : Bytes) (bytes : ℕ) (indices : List ℕ) (b : Bloom) (cs : List BloomCall)
    → Before deadline cs
    → Kept deadline key bytes indices b
    → Kept deadline key bytes indices (bloom_run b cs)
unfolding bloom_run
run_keeps deadline key bytes indices b [] lt k = k
run_keeps deadline key bytes indices b (c ∷ cs) lt k =
    run_keeps deadline key bytes indices (bloom_step b c) cs lt.1
      (step_keeps deadline key bytes indices b c lt.0 k)

Kept-seen :
    (deadline : ℕ) (key ip : Bytes) (bytes ns : ℕ) (b : Bloom)
    → Kept deadline key bytes (bloom_indices key ip (bytes * 8) ns) b
    → bloom_seen ip ns b ≡ true
unfolding bloom_seen
Kept-seen deadline key ip bytes ns b k =
    rw (k.ready.mapped, k.keyed, k.bytes_eq) (go b.bloom_active k.spare)
  where
    indices : List ℕ
    indices = bloom_indices key ip (bytes * 8) ns

    go :
        (active : Bool)
        → (AllSet (buffer_at active k.bufs) indices
            × (deadline ≤ b.bloom_next_rotate + b.bloom_window_secs / 2))
          ⊎ (AllSet (buffer_at (not active) k.bufs) indices × (deadline ≤ b.bloom_next_rotate))
        → seen_in k.bufs true true indices ≡ true
    go false (inl h) = seen-AllSet_a k.bufs true indices h.0
    go false (inr h) = seen-AllSet_b k.bufs true indices h.0
    go true (inl h) = seen-AllSet_b k.bufs true indices h.0
    go true (inr h) = seen-AllSet_a k.bufs true indices h.0

-- What an insertion into a filter that need not rotate leaves.
insert-Kept :
    (now : ℕ) (ip : Bytes) (ns : ℕ) (b : Bloom) (bufs : Buffer × Buffer)
    → BloomReady b bufs
    → now ≤ b.bloom_next_rotate
    → Kept
        (now + b.bloom_window_secs / 2)
        b.siphash_key
        b.bloom_buf_bytes
        (bloom_indices b.siphash_key ip (b.bloom_buf_bytes * 8) ns)
        (insert_bits (bloom_indices b.siphash_key ip (b.bloom_buf_bytes * 8) ns) b)
insert-Kept now ip ns b bufs r early = rw (insert-mapped indices b bufs r) record {
  bufs = inserted indices b bufs;
  ready = insert-Ready indices b bufs r;
  keyed = refl;
  bytes_eq = refl;
  spare =
      unfold inserted in
      inl (
        rw (buffer-put_self b.bloom_active (set_bits (buffer_at b.bloom_active bufs) indices) bufs)
            (set_bits-AllSet indices (buffer_at b.bloom_active bufs) b.bloom_buf_bytes
              (r.sized b.bloom_active)
              (bloom_indices-AllBelow b.siphash_key ip (b.bloom_buf_bytes * 8) ns
                (omega (arith, r.nonempty)))),
        omega (arith, early),
      );
}
  where
    indices : List ℕ
    indices = bloom_indices b.siphash_key ip (b.bloom_buf_bytes * 8) ns

-- An address that is added to a mapped filter is seen for half a window from then on: after any
-- calls that add any addresses or rotate the filter at times before the end of that half window.
pub bloom_remembers :
    (b : Bloom) (bufs : Buffer × Buffer) (now : ℕ) (ip : Bytes) (ns : ℕ) (cs : List BloomCall)
    → BloomReady b bufs
    → Before (now + b.bloom_window_secs / 2) cs
    → bloom_seen ip ns (bloom_run (bloom_add now ip ns b) cs) ≡ true
unfolding bloom_add
bloom_remembers b bufs now ip ns cs r lt =
    Kept-seen deadline b.siphash_key ip b.bloom_buf_bytes ns (bloom_run (bloom_add now ip ns b) cs)
      (run_keeps deadline b.siphash_key b.bloom_buf_bytes _ (bloom_add now ip ns b) cs lt
        (elim (rotate_cases now b bufs r) [
          | inl (early, e) ↦ rw e (insert-Kept now ip ns b bufs r (omega (arith, early)))
          | inr (due, e) ↦ rw e (
              unfold turned in
              insert-Kept now ip ns (turned now b bufs) _ (turned-Ready now b bufs r) (omega arith))
        ]))
  where
    deadline : ℕ
    deadline = now + b.bloom_window_secs / 2
