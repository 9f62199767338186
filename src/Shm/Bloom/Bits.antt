-- ===== src/Shm/Bloom/Bits.antt =====
-- Bits that are set in a buffer of the Bloom filter stay set, and are what the reader tests.
use botshield.Prelude.{
  ℕ, zero, suc, ◌+◌, ◌*◌, ◌/◌, ◌%◌, ◌^◌, ◌<◌, ◌≡◌, refl, ◌∙◌, Bool, true, false, ◌&&◌, List, [],
  ◌∷◌, arith, length, get_or, set, replicate, get_or-set_self, get_or-set_ne, length-set,
  length-replicate, ℕ_discrete, Bytes,
}
use botshield.Shm.Bloom.{
  Octet, Buffer, set_bit, bit_at, set_bits, seen_in, indices_from, bloom_indices, cleared_buffer,
}

-- The buffer has so many bytes, of eight bits each.
pub record Sized (buf : Buffer) (bytes : ℕ) : Type 0 where
  pub length_eq : length buf ≡ bytes
  pub eight : (k : ℕ) → k < bytes → length (get_or buf k []) ≡ 8

get_or-replicate : {A : Type 0} (n k : ℕ) (a d : A) → k < n → get_or (replicate n a) k d ≡ a
get_or-replicate zero k a d h = absurd (omega (arith, h))
get_or-replicate (suc n) zero a d h = refl
get_or-replicate (suc n) (suc k) a d h = get_or-replicate n k a d (omega (arith, h))

pub cleared_buffer-Sized : (bytes : ℕ) → Sized (cleared_buffer bytes) bytes
cleared_buffer-Sized bytes = record {
  length_eq = length-replicate bytes (replicate 8 false);
  eight = λ k h. rw (get_or-replicate bytes k (replicate 8 false) [] h) refl;
}

pub set_bit-Sized : (buf : Buffer) (bytes i : ℕ) → Sized buf bytes → Sized (set_bit buf i) bytes
unfolding set_bit
set_bit-Sized buf bytes i s = record {
  length_eq = length-set buf (i / 8) _ ∙ s.length_eq;
  eight = λ k h. elim (ℕ_discrete (i / 8) k) [
    | yes e ↦
        rw
          (
            e,
            get_or-set_self buf k (set (get_or buf k []) (i % 8) true) []
                (omega (arith, h, s.length_eq)),
          )
          (length-set (get_or buf k []) (i % 8) true ∙ s.eight k h)
    | no ne ↦
        rw (get_or-set_ne buf (i / 8) k (set (get_or buf (i / 8) []) (i % 8) true) [] ne)
          (s.eight k h)
  ];
}

pub set_bits-Sized :
    (indices : List ℕ) (buf : Buffer) (bytes : ℕ)
    → Sized buf bytes
    → Sized (set_bits buf indices) bytes
unfolding set_bits
set_bits-Sized [] buf bytes s = s
set_bits-Sized (i ∷ indices) buf bytes s =
    set_bits-Sized indices (set_bit buf i) bytes (set_bit-Sized buf bytes i s)

bit_at-set_bit :
    (buf : Buffer) (bytes i : ℕ) → Sized buf bytes → i < bytes * 8 → bit_at (set_bit buf i) i ≡ true
unfolding bit_at set_bit
bit_at-set_bit buf bytes i s h =
    let k : i / 8 < bytes = omega (arith, h) in
    let j : i % 8 < 8 = omega arith in
    rw
      (get_or-set_self buf (i / 8) (set (get_or buf (i / 8) []) (i % 8) true) []
        (omega (arith, k, s.length_eq)))
      (get_or-set_self (get_or buf (i / 8) []) (i % 8) true false
        (omega (arith, j, s.eight (i / 8) k)))

get_or-set-true :
    (xs : Octet) (i j : ℕ) → get_or xs j false ≡ true → get_or (set xs i true) j false ≡ true
get_or-set-true [] i j h = h
get_or-set-true (x ∷ xs) zero zero h = refl
get_or-set-true (x ∷ xs) zero (suc j) h = h
get_or-set-true (x ∷ xs) (suc i) zero h = h
get_or-set-true (x ∷ xs) (suc i) (suc j) h = get_or-set-true xs i j h

byte_keeps :
    (buf : Buffer) (k l m j : ℕ)
    → get_or (get_or buf l []) j false ≡ true
    → get_or (get_or (set buf k (set (get_or buf k []) m true)) l []) j false ≡ true
byte_keeps [] k l m j h = h
byte_keeps (x ∷ buf) zero zero m j h = get_or-set-true x m j h
byte_keeps (x ∷ buf) zero (suc l) m j h = h
byte_keeps (x ∷ buf) (suc k) zero m j h = h
byte_keeps (x ∷ buf) (suc k) (suc l) m j h = byte_keeps buf k l m j h

bits_keep :
    (indices : List ℕ) (buf : Buffer) (j : ℕ)
    → bit_at buf j ≡ true
    → bit_at (set_bits buf indices) j ≡ true
unfolding set_bits set_bit bit_at
bits_keep [] buf j h = h
bits_keep (i ∷ indices) buf j h =
    bits_keep indices (set_bit buf i) j (byte_keeps buf (i / 8) (j / 8) (i % 8) (j % 8) h)

-- All these bits are set.
abbrev pub AllSet : Buffer → List ℕ → Type 0
AllSet buf [] = Unit
AllSet buf (i ∷ indices) = (bit_at buf i ≡ true) × AllSet buf indices

abbrev pub AllBelow : ℕ → List ℕ → Type 0
AllBelow n [] = Unit
AllBelow n (i ∷ indices) = (i < n) × AllBelow n indices

pub AllSet-set_bits :
    (more indices : List ℕ) (buf : Buffer) → AllSet buf indices → AllSet (set_bits buf more) indices
AllSet-set_bits more [] buf h = tt
AllSet-set_bits more (i ∷ indices) buf h =
    (bits_keep more buf i h.0, AllSet-set_bits more indices buf h.1)

pub set_bits-AllSet :
    (indices : List ℕ) (buf : Buffer) (bytes : ℕ)
    → Sized buf bytes
    → AllBelow (bytes * 8) indices
    → AllSet (set_bits buf indices) indices
unfolding set_bits
set_bits-AllSet [] buf bytes s h = tt
set_bits-AllSet (i ∷ indices) buf bytes s h = (
  bits_keep indices (set_bit buf i) i (bit_at-set_bit buf bytes i s h.0),
  set_bits-AllSet indices (set_bit buf i) bytes (set_bit-Sized buf bytes i s) h.1,
)

-- The reader finds an address whose bits are all set in one of the buffers.
pub seen-AllSet_a :
    (bufs : Buffer × Buffer) (in_b : Bool) (indices : List ℕ)
    → AllSet bufs.0 indices
    → seen_in bufs true in_b indices ≡ true
unfolding seen_in
seen-AllSet_a bufs in_b [] h = refl
seen-AllSet_a bufs in_b (i ∷ indices) h =
    rw h.0 (seen-AllSet_a bufs (in_b && bit_at bufs.1 i) indices h.1)

pub seen-AllSet_b :
    (bufs : Buffer × Buffer) (in_a : Bool) (indices : List ℕ)
    → AllSet bufs.1 indices
    → seen_in bufs in_a true indices ≡ true
unfolding seen_in
seen-AllSet_b bufs true [] h = refl
seen-AllSet_b bufs false [] h = refl
seen-AllSet_b bufs in_a (i ∷ indices) h =
    ground (arith, h.0, seen-AllSet_b bufs (in_a && bit_at bufs.0 i) indices h.1)

wrapped-lt : (n m : ℕ) → 0 < m → n % m % 2 ^ 32 < m
wrapped-lt n m h = let small : n % m < m = omega arith in omega (arith, small)

indices-AllBelow :
    (left i h1 h2 m_bits : ℕ) → 0 < m_bits → AllBelow m_bits (indices_from left i h1 h2 m_bits)
unfolding indices_from
indices-AllBelow zero i h1 h2 m_bits h = tt
indices-AllBelow (suc left) i h1 h2 m_bits h =
    (wrapped-lt ((h1 + i * h2) % 2 ^ 64) m_bits h, indices-AllBelow left (suc i) h1 h2 m_bits h)

pub bloom_indices-AllBelow :
    (key ip : Bytes) (m_bits ns : ℕ) → 0 < m_bits → AllBelow m_bits (bloom_indices key ip m_bits ns)
unfolding bloom_indices
bloom_indices-AllBelow key ip m_bits ns h = indices-AllBelow 7 0 _ _ m_bits h
