-- ===== src/Shm/Flagged/Prefix.antt =====
-- `bs_ip_in_prefix` of src/shm.c against the bits of the two addresses.
use botshield.Prelude.{
  ℕ, zero, suc, ◌+◌, ◌-◌, ◌*◌, ◌/◌, ◌%◌, ◌^◌, ◌<◌, ◌≤◌, ◌≡◌, ◌↔◌, refl, sym, ◌∙◌, ap, Bool, true,
  if◌then◌else◌, Bytes, arith, ◌==◌, get_or, take, bit_and, bit_xor, bytes_eq, bytes_eq_refl,
  bytes_eq→eq, inl, inr, Bool-cases, not,
}
use Prim.Native.Nat.{differ, digits, bit_xor-bitwise}
use botshield.Codec.RoundTrip.{AllBytes, all_below, all_below-true}
use botshield.Address.Prefix.{SharePrefix, get-AllBytes, none_of_byte}
use botshield.Shm.Flagged.{ip_in_prefix}

abbrev xor_digits : ℕ → ℕ → ℕ → ℕ
xor_digits = digits (λ b. b) differ

-- More digits to go than the first number has do no harm.
xor_digits_fuel : (n m a b : ℕ) → a ≤ n → n ≤ m → xor_digits n a b ≡ xor_digits m a b
xor_digits_fuel zero zero zero b p q = refl
xor_digits_fuel zero (suc m) zero b p q = refl
xor_digits_fuel (suc n) zero zero b p q = refl
xor_digits_fuel (suc n) (suc m) zero b p q = refl
xor_digits_fuel zero m (suc a) b p q = absurd (omega (arith, p))
xor_digits_fuel (suc n) zero (suc a) b p q = absurd (omega (arith, q))
xor_digits_fuel (suc n) (suc m) (suc a) b p q =
    ap (λ (x : ℕ). x * 2 + differ (suc a % 2) (b % 2))
      (xor_digits_fuel n m (suc a / 2) (b / 2) (omega (arith, p)) (omega (arith, q)))

zero-bit_xor : (b : ℕ) → bit_xor 0 b ≡ b
zero-bit_xor b = bit_xor-bitwise 0 b

differ_same : (x y : ℕ) → x < 2 → y < 2 → (differ x y ≡ 0) ↔ (x ≡ y)
differ_same zero zero h k = (λ e. refl, λ e. refl)
differ_same zero (suc y) h k = (λ e. sym e, λ e. sym e)
differ_same (suc x) zero h k = (λ e. e, λ e. e)
differ_same (suc zero) (suc zero) h k = (λ e. refl, λ e. refl)
differ_same (suc (suc x)) y h k = absurd (omega (arith, h))
differ_same (suc zero) (suc (suc y)) h k = absurd (omega (arith, k))

differ-lt : (x y : ℕ) → x < 2 → y < 2 → differ x y < 2
differ-lt zero y h k = k
differ-lt (suc x) zero h k = h
differ-lt (suc zero) (suc y) h k = omega (arith, k)
differ-lt (suc (suc x)) (suc y) h k = absurd (omega (arith, h))

-- The lowest digit, and the rest.
bit_xor_step : (a b : ℕ) → bit_xor a b ≡ bit_xor (a / 2) (b / 2) * 2 + differ (a % 2) (b % 2)
bit_xor_step zero b = rw (zero-bit_xor b, zero-bit_xor (b / 2)) (omega arith)
bit_xor_step (suc a) b =
    bit_xor-bitwise (suc a) b
    ∙ ap (λ (x : ℕ). x * 2 + differ (suc a % 2) (b % 2))
        (sym (xor_digits_fuel (suc a / 2) a (suc a / 2) (b / 2) (omega arith) (omega arith))
          ∙ sym (bit_xor-bitwise (suc a / 2) (b / 2)))

bit_xor_half : (a b : ℕ) → bit_xor a b / 2 ≡ bit_xor (a / 2) (b / 2)
bit_xor_half a b =
    omega (arith, bit_xor_step a b, differ-lt (a % 2) (b % 2) (omega arith) (omega arith))

bit_xor_same_fuel : (n a b : ℕ) → a ≤ n → (bit_xor a b ≡ 0) ↔ (a ≡ b)
bit_xor_same_fuel n zero b h = rw (zero-bit_xor b) (λ e. sym e, λ e. sym e)
bit_xor_same_fuel zero (suc a) b h = absurd (omega (arith, h))
bit_xor_same_fuel (suc n) (suc a) b h =
    let rest = bit_xor_same_fuel n (suc a / 2) (b / 2) (omega (arith, h)) in
    let low = differ_same (suc a % 2) (b % 2) (omega arith) (omega arith) in
    let step = bit_xor_step (suc a) b in
    (
      λ e.
          let halves = rest.0 (omega (arith, e, step)) in
          let digit = low.0 (omega (arith, e, step)) in omega (arith, halves, digit),
      λ e.
          let halves = rest.1 (omega (arith, e)) in
          let digit = low.1 (omega (arith, e)) in omega (arith, step, halves, digit),
    )

-- `x / 2 ^ k`, halved `k` times.
abbrev halved : ℕ → ℕ → ℕ
halved zero x = x
halved (suc k) x = halved k (x / 2)

halved-bit_xor : (k a b : ℕ) → halved k (bit_xor a b) ≡ bit_xor (halved k a) (halved k b)
halved-bit_xor zero a b = refl
halved-bit_xor (suc k) a b = ap (halved k) (bit_xor_half a b) ∙ halved-bit_xor k (a / 2) (b / 2)

halved_lem : (k x : ℕ) → k < 9 → halved k x ≡ x / 2 ^ k
halved_lem zero x h = omega arith
halved_lem (suc zero) x h = omega arith
halved_lem (suc (suc zero)) x h = omega arith
halved_lem (suc (suc (suc zero))) x h = omega arith
halved_lem (suc (suc (suc (suc zero)))) x h = omega arith
halved_lem (suc (suc (suc (suc (suc zero))))) x h = omega arith
halved_lem (suc (suc (suc (suc (suc (suc zero)))))) x h = omega arith
halved_lem (suc (suc (suc (suc (suc (suc (suc zero))))))) x h = omega arith
halved_lem (suc (suc (suc (suc (suc (suc (suc (suc zero)))))))) x h = omega arith
halved_lem (suc (suc (suc (suc (suc (suc (suc (suc (suc k))))))))) x h = absurd (omega (arith, h))

-- Two numbers agree in the digits from the `k`th on.
upper_same : (k a b : ℕ) → k < 9 → (bit_xor a b / 2 ^ k ≡ 0) ↔ (a / 2 ^ k ≡ b / 2 ^ k)
upper_same k a b h =
    let same = bit_xor_same_fuel (halved k a) (halved k a) (halved k b) (omega arith) in
    rw
      (
        sym (halved_lem k (bit_xor a b) h),
        sym (halved_lem k a h),
        sym (halved_lem k b h),
        halved-bit_xor k a b,
      )
      same

-- Whether the mask of the upper `j + 1` digits of a byte finds what a division does.
abbrev mask_divides : ℕ → ℕ → Bool
mask_divides z j =
    if z / 2 ^ (7 - j) == 0
    then bit_and z (256 - 2 ^ (7 - j)) == 0
    else not (bit_and z (256 - 2 ^ (7 - j)) == 0)

masked_zero :
    (z j : ℕ) → z < 256 → j < 7 → (bit_and z (256 - 2 ^ (7 - j)) ≡ 0) ↔ (z / 2 ^ (7 - j) ≡ 0)
masked_zero z j hz hj =
    let all = all_below-true 256 z (λ y. all_below 7 (mask_divides y)) refl hz in
    let one : mask_divides z j ≡ true = all_below-true 7 j (mask_divides z) all hj in
    (λ e. ground (arith, one, e), λ e. ground (arith, one, e))

-- The masked test of the byte that the prefix ends in.
byte_shared :
    (x y rem : ℕ)
    → x < 256
    → y < 256
    → 0 < rem
    → rem < 8
    → (bit_and (bit_xor x y) (256 - 2 ^ (8 - rem)) ≡ 0) ↔ (x / 2 ^ (8 - rem) ≡ y / 2 ^ (8 - rem))
byte_shared x y zero hx hy pos small = absurd (omega (arith, pos))
byte_shared x y (suc j) hx hy pos small =
    let byte : bit_xor x y / 2 ^ 8 ≡ 0 =
      (upper_same 8 x y (omega arith)).1 (omega (arith, hx, hy)) in
    let masked = masked_zero (bit_xor x y) j (omega (arith, byte)) (omega (arith, small)) in
    let upper = upper_same (7 - j) x y (omega arith) in
    let width : 8 - suc j ≡ 7 - j = omega arith in
    rw width (λ e. upper.0 (masked.0 e), λ e. masked.1 (upper.1 e))

taken_eq : (n : ℕ) (a b : Bytes) → take n a ≡ take n b → bytes_eq (take n a) (take n b) ≡ true
taken_eq n a b e = rw (← e) (bytes_eq_refl (take n a))

-- The test compares the whole bytes of the prefix and the upper bits of the byte that it ends in.
pub ip_in_prefix-SharePrefix :
    (bits : ℕ) (ip net : Bytes)
    → AllBytes ip
    → AllBytes net
    → (ip_in_prefix ip net bits ≡ true) ↔ SharePrefix bits ip net
unfolding ip_in_prefix
ip_in_prefix-SharePrefix bits ip net ha hb =
    let x : ℕ = get_or ip (bits / 8) 0 in
    let y : ℕ = get_or net (bits / 8) 0 in
    let hx = get-AllBytes ip (bits / 8) ha in
    let hy = get-AllBytes net (bits / 8) hb in
    elim (Bool-cases (bytes_eq (take (bits / 8) ip) (take (bits / 8) net))) [
      | inr other ↦ rw other (
        λ e. absurd (ground (arith, e)),
        λ share. absurd (ground (arith, other, taken_eq (bits / 8) ip net share.0)),
      )
      | inl same ↦ elim (Bool-cases (bits % 8 == 0)) [
        | inl whole ↦
            rw (same, whole)
              (
                λ e. (
                  bytes_eq→eq (take (bits / 8) ip) (take (bits / 8) net) same,
                  none_of_byte bits x whole hx ∙ sym (none_of_byte bits y whole hy),
                ),
                λ share. refl,
              )
        | inr part ↦
            let byte = byte_shared x y (bits % 8) hx hy (ground (arith, part)) (omega arith) in
            rw (same, part)
              (
                λ e. (
                  bytes_eq→eq (take (bits / 8) ip) (take (bits / 8) net) same,
                  byte.0 (ground (arith, e)),
                ),
                λ share. ground (arith, byte.1 share.1),
              )
      ]
    ]
