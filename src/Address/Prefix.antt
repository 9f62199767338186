-- ===== src/Address/Prefix.antt =====
-- Two addresses have one key exactly if they share the prefix.
use botshield.Prelude.{
  ℕ, zero, suc, ◌+◌, ◌-◌, ◌*◌, ◌/◌, ◌%◌, ◌^◌, ◌<◌, ◌≡◌, ◌↔◌, refl, sym, ◌∙◌, ap, subst, true, false,
  ◌||◌, [], ◌∷◌, Bytes, arith, leb, ◌==◌, get_or, set, take, length, bit_and, inl, inr, Bool-cases,
}
use botshield.Codec.RoundTrip.{AllBytes, all_below, all_below-true}
use botshield.Shm.State.{pos}
use botshield.Address.{zero_from, is_v4_mapped, keep_mask, cleared, mask_ipv6_prefix}

head_eq : {x y : ℕ} {xs ys : Bytes} → x ∷ xs ≡ y ∷ ys → x ≡ y
head_eq {x} e = ap (λ (l : Bytes). elim l [ [] ↦ x | z ∷ _ ↦ z ]) e

tail_eq : {x y : ℕ} {xs ys : Bytes} → x ∷ xs ≡ y ∷ ys → xs ≡ ys
tail_eq {xs} e = ap (λ (l : Bytes). elim l [ [] ↦ xs | _ ∷ zs ↦ zs ]) e

cons_eq : {x y : ℕ} {xs ys : Bytes} → x ≡ y → xs ≡ ys → x ∷ xs ≡ y ∷ ys
cons_eq {x} {y} {xs} {ys} e f = cc

zeros_eq : (a b : Bytes) → length a ≡ length b → zero_from 0 a ≡ zero_from 0 b
unfolding zero_from
zeros_eq [] [] h = refl
zeros_eq [] (y ∷ b) h = absurd (omega (arith, h))
zeros_eq (x ∷ a) [] h = absurd (omega (arith, h))
zeros_eq (x ∷ a) (y ∷ b) h = cons_eq refl (zeros_eq a b (omega (arith, h)))

zero_from-take :
    (n : ℕ) (a b : Bytes)
    → length a ≡ length b
    → (zero_from n a ≡ zero_from n b) ↔ (take n a ≡ take n b)
unfolding zero_from
zero_from-take zero a b h = (λ e. refl, λ e. zeros_eq a b h)
zero_from-take (suc n) [] [] h = (λ e. refl, λ e. refl)
zero_from-take (suc n) [] (y ∷ b) h = absurd (omega (arith, h))
zero_from-take (suc n) (x ∷ a) [] h = absurd (omega (arith, h))
zero_from-take (suc n) (x ∷ a) (y ∷ b) h =
    let rest = zero_from-take n a b (omega (arith, h)) in
    (λ e. cons_eq (head_eq e) (rest.0 (tail_eq e)), λ e. cons_eq (head_eq e) (rest.1 (tail_eq e)))

zero_from-set :
    (n : ℕ) (a b : Bytes) (v w : ℕ)
    → length a ≡ length b
    → n < length a
    → (zero_from (suc n) (set a n v) ≡ zero_from (suc n) (set b n w))
      ↔ ((take n a ≡ take n b) × (v ≡ w))
unfolding zero_from
zero_from-set n [] b v w h lt = absurd (omega (arith, lt))
zero_from-set n (x ∷ a) [] v w h lt = absurd (omega (arith, h))
zero_from-set zero (x ∷ a) (y ∷ b) v w h lt =
    (λ e. (refl, head_eq e), λ both. cons_eq both.1 (zeros_eq a b (omega (arith, h))))
zero_from-set (suc n) (x ∷ a) (y ∷ b) v w h lt =
    let rest = zero_from-set n a b v w (omega (arith, h)) (omega (arith, lt)) in
    (
      λ e. let deeper = rest.0 (tail_eq e) in (cons_eq (head_eq e) deeper.0, deeper.1),
      λ both. cons_eq (head_eq both.0) (rest.1 (tail_eq both.0, both.1)),
    )

masked_byte :
    (x k : ℕ) → x < 256 → k < 7 → bit_and x (keep_mask (k + 1)) ≡ x / 2 ^ (7 - k) * 2 ^ (7 - k)
masked_byte x k hx hk =
    let all =
      all_below-true 256 x
        (λ y. all_below 7 (λ j. bit_and y (keep_mask (j + 1)) == y / 2 ^ (7 - j) * 2 ^ (7 - j)))
        refl hx in
    let one =
      all_below-true 7 k (λ j. bit_and x (keep_mask (j + 1)) == x / 2 ^ (7 - j) * 2 ^ (7 - j)) all
        hk in
    ground (arith, one)

cancel : (k x y : ℕ) → k < 7 → x * 2 ^ (7 - k) ≡ y * 2 ^ (7 - k) → x ≡ y
cancel zero x y h e = omega (arith, e)
cancel (suc zero) x y h e = omega (arith, e)
cancel (suc (suc zero)) x y h e = omega (arith, e)
cancel (suc (suc (suc zero))) x y h e = omega (arith, e)
cancel (suc (suc (suc (suc zero)))) x y h e = omega (arith, e)
cancel (suc (suc (suc (suc (suc zero))))) x y h e = omega (arith, e)
cancel (suc (suc (suc (suc (suc (suc zero)))))) x y h e = omega (arith, e)
cancel (suc (suc (suc (suc (suc (suc (suc k))))))) x y h e = absurd (omega (arith, h))

-- Two bytes keep the same bits exactly if they agree but for the lower ones.
kept_eq :
    (x y k : ℕ)
    → x < 256
    → y < 256
    → k < 7
    → (bit_and x (keep_mask (k + 1)) ≡ bit_and y (keep_mask (k + 1)))
      ↔ (x / 2 ^ (7 - k) ≡ y / 2 ^ (7 - k))
kept_eq x y k hx hy hk =
    rw (masked_byte x k hx hk, masked_byte y k hy hk)
      (
        λ e. cancel k (x / 2 ^ (7 - k)) (y / 2 ^ (7 - k)) hk e,
        λ e. ap (λ (q : ℕ). q * 2 ^ (7 - k)) e,
      )

pub get-AllBytes : (bytes : Bytes) (i : ℕ) → AllBytes bytes → get_or bytes i 0 < 256
get-AllBytes [] i h = omega arith
get-AllBytes (b ∷ bytes) zero h = h.0
get-AllBytes (b ∷ bytes) (suc i) h = get-AllBytes bytes i h.1

-- The whole bytes of the prefix are equal, and so are the upper bits of the byte that it ends in.
abbrev pub SharePrefix : ℕ → Bytes → Bytes → Type 0
SharePrefix bits a b =
    (take (bits / 8) a ≡ take (bits / 8) b)
    × (get_or a (bits / 8) 0 / 2 ^ (8 - bits % 8) ≡ get_or b (bits / 8) 0 / 2 ^ (8 - bits % 8))

cleared_whole :
    (bits : ℕ) (a : Bytes) → (bits % 8 == 0) ≡ true → cleared bits a ≡ zero_from (bits / 8) a
unfolding cleared
cleared_whole bits a e = rw e refl

cleared_part :
    (bits : ℕ) (a : Bytes)
    → (bits % 8 == 0) ≡ false
    → cleared bits a
      ≡ zero_from
          (suc (bits / 8))
          (set a (bits / 8) (bit_and (get_or a (bits / 8) 0) (keep_mask (bits % 8 - 1 + 1))))
unfolding cleared
cleared_part bits a e =
    let one : bits % 8 - 1 + 1 ≡ bits % 8 = ground (arith, e) in
    let next : bits / 8 + 1 ≡ suc (bits / 8) = omega arith in rw (e, one, next) refl

-- A whole byte says nothing about the byte behind it.
pub none_of_byte : (bits x : ℕ) → (bits % 8 == 0) ≡ true → x < 256 → x / 2 ^ (8 - bits % 8) ≡ 0
none_of_byte bits x e h =
    let all : 8 - bits % 8 ≡ 8 = ground (arith, e) in rw all (omega (arith, h))

whole-SharePrefix :
    (bits : ℕ) (a b : Bytes)
    → length a ≡ length b
    → AllBytes a
    → AllBytes b
    → (bits % 8 == 0) ≡ true
    → (zero_from (bits / 8) a ≡ zero_from (bits / 8) b) ↔ SharePrefix bits a b
whole-SharePrefix bits a b same ha hb e =
    let taken = zero_from-take (bits / 8) a b same in
    let x0 = none_of_byte bits (get_or a (bits / 8) 0) e (get-AllBytes a (bits / 8) ha) in
    let y0 = none_of_byte bits (get_or b (bits / 8) 0) e (get-AllBytes b (bits / 8) hb) in
    (λ eq. (taken.0 eq, x0 ∙ sym y0), λ share. taken.1 share.0)

part-SharePrefix :
    (bits : ℕ) (a b : Bytes)
    → length a ≡ 16
    → length b ≡ 16
    → AllBytes a
    → AllBytes b
    → bits < 128
    → (bits % 8 == 0) ≡ false
    → (cleared bits a ≡ cleared bits b) ↔ SharePrefix bits a b
part-SharePrefix bits a b la lb ha hb lt e =
    let x : ℕ = get_or a (bits / 8) 0 in
    let y : ℕ = get_or b (bits / 8) 0 in
    let j : ℕ = bits % 8 - 1 in
    let j_lt : bits % 8 - 1 < 7 = omega arith in
    let kept = kept_eq x y j (get-AllBytes a (bits / 8) ha) (get-AllBytes b (bits / 8) hb) j_lt in
    let upper : 7 - (bits % 8 - 1) ≡ 8 - bits % 8 = ground (arith, e) in
    let byte : (bit_and x (keep_mask (j + 1)) ≡ bit_and y (keep_mask (j + 1)))
        ↔ (x / 2 ^ (8 - bits % 8) ≡ y / 2 ^ (8 - bits % 8)) =
      subst
        (λ (k : ℕ).
          (bit_and x (keep_mask (j + 1)) ≡ bit_and y (keep_mask (j + 1))) ↔ (x / 2 ^ k ≡ y / 2 ^ k))
        upper kept in
    let sets =
      zero_from-set (bits / 8) a b (bit_and x (keep_mask (j + 1))) (bit_and y (keep_mask (j + 1)))
        (la ∙ sym lb) (omega (arith, la, lt)) in
    rw (cleared_part bits a e, cleared_part bits b e)
      (
        λ eq. let both = sets.0 eq in (both.0, byte.0 both.1),
        λ share. sets.1 (share.0, byte.1 share.1),
      )

cleared-SharePrefix :
    (bits : ℕ) (a b : Bytes)
    → length a ≡ 16
    → length b ≡ 16
    → AllBytes a
    → AllBytes b
    → bits < 128
    → (cleared bits a ≡ cleared bits b) ↔ SharePrefix bits a b
cleared-SharePrefix bits a b la lb ha hb lt = elim (Bool-cases (bits % 8 == 0)) [
  | inl whole ↦
      rw (cleared_whole bits a whole, cleared_whole bits b whole)
        (whole-SharePrefix bits a b (la ∙ sym lb) ha hb whole)
  | inr part ↦ part-SharePrefix bits a b la lb ha hb lt part
]

-- Of two addresses that are not IPv4, and a prefix of 1 to 127 bits: the tables have one key for both
-- exactly if they share the prefix.
pub mask_ipv6_prefix-SharePrefix :
    (bits : ℕ) (a b : Bytes)
    → length a ≡ 16
    → length b ≡ 16
    → AllBytes a
    → AllBytes b
    → is_v4_mapped a ≡ false
    → is_v4_mapped b ≡ false
    → 0 < bits
    → bits < 128
    → (mask_ipv6_prefix a (pos bits) ≡ mask_ipv6_prefix b (pos bits)) ↔ SharePrefix bits a b
unfolding mask_ipv6_prefix
mask_ipv6_prefix-SharePrefix bits a b la lb ha hb va vb from to =
    let masks : (bits == 0 || leb 128 bits) ≡ false = ground (arith, from, to) in
    rw (va, vb, masks) (cleared-SharePrefix bits a b la lb ha hb to)
