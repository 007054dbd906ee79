-- ===== src/Util/Number.antt =====
-- `write_number_into_block` writes a number that `parse_bytes_to_decimal_u` reads back.
use native.Mathlib.Nat.{
  pow-suc, add-zero, div-add-mod, mod-lt, add-mul-mod_self_left, mod-eq_of_lt, div-div-eq-div-mul,
  mul_comm,
}
use mathlib.Core.Path.{ap₂}
use my_fsck.Base.{
  ℕ, zero, suc, ◌+◌, ◌*◌, ◌/◌, ◌%◌, ◌^◌, ◌≤◌, ◌<◌, ◌≡◌, ◌⊎◌, inl, refl, arith, ap, ◌∙◌, sym, ◌>>>◌,
}
use my_fsck.Machine.Memory.{SameOn, Bytes, IsBytes, set_byte, set_byte_self, set_byte_ne}
use my_fsck.Util.{write_loop, write_number_into_block, parse_bytes_to_decimal_u}
use my_fsck.Util.Little.{little, parse-little, little-same}

write_loop_outside :
    (m : Bytes) (off num left i j : ℕ)
    → (j < off + i) ⊎ (off + i + left ≤ j)
    → write_loop m off num left i j ≡ m j
unfolding write_loop
write_loop_outside m off num zero i j h = refl
write_loop_outside m off num (suc left) i j h =
    write_loop_outside (set_byte m (off + i) ((num >>> (8 * i)) % 2 ^ 8)) off num left (i + 1) j
      (omega arith)
    ∙ set_byte_ne m (off + i) _ j (omega arith)

-- Only the `n` bytes from `off` change.
pub write_number_outside :
    (m : Bytes) (off num n j : ℕ)
    → (j < off) ⊎ (off + n ≤ j)
    → write_number_into_block m off num n j ≡ m j
unfolding write_number_into_block
write_number_outside m off num n j h = write_loop_outside m off num n 0 j (omega arith)

pow_eight : (i : ℕ) → 2 ^ (8 * (i + 1)) ≡ 256 * 2 ^ (8 * i)
pow_eight i =
    let e : 8 * (i + 1) ≡ suc (suc (suc (suc (suc (suc (suc (suc (8 * i)))))))) = omega arith in
    rw e (simp pow-suc (omega arith))

split_mod : (x p : ℕ) → x % 2 ^ 8 + 256 * (x / 256 % p) ≡ x % (256 * p)
split_mod x zero = omega arith
split_mod x (suc p) =
    let d = suc p in
    let r = x % 2 ^ 8 + 256 * (x / 256 % d) in
    let e : x ≡ r + 256 * d * (x / 256 / d) =
      omega (arith, div-add-mod (x / 256) d, div-add-mod x 256) in
    let small : r < 256 * d = omega (arith, mod-lt (x / 256) {m = d} (omega arith)) in
    sym (
      ap (λ (t : ℕ). t % (256 * d)) e
      ∙ add-mul-mod_self_left r (256 * d) (x / 256 / d)
      ∙ mod-eq_of_lt small)

div_pow : (x p : ℕ) → x / (256 * p) ≡ x / p / 256
div_pow x p = rw (mul_comm 256 p) (sym (div-div-eq-div-mul x p 256))

set_byte-lt : (m : Bytes) (i v j : ℕ) → v < 256 → m j < 256 → set_byte m i v j < 256
unfolding set_byte
set_byte-lt m i v j lt h = ground arith

write_loop-lt : (m : Bytes) (off num left i j : ℕ) → m j < 256 → write_loop m off num left i j < 256
unfolding write_loop
write_loop-lt m off num zero i j h = h
write_loop-lt m off num (suc left) i j h =
    write_loop-lt (set_byte m (off + i) ((num >>> (8 * i)) % 2 ^ 8)) off num left (i + 1) j
      (set_byte-lt m (off + i) _ j (omega arith) h)

pub write_number-lt :
    (m : Bytes) (off num n j : ℕ) → m j < 256 → write_number_into_block m off num n j < 256
unfolding write_number_into_block
write_number-lt m off num n j h = write_loop-lt m off num n 0 j h

pub write_number-IsBytes :
    (m : Bytes) (off num n : ℕ) → IsBytes m → IsBytes (write_number_into_block m off num n)
write_number-IsBytes m off num n h j = write_number-lt m off num n j (h j)

pow_small : (n num : ℕ) → n ≤ 4 → num % 2 ^ (8 * n) < 2 ^ 32
pow_small zero num h = omega arith
pow_small (suc zero) num h = omega arith
pow_small (suc (suc zero)) num h = omega arith
pow_small (suc (suc (suc zero))) num h = omega arith
pow_small (suc (suc (suc (suc zero)))) num h = omega arith
pow_small (suc (suc (suc (suc (suc n))))) num h = absurd (omega arith)

little-write_loop :
    (m : Bytes) (off num left i : ℕ)
    → little (write_loop m off num left i) (off + i) left ≡ num / 2 ^ (8 * i) % 2 ^ (8 * left)
unfolding write_loop little
little-write_loop m off num zero i = omega arith
little-write_loop m off num (suc left) i =
    let m' = set_byte m (off + i) ((num >>> (8 * i)) % 2 ^ 8) in
    let x = num / 2 ^ (8 * i) in
    let first : write_loop m' off num left (i + 1) (off + i) ≡ x % 2 ^ 8 =
      write_loop_outside m' off num left (i + 1) (off + i) (inl (omega arith))
      ∙ set_byte_self m (off + i) _ in
    let next : num / 2 ^ (8 * (i + 1)) ≡ x / 256 =
      ap (λ (t : ℕ). num / t) (pow_eight i) ∙ div_pow num (2 ^ (8 * i)) in
    let width : 2 ^ (8 * suc left) ≡ 256 * 2 ^ (8 * left) =
      ap (λ (t : ℕ). 2 ^ (8 * t)) (omega arith) ∙ pow_eight left in
    let rest : little (write_loop m' off num left (i + 1)) (off + i + 1) left
        ≡ x / 256 % 2 ^ (8 * left) =
      ap (λ (t : ℕ). little (write_loop m' off num left (i + 1)) t left) (omega arith)
      ∙ little-write_loop m' off num left (i + 1)
      ∙ ap (λ (t : ℕ). t % 2 ^ (8 * left)) next in
    ap₂ (λ (a b : ℕ). a + 256 * b) first rest
    ∙ split_mod x (2 ^ (8 * left))
    ∙ ap (λ (t : ℕ). x % t) (sym width)

-- The `n` bytes from `off` then spell the number, cut to 8 n bits.
pub little-write_number :
    (m : Bytes) (off num n : ℕ)
    → little (write_number_into_block m off num n) off n ≡ num % 2 ^ (8 * n)
unfolding write_number_into_block
little-write_number m off num n =
    ap (λ (t : ℕ). little (write_loop m off num n 0) t n) (sym (add-zero off))
    ∙ little-write_loop m off num n 0
    ∙ ap (λ (t : ℕ). t % 2 ^ (8 * n)) (omega arith)

-- What `write_number_into_block` wrote into at most four bytes, `parse_bytes_to_decimal_u` reads
-- back, cut to the bits of those bytes; every byte outside them is as before.
pub parse-write_number :
    (m : Bytes) (off num n : ℕ)
    → n ≤ 4
    → (parse_bytes_to_decimal_u (write_number_into_block m off num n) off n ≡ num % 2 ^ (8 * n))
      × ((j : ℕ) → (j < off) ⊎ (off + n ≤ j) → write_number_into_block m off num n j ≡ m j)
parse-write_number m off num n h = (
  parse-little _ off n
      ∙ ap (λ (t : ℕ). t % 2 ^ 32) (little-write_number m off num n)
      ∙ mod-eq_of_lt (pow_small n num h),
  write_number_outside m off num n,
)

-- A number read at another place is not affected.
pub parse-write_number_apart :
    (m : Bytes) (off num n start len : ℕ)
    → (start + len ≤ off) ⊎ (off + n ≤ start)
    → parse_bytes_to_decimal_u (write_number_into_block m off num n) start len
      ≡ parse_bytes_to_decimal_u m start len
parse-write_number_apart m off num n start len h =
    parse-little _ start len
    ∙ ap (λ (t : ℕ). t % 2 ^ 32)
        (little-same _ m start len (λ i p q. write_number_outside m off num n i (omega arith)))
    ∙ sym (parse-little m start len)

-- Memories that agree on the bytes of a number give the same number.
pub parse-same :
    (m m' : Bytes) (start n : ℕ)
    → SameOn start (start + n) m m'
    → parse_bytes_to_decimal_u m start n ≡ parse_bytes_to_decimal_u m' start n
parse-same m m' start n h =
    parse-little m start n
    ∙ ap (λ (t : ℕ). t % 2 ^ 32) (little-same m m' start n h)
    ∙ sym (parse-little m' start n)
