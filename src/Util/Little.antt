-- ===== src/Util/Little.antt =====
-- `parse_bytes_to_decimal_u` reads a little-endian number.
use native.Mathlib.Nat.{pow-suc, add-zero}
use my_fsck.Base.{ℕ, zero, suc, ◌+◌, ◌*◌, ◌/◌, ◌%◌, ◌^◌, ◌<◌, ◌≡◌, refl, arith, u32, ap, ◌∙◌}
use my_fsck.Machine.Memory.{Bytes, IsBytes, SameOn, shift}
use my_fsck.Util.{parse_loop, parse_bytes_to_decimal_u}

-- The number that the `n` bytes from `start` spell, the least significant first.
unfoldable pub little : Bytes → ℕ → ℕ → ℕ
little m start zero = 0
little m start (suc n) = m start + 256 * little m (start + 1) n

-- The same with the last byte split off.
little_last :
    (m : Bytes) (start n : ℕ) → little m start (suc n) ≡ little m start n + 256 ^ n * m (start + n)
unfolding little
little_last m start zero = omega (arith, ap m (add-zero start))
little_last m start (suc n) =
    let e : start + suc n ≡ start + 1 + n = omega arith in
    omega (
      arith,
      little_last m (start + 1) n,
      pow-suc 256 n,
      ap m e,
      ap (λ (t : ℕ). t * m (start + suc n)) (pow-suc 256 n),
      ap (λ (t : ℕ). 256 ^ n * t) (ap m e),
    )

scale_mod : (x p l : ℕ) → u32 (u32 x * p + l) ≡ u32 (x * p + l)
scale_mod x p l =
    let q = x / 2 ^ 32 in
    let e : u32 x + q * 2 ^ 32 ≡ x = omega arith in omega (arith, ap (λ (t : ℕ). t * p) e)

expand : (x b p l : ℕ) → (x + b) * p + l ≡ x * p + (b * p + l)
expand x b p l = omega arith

parse_loop-little :
    (m : Bytes) (start n r : ℕ)
    → r < 2 ^ 32
    → parse_loop m start n r ≡ u32 (r * 256 ^ n + little m start n)
unfolding parse_loop little
parse_loop-little m start zero r h = omega arith
parse_loop-little m start (suc n) r h =
    let b = m (start + n) in
    let p : ℕ = 256 ^ n in
    parse_loop-little m start n (u32 (u32 (r * 2 ^ 8) + b)) (omega arith)
    ∙ scale_mod (u32 (r * 2 ^ 8) + b) p (little m start n)
    ∙ ap u32 (expand (u32 (r * 2 ^ 8)) b p (little m start n))
    ∙ scale_mod (r * 2 ^ 8) p (b * p + little m start n)
    ∙ ap u32 (omega (arith, little_last m start n, ap (λ (t : ℕ). r * t) (pow-suc 256 n)))

-- With any number of bytes, `parse_bytes_to_decimal_u` is the little-endian number of these bytes
-- modulo 2^32.
pub parse-little :
    (m : Bytes) (start n : ℕ) → parse_bytes_to_decimal_u m start n ≡ little m start n % 2 ^ 32
unfolding parse_bytes_to_decimal_u
parse-little m start n = parse_loop-little m start n 0 (omega arith) ∙ ap u32 (omega arith)

pub little-lt : (m : Bytes) (start n : ℕ) → IsBytes m → little m start n < 256 ^ n
unfolding little
little-lt m start zero h = omega arith
little-lt m start (suc n) h = omega (arith, little-lt m (start + 1) n h, h start, pow-suc 256 n)

over_read : (m : Bytes) (start n : ℕ) → little m start (4 + n) % 2 ^ 32 ≡ little m start 4 % 2 ^ 32
unfolding little
over_read m start n =
    let e : 4 + n ≡ suc (suc (suc (suc n))) = omega arith in omega (arith, ap (little m start) e)

-- The bytes behind the fourth do not matter.
pub parse_over_read :
    (m : Bytes) (start n : ℕ) → parse_bytes_to_decimal_u m start (4 + n) ≡ little m start 4 % 2 ^ 32
unfolding little
parse_over_read m start n = parse-little m start (4 + n) ∙ over_read m start n

pub little-same :
    (m m' : Bytes) (start n : ℕ)
    → SameOn start (start + n) m m'
    → little m start n ≡ little m' start n
unfolding little
little-same m m' start zero h = refl
little-same m m' start (suc n) h = omega (
  arith,
  h start (omega arith) (omega arith),
  little-same m m' (start + 1) n (λ i p q. h i (omega arith) (omega arith)),
)

pub little-shift : (m : Bytes) (a b n : ℕ) → little (shift m a) b n ≡ little m (a + b) n
unfolding little
little-shift m a b zero = refl
little-shift m a b (suc n) = omega (
  arith,
  little-shift m a (b + 1) n,
  ap (λ (t : ℕ). little m t n) {x = a + (b + 1)} {y = a + b + 1} (omega arith),
)
