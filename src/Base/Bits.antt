-- ===== src/Base/Bits.antt =====
-- Facts about bits of bytes, by evaluation over all bytes.
use mathlib.Core.Bool.{Bool, true, false}
use mathlib.Core.Path.{ap, refl, ◌≡◌}
use my_fsck.Base.Tests.{==→eq, if◌then◌else◌, ltb, ltb→lt, ◌==◌}
use native.Mathlib.Omega.{arith}
use Prim.Native.Nat.{bit_xor, suc, zero, ℕ, ◌%◌, ◌+◌, ◌-◌, ◌/◌, ◌<◌, ◌^◌, ◌≤◌}

-- Whether a test holds for `left` numbers from `i` on.
holds_from : (left i : ℕ) → (ℕ → Bool) → Bool
holds_from zero i test = true
holds_from (suc left) i test =
    let rest = holds_from left (i + 1) test in if test i then rest else false

holds_from-at :
    (left i x : ℕ) (test : ℕ → Bool)
    → holds_from left i test ≡ true
    → i ≤ x
    → x < i + left
    → test x ≡ true
unfolding holds_from
holds_from-at zero i x test all lo hi = absurd (omega arith)
holds_from-at (suc left) i x test all lo hi =
    ground (arith, holds_from-at left (i + 1) x test, ap test {x = i} {y = x})

-- Bit `k` of a byte, counted from the least significant one.
abbrev pub bit_of : ℕ → ℕ → ℕ
bit_of b k = b / 2 ^ k % 2

abbrev flip_holds : ℕ → ℕ → ℕ → Bool
flip_holds b k j = bit_of (bit_xor b (2 ^ k)) j == (if k == j then 1 - bit_of b j else bit_of b j)

abbrev flip_holds_for_bit : ℕ → ℕ → Bool
flip_holds_for_bit b k = holds_from 8 0 (flip_holds b k)

abbrev flip_small : ℕ → ℕ → Bool
flip_small b k = ltb (bit_xor b (2 ^ k)) 256

flip_table : holds_from 256 0 (λ b. holds_from 8 0 (flip_holds_for_bit b)) ≡ true
unfolding holds_from
flip_table = refl

small_table : holds_from 256 0 (λ b. holds_from 8 0 (flip_small b)) ≡ true
unfolding holds_from
small_table = refl

-- A test of a byte and a bit that holds for all of them.
of_byte :
    (test : ℕ → ℕ → Bool)
    → holds_from 256 0 (λ b. holds_from 8 0 (test b)) ≡ true
    → (b k : ℕ) → b < 256
    → k < 8
    → test b k ≡ true
of_byte test all b k hb hk =
    holds_from-at 8 0 k (test b)
      (holds_from-at 256 0 b (λ b. holds_from 8 0 (test b)) all (omega arith) (omega arith))
      (omega arith) (omega arith)

-- `b ^ (1 << k)` changes bit `k` of a byte and no other.
pub bit_of-xor :
    (b k j : ℕ)
    → b < 256
    → k < 8
    → j < 8
    → bit_of (bit_xor b (2 ^ k)) j ≡ (if k == j then 1 - bit_of b j else bit_of b j)
bit_of-xor b k j hb hk hj = ==→eq _ _ (
    holds_from-at 8 0 j (flip_holds b k) (of_byte flip_holds_for_bit flip_table b k hb hk)
      (omega arith) (omega arith))

pub xor-lt : (b k : ℕ) → b < 256 → k < 8 → bit_xor b (2 ^ k) < 256
xor-lt b k hb hk = ltb→lt _ _ (of_byte flip_small small_table b k hb hk)
