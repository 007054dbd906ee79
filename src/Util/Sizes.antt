-- ===== src/Util/Sizes.antt =====
-- Padding and the block size.
use native.Mathlib.Nat.{pow-suc, pow-le-pow_right}
use my_fsck.Base.{ℕ, zero, suc, ◌+◌, ◌-◌, ◌*◌, ◌%◌, ◌^◌, ◌≤◌, ◌<◌, ◌≡◌, refl, arith, ap}
use my_fsck.Util.{pad_to_4_bytes, get_block_size}

-- For lengths up to 2^32 - 4, `pad_to_4_bytes` gives the least multiple of 4 that is not below the
-- length.
pub pad_to_4_bytes_least :
    (len : ℕ)
    → len + 4 ≤ 2 ^ 32
    → (len ≤ pad_to_4_bytes len) × (pad_to_4_bytes len < len + 4) × (pad_to_4_bytes len % 4 ≡ 0)
unfolding pad_to_4_bytes
pad_to_4_bytes_least len h = ground arith

pred_of_suc : (e : ℕ) → suc e - 1 ≡ e
pred_of_suc e = omega arith

-- Up to an exponent of 21 the block size is 1024 * 2^exp, with no overflow.
pub get_block_size-pow : (exp : ℕ) → exp ≤ 21 → get_block_size exp ≡ 1024 * 2 ^ exp
unfolding get_block_size
get_block_size-pow zero h = refl
get_block_size-pow (suc e) h =
    let small : 2 ^ e ≤ 2 ^ 20 = pow-le-pow_right (omega arith) {j = 20} (omega arith) in
    ground (arith, pow-suc 2 e, ap (λ (t : ℕ). 2 ^ t) (pred_of_suc e))
