-- ===== src/DataBlock/Flip.antt =====
-- The block bitmap as a map from blocks to bits.
use my_fsck.Base.{
  ℕ, ◌-◌, ◌/◌, ◌%◌, ◌^◌, ◌≤◌, ◌<◌, ◌≡◌, ◌≢◌, arith, u8, sub32, ap, ◌∙◌, sym, bit_of, bit_of-xor,
  xor-lt, ◌==◌, if◌then◌else◌, Bool-cases, inl, inr, ==→eq, ==→ne, ne→==, false, bit_xor,
}
use my_fsck.Machine.Memory.{Bytes, IsBytes, set_byte, set_byte_self, set_byte_ne}
use my_fsck.DataBlock.{get_block_alloc_bit, fix_block_bitmap_in_partition}

-- Blocks that have a bit.
abbrev pub IsBlock : ℕ → Type 0
IsBlock b = (1 ≤ b) × (b < 2 ^ 32)

fixed_byte : (m : Bytes) (b : ℕ) → ℕ
fixed_byte m b = bit_xor (m (sub32 b 1 / 8)) (2 ^ (sub32 b 1 % 8))

pub fix-IsBytes : (m : Bytes) (b : ℕ) → IsBytes m → IsBytes (fix_block_bitmap_in_partition m b)
unfolding fix_block_bitmap_in_partition set_byte
fix-IsBytes m b h j = ground (arith, h j)

module _ (m : Bytes) (b c : ℕ) (bytes : IsBytes m) where
  same_index :
      sub32 b 1 / 8 ≡ sub32 c 1 / 8
      → get_block_alloc_bit (fix_block_bitmap_in_partition m b) c ≡ (
          if sub32 b 1 % 8 == sub32 c 1 % 8
          then 1 - bit_of (m (sub32 b 1 / 8)) (sub32 c 1 % 8)
          else bit_of (m (sub32 b 1 / 8)) (sub32 c 1 % 8))
  unfolding get_block_alloc_bit fix_block_bitmap_in_partition
  same_index e =
      let x = bit_xor (m (sub32 b 1 / 8)) (2 ^ (sub32 b 1 % 8)) in
      let small : u8 x ≡ x =
        omega (arith, xor-lt (m (sub32 b 1 / 8)) (sub32 b 1 % 8) (bytes _) (omega arith)) in
      let byte : set_byte m (sub32 b 1 / 8) (u8 x) (sub32 c 1 / 8) ≡ x =
        ap (set_byte m (sub32 b 1 / 8) (u8 x)) (sym e) ∙ set_byte_self m _ _ ∙ small in
      ap (λ (t : ℕ). bit_of t (sub32 c 1 % 8)) byte
      ∙ bit_of-xor (m (sub32 b 1 / 8)) (sub32 b 1 % 8) (sub32 c 1 % 8) (bytes _) (omega arith)
          (omega arith)

  other_index :
      sub32 b 1 / 8 ≢ sub32 c 1 / 8
      → get_block_alloc_bit (fix_block_bitmap_in_partition m b) c ≡ get_block_alloc_bit m c
  unfolding get_block_alloc_bit fix_block_bitmap_in_partition
  other_index ne = ap (λ (t : ℕ). bit_of t (sub32 c 1 % 8)) (set_byte_ne m _ _ _ ne)

  same_block :
      b ≡ c
      → get_block_alloc_bit (fix_block_bitmap_in_partition m b) c ≡ 1 - get_block_alloc_bit m b
  unfolding get_block_alloc_bit
  same_block e = ground (arith, same_index (ap (λ (t : ℕ). sub32 t 1 / 8) e))

  other_block :
      IsBlock b
      → IsBlock c
      → b ≢ c
      → get_block_alloc_bit (fix_block_bitmap_in_partition m b) c ≡ get_block_alloc_bit m c
  other_block hb hc ne = elim (Bool-cases (sub32 b 1 / 8 == sub32 c 1 / 8)) [
    | inl e ↦
        let i : sub32 b 1 / 8 ≡ sub32 c 1 / 8 = ==→eq _ _ e in
        let o : (sub32 b 1 % 8 == sub32 c 1 % 8) ≡ false = ne→== _ _ (omega arith) in
        same_index i
        ∙ unfold get_block_alloc_bit in rw o (ap (λ (t : ℕ). bit_of (m t) (sub32 c 1 % 8)) i)
    | inr e ↦ other_index (==→ne _ _ e)
  ]

  -- In a bitmap of bytes `fix_block_bitmap_in_partition` flips the bit of its block and leaves
  -- that of every other block alone, for blocks from 1 to 2^32 - 1.
  pub alloc_bit-fix :
      IsBlock b
      → IsBlock c
      → get_block_alloc_bit (fix_block_bitmap_in_partition m b) c
        ≡ (if b == c then 1 - get_block_alloc_bit m b else get_block_alloc_bit m c)
  alloc_bit-fix hb hc = elim (Bool-cases (b == c)) [
    | inl e ↦ rw e (same_block (==→eq b c e))
    | inr ne ↦ rw ne (other_block hb hc (==→ne b c ne))
  ]
