-- ===== src/DataBlock/OnDisk.antt =====
-- The block bitmaps of the groups on the disk, one behind the other in memory.
use native.Mathlib.Nat.{mul-le-mul_left, mul_comm, mul_assoc}
use my_fsck.Base.{
  ℕ, zero, suc, ◌+◌, ◌*◌, ◌^◌, ◌≤◌, ◌<◌, ◌≡◌, refl, sym, ap, ◌∙◌, arith, u32, ◌⊎◌, inl, inr,
  Bool-cases, ◌==◌, ==→eq, ==→ne, ne→==,
}
use my_fsck.Machine.Memory.{Bytes, shift, splice, splice_below, splice_above}
use my_fsck.Machine.State.{Fsck}
use my_fsck.Machine.Run.{ok}
use my_fsck.SuperBlock.{read_group_desc}
use my_fsck.Disk.Blocks.{block_address}
use my_fsck.Disk.Runs.{RunOnDisk, read_blocks-ok}
use my_fsck.DataBlock.{
  get_block_bitmap_in_group, get_block_group_num, get_group_block_bitmap_block_num,
  block_bitmap_loop, check_block_divisors,
}

-- The block at which the bitmap of a group starts, and the byte of the image.
abbrev pub bitmap_block : Fsck → ℕ → ℕ
bitmap_block s g = (read_group_desc s g).bg_block_bitmap

abbrev pub bitmap_address : Fsck → ℕ → ℕ
bitmap_address s g = block_address s (bitmap_block s g)

-- The bitmaps of the first `n` groups, `blocks` blocks each, lie on the disk and apart, and
-- together they fit 32 bits.
pub record BitmapsOnDisk (s : Fsck) (blocks n : ℕ) : Type 0 where
  pub run : (g : ℕ) → g < n → RunOnDisk s (bitmap_block s g) blocks
  pub fit : n * blocks * s.block_size < 2 ^ 32
  pub sized : 0 < s.block_size
  pub apart :
      (g k : ℕ)
      → g < k
      → k < n
      → (bitmap_address s g + s.block_size * blocks ≤ bitmap_address s k)
        ⊎ (bitmap_address s k + s.block_size * blocks ≤ bitmap_address s g)

module _ (s : Fsck) (blocks n : ℕ) (h : BitmapsOnDisk s blocks n) where
  -- Behind the bitmap of group `i` there is room for the next one.
  bitmap_room : (i : ℕ) → i < n → s.block_size * blocks * (i + 1) ≤ n * blocks * s.block_size
  bitmap_room i lt = omega (
    arith,
    mul-le-mul_left {m = i + 1} {n = n} (s.block_size * blocks) (omega arith),
    mul_comm (n * blocks) s.block_size,
    mul_comm n blocks,
    mul_assoc s.block_size blocks n,
  )

  pub bitmap_offset :
      (i : ℕ) → i < n → u32 (u32 (i * blocks) * s.block_size) ≡ s.block_size * blocks * i
  bitmap_offset i lt =
      let room = bitmap_room i lt in
      let same : i * blocks * s.block_size ≡ s.block_size * blocks * i = omega (
        arith,
        mul_comm (i * blocks) s.block_size,
        mul_comm i blocks,
        mul_assoc s.block_size blocks i,
      ) in
      let small : i * blocks ≤ i * blocks * s.block_size =
        omega (arith, mul-le-mul_left {m = 1} {n = s.block_size} (i * blocks) h.sized) in
      let first : u32 (i * blocks) ≡ i * blocks = omega (arith, h.fit) in
      ap (λ (t : ℕ). u32 (t * s.block_size)) first ∙ omega (arith, h.fit)

  -- One round of the loop that reads.
  block_bitmap_loop-next :
      (left i : ℕ) (into : Bytes)
      → i < n
      → (sub : Bytes) × (block_bitmap_loop (suc left) blocks i into s
          ≡ block_bitmap_loop left blocks (i + 1) (splice into (s.block_size * blocks * i) sub) s)
        × ((j : ℕ) → j < s.block_size * blocks → sub j ≡ s.image.byte (bitmap_address s i + j))
  unfolding block_bitmap_loop get_block_bitmap_in_group
  block_bitmap_loop-next left i into lt =
      let r =
        read_blocks-ok s (bitmap_block s i) blocks (shift into (s.block_size * blocks * i))
          (h.run i lt) in
      (r.0, rw (bitmap_offset i lt, r.1) refl, r.2)

  pub block_bitmap_loop-run :
      (left i : ℕ) (into : Bytes)
      → i + left ≡ n
      → (m : Bytes) × (block_bitmap_loop left blocks i into s ≡ ok m s)
        × ((j : ℕ) → j < s.block_size * blocks * i → m j ≡ into j)
        × ((g j : ℕ)
            → i ≤ g
            → g < n
            → j < s.block_size * blocks
            → m (s.block_size * blocks * g + j) ≡ s.image.byte (bitmap_address s g + j))
  block_bitmap_loop-run zero i into e =
      (into, unfold block_bitmap_loop in refl, λ j p. refl, λ g j p q r. absurd (omega arith))
  block_bitmap_loop-run (suc left) i into e =
      let w = s.block_size * blocks in
      let one = block_bitmap_loop-next left i into (omega arith) in
      let rest = block_bitmap_loop-run left (i + 1) (splice into (w * i) one.0) (omega arith) in
      let next : w * (i + 1) ≡ w * i + w = omega arith in
      (
        rest.0,
        one.1 ∙ rest.1,
        λ j p. rest.2 j (omega (arith, next)) ∙ splice_below into (w * i) one.0 j p,
        λ g j p q r. elim (Bool-cases (g == i)) [
          | inl same ↦
              let here : w * i ≡ w * g = ap (λ (k : ℕ). w * k) (sym (==→eq g i same)) in
              rest.2 (w * g + j) (omega (arith, next, here))
              ∙ splice_above into (w * i) one.0 (w * g + j) (omega (arith, here))
              ∙ ap one.0 {y = j} (omega (arith, here))
              ∙ one.2 j r
              ∙ ap (λ (k : ℕ). s.image.byte (bitmap_address s k + j)) (sym (==→eq g i same))
          | inr other ↦ rest.3 g j (omega (arith, ==→ne g i other)) q r
        ],
      )

-- The bitmaps of all groups.
abbrev pub HasBitmaps : Fsck → Type 0
HasBitmaps s =
    (0 < s.super_block.s_blocks_per_group)
    × BitmapsOnDisk s (get_group_block_bitmap_block_num s) (get_block_group_num s)

pub check_block_divisors-ok : (s : Fsck) → HasBitmaps s → check_block_divisors s ≡ ok tt s
unfolding check_block_divisors
check_block_divisors-ok s h =
    rw
      (
        ne→== s.super_block.s_blocks_per_group 0 (omega (arith, h.0)),
        ne→== s.block_size 0 (omega (arith, h.1.sized)),
      )
      refl
