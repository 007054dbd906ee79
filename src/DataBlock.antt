-- ===== src/DataBlock.antt =====
-- dataBlock.c: the block bitmap.
pub mod Flip
pub mod OnDisk
pub mod Contents
pub mod Stored
pub mod RoundTrip
pub mod Frame
use my_fsck.Base.{ℕ, zero, suc, ◌+◌, ◌*◌, ◌/◌, ◌%◌, ◌^◌, not, u8, u32, sub32, bit_of, ◌==◌, bit_xor}
use my_fsck.Machine.Memory.{Bytes, shift, splice, set_byte}
use my_fsck.Machine.State.{Fsck}
use my_fsck.Machine.Run.{M, pure, gets, require, ◌>>=◌, ◌>>◌}
use my_fsck.Disk.{read_blocks, write_blocks}
use my_fsck.SuperBlock.{read_group_desc}

unfoldable pub get_block_bitmap_in_group : Bytes → ℕ → ℕ → M Bytes
get_block_bitmap_in_group block_bitmap group_id block_num = do
  group_desc ← gets (λ s. read_group_desc s group_id)
  block_size ← gets (λ s. s.block_size)
  read_blocks block_num group_desc.bg_block_bitmap 0 block_size block_bitmap

unfoldable pub get_block_group_num : Fsck → ℕ
get_block_group_num s =
    let blocks_per_group = s.super_block.s_blocks_per_group in
    sub32 (u32 (s.super_block.s_blocks_count + blocks_per_group)) 1 / blocks_per_group

unfoldable pub get_group_block_bitmap_block_num : Fsck → ℕ
get_group_block_bitmap_block_num s =
    let bits_num = sub32 (u32 (s.super_block.s_blocks_per_group + 8)) 1 / 8 in
    sub32 (u32 (bits_num + s.block_size)) 1 / s.block_size

unfoldable pub get_block_group_id : Fsck → ℕ → ℕ
get_block_group_id s block_id = sub32 block_id 1 / s.super_block.s_blocks_per_group

unfoldable pub get_block_bitmap_block_num : Fsck → ℕ
get_block_bitmap_block_num s = u32 (get_group_block_bitmap_block_num s * get_block_group_num s)

-- A division by zero stops the program.
unfoldable pub check_block_divisors : M (Unit {0})
check_block_divisors = do
  s ← gets (λ s. s)
  require (not (s.super_block.s_blocks_per_group == 0))
  require (not (s.block_size == 0))

-- The groups from `i` on, `left` of them, each bitmap behind the one before it.
unfoldable pub block_bitmap_loop : ℕ → ℕ → ℕ → Bytes → M Bytes
block_bitmap_loop zero block_num i bitmap = pure bitmap
block_bitmap_loop (suc left) block_num i bitmap = do
  block_size ← gets (λ s. s.block_size)
  let offset = u32 (u32 (i * block_num) * block_size)
  sub ← get_block_bitmap_in_group (shift bitmap offset) i block_num
  block_bitmap_loop left block_num (i + 1) (splice bitmap offset sub)

unfoldable pub get_block_bitmap_in_partition : M Bytes
get_block_bitmap_in_partition = do
  check_block_divisors
  group_num ← gets get_block_group_num
  block_num ← gets get_group_block_bitmap_block_num
  stray ← gets (λ s. s.stray)
  block_bitmap_loop group_num block_num 0 stray

unfoldable pub write_block_bitmap_in_group : Bytes → ℕ → ℕ → M (Unit {0})
write_block_bitmap_in_group block_bitmap group_id block_num = do
  group_desc ← gets (λ s. read_group_desc s group_id)
  block_size ← gets (λ s. s.block_size)
  write_blocks block_num group_desc.bg_block_bitmap 0 block_size block_bitmap

unfoldable pub write_bitmap_loop : ℕ → ℕ → ℕ → Bytes → M (Unit {0})
write_bitmap_loop zero block_num i bitmap = pure tt
write_bitmap_loop (suc left) block_num i bitmap = do
  block_size ← gets (λ s. s.block_size)
  let offset = u32 (u32 (i * block_num) * block_size)
  write_block_bitmap_in_group (shift bitmap offset) i block_num
  write_bitmap_loop left block_num (i + 1) bitmap

unfoldable pub write_block_bitmap_in_partition : Bytes → M (Unit {0})
write_block_bitmap_in_partition bitmap = do
  check_block_divisors
  group_num ← gets get_block_group_num
  block_num ← gets get_group_block_bitmap_block_num
  write_bitmap_loop group_num block_num 0 bitmap

unfoldable pub fix_block_bitmap_in_partition : Bytes → ℕ → Bytes
fix_block_bitmap_in_partition bitmap block_id =
    let index = sub32 block_id 1 / 8 in
    let offset = sub32 block_id 1 % 8 in
    set_byte bitmap index (u8 (bit_xor (bitmap index) (2 ^ offset)))

unfoldable pub get_block_alloc_bit : Bytes → ℕ → ℕ
get_block_alloc_bit block_bitmap block_id =
    let index = sub32 block_id 1 / 8 in
    let offset = sub32 block_id 1 % 8 in bit_of (block_bitmap index) offset
