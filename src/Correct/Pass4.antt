-- ===== src/Correct/Pass4.antt =====
-- Pass 4 of correct.c: the block bitmap against the blocks in use.
pub mod Blocks
pub mod Frame
pub mod Whole
pub mod Reported
pub mod Disk
pub mod OnDisk
pub mod Right
pub mod Same
pub mod Carried
pub mod Used
pub mod Again
pub mod Groups
pub mod Tables
use my_fsck.Base.{
  ℕ, zero, suc, ◌+◌, ◌-◌, ◌*◌, ◌/◌, List, [], ◌∷◌, ◌++◌, Bool, true, false, u32, sub32, ltb, leb,
  ◌==◌, if◌then◌else◌,
}
use my_fsck.Machine.Memory.{Bytes}
use my_fsck.Machine.State.{Fsck, block_difference}
use my_fsck.Machine.Run.{M, pure, gets, print, require, when, ◌>>=◌, ◌>>◌}
use my_fsck.SuperBlock.{read_group_desc}
use my_fsck.Inode.{get_group_inode_bitmap_block_num, get_group_inode_block_num}
use my_fsck.DataBlock.{
  get_block_bitmap_in_partition, get_block_group_num, get_group_block_bitmap_block_num,
  get_block_alloc_bit, fix_block_bitmap_in_partition, write_block_bitmap_in_partition,
}
use my_fsck.Correct.Links.{calloc}
use my_fsck.Correct.LostFound.{root_inode_num}
use my_fsck.Correct.FileBlocks.{get_true_block_bitmap}

unfoldable pub get_skip_block_num_in_group : Fsck → ℕ
get_skip_block_num_in_group s = u32 (
    2
    + get_group_block_bitmap_block_num s
    + get_group_inode_bitmap_block_num s
    + get_group_inode_block_num s)

-- The variables of the two loops, and the blocks for which a difference was printed.
pub record Check : Type 0 where
  pub bitmap : Bytes
  pub block_id : ℕ
  pub found_error : Bool
  pub reported : List ℕ

-- What both loops do where the bit is wrong: print the block and flip it.
unfoldable pub correct_bit : Check → Check
correct_bit c = record {
  bitmap = fix_block_bitmap_in_partition c.bitmap c.block_id;
  block_id = c.block_id;
  found_error = true;
  reported = c.reported ++ (c.block_id ∷ []);
}

unfoldable pub check_block : Bytes → Check → Check
check_block true_bitmap c =
    if true_bitmap c.block_id == get_block_alloc_bit c.bitmap c.block_id then c else correct_bit c

abbrev pub next_block : Check → Check
next_block c = record c { block_id = u32 (c.block_id + 1) }

-- The loop over the blocks of a group, with `left` rounds to go.
unfoldable pub blocks_loop : ℕ → ℕ → Bytes → Check → Check
blocks_loop blocks_count zero true_bitmap c = c
blocks_loop blocks_count (suc left) true_bitmap c =
    let c' = next_block (check_block true_bitmap c) in
    let rest = blocks_loop blocks_count left true_bitmap c' in
    if leb blocks_count c'.block_id then c' else rest

-- The loop over the groups; the first `skip` blocks of each are passed over.
unfoldable pub groups_loop : (blocks_count blocks_per_group skip left : ℕ) → Bytes → Check → Check
groups_loop blocks_count blocks_per_group skip zero true_bitmap c = c
groups_loop blocks_count blocks_per_group skip (suc left) true_bitmap c =
    let c' = record c { block_id = u32 (c.block_id + skip) } in
    groups_loop blocks_count blocks_per_group skip left true_bitmap
      (blocks_loop blocks_count (blocks_per_group - skip) true_bitmap c')

-- The loop over the blocks `start + j` of an inode table: their bits are to be 1.
unfoldable pub table_loop : (left start j : ℕ) → Check → Check
table_loop zero start j c = c
table_loop (suc left) start j c =
    let c' = record c { block_id = u32 (start + j) } in
    table_loop left start (j + 1)
      (if get_block_alloc_bit c'.bitmap c'.block_id == 1 then c' else correct_bit c')

unfoldable pub tables_loop : (left i : ℕ) → Fsck → Check → Check
tables_loop zero i s c = c
tables_loop (suc left) i s c =
    tables_loop left (i + 1) s
      (table_loop (get_group_inode_block_num s) ((read_group_desc s i).bg_inode_table) 0 c)

-- Both loops of `pass4`, from the bitmap as read.
unfoldable pub check_bitmap : Fsck → Bytes → Bytes → Check
check_bitmap s true_bitmap bitmap =
    let start : Check = record {
      bitmap = bitmap;
      block_id = 1;
      found_error = false;
      reported = [];
    } in
    tables_loop (get_block_group_num s) 0 s (
      groups_loop s.super_block.s_blocks_count s.super_block.s_blocks_per_group
        (get_skip_block_num_in_group s) (get_block_group_num s) true_bitmap start)

-- The messages of the blocks; a flip behind the end of the bitmap, which holds `size` bytes, is a
-- write outside the array.
unfoldable pub report_blocks : ℕ → List ℕ → M (Unit {0})
report_blocks size [] = pure tt
report_blocks size (b ∷ blocks) = do
  print (block_difference b)
  require (ltb (sub32 b 1 / 8) size)
  report_blocks size blocks

unfoldable pub pass4 : ℕ → M (Unit {0})
pass4 depth = do
  bitmap ← get_block_bitmap_in_partition
  s ← gets (λ s. s)
  true_bitmap ←
      get_true_block_bitmap depth (calloc s.stray (s.super_block.s_blocks_count + 1)) root_inode_num
  let c = check_bitmap s true_bitmap bitmap
  let size = u32 (u32 (get_block_group_num s * get_group_block_bitmap_block_num s) * s.block_size)
  report_blocks size c.reported
  when c.found_error (write_block_bitmap_in_partition c.bitmap)
