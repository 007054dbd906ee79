-- ===== src/Correct/Pass4/Disk.antt =====
-- The block bitmaps on the disk, as `pass4` relies on them, and what it may change of them.
use my_fsck.Base.{ℕ, ◌+◌, ◌-◌, ◌*◌, ◌%◌, ◌≤◌, ◌<◌, ◌≡◌, leb, if◌then◌else◌, ◌⊎◌}
use my_fsck.Machine.Memory.{Bytes}
use my_fsck.Machine.State.{Fsck}
use my_fsck.Machine.Run.{ok}
use my_fsck.Disk.Written.{OnlyBytes}
use my_fsck.DataBlock.{get_block_alloc_bit, get_block_group_num, get_block_bitmap_in_partition}
use my_fsck.DataBlock.OnDisk.{HasBitmaps, bitmap_address}
use my_fsck.DataBlock.RoundTrip.{bitmap_bytes}
use my_fsck.Correct.Pass4.{get_skip_block_num_in_group}
use my_fsck.Correct.Pass4.Tables.{in_tables}
use my_fsck.Correct.Pass4.Whole.{HasGroups}
use my_fsck.Correct.Pass4.Reported.{TableBelow}

-- The groups, their bitmaps and their inode tables, as `pass4` relies on them: a bitmap has a bit for
-- every block of its group, and the tables lie within the groups.
pub record HasBlockBitmap (s : Fsck) : Type 0 where
  pub groups : HasGroups s
  pub bitmaps : HasBitmaps s
  pub holds : s.super_block.s_blocks_per_group ≤ 8 * bitmap_bytes s
  pub tables :
      (k : ℕ)
      → k < get_block_group_num s
      → TableBelow s (1 + get_block_group_num s * s.super_block.s_blocks_per_group) k

-- The bitmaps have no byte at `x`.
abbrev pub BesideBitmaps : Fsck → ℕ → Type 0
BesideBitmaps s x =
    (g : ℕ)
    → g < get_block_group_num s
    → (x < bitmap_address s g) ⊎ (bitmap_address s g + bitmap_bytes s ≤ x)

-- Only bytes of the bitmaps differ.
pub record OnlyBitmaps (s s' : Fsck) : Type 0 where
  pub only_bytes : OnlyBytes s s'
  pub others : (x : ℕ) → x < s.image.size → BesideBitmaps s x → s'.image.byte x ≡ s.image.byte x

-- For a block from 1 up to `s_blocks_count` the bitmaps on the disk have
-- the bit 1 in an inode table, else that of `used` behind the reserved blocks of a group, and else
-- that of `old`.
pub record BitmapFixed (s : Fsck) (used old : Bytes) (s' : Fsck) : Type 0 where
  pub new : Bytes
  pub read : get_block_bitmap_in_partition s' ≡ ok new s'
  pub bits :
      (x : ℕ)
      → 1 ≤ x
      → x < s.super_block.s_blocks_count
      → get_block_alloc_bit new x ≡ (
          if in_tables (get_block_group_num s) 0 s x
          then 1
          else if leb (get_skip_block_num_in_group s) ((x - 1) % s.super_block.s_blocks_per_group)
          then used x
          else get_block_alloc_bit old x)
