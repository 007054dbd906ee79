-- ===== src/Correct/Pass4/Used.antt =====
-- The block bitmap that `pass4` leaves on the disk, in terms of the blocks that the directory tree owns.
use my_fsck.Base.{
  ℕ, ◌+◌, ◌≤◌, ◌<◌, ◌≡◌, refl, arith, lt→ltb, ◌==◌, if◌then◌else◌, List, some, count,
}
use my_fsck.Machine.Memory.{Bytes, IsBytes}
use my_fsck.Machine.State.{Fsck}
use my_fsck.Machine.Run.{ok}
use my_fsck.Disk.Blocks.{HasSectors}
use my_fsck.Inode.Read.{InodeOnDisk}
use my_fsck.DataBlock.{get_block_bitmap_in_partition}
use my_fsck.Correct.Links.{calloc}
use my_fsck.Correct.LostFound.{root_inode_num}
use my_fsck.Correct.FileBlocks.Marked.{marked, marked-count}
use my_fsck.Correct.FileBlocks.Double.{AllUsable}
use my_fsck.Correct.FileBlocks.Tree.{tree_owned, get_true_block_bitmap-owned}
use my_fsck.Correct.Pass4.{pass4}
use my_fsck.Correct.Pass4.Disk.{HasBlockBitmap, BitmapFixed, OnlyBitmaps}
use my_fsck.Correct.Pass4.OnDisk.{pass4-agreeing}

-- 1 for a block that the tree owns.
abbrev pub owned_flag : List ℕ → Bytes
owned_flag blocks x = if count x blocks == 0 then 0 else 1

owned_flag-IsFlags : (blocks : List ℕ) (x : ℕ) → owned_flag blocks x ≤ 1
owned_flag-IsFlags blocks x = ground arith

-- The table that the walk fills, at the numbers for which it has room.
pub calloc-owned_flag :
    (stray : Bytes) (n : ℕ) (blocks : List ℕ) (x : ℕ)
    → x < n
    → marked (calloc stray n) blocks x ≡ owned_flag blocks x
calloc-owned_flag stray n blocks x lt =
    rw (marked-count (calloc stray n) blocks x, lt→ltb x n lt) refl

-- If the block size is that of one or more whole sectors and fits 32 bits; a group has more blocks
-- than the reserved ones at its start that pass 4 passes over; the groups, counted as
-- `get_block_group_num` does and each of `s_blocks_per_group` blocks from block 1 on, have every
-- block below `s_blocks_count`; the last of them has a block below `s_blocks_count` behind its
-- reserved ones; the number of the block behind the groups fits 32 bits; and every inode table
-- starts at block 1 or later, the number of the block behind it fitting 32 bits; the block bitmaps
-- of the groups lie on the disk, with numbers of sectors that fit 32 bits, apart from one another,
-- and together have less than 2^32 bytes; each has a bit for every block of its group; the inode
-- tables end within the groups; the inodes from 1 to `s_inodes_count` stand on the disk, in tables
-- whose sizes and numbers of sectors fit 32 bits; the disk and unwritten memory hold bytes; and
-- the blocks that the tree below the root owns can be listed to the given depth, are on the disk
-- and have numbers of at most `s_blocks_count`; then `pass4` succeeds, changes nothing but the
-- bitmaps on the disk and the output, and the block bitmap that is read afterwards has for every
-- block from 1 up to but not including `s_blocks_count` the bit 1 in an inode table, else behind
-- the reserved blocks of a group the bit 1 exactly for the listed blocks, and else the bit that
-- was read before.
pub pass4-owned :
    (depth : ℕ) (s : Fsck) (blocks : List ℕ)
    → HasSectors s
    → HasBlockBitmap s
    → ((j : ℕ) → 1 ≤ j → j ≤ s.super_block.s_inodes_count → InodeOnDisk s j)
    → IsBytes s.image.byte
    → IsBytes s.stray
    → tree_owned s depth root_inode_num ≡ some blocks
    → AllUsable s blocks
    → (s' : Fsck) × (old : Bytes) × (get_block_bitmap_in_partition s ≡ ok old s)
      × (pass4 depth s ≡ ok tt s')
      × BitmapFixed s (owned_flag blocks) old s'
      × OnlyBitmaps s s'
pass4-owned depth s blocks sectors bitmap inodes image_bytes stray_bytes owned usable =
    let table = calloc s.stray (s.super_block.s_blocks_count + 1) in
    pass4-agreeing s bitmap depth (marked table blocks) (owned_flag blocks) image_bytes stray_bytes
      (owned_flag-IsFlags blocks)
      (λ x lo hi.
        calloc-owned_flag s.stray (s.super_block.s_blocks_count + 1) blocks x (omega arith))
      (get_true_block_bitmap-owned s sectors inodes depth table root_inode_num blocks owned usable)
