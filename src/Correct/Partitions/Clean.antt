-- ===== src/Correct/Partitions/Clean.antt =====
-- A partition without errors is left as it is.
use mathlib.Core.Path.{subst}
use my_fsck.Base.{ℕ, ◌+◌, ◌≤◌, ◌≡◌, ◌∙◌, refl, Bool, true, false, ◌==◌, eq→==, ne→==, arith}
use my_fsck.Machine.Memory.{Bytes}
use my_fsck.Machine.State.{Fsck}
use my_fsck.Machine.Run.{Run, ok}
use my_fsck.Disk.Blocks.{HasSectors}
use my_fsck.Inode.{get_inode_bitmap_in_partition}
use my_fsck.Inode.Read.{InodeOnDisk, inode_at}
use my_fsck.DataBlock.{get_block_bitmap_in_partition}
use my_fsck.Partition.{ext2_fs, invalid_type, read_partition_info}
use my_fsck.Partition.Keeps.{Globals, assigned, read_partition_info-Globals}
use my_fsck.Correct.Links.{calloc, directory_traversor}
use my_fsck.Correct.LostFound.{root_inode_num}
use my_fsck.Correct.FileBlocks.{get_true_block_bitmap}
use my_fsck.Correct.Pass1.Right.{dots_right, pass1-right}
use my_fsck.Correct.Pass2.Right.{IsKept, pass2-right}
use my_fsck.Correct.Pass3.{char_to_u32}
use my_fsck.Correct.Pass3.Right.{pass3-right}
use my_fsck.Correct.Pass4.Whole.{HasGroups}
use my_fsck.Correct.Pass4.Right.{BitsRight, pass4-right}
use my_fsck.Correct.Partitions.{load_partition, correct_one_partition}
use my_fsck.Correct.Partitions.Confined.{load_partition-Globals}

-- A file system that is loaded and without errors. The inodes stand on the disk, `.` and `..` are
-- right, no inode is lost, its link count is the number of its references, and the block bitmap is
-- that of the blocks in use. The groups are such that the loops of pass 4 stay among their blocks.
-- The tables and bitmaps are those that the program makes and reads.
pub record IsClean (depth : ℕ) (s : Fsck) (references inode_bitmap blocks block_bitmap : Bytes)
    : Type 0 where
  pub sectors : HasSectors s
  pub inodes : (j : ℕ) → 1 ≤ j → j ≤ s.super_block.s_inodes_count → InodeOnDisk s j
  pub dots : dots_right s depth root_inode_num root_inode_num ≡ true
  pub referred :
      directory_traversor depth (calloc s.stray (s.super_block.s_inodes_count + 1)) root_inode_num s
      ≡ ok references s
  pub allocated : get_inode_bitmap_in_partition s ≡ ok inode_bitmap s
  pub none_lost :
      (j : ℕ) → 1 ≤ j → j ≤ s.super_block.s_inodes_count → IsKept s inode_bitmap references j
  pub counted :
      (j : ℕ)
      → 1 ≤ j
      → j ≤ s.super_block.s_inodes_count
      → (inode_at s j).i_links_count ≡ char_to_u32 (references j)
  pub used :
      get_true_block_bitmap depth
        (calloc s.stray (s.super_block.s_blocks_count + 1))
        root_inode_num
        s
      ≡ ok blocks s
  pub mapped : get_block_bitmap_in_partition s ≡ ok block_bitmap s
  pub groups : HasGroups s
  pub bits : BitsRight s blocks block_bitmap

after :
    {A : Type 0} {s t : Fsck} {r : Run A} {a : A}
    → Globals s r
    → r ≡ ok a t
    → (t.image ≡ s.image) × (t.output ≡ s.output)
after {A} {s} {t} {a} g e = of_ok (subst (Globals s) e g)
  where
    of_ok : {u : Fsck} → Globals s (ok a u) → (u.image ≡ s.image) × (u.output ≡ s.output)
    of_ok (assigned img out) = (img, out)

-- If the partition is found and of ext2, its super block and group descriptors are read, and the
-- file system that is then loaded is without errors and has groups that suit pass 4, then
-- `correct_one_partition` ends in the state behind that reading, so that the image and the output
-- are as before. Without errors means that the block size is that of one or more whole sectors and
-- fits 32 bits; that the inodes from 1 to `s_inodes_count` stand on the disk, in tables whose
-- sizes and numbers of sectors fit 32 bits; that the first two entries of every directory block in
-- the tree, where they are directories, name the directory and its parent; that the walk that
-- counts references succeeds, to the given depth, and every inode is named by an entry by its
-- count, or is not allocated, or is without links; that the link count of every inode is the
-- number that pass 3 takes from that count; that the walk for the blocks in use and the reading of
-- both bitmaps succeed; and that the block bitmap agrees with the blocks in use for the blocks
-- from 1 up to but not including `s_blocks_count` behind the reserved blocks of each group, and is
-- 1 in the inode tables. Groups that suit pass 4 means that a group has more blocks than the
-- reserved ones at its start that pass 4 passes over; the groups, counted as `get_block_group_num`
-- does and each of `s_blocks_per_group` blocks from block 1 on, have every block below
-- `s_blocks_count`; the last of them has a block below `s_blocks_count` behind its reserved ones;
-- the number of the block behind the groups fits 32 bits; and every inode table starts at block 1
-- or later, the number of the block behind it fitting 32 bits.
pub correct_one_partition-clean :
    (rounds depth n : ℕ) (s t loaded : Fsck) (found : Bool)
    (references inode_bitmap blocks block_bitmap : Bytes)
    → read_partition_info rounds n s ≡ ok found t
    → t.partition_entry.type ≡ ext2_fs
    → load_partition t ≡ ok tt loaded
    → IsClean depth loaded references inode_bitmap blocks block_bitmap
    → (correct_one_partition rounds depth n s ≡ ok loaded.stray_minus_one loaded)
      × (loaded.image ≡ s.image)
      × (loaded.output ≡ s.output)
unfolding correct_one_partition
correct_one_partition-clean rounds depth n s t loaded found references inode_bitmap blocks
      block_bitmap read ext2 load c =
    let present : (t.partition_entry.type == invalid_type) ≡ false =
      ne→== t.partition_entry.type invalid_type (λ e. absurd (omega arith)) in
    let one = after (read_partition_info-Globals rounds n s) read in
    let two = after (load_partition-Globals t) load in
    (
      rw
          (
            read,
            present,
            eq→== t.partition_entry.type ext2_fs ext2,
            load,
            pass1-right loaded c.sectors c.inodes depth root_inode_num root_inode_num c.dots,
            pass2-right loaded inode_bitmap references depth c.referred c.allocated
                (λ j p q. (c.inodes j p q, c.none_lost j p q)),
            pass3-right loaded references depth c.referred
                (λ j p q. (c.inodes j p q, c.counted j p q)),
            pass4-right depth loaded blocks block_bitmap c.mapped c.used c.groups c.bits,
          )
          refl,
      two.0 ∙ one.0,
      two.1 ∙ one.1,
    )
