-- ===== src/Correct/Partitions/Repaired.antt =====
-- A partition whose link counts and block bitmap are wrong is repaired by one run.
use my_fsck.Base.{
  ℕ, ◌%◌, ◌≤◌, ◌≡◌, refl, arith, ap, ◌∙◌, sym, List, Bool, false, ◌==◌, eq→==, ne→==, count, inl,
  inr,
}
use mathlib.Core.Path.{subst}
use my_fsck.Machine.Memory.{Bytes}
use my_fsck.Machine.State.{Fsck}
use my_fsck.Machine.Run.{ok}
use my_fsck.Inode.Read.{inode_at}
use my_fsck.DataBlock.{get_block_bitmap_in_partition}
use my_fsck.Partition.{ext2_fs, invalid_type, read_partition_info}
use my_fsck.Correct.LostFound.{root_inode_num}
use my_fsck.Correct.Pass1.Right.{pass1-right}
use my_fsck.Correct.Pass2.Right.{IsKept, pass2-right}
use my_fsck.Correct.Pass3.Fixed.{pass3-LinksFixed}
use my_fsck.Correct.Pass3.Counts.{stored_count, counting_table, with_count-stored}
use my_fsck.Correct.Pass4.{pass4}
use my_fsck.Correct.Pass4.Disk.{BitmapFixed}
use my_fsck.Correct.Pass4.Used.{owned_flag}
use my_fsck.Correct.Partitions.{load_partition, correct_one_partition}
use my_fsck.Correct.Partitions.Repairable.{IsRepairable, pass4-repairs}

same_table :
    (s : Fsck) (bitmap t t' : Bytes) (j : ℕ)
    → t j ≡ t' j
    → IsKept s bitmap t j
    → IsKept s bitmap t' j
same_table s bitmap t t' j e (inl no_links) = inl no_links
same_table s bitmap t t' j e (inr (inl free)) = inr (inl free)
same_table s bitmap t t' j e (inr (inr named)) = inr (inr (λ z. named (e ∙ z)))

-- If the partition is found and of ext2, its super block and group descriptors are read, and the
-- file system that is then loaded is repairable, then `correct_one_partition` succeeds, and
-- afterwards every inode has as link count the number of references to it modulo 256, with 65280
-- added where that is 128 or more, all else in it being as it was; and the block bitmap that is
-- read from the disk has for every block from 1 up to but not including `s_blocks_count` the bit 1
-- in an inode table, else behind the reserved blocks of a group the bit 1 exactly for the blocks
-- that the tree owns, and else the bit that was read before. Repairable means all of the
-- following. Sizes: the block size is that of one or more whole sectors and fits 32 bits. Groups:
-- a group has more blocks than the reserved ones at its start that pass 4 passes over; the groups,
-- counted as `get_block_group_num` does and each of `s_blocks_per_group` blocks from block 1 on,
-- have every block below `s_blocks_count`; the last of them has a block below `s_blocks_count`
-- behind its reserved ones; the number of the block behind the groups fits 32 bits; and every
-- inode table starts at block 1 or later, the number of the block behind it fitting 32 bits.
-- Bitmaps: the block bitmaps of the groups lie on the disk, with numbers of sectors that fit 32
-- bits, apart from one another, and together have less than 2^32 bytes; each has a bit for every
-- block of its group; the inode tables end within the groups; the inode bitmap can be read.
-- Inodes: the inodes from 1 to `s_inodes_count` stand on the disk, in tables whose sizes and
-- numbers of sectors fit 32 bits, and apart from one another, from the blocks that the tree owns
-- and from the block bitmaps. Tree, to the given depth: the first two entries of every directory
-- block, where they are directories, name the directory and its parent; the references from the
-- root can be listed; every inode is named by a number of entries that 256 does not divide, or is
-- not allocated, or is without links; the blocks that the tree owns can be listed, are on the disk
-- and have numbers of at most `s_blocks_count`. Bytes: the disk and unwritten memory hold bytes.
pub correct_one_partition-repairs :
    (rounds depth n : ℕ) (s t loaded : Fsck) (found : Bool) (refs blocks : List ℕ)
    (inode_bitmap : Bytes)
    → read_partition_info rounds n s ≡ ok found t
    → t.partition_entry.type ≡ ext2_fs
    → load_partition t ≡ ok tt loaded
    → IsRepairable depth loaded refs blocks inode_bitmap
    → (s' : Fsck) × (old : Bytes) × (get_block_bitmap_in_partition loaded ≡ ok old loaded)
      × (correct_one_partition rounds depth n s ≡ ok s'.stray_minus_one s')
      × BitmapFixed loaded (owned_flag blocks) old s'
      × ((j : ℕ)
          → 1 ≤ j
          → j ≤ loaded.super_block.s_inodes_count
          → inode_at s' j
            ≡ record (inode_at loaded j) { i_links_count = stored_count (count j refs) })
unfolding correct_one_partition
correct_one_partition-repairs rounds depth n s t loaded found refs blocks inode_bitmap read ext2
      load h =
    let present : (t.partition_entry.type == invalid_type) ≡ false =
      ne→== t.partition_entry.type invalid_type (λ e. absurd (omega arith)) in
    let table = counting_table depth loaded refs h.referred in
    let links = pass3-LinksFixed depth loaded table.0 h.inodes table.1 in
    let u = links.0 in
    let counted : (j : ℕ)
        → 1 ≤ j
        → j ≤ loaded.super_block.s_inodes_count
        → inode_at u j
          ≡ record (inode_at loaded j) { i_links_count = stored_count (count j refs) } =
      λ j lo hi.
        links.2.fixed j lo hi lo (omega arith)
        ∙ with_count-stored (inode_at loaded j) (table.0 j) (count j refs) (table.2 j hi) in
    let place = λ (j : ℕ). ap (λ (v : Fsck). inode_at v j) links.2.only_image in
    let bitmap =
      pass4-repairs loaded u.image u.output links.2.same_size links.2.other_bytes depth refs blocks
        inode_bitmap h (links.2.bytes h.image_bytes)
        (λ j lo hi. (stored_count (count j refs), sym (place j) ∙ counted j lo hi)) in
    (
      bitmap.0,
      bitmap.1,
      bitmap.2,
      rw
          (
            read,
            present,
            eq→== t.partition_entry.type ext2_fs ext2,
            load,
            pass1-right loaded h.sectors h.inodes.on_disk depth root_inode_num root_inode_num
                h.dots,
            pass2-right loaded inode_bitmap table.0 depth table.1 h.allocated (λ j lo hi. (
              h.inodes.on_disk j lo hi,
              same_table loaded inode_bitmap (λ i. count i refs % 256) table.0 j
                  (sym (table.2 j hi)) (h.none_lost j lo hi),
            )),
            links.1,
            subst (λ (v : Fsck). pass4 depth v ≡ ok tt bitmap.0) (sym links.2.only_image) bitmap.3,
          )
          refl,
      bitmap.4,
      λ j lo hi. bitmap.5 j lo hi ∙ sym (place j) ∙ counted j lo hi,
    )
