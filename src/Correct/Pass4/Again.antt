-- ===== src/Correct/Pass4/Again.antt =====
-- A second run of pass 4 finds nothing to repair.
use mathlib.Core.Path.{subst}
use my_fsck.Base.{
  ℕ, ◌+◌, ◌-◌, ◌%◌, ◌≤◌, ◌<◌, ◌≡◌, ◌⊎◌, arith, ap, ◌∙◌, sym, leb, le→leb, true, false, List, [],
  ◌∷◌, some, Bool-cases, inl, inr,
}
use my_fsck.Machine.Memory.{Bytes, IsBytes}
use my_fsck.Machine.State.{Fsck, Image, Message}
use my_fsck.Machine.Run.{ok}
use my_fsck.Disk.Blocks.{HasSectors, block_address}
use my_fsck.Inode.{get_group_inode_block_num, get_group_inode_bitmap_block_num}
use my_fsck.Inode.Read.{InodeOnDisk, inode_at}
use my_fsck.Inode.Update.{with_image, with_image-InodeOnDisk}
use my_fsck.DataBlock.{
  get_block_group_num, get_group_block_bitmap_block_num, get_block_bitmap_in_partition,
}
use my_fsck.DataBlock.OnDisk.{bitmap_address}
use my_fsck.DataBlock.RoundTrip.{bitmap_bytes}
use my_fsck.Correct.Links.{calloc}
use my_fsck.Correct.LostFound.{root_inode_num}
use my_fsck.Correct.FileBlocks.Marked.{marked}
use my_fsck.Correct.FileBlocks.Double.{AllUsable}
use my_fsck.Correct.FileBlocks.Kept.{Each, IsKeptIn}
use my_fsck.Correct.FileBlocks.Tree.{tree_owned, get_true_block_bitmap-owned}
use my_fsck.Correct.FileBlocks.TreeKept.{SameButCounts, tree_owned-kept}
use my_fsck.Correct.Partitions.Repairable.{BesideInodes, same_inodes}
use my_fsck.Correct.Pass4.{pass4, get_skip_block_num_in_group}
use my_fsck.Correct.Pass4.Tables.{in_tables}
use my_fsck.Correct.Pass4.Disk.{HasBlockBitmap, BitmapFixed}
use my_fsck.Correct.Pass4.Right.{BitsRight, pass4-right}
use my_fsck.Correct.Pass4.Carried.{
  HasBlockBitmap-with_image, AllUsable-with_image, in_tables-with_image,
}
use my_fsck.Correct.Pass4.Used.{owned_flag, calloc-owned_flag, pass4-owned}

-- The block is beside the bitmaps.
abbrev pub BesideBitmap : Fsck → ℕ → Type 0
BesideBitmap s b =
    (g : ℕ)
    → g < get_block_group_num s
    → (block_address s b + s.block_size ≤ bitmap_address s g)
      ⊎ (bitmap_address s g + bitmap_bytes s ≤ block_address s b)

-- The inode tables stand among the reserved blocks of the groups.
abbrev pub TablesReserved : Fsck → Type 0
TablesReserved s =
    (x : ℕ)
    → in_tables (get_block_group_num s) 0 s x ≡ true
    → (1 ≤ x)
      × (x < s.super_block.s_blocks_count)
      × ((x - 1) % s.super_block.s_blocks_per_group < get_skip_block_num_in_group s)

module _ (s : Fsck) (img : Image) (out : List Message) (size : img.size ≡ s.image.size) where
  BitmapFixed-BitsRight :
      (blocks : List ℕ) (old : Bytes) (s' : Fsck) (f : BitmapFixed s (owned_flag blocks) old s')
      → TablesReserved s
      → BitsRight
          (with_image s img out)
          (marked (calloc s.stray (s.super_block.s_blocks_count + 1)) blocks)
          f.new
  unfolding get_block_group_num get_skip_block_num_in_group get_group_block_bitmap_block_num
      get_group_inode_bitmap_block_num get_group_inode_block_num
  BitmapFixed-BitsRight blocks old s' f reserved = record {
    in_groups = λ x lo hi place.
        let n = get_block_group_num s in
        let no_table : in_tables n 0 s x ≡ false = elim (Bool-cases (in_tables n 0 s x)) [
          | inl in_table ↦ absurd (omega (arith, (reserved x in_table).2))
          | inr beside ↦ beside
        ] in
        let here : leb (get_skip_block_num_in_group s) ((x - 1) % s.super_block.s_blocks_per_group)
            ≡ true =
          le→leb _ _ place in
        calloc-owned_flag s.stray (s.super_block.s_blocks_count + 1) blocks x (omega arith)
        ∙ sym (rw (no_table, here) at (f.bits x lo hi));
    in_tables_set = λ x h.
        let in_table = sym (in_tables-with_image s img out (get_block_group_num s) 0 x) ∙ h in
        let place = reserved x in_table in rw in_table at (f.bits x place.0 place.1);
  }

BesideBitmap-IsKeptIn :
    (s : Fsck) (img : Image) (blocks : List ℕ)
    → ((x : ℕ)
        → x < s.image.size
        → ((g : ℕ)
            → g < get_block_group_num s
            → (x < bitmap_address s g) ⊎ (bitmap_address s g + bitmap_bytes s ≤ x))
        → img.byte x ≡ s.image.byte x)
    → AllUsable s blocks
    → Each (BesideBitmap s) blocks
    → Each (IsKeptIn s img) blocks
BesideBitmap-IsKeptIn s img [] others u h = tt
BesideBitmap-IsKeptIn s img (b ∷ blocks) others u h = (
  λ k lt. others (block_address s b + k) (omega (arith, u.1)) (λ g p. omega (arith, h.0 g p)),
  BesideBitmap-IsKeptIn s img blocks others u.2 h.1,
)

-- If the block size is that of one or more whole sectors and fits 32 bits; a group has more blocks
-- than the reserved ones at its start that pass 4 passes over; the groups, counted as
-- `get_block_group_num` does and each of `s_blocks_per_group` blocks from block 1 on, have every
-- block below `s_blocks_count`; the last of them has a block below `s_blocks_count` behind its
-- reserved ones; the number of the block behind the groups fits 32 bits; and every inode table
-- starts at block 1 or later, the number of the block behind it fitting 32 bits; the block bitmaps
-- of the groups lie on the disk, with numbers of sectors that fit 32 bits, apart from one another,
-- and together have less than 2^32 bytes; each has a bit for every block of its group; the inode
-- tables end within the groups; the blocks of the inode tables are from 1 up to but not including
-- `s_blocks_count` and among the reserved blocks of the groups; the inodes from 1 to
-- `s_inodes_count` stand on the disk, in tables whose sizes and numbers of sectors fit 32 bits,
-- apart from the block bitmaps; the disk and unwritten memory hold bytes; and the blocks that the
-- tree below the root owns can be listed to the given depth, are on the disk, apart from the block
-- bitmaps, and have numbers of at most `s_blocks_count`; then `pass4` succeeds, and a second
-- `pass4` changes nothing any more, neither the image nor the output.
pub pass4-pass4 :
    (depth : ℕ) (s : Fsck) (blocks : List ℕ)
    → HasSectors s
    → HasBlockBitmap s
    → ((j : ℕ) → 1 ≤ j → j ≤ s.super_block.s_inodes_count → InodeOnDisk s j)
    → IsBytes s.image.byte
    → IsBytes s.stray
    → tree_owned s depth root_inode_num ≡ some blocks
    → AllUsable s blocks
    → Each (BesideBitmap s) blocks
    → ((g : ℕ)
        → g < get_block_group_num s
        → BesideInodes s (bitmap_address s g) (bitmap_address s g + bitmap_bytes s))
    → TablesReserved s
    → (s' : Fsck) × (pass4 depth s ≡ ok tt s') × (pass4 depth s' ≡ ok tt s')
pass4-pass4 depth s blocks sectors bitmap inodes image_bytes stray_bytes owned usable beside
      inodes_beside reserved =
    let r = pass4-owned depth s blocks sectors bitmap inodes image_bytes stray_bytes owned usable in
    let s' = r.0 in
    let f = r.4 in
    let img = s'.image in
    let out = s'.output in
    let u = with_image s img out in
    let place = r.5.only_bytes.only_image in
    let size = r.5.only_bytes.same_size in
    let same : SameButCounts s.super_block.s_inodes_count s u = λ j lo hi. (
      (inode_at s j).i_links_count,
      sym (ap (λ (v : Fsck). inode_at v j) place)
          ∙ same_inodes s s' r.5 inodes inodes_beside j lo hi,
    ) in
    let again : pass4 depth u ≡ ok tt u =
      pass4-right depth u (marked (calloc s.stray (s.super_block.s_blocks_count + 1)) blocks) f.new
        (subst (λ (v : Fsck). get_block_bitmap_in_partition v ≡ ok f.new v) place f.read)
        (get_true_block_bitmap-owned u sectors
          (λ j lo hi. with_image-InodeOnDisk s img out j size (inodes j lo hi)) depth
          (calloc s.stray (s.super_block.s_blocks_count + 1)) root_inode_num blocks
          (tree_owned-kept s img out same depth root_inode_num blocks owned
            (BesideBitmap-IsKeptIn s img blocks r.5.others usable beside))
          (AllUsable-with_image s img out size blocks usable))
        (HasBlockBitmap-with_image s img out size bitmap).groups
        (BitmapFixed-BitsRight s img out size blocks r.1 s' f reserved) in
    (s', r.3, subst (λ (v : Fsck). pass4 depth v ≡ ok tt v) (sym place) again)
