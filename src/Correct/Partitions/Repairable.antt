-- ===== src/Correct/Partitions/Repairable.antt =====
-- A file system whose link counts and block bitmap pass 3 and pass 4 can repair, and what pass 4 finds of it behind pass 3.
use mathlib.Core.Path.{subst}
use my_fsck.Base.{
  ℕ, ◌+◌, ◌*◌, ◌%◌, ◌≤◌, ◌<◌, ◌≡◌, ◌⊎◌, refl, arith, ap, ◌∙◌, sym, List, [], ◌∷◌, true, some, count,
}
use my_fsck.Machine.Memory.{Bytes, IsBytes}
use my_fsck.Machine.State.{Fsck, Image, Message}
use my_fsck.Machine.Run.{Run, ok, stop}
use my_fsck.Disk.Blocks.{HasSectors, block_address}
use my_fsck.Inode.{get_inode_bitmap_in_partition}
use my_fsck.Inode.Read.{InodeOnDisk, inode_at}
use my_fsck.Inode.Write.{inode_address}
use my_fsck.Inode.Update.{with_image, with_image-InodeOnDisk, same_inode, inode_end}
use my_fsck.DataBlock.{
  get_block_group_num, get_group_block_bitmap_block_num, get_block_bitmap_in_partition,
  get_block_alloc_bit,
}
use my_fsck.DataBlock.OnDisk.{bitmap_address}
use my_fsck.DataBlock.Stored.{OnlyBytes-bitmap_address}
use my_fsck.DataBlock.RoundTrip.{
  bitmap_bytes, OnlyBytes-HasBitmaps, get_block_bitmap_in_partition-ok, get_block_bitmap-same,
}
use my_fsck.Correct.LostFound.{root_inode_num}
use my_fsck.Correct.Links.References.{references}
use my_fsck.Correct.FileBlocks.Double.{AllUsable}
use my_fsck.Correct.FileBlocks.Kept.{Each, IsKeptIn}
use my_fsck.Correct.FileBlocks.Tree.{tree_owned}
use my_fsck.Correct.FileBlocks.TreeKept.{SameButCounts, tree_owned-kept}
use my_fsck.Correct.Pass1.Right.{dots_right}
use my_fsck.Correct.Pass2.Right.{IsKept}
use my_fsck.Correct.Pass3.Change.{InodesOnDisk, BesideCounts, same_address}
use my_fsck.Correct.Pass4.{pass4}
use my_fsck.Correct.Pass4.Disk.{HasBlockBitmap, BitmapFixed, OnlyBitmaps}
use my_fsck.Correct.Pass4.OnDisk.{bit_same, bits_held}
use my_fsck.Correct.Pass4.Used.{owned_flag, pass4-owned}
use my_fsck.Correct.Pass4.Carried.{
  HasBlockBitmap-with_image, AllUsable-with_image, OnlyBytes-with_image, BitmapFixed-with_image,
}

-- No inode has a byte from `lo` up to `hi`.
abbrev pub BesideInodes : Fsck → ℕ → ℕ → Type 0
BesideInodes s lo hi =
    (j : ℕ)
    → 1 ≤ j
    → j ≤ s.super_block.s_inodes_count
    → (hi ≤ inode_address s j) ⊎ (inode_address s j + 128 ≤ lo)

abbrev pub BlockBeside : Fsck → ℕ → Type 0
BlockBeside s b = BesideInodes s (block_address s b) (block_address s b + s.block_size)

-- The inodes, the blocks that the tree owns and the block bitmaps lie on the disk, and the inodes
-- apart from the rest; `.` and `..` are right, the references to inodes are `refs` and no inode is
-- lost. The groups are such that the loops of pass 4 stay among their blocks, and the bitmaps apart
-- from one another. Nothing is said of the link counts, nor of the block bitmap.
pub record IsRepairable (depth : ℕ) (s : Fsck) (refs blocks : List ℕ) (inode_bitmap : Bytes)
    : Type 0 where
  pub sectors : HasSectors s
  pub inodes : InodesOnDisk s s.super_block.s_inodes_count
  pub dots : dots_right s depth root_inode_num root_inode_num ≡ true
  pub referred : references depth [] root_inode_num s ≡ ok refs s
  pub allocated : get_inode_bitmap_in_partition s ≡ ok inode_bitmap s
  pub none_lost :
      (j : ℕ)
      → 1 ≤ j
      → j ≤ s.super_block.s_inodes_count
      → IsKept s inode_bitmap (λ i. count i refs % 256) j
  pub bitmaps : HasBlockBitmap s
  pub owned : tree_owned s depth root_inode_num ≡ some blocks
  pub usable : AllUsable s blocks
  pub image_bytes : IsBytes s.image.byte
  pub stray_bytes : IsBytes s.stray
  pub blocks_beside : Each (BlockBeside s) blocks
  pub bitmaps_beside :
      (g : ℕ)
      → g < get_block_group_num s
      → BesideInodes s (bitmap_address s g) (bitmap_address s g + bitmap_bytes s)

abbrev result : Bytes → Run Bytes → Bytes
result m (ok a s) = a
result m (stop e s) = m

bitmap_inside :
    (s : Fsck)
    → HasBlockBitmap s
    → (g j : ℕ) → g < get_block_group_num s
    → j < bitmap_bytes s
    → bitmap_address s g + j < s.image.size
unfolding bitmap_bytes
bitmap_inside s h g j p q = omega (arith, (h.bitmaps.1.run g p).on_disk)

-- The inodes are beside the bitmaps.
pub same_inodes :
    (s s' : Fsck)
    → OnlyBitmaps s s'
    → ((j : ℕ) → 1 ≤ j → j ≤ s.super_block.s_inodes_count → InodeOnDisk s j)
    → ((g : ℕ)
        → g < get_block_group_num s
        → BesideInodes s (bitmap_address s g) (bitmap_address s g + bitmap_bytes s))
    → (j : ℕ) → 1 ≤ j
    → j ≤ s.super_block.s_inodes_count
    → inode_at s' j ≡ inode_at s j
same_inodes s s' only inodes beside j lo hi =
    subst (λ (t : Fsck). inode_at t j ≡ inode_at s j) (sym only.only_bytes.only_image)
      (same_inode s s'.image s'.output j (λ x p q.
        only.others x (omega (arith, inode_end s j (inodes j lo hi)))
          (λ g lt. omega (arith, beside g lt j lo hi))))

module _ (s : Fsck) (img : Image) (out : List Message) (size : img.size ≡ s.image.size)
    (others : (x : ℕ)
      → x < s.image.size
      → BesideCounts s s.super_block.s_inodes_count x
      → img.byte x ≡ s.image.byte x) where
  Each-IsKeptIn :
      (blocks : List ℕ)
      → AllUsable s blocks
      → Each (BlockBeside s) blocks
      → Each (IsKeptIn s img) blocks
  Each-IsKeptIn [] u h = tt
  Each-IsKeptIn (b ∷ blocks) u h = (
    λ k lt.
        others (block_address s b + k) (omega (arith, u.1)) (λ j lo hi. omega (arith, h.0 j lo hi)),
    Each-IsKeptIn blocks u.2 h.1,
  )

  -- The bitmap that is read is the one that would have been read before.
  same_bits :
      (old' : Bytes) (h : HasBlockBitmap s)
      → ((g : ℕ)
          → g < get_block_group_num s
          → BesideInodes s (bitmap_address s g) (bitmap_address s g + bitmap_bytes s))
      → get_block_bitmap_in_partition (with_image s img out) ≡ ok old' (with_image s img out)
      → (x : ℕ) → 1 ≤ x
      → x < s.super_block.s_blocks_count
      → get_block_alloc_bit old' x
        ≡ get_block_alloc_bit (get_block_bitmap_in_partition-ok s h.bitmaps).0 x
  same_bits old' h beside read x lo hi =
      let f = OnlyBytes-with_image s img out size in
      let again =
        get_block_bitmap_in_partition-ok (with_image s img out)
          (OnlyBytes-HasBitmaps f h.bitmaps) in
      let same : old' ≡ again.0 = ap (result old') (sym read ∙ again.1) in
      bit_same old' _ (bitmap_bytes s * get_block_group_num s) x
        (λ y lt.
          ap (λ (m : Bytes). m y) same
          ∙ get_block_bitmap-same f h.bitmaps
              (λ g j p q.
                others (bitmap_address s g + j) (bitmap_inside s h g j p q)
                  (λ i one le. omega (arith, beside g p i one le)))
              y lt)
        lo (omega (arith, bits_held s h, h.groups.covered))
        (omega (arith, h.groups.covered, h.groups.numbers_fit))

  beside-with_image :
      ((g : ℕ)
        → g < get_block_group_num s
        → BesideInodes s (bitmap_address s g) (bitmap_address s g + bitmap_bytes s))
      → (g : ℕ) → g < get_block_group_num s
      → BesideInodes
          (with_image s img out)
          (bitmap_address (with_image s img out) g)
          (bitmap_address (with_image s img out) g + bitmap_bytes (with_image s img out))
  unfolding bitmap_bytes get_group_block_bitmap_block_num
  beside-with_image beside g lt j lo hi = omega (
    arith,
    beside g lt j lo hi,
    same_address s (with_image s img out) refl j,
    OnlyBytes-bitmap_address {s = s} {s' = with_image s img out} g
        (OnlyBytes-with_image s img out size),
  )

  -- `pass4` where only link counts have changed before.
  pub pass4-repairs :
      (depth : ℕ) (refs blocks : List ℕ) (inode_bitmap : Bytes)
      → IsRepairable depth s refs blocks inode_bitmap
      → IsBytes img.byte
      → SameButCounts s.super_block.s_inodes_count s (with_image s img out)
      → (s' : Fsck) × (old : Bytes) × (get_block_bitmap_in_partition s ≡ ok old s)
        × (pass4 depth (with_image s img out) ≡ ok tt s')
        × BitmapFixed s (owned_flag blocks) old s'
        × ((j : ℕ)
            → 1 ≤ j
            → j ≤ s.super_block.s_inodes_count
            → inode_at s' j ≡ inode_at (with_image s img out) j)
  unfolding get_block_group_num
  pass4-repairs depth refs blocks inode_bitmap h bytes same =
      let u = with_image s img out in
      let inodes : (j : ℕ) → 1 ≤ j → j ≤ s.super_block.s_inodes_count → InodeOnDisk u j =
        λ j lo hi. with_image-InodeOnDisk s img out j size (h.inodes.on_disk j lo hi) in
      let r =
        pass4-owned depth u blocks h.sectors (HasBlockBitmap-with_image s img out size h.bitmaps)
          inodes bytes h.stray_bytes
          (tree_owned-kept s img out same depth root_inode_num blocks h.owned
            (Each-IsKeptIn blocks h.usable h.blocks_beside))
          (AllUsable-with_image s img out size blocks h.usable) in
      let old = get_block_bitmap_in_partition-ok s h.bitmaps.bitmaps in
      (
        r.0,
        old.0,
        old.1,
        r.3,
        BitmapFixed-with_image s img out (owned_flag blocks) old.0 r.1 r.0 r.4
            (same_bits r.1 h.bitmaps h.bitmaps_beside r.2),
        same_inodes u r.0 r.5 inodes (beside-with_image h.bitmaps_beside),
      )
