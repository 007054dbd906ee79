-- ===== src/Correct/Pass4/Carried.antt =====
-- What `pass4` relies on lies on the disk still when the image has changed.
use my_fsck.Base.{ℕ, zero, suc, ◌+◌, ◌≤◌, ◌<◌, ◌≡◌, refl, arith, ap, ◌∙◌, List, [], ◌∷◌, ◌||◌, Bool}
use my_fsck.Machine.Memory.{Bytes}
use my_fsck.Machine.State.{Fsck, Image, Message}
use my_fsck.Disk.Blocks.{block_address}
use my_fsck.Disk.Written.{OnlyBytes}
use my_fsck.SuperBlock.{read_group_desc}
use my_fsck.Inode.{get_group_inode_block_num, get_group_inode_bitmap_block_num}
use my_fsck.Inode.Update.{with_image}
use my_fsck.DataBlock.{get_block_group_num, get_group_block_bitmap_block_num, get_block_alloc_bit}
use my_fsck.DataBlock.RoundTrip.{bitmap_bytes, OnlyBytes-HasBitmaps}
use my_fsck.Correct.FileBlocks.Double.{AllUsable}
use my_fsck.Correct.Pass4.{get_skip_block_num_in_group}
use my_fsck.Correct.Pass4.Tables.{in_table, in_tables}
use my_fsck.Correct.Pass4.Whole.{HasGroups}
use my_fsck.Correct.Pass4.Disk.{HasBlockBitmap, BitmapFixed}

module _ (s : Fsck) (img : Image) (out : List Message) where
  HasGroups-with_image : HasGroups s → HasGroups (with_image s img out)
  unfolding get_skip_block_num_in_group get_block_group_num get_group_block_bitmap_block_num
      get_group_inode_bitmap_block_num get_group_inode_block_num read_group_desc
  HasGroups-with_image h = record {
    skip_fits = h.skip_fits;
    covered = h.covered;
    last_used = h.last_used;
    numbers_fit = h.numbers_fit;
    tables_fit = h.tables_fit;
  }

  pub OnlyBytes-with_image : img.size ≡ s.image.size → OnlyBytes s (with_image s img out)
  OnlyBytes-with_image e = record { only_image = refl; same_size = e }

  pub HasBlockBitmap-with_image :
      img.size ≡ s.image.size → HasBlockBitmap s → HasBlockBitmap (with_image s img out)
  unfolding bitmap_bytes get_block_group_num get_group_block_bitmap_block_num
      get_group_inode_block_num read_group_desc
  HasBlockBitmap-with_image e h = record {
    groups = HasGroups-with_image h.groups;
    bitmaps = OnlyBytes-HasBitmaps (OnlyBytes-with_image e) h.bitmaps;
    holds = h.holds;
    tables = h.tables;
  }

  pub AllUsable-with_image :
      img.size ≡ s.image.size
      → (blocks : List ℕ) → AllUsable s blocks
      → AllUsable (with_image s img out) blocks
  unfolding block_address
  AllUsable-with_image e [] h = tt
  AllUsable-with_image e (b ∷ blocks) h =
      (h.0, omega (arith, h.1), AllUsable-with_image e blocks h.2)

  pub in_tables-with_image :
      (left i x : ℕ) → in_tables left i (with_image s img out) x ≡ in_tables left i s x
  unfolding in_tables in_table get_group_inode_block_num read_group_desc
  in_tables-with_image zero i x = refl
  in_tables-with_image (suc left) i x =
      ap (λ (b : Bool). in_table s i x || b) (in_tables-with_image left (i + 1) x)

  -- The bits are those of the state as it was.
  pub BitmapFixed-with_image :
      (used old old' : Bytes) (s' : Fsck)
      → BitmapFixed (with_image s img out) used old' s'
      → ((x : ℕ)
          → 1 ≤ x
          → x < s.super_block.s_blocks_count
          → get_block_alloc_bit old' x ≡ get_block_alloc_bit old x)
      → BitmapFixed s used old s'
  unfolding get_block_group_num get_skip_block_num_in_group get_group_block_bitmap_block_num
      get_group_inode_bitmap_block_num get_group_inode_block_num
  BitmapFixed-with_image used old old' s' f same = record {
    new = f.new;
    read = f.read;
    bits = λ x lo hi.
        f.bits x lo hi ∙ rw (same x lo hi, in_tables-with_image (get_block_group_num s) 0 x) refl;
  }
