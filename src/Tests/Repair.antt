-- ===== src/Tests/Repair.antt =====
-- The run over a file system with a wrong link count and an empty block bitmap.
use my_fsck.Base.{ℕ, zero, suc, ◌≤◌, ◌≡◌, refl, arith, [], ◌∷◌, true, count}
use my_fsck.Machine.Memory.{Bytes}
use my_fsck.Machine.State.{Fsck}
use my_fsck.Machine.Run.{ok}
use my_fsck.Util.{parse_loop, parse_bytes_to_decimal_u}
use my_fsck.Disk.{read_bytes}
use my_fsck.SuperBlock.{read_group_desc}
use my_fsck.Inode.{get_group_inode_block_num, get_group_inode_bitmap_block_num}
use my_fsck.Inode.Read.{inode_at}
use my_fsck.DataBlock.{
  get_block_group_num, get_group_block_bitmap_block_num, get_block_bitmap_in_partition,
}
use my_fsck.Correct.Pass3.Counts.{stored_count}
use my_fsck.Correct.Pass4.Disk.{BitmapFixed, OnlyBitmaps}
use my_fsck.Correct.Pass4.Used.{owned_flag, pass4-owned}
use my_fsck.Correct.Pass4.{pass4, get_skip_block_num_in_group}
use my_fsck.Correct.Pass4.Tables.{in_table, in_tables}
use my_fsck.Correct.Pass4.Again.{BesideBitmap, TablesReserved, pass4-pass4}
use my_fsck.Correct.Links.{calloc}
use my_fsck.Correct.FileBlocks.{get_true_block_bitmap}
use my_fsck.Correct.FileBlocks.Marked.{marked}
use my_fsck.Correct.FileBlocks.Tree.{get_true_block_bitmap-owned}
use my_fsck.Correct.Partitions.{correct_one_partition}
use my_fsck.Correct.Partitions.Repaired.{correct_one_partition-repairs}
use my_fsck.Tests.Loaded.{loaded}
use my_fsck.Tests.Damaged.{
  damaged_before, damaged_chosen, damaged_loaded, inode_bitmap, root_owns, repairable,
  damaged-IsBytes, found, read_in, sixth, bitmap_place, bitmap_width, bitmaps_beside,
}

correct_one_partition-repairs_example :
    (s' : Fsck) × (old : Bytes) × (get_block_bitmap_in_partition damaged_loaded
      ≡ ok old damaged_loaded)
    × (correct_one_partition 0 2 1 damaged_before ≡ ok s'.stray_minus_one s')
    × BitmapFixed damaged_loaded (owned_flag (6 ∷ [])) old s'
    × ((j : ℕ)
        → 1 ≤ j
        → j ≤ 4
        → inode_at s' j ≡ record (inode_at damaged_loaded j) {
          i_links_count = stored_count (count j (2 ∷ 2 ∷ []));
        })
correct_one_partition-repairs_example =
    correct_one_partition-repairs 0 2 1 damaged_before damaged_chosen damaged_loaded true
      (2 ∷ 2 ∷ []) (6 ∷ []) inode_bitmap found refl read_in repairable

get_true_block_bitmap-owned_example :
    get_true_block_bitmap 2 (calloc loaded.stray 9) 2 damaged_loaded
    ≡ ok (marked (calloc loaded.stray 9) (6 ∷ [])) damaged_loaded
get_true_block_bitmap-owned_example =
    get_true_block_bitmap-owned damaged_loaded (omega arith) repairable.inodes.on_disk 2
      (calloc loaded.stray 9) 2 (6 ∷ []) root_owns repairable.usable

pass4-owned_example :
    (s' : Fsck) × (old : Bytes) × (get_block_bitmap_in_partition damaged_loaded
      ≡ ok old damaged_loaded)
    × (pass4 2 damaged_loaded ≡ ok tt s')
    × BitmapFixed damaged_loaded (owned_flag (6 ∷ [])) old s'
    × OnlyBitmaps damaged_loaded s'
pass4-owned_example =
    pass4-owned 2 damaged_loaded (6 ∷ []) (omega arith) repairable.bitmaps repairable.inodes.on_disk
      damaged-IsBytes repairable.stray_bytes root_owns repairable.usable

sixth_beside : BesideBitmap damaged_loaded 6
unfolding get_block_group_num
sixth_beside zero lt = omega (arith, sixth, bitmap_place, bitmap_width)
sixth_beside (suc g) lt = absurd (omega arith)

reserved : TablesReserved damaged_loaded
unfolding in_tables in_table get_block_group_num get_skip_block_num_in_group
    get_group_block_bitmap_block_num get_group_inode_bitmap_block_num get_group_inode_block_num
    read_group_desc parse_bytes_to_decimal_u parse_loop read_bytes
reserved x h = ground arith

pass4-pass4_example : (s' : Fsck) × (pass4 2 damaged_loaded ≡ ok tt s') × (pass4 2 s' ≡ ok tt s')
unfolding get_block_group_num
pass4-pass4_example =
    pass4-pass4 2 damaged_loaded (6 ∷ []) (omega arith) repairable.bitmaps repairable.inodes.on_disk
      damaged-IsBytes repairable.stray_bytes root_owns repairable.usable (sixth_beside, tt)
      bitmaps_beside reserved
