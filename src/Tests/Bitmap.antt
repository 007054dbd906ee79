-- ===== src/Tests/Bitmap.antt =====
-- The theorems on the block bitmap at the small file system.
use my_fsck.Base.{ℕ, zero, suc, ◌-◌, ◌<◌, ◌≡◌, refl, arith, ◌==◌, if◌then◌else◌}
use my_fsck.Machine.Memory.{Bytes, IsBytes}
use my_fsck.Util.{parse_loop, parse_bytes_to_decimal_u}
use my_fsck.SuperBlock.{read_group_desc}
use my_fsck.Inode.{get_group_inode_block_num, get_group_inode_bitmap_block_num}
use my_fsck.DataBlock.{
  get_block_alloc_bit, fix_block_bitmap_in_partition, get_block_group_num,
  get_group_block_bitmap_block_num,
}
use my_fsck.DataBlock.Flip.{alloc_bit-fix}
use my_fsck.Correct.Pass4.{check_bitmap, get_skip_block_num_in_group}
use my_fsck.Correct.Pass4.Blocks.{IsFlags}
use my_fsck.Correct.Pass4.Tables.{TableFits, in_table, in_tables}
use my_fsck.Correct.Pass4.Whole.{HasGroups, check_bitmap-bit}
use my_fsck.Correct.Pass4.Reported.{TableBelow}
use my_fsck.DataBlock.{get_block_bitmap_in_partition, write_block_bitmap_in_partition}
use my_fsck.DataBlock.OnDisk.{HasBitmaps, bitmap_block}
use my_fsck.DataBlock.RoundTrip.{bitmap_bytes, get_block_bitmap-write_block_bitmap}
use my_fsck.Disk.{block_sector}
use my_fsck.Disk.Blocks.{block_address}
use my_fsck.Disk.Runs.{RunOnDisk}
use my_fsck.Machine.State.{Fsck}
use my_fsck.Machine.Run.{ok}
use my_fsck.Tests.Sample.{disk}

-- Block 6 is in use.
abbrev in_use : Bytes
in_use x = if x == 6 then 1 else 0

in_use-IsFlags : IsFlags in_use
in_use-IsFlags x = ground arith

-- The bitmap of the disk knows of no block.
abbrev empty_bitmap : Bytes
empty_bitmap i = 0

empty-IsBytes : IsBytes empty_bitmap
empty-IsBytes i = omega arith

alloc_bit-fix_example :
    get_block_alloc_bit (fix_block_bitmap_in_partition empty_bitmap 6) 6
    ≡ 1 - get_block_alloc_bit empty_bitmap 6
alloc_bit-fix_example = alloc_bit-fix empty_bitmap 6 6 empty-IsBytes (omega arith) (omega arith)

one_group : get_block_group_num disk ≡ 1
unfolding get_block_group_num
one_group = refl

five_skipped : get_skip_block_num_in_group disk ≡ 5
unfolding get_skip_block_num_in_group get_group_block_bitmap_block_num
    get_group_inode_bitmap_block_num get_group_inode_block_num
five_skipped = refl

first_fits : TableFits disk 0
unfolding read_group_desc parse_bytes_to_decimal_u parse_loop get_group_inode_block_num
first_fits = (omega arith, omega arith)

group-TableFits : (k : ℕ) → k < 1 → TableFits disk k
group-TableFits zero h = first_fits
group-TableFits (suc k) h = absurd (omega arith)

first_below : TableBelow disk 9 0
unfolding read_group_desc parse_bytes_to_decimal_u parse_loop get_group_inode_block_num
first_below = (omega arith, omega arith)

group-TableBelow : (k : ℕ) → k < 1 → TableBelow disk 9 k
group-TableBelow zero h = first_below
group-TableBelow (suc k) h = absurd (omega arith)

disk-HasGroups : HasGroups disk
disk-HasGroups = record {
  skip_fits = omega (arith, five_skipped);
  covered = omega (arith, one_group);
  last_used = omega (arith, one_group, five_skipped);
  numbers_fit = omega (arith, one_group);
  tables_fit = λ k lt. group-TableFits k (omega (arith, one_group));
}

-- Block 6 stands behind the reserved blocks of its group.
check_bitmap-bit_example : get_block_alloc_bit (check_bitmap disk in_use empty_bitmap).bitmap 6 ≡ 1
unfolding get_skip_block_num_in_group get_group_block_bitmap_block_num
    get_group_inode_bitmap_block_num get_group_inode_block_num get_block_group_num in_tables
    in_table read_group_desc parse_bytes_to_decimal_u parse_loop
check_bitmap-bit_example =
    check_bitmap-bit disk in_use empty_bitmap in_use-IsFlags empty-IsBytes disk-HasGroups 6
      (omega arith) (omega arith)

one_bitmap_block : get_group_block_bitmap_block_num disk ≡ 1
unfolding get_group_block_bitmap_block_num
one_bitmap_block = refl

first_bitmap : RunOnDisk disk (bitmap_block disk 0) 1
unfolding read_group_desc parse_bytes_to_decimal_u parse_loop block_address block_sector
first_bitmap = record {
  sectors = omega arith;
  numbered = omega arith;
  offsets = omega arith;
  on_disk = omega arith;
}

bitmap_runs : (g : ℕ) → g < 1 → RunOnDisk disk (bitmap_block disk g) 1
bitmap_runs zero lt = first_bitmap
bitmap_runs (suc g) lt = absurd (omega arith)

disk-HasBitmaps : HasBitmaps disk
unfolding get_group_block_bitmap_block_num get_block_group_num
disk-HasBitmaps = (
  omega arith,
  record {
    run = bitmap_runs;
    fit = omega arith;
    sized = omega arith;
    apart = λ g k p q. absurd (omega arith);
  },
)

get_block_bitmap-write_block_bitmap_example :
    (s' : Fsck) × (m : Bytes) × (write_block_bitmap_in_partition in_use disk ≡ ok tt s')
    × (get_block_bitmap_in_partition s' ≡ ok m s')
    × ((y : ℕ) → y < 512 → m y ≡ in_use y)
unfolding bitmap_bytes get_group_block_bitmap_block_num get_block_group_num
get_block_bitmap-write_block_bitmap_example =
    get_block_bitmap-write_block_bitmap disk in_use disk-HasBitmaps
