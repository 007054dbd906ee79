-- ===== src/Tests/Damaged.antt =====
-- A file system with a wrong link count and an empty block bitmap.
use my_fsck.Base.{
  ℕ, zero, suc, ◌+◌, ◌%◌, ◌≤◌, ◌<◌, ◌≡◌, refl, ap, ◌∙◌, sym, arith, [], ◌∷◌, true, some, inl, inr,
  count,
}
use my_fsck.Machine.Memory.{Bytes, IsBytes, set_byte, splice}
use my_fsck.Machine.State.{Fsck, Image}
use my_fsck.Machine.Run.{ok}
use my_fsck.Util.{parse_loop, parse_bytes_to_decimal_u, parse_bytes_to_decimal_s, get_block_size}
use my_fsck.Util.Little.{little}
use my_fsck.Disk.{read_bytes, read_sectors, read_block, read_blocks, block_sector}
use my_fsck.Disk.Blocks.{block_address}
use my_fsck.Disk.Runs.{RunOnDisk}
use my_fsck.SuperBlock.{parse_super_block, read_super_block, read_group_desc_block, read_group_desc}
use my_fsck.Inode.{
  get_inode_group_offset, get_inode_offset_in_group, get_group_inode_block_num,
  get_group_inode_bitmap_block_num, check_divisors, read_inode, read_group_inode_table, parse_inode,
  parse_pointers, get_inode_bitmap_in_partition, inode_bitmap_loop, get_inode_bitmap_in_group,
  get_inode_group_num,
}
use my_fsck.Inode.Location.{table_start, table_offset}
use my_fsck.Inode.Read.{inode_at}
use my_fsck.Inode.Write.{inode_address}
use my_fsck.Inode.Update.{Apart-same_group}
use my_fsck.DataBlock.{get_block_group_num, get_group_block_bitmap_block_num}
use my_fsck.DataBlock.OnDisk.{HasBitmaps, bitmap_block, bitmap_address}
use my_fsck.DataBlock.RoundTrip.{bitmap_bytes}
use my_fsck.Dir.{read_dir_entry_in_block}
use my_fsck.Partition.{read_partition_info}
use my_fsck.Partition.Table.{read_partition_info-slot}
use my_fsck.Correct.Links.References.{references, list_blocks, list_entries, list_entry}
use my_fsck.Correct.FileBlocks.{inode_is_lnk, inode_is_reg}
use my_fsck.Correct.FileBlocks.Tree.{tree_owned, blocks_owned, entries_owned, both_lists}
use my_fsck.Correct.Pass1.Right.{entry_right, entries_right, blocks_right, dots_right}
use my_fsck.Correct.Pass2.Right.{IsKept}
use my_fsck.Correct.Pass3.Change.{InodesOnDisk, with_image-InodesOnDisk}
use my_fsck.Correct.Pass4.Disk.{HasBlockBitmap}
use my_fsck.Correct.Pass4.Carried.{HasBlockBitmap-with_image}
use my_fsck.Correct.Partitions.{load_partition}
use my_fsck.Correct.Partitions.Repairable.{IsRepairable, BesideInodes}
use my_fsck.Tests.Sample.{from_list-IsBytes}
use my_fsck.Tests.Loaded.{clean_bytes, before, chosen, loaded}
use my_fsck.Tests.Clean.{
  loaded-InodeOnDisk, loaded-HasTables, loaded-HasGroups, group_of, table_at, table_blocks,
}

-- The root has a link count of 7, and no block is in use.
abbrev pub damaged : Image
damaged = record before.image { byte = set_byte (set_byte before.image.byte 5274 7) 3072 0 }

abbrev pub damaged_before : Fsck
damaged_before = record before { image = damaged }

abbrev pub damaged_chosen : Fsck
damaged_chosen = record chosen { image = damaged }

abbrev pub damaged_loaded : Fsck
damaged_loaded = record loaded { image = damaged }

pub found : read_partition_info 0 1 damaged_before ≡ ok true damaged_chosen
unfolding little set_byte
found = read_partition_info-slot 0 1 damaged_before (omega arith) (omega arith) (omega arith)

descriptor : (i : ℕ) → read_bytes damaged 2048 1024 chosen.stray i ≡ loaded.group_desc_block i
unfolding read_bytes set_byte
descriptor i = ground arith

descriptors : read_bytes damaged 2048 1024 chosen.stray ≡ loaded.group_desc_block
descriptors = λ k i. descriptor i k

pub read_in : load_partition damaged_chosen ≡ ok tt damaged_loaded
unfolding load_partition read_super_block read_group_desc_block read_block read_sectors block_sector
    parse_super_block parse_bytes_to_decimal_u parse_bytes_to_decimal_s parse_loop get_block_size
    set_byte read_bytes
read_in = ap (λ (m : Bytes). ok tt (record damaged_loaded { group_desc_block = m })) descriptors

table_below :
    (k : ℕ)
    → k < 1
    → (1 ≤ (read_group_desc loaded k).bg_inode_table)
      × ((read_group_desc loaded k).bg_inode_table + get_group_inode_block_num loaded ≤ 9)
table_below zero lt = (omega (arith, table_at), omega (arith, table_at, table_blocks))
table_below (suc k) lt = absurd (omega arith)

bitmap_at : bitmap_block loaded 0 ≡ 3
unfolding read_group_desc parse_bytes_to_decimal_u parse_loop read_bytes
bitmap_at = refl

bitmap_run : RunOnDisk loaded 3 1
unfolding block_address block_sector
bitmap_run = record {
  sectors = omega arith;
  numbered = omega arith;
  offsets = omega arith;
  on_disk = omega arith;
}

bitmap_runs : (g : ℕ) → g < 1 → RunOnDisk loaded (bitmap_block loaded g) 1
bitmap_runs zero lt = rw bitmap_at bitmap_run
bitmap_runs (suc g) lt = absurd (omega arith)

loaded-HasBitmaps : HasBitmaps loaded
unfolding get_group_block_bitmap_block_num get_block_group_num
loaded-HasBitmaps = (
  omega arith,
  record {
    run = bitmap_runs;
    fit = omega arith;
    sized = omega arith;
    apart = λ g k p q. absurd (omega arith);
  },
)

loaded-HasBlockBitmap : HasBlockBitmap loaded
unfolding bitmap_bytes get_group_block_bitmap_block_num get_block_group_num
loaded-HasBlockBitmap = record {
  groups = loaded-HasGroups;
  bitmaps = loaded-HasBitmaps;
  holds = omega arith;
  tables = λ k lt. table_below k lt;
}

loaded-InodesOnDisk : InodesOnDisk loaded 4
loaded-InodesOnDisk = record {
  on_disk = loaded-InodeOnDisk;
  apart = λ i j lo hi lo' hi' ne.
      Apart-same_group loaded i j loaded-HasTables lo (omega arith) lo' (omega arith)
        (group_of i lo hi ∙ sym (group_of j lo' hi')) ne;
}

address :
    (j : ℕ)
    → 1 ≤ j
    → j ≤ 4
    → (5120 ≤ inode_address damaged_loaded j) × (inode_address damaged_loaded j + 128 ≤ 5632)
unfolding inode_address block_address block_sector table_start table_offset read_group_desc
    parse_bytes_to_decimal_u parse_loop get_inode_group_offset get_inode_offset_in_group read_bytes
address zero lo hi = absurd (omega arith)
address (suc zero) lo hi = omega arith
address (suc (suc zero)) lo hi = omega arith
address (suc (suc (suc zero))) lo hi = omega arith
address (suc (suc (suc (suc zero)))) lo hi = omega arith
address (suc (suc (suc (suc (suc j))))) lo hi = absurd (omega arith)

dots : dots_right damaged_loaded 2 2 2 ≡ true
unfolding dots_right blocks_right entries_right entry_right inode_at block_address block_sector
    table_start table_offset read_group_desc parse_inode parse_pointers parse_bytes_to_decimal_u
    parse_loop get_inode_group_offset get_inode_offset_in_group read_dir_entry_in_block read_bytes
    set_byte
dots = refl

referred : references 2 [] 2 damaged_loaded ≡ ok (2 ∷ 2 ∷ []) damaged_loaded
unfolding references list_blocks list_entries list_entry read_inode check_divisors
    read_group_inode_table read_blocks read_block read_sectors read_bytes block_sector parse_inode
    parse_pointers read_dir_entry_in_block parse_bytes_to_decimal_u parse_loop read_group_desc
    get_inode_group_offset get_inode_offset_in_group get_group_inode_block_num splice set_byte
referred = refl

abbrev pub inode_bitmap : Bytes
inode_bitmap =
    splice loaded.stray 0 (splice loaded.stray 0 (read_bytes damaged 4096 1024 loaded.stray))

allocated : get_inode_bitmap_in_partition damaged_loaded ≡ ok inode_bitmap damaged_loaded
unfolding get_inode_bitmap_in_partition check_divisors inode_bitmap_loop get_inode_bitmap_in_group
    get_inode_group_num get_group_inode_bitmap_block_num read_blocks read_block read_sectors
    read_bytes block_sector read_group_desc parse_bytes_to_decimal_u parse_loop splice
allocated = refl

none_lost :
    (j : ℕ) → 1 ≤ j → j ≤ 4 → IsKept damaged_loaded inode_bitmap (λ i. count i (2 ∷ 2 ∷ []) % 256) j
unfolding inode_at block_address block_sector table_start table_offset read_group_desc parse_inode
    parse_pointers parse_bytes_to_decimal_u parse_loop get_inode_group_offset
    get_inode_offset_in_group read_bytes set_byte
none_lost zero lo hi = absurd (omega arith)
none_lost (suc zero) lo hi = inl refl
none_lost (suc (suc zero)) lo hi = inr (inr (λ e. absurd (omega arith)))
none_lost (suc (suc (suc zero))) lo hi = inl refl
none_lost (suc (suc (suc (suc zero)))) lo hi = inl refl
none_lost (suc (suc (suc (suc (suc j))))) lo hi = absurd (omega arith)

pub root_owns : tree_owned damaged_loaded 2 2 ≡ some (6 ∷ [])
unfolding tree_owned blocks_owned entries_owned both_lists inode_is_lnk inode_is_reg inode_at
    block_address block_sector table_start table_offset read_group_desc parse_inode parse_pointers
    parse_bytes_to_decimal_u parse_loop get_inode_group_offset get_inode_offset_in_group
    read_dir_entry_in_block read_bytes set_byte
root_owns = refl

pub damaged-IsBytes : IsBytes damaged.byte
unfolding set_byte
damaged-IsBytes i = ground (arith, from_list-IsBytes clean_bytes refl i)

pub sixth : block_address damaged_loaded 6 ≡ 6144
unfolding block_address block_sector
sixth = refl

pub bitmap_place : bitmap_address damaged_loaded 0 ≡ 3072
unfolding block_address block_sector read_group_desc parse_bytes_to_decimal_u parse_loop read_bytes
bitmap_place = refl

pub bitmap_width : bitmap_bytes damaged_loaded ≡ 1024
unfolding bitmap_bytes get_group_block_bitmap_block_num
bitmap_width = refl

pub bitmaps_beside :
    (g : ℕ)
    → g < 1
    → BesideInodes damaged_loaded
        (bitmap_address damaged_loaded g)
        (bitmap_address damaged_loaded g + bitmap_bytes damaged_loaded)
bitmaps_beside zero lt j lo hi = omega (arith, bitmap_place, bitmap_width, address j lo hi)
bitmaps_beside (suc g) lt j lo hi = absurd (omega arith)

pub repairable : IsRepairable 2 damaged_loaded (2 ∷ 2 ∷ []) (6 ∷ []) inode_bitmap
unfolding get_block_group_num
repairable = record {
  sectors = omega arith;
  inodes = with_image-InodesOnDisk loaded damaged [] 4 refl loaded-InodesOnDisk;
  dots = dots;
  referred = referred;
  allocated = allocated;
  none_lost = none_lost;
  bitmaps = HasBlockBitmap-with_image loaded damaged [] refl loaded-HasBlockBitmap;
  owned = root_owns;
  usable = omega (arith, sixth);
  image_bytes = damaged-IsBytes;
  stray_bytes = λ i. omega arith;
  blocks_beside = (λ j lo hi. omega (arith, sixth, address j lo hi), tt);
  bitmaps_beside = bitmaps_beside;
}
