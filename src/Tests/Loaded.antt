-- ===== src/Tests/Loaded.antt =====
-- A small file system without errors, in blocks of 1024 bytes, as the program loads and reads it.
use my_fsck.Base.{ℕ, ◌≡◌, refl, arith, List, [], ◌∷◌, true}
use my_fsck.Machine.Memory.{Bytes, set_byte, splice}
use my_fsck.Machine.State.{Fsck}
use my_fsck.Machine.Run.{ok}
use my_fsck.Util.{parse_loop, parse_bytes_to_decimal_u, parse_bytes_to_decimal_s, get_block_size}
use my_fsck.Disk.{read_bytes, read_sectors, read_block, read_blocks, block_sector}
use my_fsck.Disk.Blocks.{block_address}
use my_fsck.SuperBlock.{parse_super_block, read_super_block, read_group_desc_block, read_group_desc}
use my_fsck.Inode.{
  get_inode_group_offset, get_inode_offset_in_group, get_group_inode_block_num,
  get_group_inode_bitmap_block_num, check_divisors, read_inode, read_group_inode_table, parse_inode,
  parse_pointers, get_inode_bitmap_in_partition, inode_bitmap_loop, get_inode_bitmap_in_group,
  get_inode_group_num,
}
use my_fsck.Inode.Location.{table_start, table_offset}
use my_fsck.Inode.Read.{inode_at}
use my_fsck.DataBlock.{
  get_block_group_num, get_group_block_bitmap_block_num, get_block_bitmap_in_partition,
  block_bitmap_loop, get_block_bitmap_in_group, check_block_divisors,
}
use my_fsck.Dir.{read_dir_entry_in_block}
use my_fsck.Partition.Table.{read_partition_info-slot}
use my_fsck.Partition.{read_partition_info}
use my_fsck.Util.Little.{little}
use my_fsck.Correct.Links.{
  calloc, bump, traverse_entry, traverse_entries, traverse_blocks, directory_traversor,
}
use my_fsck.Correct.FileBlocks.{
  get_true_block_bitmap, true_blocks, true_entries, mark, inode_is_lnk, inode_is_reg,
}
use my_fsck.Correct.Pass1.Right.{entry_right, entries_right, blocks_right, dots_right}
use my_fsck.Correct.Partitions.{load_partition}
use my_fsck.Tests.Sample.{disk, from_list}

-- The super block is block 1, the group descriptor block 2, the bitmaps blocks 3 and 4, the inode
-- table block 5, and the root directory block 6.
abbrev pub clean_bytes : List (ℕ × ℕ)
clean_bytes =
    (450, 0x83)
    ∷ (458, 16)
    ∷ (1024, 4)
    ∷ (1028, 8)
    ∷ (1044, 1)
    ∷ (1056, 8)
    ∷ (1060, 8)
    ∷ (1064, 4)
    ∷ (1080, 0x53)
    ∷ (1081, 0xEF)
    ∷ (2048, 3)
    ∷ (2052, 4)
    ∷ (2056, 5)
    ∷ (3072, 0x3F)
    ∷ (4096, 3)
    ∷ (5248, 0xED)
    ∷ (5249, 0x41)
    ∷ (5274, 2)
    ∷ (5288, 6)
    ∷ (6144, 2)
    ∷ (6148, 12)
    ∷ (6150, 1)
    ∷ (6151, 2)
    ∷ (6152, 46)
    ∷ (6156, 2)
    ∷ (6160, 0xF4)
    ∷ (6161, 3)
    ∷ (6162, 2)
    ∷ (6163, 2)
    ∷ (6164, 46)
    ∷ (6165, 46)
    ∷ []

abbrev pub before : Fsck
before = record disk { image = record { size = 8192; byte = from_list clean_bytes } }

abbrev pub chosen : Fsck
chosen = record before { partition_entry = record { type = 0x83; start = 0; length = 16 } }

abbrev pub loaded : Fsck
loaded = record chosen {
  super_block = record {
    s_inodes_count = 4;
    s_blocks_count = 8;
    s_r_blocks_count = 0;
    s_free_blocks_count = 0;
    s_free_inodes_count = 0;
    s_first_data_block = 1;
    s_log_block_size = 0;
    s_log_frag_size = 0;
    s_blocks_per_group = 8;
    s_frags_per_group = 8;
    s_inodes_per_group = 4;
    s_mtime = 0;
    s_wtime = 0;
    s_mnt_count = 0;
    s_max_mnt_count = 0;
    s_magic = 0xEF53;
    s_state = 0;
    s_errors = 0;
    s_minor_rev_level = 0;
    s_lastcheck = 0;
    s_checkinterval = 0;
    s_creator_os = 0;
    s_rev_level = 0;
    s_def_resuid = 0;
    s_def_resgid = 0;
    s_first_ino = 0;
    s_inode_size = 0;
    s_block_group_nr = 0;
    s_feature_compat = 0;
    s_feature_incompat = 0;
    s_feature_ro_compat = 0;
  };
  block_size = 1024;
  group_desc_block = read_bytes chosen.image 2048 1024 chosen.stray;
}

pub partition_chosen : read_partition_info 0 1 before ≡ ok true chosen
unfolding little
partition_chosen = read_partition_info-slot 0 1 before (omega arith) (omega arith) (omega arith)

pub partition_loaded : load_partition chosen ≡ ok tt loaded
unfolding load_partition read_super_block read_group_desc_block read_block read_sectors read_bytes
    block_sector parse_super_block parse_bytes_to_decimal_u parse_bytes_to_decimal_s parse_loop
    get_block_size
partition_loaded = refl

-- Of inode 2 there are two references.
abbrev pub root_references : Bytes
root_references = bump (bump (calloc loaded.stray 5) 2) 2

abbrev pub used_blocks : Bytes
used_blocks = set_byte (calloc loaded.stray 9) 6 1

pub root_referred :
    directory_traversor 2 (calloc loaded.stray 5) 2 loaded ≡ ok root_references loaded
unfolding directory_traversor traverse_blocks traverse_entries traverse_entry read_inode
    check_divisors read_group_inode_table read_blocks read_block read_sectors read_bytes
    block_sector parse_inode parse_pointers read_dir_entry_in_block parse_bytes_to_decimal_u
    parse_loop read_group_desc get_inode_group_offset get_inode_offset_in_group
    get_group_inode_block_num splice
root_referred = refl

pub root_used : get_true_block_bitmap 2 (calloc loaded.stray 9) 2 loaded ≡ ok used_blocks loaded
unfolding get_true_block_bitmap true_blocks true_entries mark set_byte inode_is_lnk inode_is_reg
    check_divisors read_inode get_inode_group_offset get_inode_offset_in_group
    get_group_inode_block_num read_group_inode_table read_blocks read_block read_sectors read_bytes
    block_sector read_group_desc parse_bytes_to_decimal_u parse_loop parse_inode parse_pointers
    read_dir_entry_in_block splice
root_used = refl

-- The bitmaps as read: block 3 and block 4, each behind nothing.
abbrev pub block_bitmap : Bytes
block_bitmap =
    splice loaded.stray 0 (splice loaded.stray 0 (read_bytes loaded.image 3072 1024 loaded.stray))

abbrev pub inode_bitmap : Bytes
inode_bitmap =
    splice loaded.stray 0 (splice loaded.stray 0 (read_bytes loaded.image 4096 1024 loaded.stray))

pub blocks_mapped : get_block_bitmap_in_partition loaded ≡ ok block_bitmap loaded
unfolding get_block_bitmap_in_partition check_block_divisors block_bitmap_loop
    get_block_bitmap_in_group get_block_group_num get_group_block_bitmap_block_num read_blocks
    read_block read_sectors read_bytes block_sector read_group_desc parse_bytes_to_decimal_u
    parse_loop splice
blocks_mapped = refl

pub inodes_mapped : get_inode_bitmap_in_partition loaded ≡ ok inode_bitmap loaded
unfolding get_inode_bitmap_in_partition check_divisors inode_bitmap_loop get_inode_bitmap_in_group
    get_inode_group_num get_group_inode_bitmap_block_num read_blocks read_block read_sectors
    read_bytes block_sector read_group_desc parse_bytes_to_decimal_u parse_loop splice
inodes_mapped = refl

pub root_dots : dots_right loaded 2 2 2 ≡ true
unfolding dots_right blocks_right entries_right entry_right inode_at block_address block_sector
    table_start table_offset read_group_desc parse_inode parse_pointers parse_bytes_to_decimal_u
    parse_loop get_inode_group_offset get_inode_offset_in_group read_dir_entry_in_block read_bytes
root_dots = refl
