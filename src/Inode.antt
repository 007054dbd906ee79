-- ===== src/Inode.antt =====
-- inode.c: where an inode stands, reading it, writing its link count, and the inode bitmap.
pub mod Keeps
pub mod Frame
pub mod Layout
pub mod Location
pub mod Read
pub mod Stored
pub mod Write
pub mod Update
use my_fsck.Base.{
  ℕ, zero, suc, ◌+◌, ◌*◌, ◌/◌, ◌%◌, List, [], ◌∷◌, not, u16, u32, sub32, bit_of, ◌==◌, bit_and,
}
use my_fsck.Machine.Memory.{Bytes, shift, splice}
use my_fsck.Machine.State.{Inode, Fsck}
use my_fsck.Machine.Run.{M, pure, gets, require, ◌>>=◌, ◌>>◌}
use my_fsck.Util.{parse_bytes_to_decimal_u, write_number_into_block}
use my_fsck.Disk.{read_blocks, write_block}
use my_fsck.SuperBlock.{read_group_desc}

abbrev pub inode_size : ℕ
inode_size = 128

-- `EXT2_N_BLOCKS`.
abbrev pub n_blocks : ℕ
n_blocks = 15

unfoldable pub get_inode_group_num : Fsck → ℕ
get_inode_group_num s =
    let inodes_per_group = s.super_block.s_inodes_per_group in
    sub32 (u32 (s.super_block.s_inodes_count + inodes_per_group)) 1 / inodes_per_group

unfoldable pub get_group_inode_block_num : Fsck → ℕ
get_group_inode_block_num s =
    sub32 (u32 (u32 (s.super_block.s_inodes_per_group * inode_size) + s.block_size)) 1
    / s.block_size

unfoldable pub get_group_inode_bitmap_block_num : Fsck → ℕ
get_group_inode_bitmap_block_num s =
    let bits_num = sub32 (u32 (s.super_block.s_inodes_per_group + 8)) 1 / 8 in
    sub32 (u32 (bits_num + s.block_size)) 1 / s.block_size

unfoldable pub get_inode_bitmap_block_num : Fsck → ℕ
get_inode_bitmap_block_num s = u32 (get_inode_group_num s * get_group_inode_bitmap_block_num s)

unfoldable pub get_inode_table_block_num : Fsck → ℕ
get_inode_table_block_num s = u32 (get_inode_group_num s * get_group_inode_block_num s)

-- The group of an inode; inodes count from 1.
unfoldable pub get_inode_group_offset : Fsck → ℕ → ℕ
get_inode_group_offset s inode_num = sub32 inode_num 1 / s.super_block.s_inodes_per_group

unfoldable pub get_inode_offset_in_group : Fsck → ℕ → ℕ
get_inode_offset_in_group s inode_num = sub32 inode_num 1 % s.super_block.s_inodes_per_group

unfoldable pub get_file_type_from_inode : Inode → ℕ
get_file_type_from_inode inode = bit_and inode.i_mode 0xF000

-- Where the fields stand in a table of inodes; `offset` is that of the inode.
unfoldable pub parse_pointers : Bytes → ℕ → ℕ → ℕ → List ℕ
parse_pointers inode_table offset zero i = []
parse_pointers inode_table offset (suc left) i =
    parse_bytes_to_decimal_u inode_table (offset + 40 + i * 4) 4
    ∷ parse_pointers inode_table offset left (i + 1)

unfoldable pub parse_inode : Bytes → ℕ → Inode
parse_inode inode_table offset = record {
  i_mode = u16 (parse_bytes_to_decimal_u inode_table offset 2);
  i_uid = u16 (parse_bytes_to_decimal_u inode_table (offset + 2) 2);
  i_size = parse_bytes_to_decimal_u inode_table (offset + 4) 4;
  i_atime = parse_bytes_to_decimal_u inode_table (offset + 8) 4;
  i_ctime = parse_bytes_to_decimal_u inode_table (offset + 12) 4;
  i_mtime = parse_bytes_to_decimal_u inode_table (offset + 16) 4;
  i_dtime = parse_bytes_to_decimal_u inode_table (offset + 20) 4;
  i_gid = u16 (parse_bytes_to_decimal_u inode_table (offset + 24) 2);
  i_links_count = u16 (parse_bytes_to_decimal_u inode_table (offset + 26) 2);
  i_blocks = parse_bytes_to_decimal_u inode_table (offset + 28) 4;
  i_flags = parse_bytes_to_decimal_u inode_table (offset + 32) 4;
  i_block = parse_pointers inode_table offset n_blocks 0;
}

-- The inode table of a group, into `group_inode_table`.
unfoldable pub read_group_inode_table : ℕ → Bytes → M Bytes
read_group_inode_table block_offset group_inode_table = do
  block_size ← gets (λ s. s.block_size)
  inode_block_per_group ← gets get_group_inode_block_num
  read_blocks inode_block_per_group block_offset 0 block_size group_inode_table

-- A division by zero stops the program.
unfoldable pub check_divisors : M (Unit {0})
check_divisors = do
  s ← gets (λ s. s)
  require (not (s.super_block.s_inodes_per_group == 0))
  require (not (s.block_size == 0))

unfoldable pub read_inode : ℕ → M Inode
read_inode inode_num = do
  check_divisors
  group_desc ← gets (λ s. read_group_desc s (get_inode_group_offset s inode_num))
  stray ← gets (λ s. s.stray)
  inode_table ← read_group_inode_table group_desc.bg_inode_table stray
  offset ← gets (λ s. u32 (get_inode_offset_in_group s inode_num * inode_size))
  pure (parse_inode inode_table offset)

-- Only the link count is written, in the block of the table that holds the inode.
unfoldable pub write_inode : ℕ → ℕ → M (Unit {0})
write_inode inode_num links_count = do
  check_divisors
  group_desc ← gets (λ s. read_group_desc s (get_inode_group_offset s inode_num))
  stray ← gets (λ s. s.stray)
  inode_table ← read_group_inode_table group_desc.bg_inode_table stray
  offset ← gets (λ s. u32 (get_inode_offset_in_group s inode_num * inode_size))
  block_size ← gets (λ s. s.block_size)
  let index = offset / block_size
  let offset_in_block = u32 (offset % block_size + 26)
  let block =
      write_number_into_block (shift inode_table (u32 (index * block_size))) offset_in_block
        links_count 2
  write_block (u32 (group_desc.bg_inode_table + index)) block_size block

unfoldable pub get_inode_bitmap_in_group : Bytes → ℕ → ℕ → M Bytes
get_inode_bitmap_in_group inode_bitmap group_id block_num = do
  group_desc ← gets (λ s. read_group_desc s group_id)
  block_size ← gets (λ s. s.block_size)
  read_blocks block_num group_desc.bg_inode_bitmap 0 block_size inode_bitmap

-- The groups from `i` on, `left` of them, each bitmap behind the one before it.
unfoldable pub inode_bitmap_loop : ℕ → ℕ → ℕ → Bytes → M Bytes
inode_bitmap_loop zero block_num i bitmap = pure bitmap
inode_bitmap_loop (suc left) block_num i bitmap = do
  block_size ← gets (λ s. s.block_size)
  let off = u32 (u32 (i * block_num) * block_size)
  sub ← get_inode_bitmap_in_group (shift bitmap off) i block_num
  inode_bitmap_loop left block_num (i + 1) (splice bitmap off sub)

unfoldable pub get_inode_bitmap_in_partition : M Bytes
get_inode_bitmap_in_partition = do
  check_divisors
  group_num ← gets get_inode_group_num
  block_num ← gets get_group_inode_bitmap_block_num
  stray ← gets (λ s. s.stray)
  inode_bitmap_loop group_num block_num 0 stray

unfoldable pub get_inode_alloc_bit : Bytes → ℕ → ℕ
get_inode_alloc_bit inode_bitmap inode_num =
    let index = sub32 inode_num 1 / 8 in
    let offset = sub32 inode_num 1 % 8 in bit_of (inode_bitmap index) offset
