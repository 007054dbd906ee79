-- ===== src/SuperBlock.antt =====
-- superBlock.c and groupDescriptor.c: the super block and the group descriptors.
pub mod Stored
use my_fsck.Base.{ℕ, ◌+◌, ◌*◌, u16, u32}
use my_fsck.Machine.Memory.{Bytes}
use my_fsck.Machine.State.{SuperBlock, GroupDesc, Fsck}
use my_fsck.Machine.Run.{M, gets, modify, ◌>>=◌, ◌>>◌}
use my_fsck.Util.{parse_bytes_to_decimal_u, parse_bytes_to_decimal_s, get_block_size}
use my_fsck.Disk.{read_block}

abbrev pub super_block_size : ℕ
super_block_size = 1024

abbrev pub group_desc_size : ℕ
group_desc_size = 32

-- The fields of the super block from the bytes that hold them.
unfoldable pub parse_super_block : Bytes → SuperBlock
parse_super_block contents = record {
  s_inodes_count = parse_bytes_to_decimal_u contents 0 4;
  s_blocks_count = parse_bytes_to_decimal_u contents 4 4;
  s_r_blocks_count = parse_bytes_to_decimal_u contents 8 4;
  s_free_blocks_count = parse_bytes_to_decimal_u contents 12 4;
  s_free_inodes_count = parse_bytes_to_decimal_u contents 16 4;
  s_first_data_block = parse_bytes_to_decimal_u contents 20 4;
  s_log_block_size = parse_bytes_to_decimal_u contents 24 4;
  s_log_frag_size = parse_bytes_to_decimal_u contents 28 4;
  s_blocks_per_group = parse_bytes_to_decimal_u contents 32 4;
  s_frags_per_group = parse_bytes_to_decimal_u contents 36 4;
  s_inodes_per_group = parse_bytes_to_decimal_u contents 40 4;
  s_mtime = parse_bytes_to_decimal_u contents 44 4;
  s_wtime = parse_bytes_to_decimal_u contents 48 4;
  s_mnt_count = u16 (parse_bytes_to_decimal_u contents 52 2);
  s_max_mnt_count = u16 (parse_bytes_to_decimal_s contents 54 2);
  s_magic = u16 (parse_bytes_to_decimal_u contents 56 2);
  s_state = u16 (parse_bytes_to_decimal_u contents 58 2);
  s_errors = u16 (parse_bytes_to_decimal_u contents 60 2);
  s_minor_rev_level = u16 (parse_bytes_to_decimal_u contents 62 2);
  s_lastcheck = parse_bytes_to_decimal_u contents 64 4;
  s_checkinterval = parse_bytes_to_decimal_u contents 68 4;
  s_creator_os = parse_bytes_to_decimal_u contents 72 4;
  s_rev_level = parse_bytes_to_decimal_u contents 76 4;
  s_def_resuid = u16 (parse_bytes_to_decimal_u contents 80 2);
  s_def_resgid = u16 (parse_bytes_to_decimal_u contents 82 2);
  s_first_ino = parse_bytes_to_decimal_u contents 84 4;
  s_inode_size = u16 (parse_bytes_to_decimal_u contents 88 2);
  s_block_group_nr = u16 (parse_bytes_to_decimal_u contents 90 2);
  s_feature_compat = parse_bytes_to_decimal_u contents 92 4;
  s_feature_incompat = parse_bytes_to_decimal_u contents 96 4;
  s_feature_ro_compat = parse_bytes_to_decimal_u contents 100 4;
}

-- The super block is block 1 of blocks of 1024 bytes.
unfoldable pub read_super_block : M (Unit {0})
read_super_block = do
  stray ← gets (λ s. s.stray)
  contents ← read_block 1 super_block_size stray
  modify (λ s. record s { super_block = parse_super_block contents })
  modify (λ s. record s { block_size = get_block_size s.super_block.s_log_block_size })

-- The group descriptors are block 2, in blocks of the file system's size.
unfoldable pub read_group_desc_block : Bytes → M Bytes
read_group_desc_block contents = do
  block_size ← gets (λ s. s.block_size)
  read_block 2 block_size contents

unfoldable pub read_group_desc : Fsck → ℕ → GroupDesc
read_group_desc s id =
    let offset = u32 (id * group_desc_size) in
    record {
      bg_block_bitmap = parse_bytes_to_decimal_u s.group_desc_block offset 4;
      bg_inode_bitmap = parse_bytes_to_decimal_u s.group_desc_block (u32 (offset + 4)) 4;
      bg_inode_table = parse_bytes_to_decimal_u s.group_desc_block (u32 (offset + 8)) 4;
      bg_free_blocks_count =
          u16 (parse_bytes_to_decimal_u s.group_desc_block (u32 (offset + 12)) 2);
      bg_free_inodes_count =
          u16 (parse_bytes_to_decimal_u s.group_desc_block (u32 (offset + 14)) 2);
      bg_used_dirs_count = u16 (parse_bytes_to_decimal_u s.group_desc_block (u32 (offset + 16)) 2);
    }
