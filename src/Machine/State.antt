-- ===== src/Machine/State.antt =====
-- The structures of ext2_fs.h and common.h, and the state of the program.
use my_fsck.Base.{ℕ, List, Bool}
use my_fsck.Machine.Memory.{Bytes}

-- `PartitionEntry` of common.h.
pub record PartitionEntry : Type 0 where
  pub type : ℕ
  pub start : ℕ
  pub length : ℕ

-- `struct ext2_super_block`, as far as `read_super_block` fills it. The two signed fields are kept
-- as bit patterns.
pub record SuperBlock : Type 0 where
  pub s_inodes_count : ℕ
  pub s_blocks_count : ℕ
  pub s_r_blocks_count : ℕ
  pub s_free_blocks_count : ℕ
  pub s_free_inodes_count : ℕ
  pub s_first_data_block : ℕ
  pub s_log_block_size : ℕ
  pub s_log_frag_size : ℕ
  pub s_blocks_per_group : ℕ
  pub s_frags_per_group : ℕ
  pub s_inodes_per_group : ℕ
  pub s_mtime : ℕ
  pub s_wtime : ℕ
  pub s_mnt_count : ℕ
  pub s_max_mnt_count : ℕ
  pub s_magic : ℕ
  pub s_state : ℕ
  pub s_errors : ℕ
  pub s_minor_rev_level : ℕ
  pub s_lastcheck : ℕ
  pub s_checkinterval : ℕ
  pub s_creator_os : ℕ
  pub s_rev_level : ℕ
  pub s_def_resuid : ℕ
  pub s_def_resgid : ℕ
  pub s_first_ino : ℕ
  pub s_inode_size : ℕ
  pub s_block_group_nr : ℕ
  pub s_feature_compat : ℕ
  pub s_feature_incompat : ℕ
  pub s_feature_ro_compat : ℕ

-- `struct ext2_group_desc`, without its padding.
pub record GroupDesc : Type 0 where
  pub bg_block_bitmap : ℕ
  pub bg_inode_bitmap : ℕ
  pub bg_inode_table : ℕ
  pub bg_free_blocks_count : ℕ
  pub bg_free_inodes_count : ℕ
  pub bg_used_dirs_count : ℕ

-- `struct ext2_inode`, as far as `read_inode` fills it.
pub record Inode : Type 0 where
  pub i_mode : ℕ
  pub i_uid : ℕ
  pub i_size : ℕ
  pub i_atime : ℕ
  pub i_ctime : ℕ
  pub i_mtime : ℕ
  pub i_dtime : ℕ
  pub i_gid : ℕ
  pub i_links_count : ℕ
  pub i_blocks : ℕ
  pub i_flags : ℕ
  pub i_block : List ℕ

-- `struct ext2_dir_entry_2`; the name is the C string in its array.
pub record DirEntry : Type 0 where
  pub inode : ℕ
  pub rec_len : ℕ
  pub name_len : ℕ
  pub file_type : ℕ
  pub name : List ℕ

-- The file behind `device`. Behind its end there are no bytes.
pub record Image : Type 0 where
  pub size : ℕ
  pub byte : Bytes

-- What the program prints.
pub data Message : Type 0 where
  writing_sectors : (start count : ℕ) → Message
  dir_entry_error : (parent : ℕ) (name : List ℕ) (inode : ℕ) → Message
  unreferenced : (inode : ℕ) → Message
  no_lost_found : Message
  link_count : (inode found should : ℕ) → Message
  block_difference : (block : ℕ) → Message
  too_large : Message
  entry_name : (inode : ℕ) (name : List ℕ) → Message
  partition_info : (type start length : ℕ) → Message
  minus_one : Message
  characters : List ℕ → Message
  usage cannot_open : Message

-- The globals of common.h, the image and the output. `stray` is what stands in memory that the
-- program has not written, and `stray_minus_one` says whether the value that a function leaves
-- behind when it ends without a `return` happens to be -1.
pub record Fsck : Type 0 where
  pub image : Image
  pub partition_entry : PartitionEntry
  pub super_block : SuperBlock
  pub block_size : ℕ
  pub group_desc_block : Bytes
  pub output : List Message
  pub stray : Bytes
  pub stray_minus_one : Bool
