-- ===== src/Inode/Keeps.antt =====
-- `read_inode` leaves the state alone.
use my_fsck.Base.{ℕ, not, ◌==◌}
use my_fsck.Machine.State.{Fsck}
use my_fsck.Machine.Run.{Keeps, kept, Keeps-bind, Keeps-require}
use my_fsck.Disk.Reads.{read_blocks-Keeps}
use my_fsck.SuperBlock.{read_group_desc}
use my_fsck.Inode.{
  check_divisors, read_group_inode_table, read_inode, get_group_inode_block_num,
  get_inode_group_offset,
}

pub read_inode-Keeps : (n : ℕ) (s : Fsck) → Keeps s (read_inode n s)
unfolding read_inode check_divisors read_group_inode_table
read_inode-Keeps n s =
    Keeps-bind _
      (Keeps-bind _ (Keeps-require (not (s.super_block.s_inodes_per_group == 0)) s)
        (λ _. Keeps-require (not (s.block_size == 0)) s))
      (λ _.
        Keeps-bind _
          (read_blocks-Keeps (get_group_inode_block_num s)
            ((read_group_desc s (get_inode_group_offset s n)).bg_inode_table) 0 s.block_size s.stray
            s)
          (λ _. kept))
