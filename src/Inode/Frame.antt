-- ===== src/Inode/Frame.antt =====
-- The functions of inode.c change nothing before the partition.
use my_fsck.Base.{ℕ, zero, suc, ◌+◌, ◌*◌, not, ◌==◌, u32}
use my_fsck.Machine.Memory.{Bytes, shift, splice}
use my_fsck.Machine.Frame.{
  IsFramed, Frames-bind, bind-IsFramed, pure-IsFramed, require-IsFramed, Keeps-IsFramed,
}
use my_fsck.Disk.Frame.{read_blocks-IsFramed, write_block-IsFramed}
use my_fsck.SuperBlock.{read_group_desc}
use my_fsck.Inode.{
  check_divisors, read_inode, write_inode, read_group_inode_table, get_group_inode_block_num,
  get_inode_group_offset, get_inode_bitmap_in_group, inode_bitmap_loop,
  get_inode_bitmap_in_partition, get_group_inode_bitmap_block_num, get_inode_group_num,
}
use my_fsck.Inode.Keeps.{read_inode-Keeps}

pub check_divisors-IsFramed : IsFramed check_divisors
unfolding check_divisors
check_divisors-IsFramed s =
    Frames-bind _ (require-IsFramed (not (s.super_block.s_inodes_per_group == 0)) s)
      (λ _. require-IsFramed (not (s.block_size == 0)))

pub read_inode-IsFramed : (n : ℕ) → IsFramed (read_inode n)
read_inode-IsFramed n = Keeps-IsFramed (read_inode n) (read_inode-Keeps n)

pub write_inode-IsFramed : (n c : ℕ) → IsFramed (write_inode n c)
unfolding write_inode read_group_inode_table
write_inode-IsFramed n c = bind-IsFramed check_divisors-IsFramed (λ _ s.
    Frames-bind _
      (read_blocks-IsFramed (get_group_inode_block_num s)
        ((read_group_desc s (get_inode_group_offset s n)).bg_inode_table) 0 s.block_size s.stray s)
      (λ table t. write_block-IsFramed _ t.block_size _ t))

inode_bitmap_loop-IsFramed : (left n i : ℕ) (m : Bytes) → IsFramed (inode_bitmap_loop left n i m)
unfolding inode_bitmap_loop get_inode_bitmap_in_group
inode_bitmap_loop-IsFramed zero n i m s = pure-IsFramed m s
inode_bitmap_loop-IsFramed (suc left) n i m s =
    let off = u32 (u32 (i * n) * s.block_size) in
    Frames-bind _
      (read_blocks-IsFramed n ((read_group_desc s i).bg_inode_bitmap) 0 s.block_size (shift m off)
        s)
      (λ sub. inode_bitmap_loop-IsFramed left n (i + 1) (splice m off sub))

pub get_inode_bitmap_in_partition-IsFramed : IsFramed get_inode_bitmap_in_partition
unfolding get_inode_bitmap_in_partition
get_inode_bitmap_in_partition-IsFramed = bind-IsFramed check_divisors-IsFramed (λ _ s.
    inode_bitmap_loop-IsFramed (get_inode_group_num s) (get_group_inode_bitmap_block_num s) 0
      s.stray s)
