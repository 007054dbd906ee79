-- ===== src/DataBlock/Frame.antt =====
-- The functions of dataBlock.c change nothing before the partition.
use my_fsck.Base.{ℕ, zero, suc, ◌+◌, ◌*◌, not, ◌==◌, u32}
use my_fsck.Machine.Memory.{Bytes, shift, splice}
use my_fsck.Machine.Frame.{IsFramed, Frames-bind, bind-IsFramed, pure-IsFramed, require-IsFramed}
use my_fsck.Disk.Frame.{read_blocks-IsFramed, write_blocks-IsFramed}
use my_fsck.SuperBlock.{read_group_desc}
use my_fsck.DataBlock.{
  check_block_divisors, get_block_bitmap_in_group, block_bitmap_loop, get_block_bitmap_in_partition,
  get_block_group_num, get_group_block_bitmap_block_num, write_block_bitmap_in_group,
  write_bitmap_loop, write_block_bitmap_in_partition,
}

check_block_divisors-IsFramed : IsFramed check_block_divisors
unfolding check_block_divisors
check_block_divisors-IsFramed s =
    Frames-bind _ (require-IsFramed (not (s.super_block.s_blocks_per_group == 0)) s)
      (λ _. require-IsFramed (not (s.block_size == 0)))

block_bitmap_loop-IsFramed : (left n i : ℕ) (m : Bytes) → IsFramed (block_bitmap_loop left n i m)
unfolding block_bitmap_loop get_block_bitmap_in_group
block_bitmap_loop-IsFramed zero n i m s = pure-IsFramed m s
block_bitmap_loop-IsFramed (suc left) n i m s =
    let off = u32 (u32 (i * n) * s.block_size) in
    Frames-bind _
      (read_blocks-IsFramed n ((read_group_desc s i).bg_block_bitmap) 0 s.block_size (shift m off)
        s)
      (λ sub. block_bitmap_loop-IsFramed left n (i + 1) (splice m off sub))

pub get_block_bitmap_in_partition-IsFramed : IsFramed get_block_bitmap_in_partition
unfolding get_block_bitmap_in_partition
get_block_bitmap_in_partition-IsFramed = bind-IsFramed check_block_divisors-IsFramed (λ _ s.
    block_bitmap_loop-IsFramed (get_block_group_num s) (get_group_block_bitmap_block_num s) 0
      s.stray s)

write_bitmap_loop-IsFramed : (left n i : ℕ) (m : Bytes) → IsFramed (write_bitmap_loop left n i m)
unfolding write_bitmap_loop write_block_bitmap_in_group
write_bitmap_loop-IsFramed zero n i m s = pure-IsFramed tt s
write_bitmap_loop-IsFramed (suc left) n i m s =
    let off = u32 (u32 (i * n) * s.block_size) in
    Frames-bind _
      (write_blocks-IsFramed n ((read_group_desc s i).bg_block_bitmap) 0 s.block_size (shift m off)
        s)
      (λ _. write_bitmap_loop-IsFramed left n (i + 1) m)

pub write_block_bitmap_in_partition-IsFramed :
    (m : Bytes) → IsFramed (write_block_bitmap_in_partition m)
unfolding write_block_bitmap_in_partition
write_block_bitmap_in_partition-IsFramed m = bind-IsFramed check_block_divisors-IsFramed (λ _ s.
    write_bitmap_loop-IsFramed (get_block_group_num s) (get_group_block_bitmap_block_num s) 0 m s)
