-- ===== src/Correct/Pass2/Frame.antt =====
-- Pass 2 changes nothing before the partition.
use my_fsck.Base.{ℕ, zero, suc, ◌+◌, ◌&&◌, ◌==◌}
use my_fsck.Machine.Memory.{Bytes}
use my_fsck.Machine.State.{unreferenced}
use my_fsck.Machine.Frame.{
  IsFramed, Frames-bind, bind-IsFramed, if-IsFramed, pure-IsFramed, print-IsFramed,
}
use my_fsck.Inode.{get_inode_alloc_bit}
use my_fsck.Inode.Frame.{read_inode-IsFramed, get_inode_bitmap_in_partition-IsFramed}
use my_fsck.Correct.Pass1.{inode_is_dir}
use my_fsck.Correct.Links.{calloc}
use my_fsck.Correct.Links.Frame.{directory_traversor-IsFramed}
use my_fsck.Correct.LostFound.{root_inode_num}
use my_fsck.Correct.LostFound.Frame.{add_to_lost_found-IsFramed}
use my_fsck.Correct.Pass2.{pass2_inode, pass2_loop, pass2}

pass2_inode-IsFramed :
    (depth : ℕ) (bitmap t : Bytes) (i : ℕ) → IsFramed (pass2_inode depth bitmap t i)
unfolding pass2_inode
pass2_inode-IsFramed depth bitmap t i = bind-IsFramed (read_inode-IsFramed i) (λ inode.
    if-IsFramed (inode.i_links_count == 0) (pure-IsFramed t) (
      if-IsFramed (get_inode_alloc_bit bitmap i == 1 && t i == 0)
        (bind-IsFramed (print-IsFramed (unreferenced i)) (λ _.
          bind-IsFramed
            (if-IsFramed (inode_is_dir inode) (directory_traversor-IsFramed depth t i)
              (pure-IsFramed t))
            (λ t'. bind-IsFramed (add_to_lost_found-IsFramed i) (λ _. pure-IsFramed t'))))
        (pure-IsFramed t)))

pass2_loop-IsFramed :
    (depth left i : ℕ) (bitmap t : Bytes) → IsFramed (pass2_loop depth left i bitmap t)
unfolding pass2_loop
pass2_loop-IsFramed depth zero i bitmap t = pure-IsFramed tt
pass2_loop-IsFramed depth (suc left) i bitmap t =
    bind-IsFramed (pass2_inode-IsFramed depth bitmap t i)
      (λ t'. pass2_loop-IsFramed depth left (i + 1) bitmap t')

pub pass2-IsFramed : (depth : ℕ) → IsFramed (pass2 depth)
unfolding pass2
pass2-IsFramed depth s =
    Frames-bind _
      (directory_traversor-IsFramed depth (calloc s.stray (s.super_block.s_inodes_count + 1))
        root_inode_num s)
      (λ t.
        bind-IsFramed get_inode_bitmap_in_partition-IsFramed
          (λ bitmap. pass2_loop-IsFramed depth s.super_block.s_inodes_count 1 bitmap t))
