-- ===== src/Correct/Pass3/Frame.antt =====
-- Pass 3 changes nothing before the partition.
use my_fsck.Base.{ℕ, zero, suc, ◌+◌, ◌==◌}
use my_fsck.Machine.Memory.{Bytes}
use my_fsck.Machine.State.{link_count}
use my_fsck.Machine.Frame.{
  IsFramed, Frames-bind, bind-IsFramed, if-IsFramed, pure-IsFramed, print-IsFramed,
}
use my_fsck.Inode.Frame.{read_inode-IsFramed, write_inode-IsFramed}
use my_fsck.Correct.Links.{calloc}
use my_fsck.Correct.Links.Frame.{directory_traversor-IsFramed}
use my_fsck.Correct.LostFound.{root_inode_num}
use my_fsck.Correct.Pass3.{char_to_u32, pass3_inode, pass3_loop, pass3}

pass3_inode-IsFramed : (t : Bytes) (i : ℕ) → IsFramed (pass3_inode t i)
unfolding pass3_inode
pass3_inode-IsFramed t i = bind-IsFramed (read_inode-IsFramed i) (λ inode.
    if-IsFramed (inode.i_links_count == char_to_u32 (t i)) (pure-IsFramed tt) (
      bind-IsFramed (print-IsFramed (link_count i inode.i_links_count (char_to_u32 (t i))))
        (λ _. write_inode-IsFramed i (char_to_u32 (t i)))))

pass3_loop-IsFramed : (left i : ℕ) (t : Bytes) → IsFramed (pass3_loop left i t)
unfolding pass3_loop
pass3_loop-IsFramed zero i t = pure-IsFramed tt
pass3_loop-IsFramed (suc left) i t =
    bind-IsFramed (pass3_inode-IsFramed t i) (λ _. pass3_loop-IsFramed left (i + 1) t)

pub pass3-IsFramed : (depth : ℕ) → IsFramed (pass3 depth)
unfolding pass3
pass3-IsFramed depth s =
    Frames-bind _
      (directory_traversor-IsFramed depth (calloc s.stray (s.super_block.s_inodes_count + 1))
        root_inode_num s)
      (λ t. pass3_loop-IsFramed s.super_block.s_inodes_count 1 t)
