-- ===== src/Correct/Pass4/Frame.antt =====
-- Pass 4 changes nothing before the partition.
use my_fsck.Base.{ℕ, ◌+◌, ◌/◌, List, [], ◌∷◌, ltb, sub32, Bool, true, false}
use my_fsck.Machine.State.{block_difference}
use my_fsck.Machine.Run.{M, when}
use my_fsck.Machine.Frame.{
  IsFramed, Frames-bind, bind-IsFramed, pure-IsFramed, print-IsFramed, require-IsFramed,
}
use my_fsck.DataBlock.Frame.{
  get_block_bitmap_in_partition-IsFramed, write_block_bitmap_in_partition-IsFramed,
}
use my_fsck.Correct.Links.{calloc}
use my_fsck.Correct.LostFound.{root_inode_num}
use my_fsck.Correct.FileBlocks.Frame.{get_true_block_bitmap-IsFramed}
use my_fsck.Correct.Pass4.{check_bitmap, report_blocks, pass4}

report_blocks-IsFramed : (size : ℕ) (blocks : List ℕ) → IsFramed (report_blocks size blocks)
unfolding report_blocks
report_blocks-IsFramed size [] = pure-IsFramed tt
report_blocks-IsFramed size (b ∷ blocks) = bind-IsFramed (print-IsFramed (block_difference b)) (λ _.
    bind-IsFramed (require-IsFramed (ltb (sub32 b 1 / 8) size))
      (λ _. report_blocks-IsFramed size blocks))

when-IsFramed : (b : Bool) (m : M (Unit {0})) → IsFramed m → IsFramed (when b m)
when-IsFramed true m f = f
when-IsFramed false m f = pure-IsFramed tt

pub pass4-IsFramed : (depth : ℕ) → IsFramed (pass4 depth)
unfolding pass4
pass4-IsFramed depth = bind-IsFramed get_block_bitmap_in_partition-IsFramed (λ bitmap s.
    Frames-bind _
      (get_true_block_bitmap-IsFramed depth (calloc s.stray (s.super_block.s_blocks_count + 1))
        root_inode_num s)
      (λ t u.
        let c = check_bitmap s t bitmap in
        Frames-bind _ (report_blocks-IsFramed _ c.reported u)
          (λ _. when-IsFramed c.found_error _ (write_block_bitmap_in_partition-IsFramed c.bitmap))))
