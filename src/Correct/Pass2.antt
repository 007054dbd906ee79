-- ===== src/Correct/Pass2.antt =====
-- Pass 2 of correct.c: allocated inodes that no entry names.
pub mod Frame
pub mod Right
use my_fsck.Base.{ℕ, zero, suc, ◌+◌, ◌&&◌, ◌==◌, if◌then◌else◌}
use my_fsck.Machine.Memory.{Bytes}
use my_fsck.Machine.State.{unreferenced}
use my_fsck.Machine.Run.{M, pure, gets, print, ◌>>=◌, ◌>>◌}
use my_fsck.Inode.{read_inode, get_inode_bitmap_in_partition, get_inode_alloc_bit}
use my_fsck.Correct.Pass1.{inode_is_dir}
use my_fsck.Correct.Links.{calloc, directory_traversor}
use my_fsck.Correct.LostFound.{root_inode_num, add_to_lost_found}

-- What the loop does with inode `i`.
unfoldable pub pass2_inode : (depth : ℕ) → Bytes → Bytes → ℕ → M Bytes
pass2_inode depth bitmap table i = do
  inode ← read_inode i
  if inode.i_links_count == 0
      then pure table
      else (if get_inode_alloc_bit bitmap i == 1 && table i == 0
          then (do
            print (unreferenced i)
            table' ← (if inode_is_dir inode then directory_traversor depth table i else pure table)
            add_to_lost_found i
            pure table')
          else pure table)

-- The loop from inode `i` on, with `left` rounds to go.
unfoldable pub pass2_loop : (depth left i : ℕ) → Bytes → Bytes → M (Unit {0})
pass2_loop depth zero i bitmap table = pure tt
pass2_loop depth (suc left) i bitmap table = do
  table' ← pass2_inode depth bitmap table i
  pass2_loop depth left (i + 1) bitmap table'

unfoldable pub pass2 : ℕ → M (Unit {0})
pass2 depth = do
  inodes ← gets (λ s. s.super_block.s_inodes_count)
  stray ← gets (λ s. s.stray)
  table ← directory_traversor depth (calloc stray (inodes + 1)) root_inode_num
  bitmap ← get_inode_bitmap_in_partition
  pass2_loop depth inodes 1 bitmap table
