-- ===== src/Correct/Pass3/Right.antt =====
-- Link counts that are right are left alone by pass 3.
use my_fsck.Base.{ℕ, zero, suc, ◌+◌, ◌≤◌, ◌<◌, ◌≡◌, refl, arith, eq→==}
use my_fsck.Machine.Memory.{Bytes}
use my_fsck.Machine.State.{Fsck}
use my_fsck.Machine.Run.{ok}
use my_fsck.Inode.Read.{InodeOnDisk, inode_at, read_inode-ok}
use my_fsck.Correct.Links.{calloc, directory_traversor}
use my_fsck.Correct.LostFound.{root_inode_num}
use my_fsck.Correct.Pass3.{char_to_u32, pass3_inode, pass3_loop, pass3}

module _ (s : Fsck) (table : Bytes) where
  pass3_inode-right :
      (i : ℕ)
      → InodeOnDisk s i
      → (inode_at s i).i_links_count ≡ char_to_u32 (table i)
      → pass3_inode table i s ≡ ok tt s
  unfolding pass3_inode
  pass3_inode-right i h same =
      rw (read_inode-ok s i h, eq→== (inode_at s i).i_links_count (char_to_u32 (table i)) same) refl

  pass3_loop-right :
      (left i : ℕ)
      → ((j : ℕ)
          → i ≤ j
          → j < i + left
          → InodeOnDisk s j × ((inode_at s j).i_links_count ≡ char_to_u32 (table j)))
      → pass3_loop left i table s ≡ ok tt s
  unfolding pass3_loop
  pass3_loop-right zero i h = refl
  pass3_loop-right (suc left) i h =
      let here = h i (omega arith) (omega arith) in
      rw (pass3_inode-right i here.0 here.1)
        (pass3_loop-right left (i + 1) (λ j p q. h j (omega arith) (omega arith)))

  pub pass3-right :
      (depth : ℕ)
      → directory_traversor depth
          (calloc s.stray (s.super_block.s_inodes_count + 1))
          root_inode_num
          s
        ≡ ok table s
      → ((j : ℕ)
          → 1 ≤ j
          → j ≤ s.super_block.s_inodes_count
          → InodeOnDisk s j × ((inode_at s j).i_links_count ≡ char_to_u32 (table j)))
      → pass3 depth s ≡ ok tt s
  unfolding pass3
  pass3-right depth walked h =
      rw walked (pass3_loop-right s.super_block.s_inodes_count 1 (λ j p q. h j p (omega arith)))
