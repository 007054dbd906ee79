-- ===== src/Correct/Pass2/Right.antt =====
-- Where no inode is lost, pass 2 changes nothing.
use my_fsck.Base.{
  ℕ, zero, suc, ◌+◌, ◌≤◌, ◌<◌, ◌≡◌, ◌≢◌, refl, arith, ◌==◌, ◌&&◌, ◌⊎◌, inl, inr, false, Bool-cases,
}
use my_fsck.Machine.Memory.{Bytes}
use my_fsck.Machine.State.{Fsck}
use my_fsck.Machine.Run.{ok}
use my_fsck.Inode.{get_inode_alloc_bit, get_inode_bitmap_in_partition}
use my_fsck.Inode.Read.{InodeOnDisk, inode_at, read_inode-ok}
use my_fsck.Correct.Links.{calloc, directory_traversor}
use my_fsck.Correct.LostFound.{root_inode_num}
use my_fsck.Correct.Pass2.{pass2_inode, pass2_loop, pass2}

-- An inode is not lost if it has no links, is not allocated, or is named by an entry.
abbrev pub IsKept : Fsck → Bytes → Bytes → ℕ → Type 0
IsKept s bitmap table i =
    ((inode_at s i).i_links_count ≡ 0) ⊎ ((get_inode_alloc_bit bitmap i ≢ 1) ⊎ (table i ≢ 0))

module _ (s : Fsck) (bitmap table : Bytes) (depth : ℕ) where
  pass2_inode-right :
      (i : ℕ)
      → InodeOnDisk s i
      → IsKept s bitmap table i
      → pass2_inode depth bitmap table i s ≡ ok table s
  unfolding pass2_inode
  pass2_inode-right i h kept =
      let links = (inode_at s i).i_links_count in
      elim (Bool-cases (links == 0)) [
        | inl unused ↦ rw (read_inode-ok s i h, unused) refl
        | inr used ↦
            let fine : (get_inode_alloc_bit bitmap i == 1 && table i == 0) ≡ false = ground arith in
            rw (read_inode-ok s i h, used, fine) refl
      ]

  pass2_loop-right :
      (left i : ℕ)
      → ((j : ℕ) → i ≤ j → j < i + left → InodeOnDisk s j × IsKept s bitmap table j)
      → pass2_loop depth left i bitmap table s ≡ ok tt s
  unfolding pass2_loop
  pass2_loop-right zero i h = refl
  pass2_loop-right (suc left) i h =
      let here = h i (omega arith) (omega arith) in
      rw (pass2_inode-right i here.0 here.1)
        (pass2_loop-right left (i + 1) (λ j p q. h j (omega arith) (omega arith)))

  pub pass2-right :
      directory_traversor depth (calloc s.stray (s.super_block.s_inodes_count + 1)) root_inode_num s
        ≡ ok table s
      → get_inode_bitmap_in_partition s ≡ ok bitmap s
      → ((j : ℕ)
          → 1 ≤ j
          → j ≤ s.super_block.s_inodes_count
          → InodeOnDisk s j × IsKept s bitmap table j)
      → pass2 depth s ≡ ok tt s
  unfolding pass2
  pass2-right walked read h =
      rw (walked, read)
        (pass2_loop-right s.super_block.s_inodes_count 1 (λ j p q. h j p (omega arith)))
