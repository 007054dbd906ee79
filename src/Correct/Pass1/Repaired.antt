-- ===== src/Correct/Pass1/Repaired.antt =====
-- Pass 1 makes `.` and `..` right in all directories of a tree.
use mathlib.Core.Option.{none-ne-some}
use my_fsck.Base.{
  ℕ, zero, suc, ◌^◌, ◌≤◌, ◌<◌, ◌≡◌, refl, arith, List, Bool, true, false, ◌&&◌, [], ◌∷◌, leb,
  leb→le, Bool-cases, inl, inr, some, and-both,
}
use my_fsck.Machine.State.{Fsck, Image}
use my_fsck.Machine.Run.{ok}
use my_fsck.Disk.Blocks.{HasSectors, IsOnDisk}
use my_fsck.Disk.Written.{OnlyBytes}
use my_fsck.Inode.Read.{InodeOnDisk, inode_at, read_inode-ok}
use my_fsck.Inode.Update.{with_image, with_image-InodeOnDisk}
use my_fsck.Correct.FileBlocks.Kept.{Each}
use my_fsck.Correct.Pass1.{pass1}
use my_fsck.Correct.Pass1.Right.{dots_right, not_dir-false, pass1-right}
use my_fsck.Correct.Pass1.Listed.{first_len, block_of, dirs_listed}
use my_fsck.Correct.Pass1.Kept.{dirs_listed-kept}
use my_fsck.Correct.Pass1.Strict.{dirs_listed-dots_right}
use my_fsck.Correct.Pass1.Moves.{AllApart, OnlyDots, IsPlaced, IsIntact, IsIntact-inode}
use my_fsck.Correct.Pass1.Entries.{FixesDirs}
use my_fsck.Correct.Pass1.Blocks.{blocks-fixed}

module _ (s : Fsck) (first : ℕ → ℕ) (sectors : HasSectors s)
    (inodes : (j : ℕ) → 1 ≤ j → j ≤ s.super_block.s_inodes_count → InodeOnDisk s j)
    (few : s.super_block.s_inodes_count < 2 ^ 32) where
  dirs-fixed :
      (depth : ℕ)
      → FixesDirs s first (λ img strict. dirs_listed s first img strict depth) (pass1 depth)
  unfolding dirs_listed pass1
  dirs-fixed zero img out parent num l h lo hi e places aparts = absurd (none-ne-some l e)
  dirs-fixed (suc depth) img out parent num l h lo hi e places aparts =
      elim (Bool-cases (leb 1 num && leb num s.super_block.s_inodes_count)) [
        | inr bad ↦ absurd (none-ne-some l (rw (bad, dirs_listed) at e))
        | inl range ↦
            let r = and-both (leb 1 num) (leb num s.super_block.s_inodes_count) range in
            let num_lo = leb→le 1 num r.0 in
            let num_hi = leb→le num s.super_block.s_inodes_count r.1 in
            let read =
              read_inode-ok (with_image s img out) num
                (with_image-InodeOnDisk s img out num h.size (inodes num num_lo num_hi)) in
            let same = IsIntact-inode s img out h num num_lo num_hi in
            let b =
              blocks-fixed s first sectors inodes
                (λ (i : Image) (strict : Bool). dirs_listed s first i strict depth) (pass1 depth)
                (dirs-fixed depth) (λ i i' strict. dirs_listed-kept s i i' strict first depth)
                parent num lo hi num_lo (omega arith) (inode_at s num).i_block l img out h
                (rw (range, dirs_listed) at e) places aparts in
            (
              b.0,
              b.1,
              rw (read, same, not_dir-false (inode_at s num), pass1) b.2,
              b.3,
              rw (range, dirs_listed) b.4,
            )
      ]

-- The lengths of the first entries, as the state's image has them.
abbrev pub first_of : Fsck → ℕ → ℕ
first_of s b = first_len (block_of s s.image b)

IsPlaced-IsOnDisk : (s : Fsck) (l : List ℕ) → Each (IsPlaced s) l → Each (IsOnDisk s) l
IsPlaced-IsOnDisk s [] h = tt
IsPlaced-IsOnDisk s (b ∷ l) h = (h.0.1, IsPlaced-IsOnDisk s l h.1)

-- If the block size is that of whole sectors, the inodes stand on the disk and are fewer than
-- 2^32, the parent's number is from 1 to 2^32 - 1, the blocks of the directories below an inode
-- can be listed to the given depth, and these have sector numbers of 32 bits and are on the disk,
-- apart from one another and from the inodes, then `pass1` succeeds. After it the first two
-- entries of every directory block below the inode, where they are directories, name the directory
-- and its parent, the same blocks are listed, and a second `pass1` changes nothing. Of the state
-- only the image and the output have changed, of the image only inode numbers of the first two
-- entries of the listed blocks, and the inodes are as before.
pub pass1-dots_right :
    (s : Fsck) (depth parent num : ℕ) (l : List ℕ)
    → HasSectors s
    → ((j : ℕ) → 1 ≤ j → j ≤ s.super_block.s_inodes_count → InodeOnDisk s j)
    → s.super_block.s_inodes_count < 2 ^ 32
    → 1 ≤ parent
    → parent < 2 ^ 32
    → dirs_listed s (first_of s) s.image false depth parent num ≡ some l
    → Each (IsPlaced s) l
    → AllApart s l
    → (s' : Fsck) × (pass1 depth parent num s ≡ ok tt s')
      × (pass1 depth parent num s' ≡ ok tt s')
      × (dots_right s' depth parent num ≡ true)
      × (dirs_listed s (first_of s) s'.image true depth parent num ≡ some l)
      × OnlyBytes s s'
      × OnlyDots s (first_of s) l s.image s'.image
      × ((j : ℕ) → 1 ≤ j → j ≤ s.super_block.s_inodes_count → inode_at s' j ≡ inode_at s j)
pass1-dots_right s depth parent num l sectors inodes few lo hi listed places aparts =
    let intact : IsIntact s s.image = record {
      size = refl;
      inode_bytes = λ j one le x p q. refl;
    } in
    let r =
      dirs-fixed s (first_of s) sectors inodes few depth s.image s.output parent num l intact lo hi
        listed places aparts in
    let same = IsIntact-inode s r.0 r.1 r.3.intact in
    let s' = with_image s r.0 r.1 in
    let dots =
      dirs_listed-dots_right s (first_of s) r.0 r.1 r.3.intact.size same depth parent num l r.4
        (IsPlaced-IsOnDisk s l places) in
    (
      s',
      r.2,
      pass1-right s' sectors
          (λ j one le. with_image-InodeOnDisk s r.0 r.1 j r.3.intact.size (inodes j one le)) depth
          parent num dots,
      dots,
      r.4,
      record { only_image = refl; same_size = r.3.intact.size },
      r.3.only,
      same,
    )
