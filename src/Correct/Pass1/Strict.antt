-- ===== src/Correct/Pass1/Strict.antt =====
-- Where the blocks of the directories can be listed strictly, the directories are right.
use mathlib.Core.Path.{subst}
use mathlib.Core.Option.{none-ne-some}
use my_fsck.Base.{
  ℕ, zero, suc, ◌+◌, ◌≤◌, ◌≡◌, refl, arith, sym, if◌then◌else◌, List, Bool, true, ◌==◌, ◌&&◌, [],
  ◌∷◌, leb, ltb, leb→le, le→leb, Bool-cases, Option-cases, inl, inr, Option, some, and-both,
}
use my_fsck.Machine.Memory.{Bytes}
use my_fsck.Machine.State.{Fsck, Image, DirEntry, Message}
use my_fsck.Disk.Blocks.{block_address, IsOnDisk}
use my_fsck.Inode.Read.{inode_at}
use my_fsck.Inode.Update.{with_image}
use my_fsck.Dir.{read_dir_entry_in_block}
use my_fsck.Correct.FileBlocks.Kept.{Each, append-Each}
use my_fsck.Correct.FileBlocks.Tree.{both_lists-parts}
use my_fsck.Correct.Pass1.{dir_type}
use my_fsck.Correct.Pass1.Right.{entry_right, entries_right, blocks_right, dots_right}
use my_fsck.Correct.Pass1.Listed.{
  names_right, fits_block, entries_listed, block_of, blocks_listed, block_parts, dirs_listed,
}

module _ (s : Fsck) (first : ℕ → ℕ) (img : Image) (out : List Message)
    (size : img.size ≡ s.image.size) where
  abbrev ListedRight : (ℕ → ℕ → Option (List ℕ)) → (ℕ → ℕ → Bool) → Type 0
  ListedRight list test =
      (parent num : ℕ) (l : List ℕ)
      → list parent num ≡ some l
      → Each (IsOnDisk s) l
      → test parent num ≡ true

  module _ (list : ℕ → ℕ → Option (List ℕ)) (test : ℕ → ℕ → Bool)
      (right : ListedRight list test) where
    entry-strict :
        (parent num count : ℕ) (e : DirEntry) (l : List ℕ)
        → names_right parent num count e ≡ true
        → (if e.file_type == dir_type && leb 2 count then list num e.inode else some []) ≡ some l
        → Each (IsOnDisk s) l
        → entry_right test parent num count e ≡ true
    unfolding entry_right names_right
    entry-strict parent num count e l names listed h = elim (Bool-cases (e.file_type == dir_type)) [
      | inr other ↦ rw (other, entry_right) refl
      | inl dir ↦ elim (Bool-cases (count == 0)) [
        | inl one ↦ rw (dir, one, entry_right) (rw (dir, one, names_right) at names)
        | inr later ↦ elim (Bool-cases (count == 1)) [
          | inl second ↦
              rw (dir, later, second, entry_right) (rw (dir, later, second, names_right) at names)
          | inr third ↦
              let many : leb 2 count ≡ true = ground arith in
              rw (dir, later, third, entry_right) (right num e.inode l (rw (dir, many) at listed) h)
        ]
      ]
    ]

    entries-strict :
        (rounds parent num offset count : ℕ) (m : Bytes) (l : List ℕ)
        → entries_listed list true s.block_size rounds parent num offset count m ≡ some l
        → Each (IsOnDisk s) l
        → entries_right test s.block_size rounds parent num offset count m ≡ true
    unfolding entries_listed entries_right
    entries-strict zero parent num offset count m l e h = absurd (none-ne-some l e)
    entries-strict (suc rounds) parent num offset count m l e h =
        elim (Bool-cases (ltb offset s.block_size)) [
          | inr past ↦ rw (past, entries_right) refl
          | inl inside ↦ elim (Option-cases (read_dir_entry_in_block m offset)) [
            | inl free ↦ rw (inside, free, entries_right) refl
            | inr (entry, used) ↦
                elim (Bool-cases
                  (fits_block s.block_size offset entry && names_right parent num count entry)) [
                    | inr bad ↦
                        absurd (none-ne-some l (rw (inside, used, bad, entries_listed) at e))
                    | inl good ↦
                        let parts =
                          both_lists-parts
                            (if entry.file_type == dir_type && leb 2 count
                              then list num entry.inode
                              else some [])
                            (entries_listed list true s.block_size rounds parent num
                              (offset + entry.rec_len) (count + 1) m)
                            l (rw (inside, used, good, entries_listed) at e) in
                        let hs =
                          append-Each (IsOnDisk s) parts.0 parts.1
                            (subst (Each (IsOnDisk s)) (sym parts.4) h) in
                        let names =
                          and-both (fits_block s.block_size offset entry)
                            (names_right parent num count entry) good in
                        rw
                          (
                            inside,
                            used,
                            entries_right,
                            entry-strict parent num count entry parts.0 names.1 parts.2 hs.0,
                            entries-strict rounds parent num (offset + entry.rec_len) (count + 1) m
                                parts.1 parts.3 hs.1,
                          )
                          refl
                  ]
          ]
        ]

    blocks-strict :
        (parent num : ℕ) (blocks l : List ℕ)
        → blocks_listed s first img list true parent num blocks ≡ some l
        → Each (IsOnDisk s) l
        → blocks_right (with_image s img out) test parent num blocks ≡ true
    unfolding blocks_right blocks_listed block_address
    blocks-strict parent num [] l e h = refl
    blocks-strict parent num (b ∷ blocks) l e h = elim (Bool-cases (b == 0)) [
      | inl end ↦ rw (end, blocks_right) refl
      | inr more ↦
          let parts = block_parts s first img list true parent num b blocks l more e in
          let hs = subst (Each (IsOnDisk s)) (sym parts.4) h in
          let each = append-Each (IsOnDisk s) parts.0 parts.1 hs.1 in
          rw
            (
              more,
              blocks_right,
              le→leb (block_address s b + s.block_size) img.size (omega (arith, hs.0)),
              entries-strict (s.block_size + 1) parent num 0 0 (block_of s img b) parts.0 parts.2
                  each.0,
              blocks-strict parent num blocks parts.1 parts.3 each.1,
            )
            refl
    ]

  pub dirs_listed-dots_right :
      ((j : ℕ)
        → 1 ≤ j
        → j ≤ s.super_block.s_inodes_count
        → inode_at (with_image s img out) j ≡ inode_at s j)
      → (depth : ℕ)
      → ListedRight (dirs_listed s first img true depth) (dots_right (with_image s img out) depth)
  unfolding dirs_listed dots_right
  dirs_listed-dots_right same zero parent num l e h = absurd (none-ne-some l e)
  dirs_listed-dots_right same (suc depth) parent num l e h =
      elim (Bool-cases (leb 1 num && leb num s.super_block.s_inodes_count)) [
        | inr bad ↦ absurd (none-ne-some l (rw (bad, dirs_listed) at e))
        | inl range ↦
            let r = and-both (leb 1 num) (leb num s.super_block.s_inodes_count) range in
            rw
              (
                range,
                dots_right,
                same num (leb→le 1 num r.0) (leb→le num s.super_block.s_inodes_count r.1),
              )
              (blocks-strict (dirs_listed s first img true depth)
                (dots_right (with_image s img out) depth) (dirs_listed-dots_right same depth) parent
                num (inode_at s num).i_block l (rw (range, dirs_listed) at e) h)
      ]
