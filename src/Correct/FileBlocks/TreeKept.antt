-- ===== src/Correct/FileBlocks/TreeKept.antt =====
-- The blocks that the directory tree owns stay the same while their bytes and, link counts apart,
-- the inodes do.
use mathlib.Core.Path.{subst}
use mathlib.Core.Option.{some-injective, none-ne-some}
use my_fsck.Base.{
  ℕ, zero, suc, ◌+◌, ◌≤◌, ◌≡◌, refl, ap, ◌∙◌, sym, if◌then◌else◌, List, Bool, true, false, not,
  ◌==◌, ◌&&◌, ◌||◌, [], ◌∷◌, ◌++◌, leb, ltb, leb→le, ltb→lt, Bool-cases, Option-cases, inl, inr,
  Option, some, and-both,
}
use my_fsck.Machine.Memory.{Bytes}
use my_fsck.Machine.State.{Fsck, Image, Inode, Message}
use my_fsck.Disk.{read_bytes}
use my_fsck.Disk.Blocks.{block_address}
use my_fsck.Inode.Read.{inode_at}
use my_fsck.Inode.Update.{with_image}
use my_fsck.Dir.{read_dir_entry_in_block}
use my_fsck.Correct.FileBlocks.{file_blocks, inode_is_lnk, inode_is_reg}
use my_fsck.Correct.FileBlocks.Owned.{file_owned}
use my_fsck.Correct.FileBlocks.Kept.{Each, append-Each, IsKeptIn, file_owned-kept}
use my_fsck.Correct.FileBlocks.Tree.{
  both_lists, both_lists-parts, entries_owned, blocks_owned, tree_owned,
}

-- The inodes 1 to `n` are the same but for link counts.
abbrev pub SameButCounts : ℕ → Fsck → Fsck → Type 0
SameButCounts n s s' =
    (j : ℕ)
    → 1 ≤ j
    → j ≤ n
    → (c : ℕ) × (inode_at s' j ≡ record (inode_at s j) { i_links_count = c })

module _ (s : Fsck) (img : Image) (out : List Message) where
  -- What one walk lists of blocks that are kept, the other lists.
  abbrev pub KeepsList : (ℕ → Option (List ℕ)) → (ℕ → Option (List ℕ)) → Type 0
  KeepsList list list' =
      (i : ℕ) (l : List ℕ) → list i ≡ some l → Each (IsKeptIn s img) l → list' i ≡ some l

  read_bytes-kept :
      (b : ℕ)
      → IsKeptIn s img b
      → read_bytes img (block_address s b) s.block_size s.stray
        ≡ read_bytes s.image (block_address s b) s.block_size s.stray
  read_bytes-kept b h = λ k i. at i k
    where
      at :
          (i : ℕ)
          → read_bytes img (block_address s b) s.block_size s.stray i
            ≡ read_bytes s.image (block_address s b) s.block_size s.stray i
      at i = elim (Bool-cases (ltb i s.block_size)) [
        | inl inside ↦ unfold read_bytes in rw inside (h i (ltb→lt i s.block_size inside))
        | inr past ↦ unfold read_bytes in rw past refl
      ]

  module _ (list list' : ℕ → Option (List ℕ)) (keeps : KeepsList list list') where
    entry-kept :
        (deeper : Bool) (i : ℕ) (l : List ℕ)
        → (if deeper then list i else some []) ≡ some l
        → Each (IsKeptIn s img) l
        → (if deeper then list' i else some []) ≡ some l
    entry-kept true i l e h = keeps i l e h
    entry-kept false i l e h = e

    entries-kept :
        (rounds : ℕ) (first : Bool) (offset count : ℕ) (m : Bytes) (l : List ℕ)
        → entries_owned list s.block_size rounds first offset count m ≡ some l
        → Each (IsKeptIn s img) l
        → entries_owned list' s.block_size rounds first offset count m ≡ some l
    unfolding entries_owned
    entries-kept zero first offset count m l e h = absurd (none-ne-some l e)
    entries-kept (suc rounds) first offset count m l e h =
        elim (Bool-cases (ltb offset s.block_size)) [
          | inr past ↦ rw (past, entries_owned) (rw (past, entries_owned) at e)
          | inl inside ↦ elim (Option-cases (read_dir_entry_in_block m offset)) [
            | inl free ↦ rw (inside, free, entries_owned) (rw (inside, free, entries_owned) at e)
            | inr (entry, used) ↦
                let deeper = not first || leb 2 count in
                let parts =
                  both_lists-parts (if deeper then list entry.inode else some [])
                    (entries_owned list s.block_size rounds first (offset + entry.rec_len)
                      (count + 1) m)
                    l (rw (inside, used, entries_owned) at e) in
                let hs =
                  append-Each (IsKeptIn s img) parts.0 parts.1
                    (subst (Each (IsKeptIn s img)) (sym parts.4) h) in
                rw
                  (
                    inside,
                    used,
                    entries_owned,
                    entry-kept deeper entry.inode parts.0 parts.2 hs.0,
                    entries-kept rounds first (offset + entry.rec_len) (count + 1) m parts.1 parts.3
                        hs.1,
                  )
                  (unfold both_lists in ap some parts.4)
          ]
        ]

    blocks-kept :
        (blocks : List ℕ) (first : Bool) (l : List ℕ)
        → blocks_owned s list first blocks ≡ some l
        → Each (IsKeptIn s img) l
        → blocks_owned (with_image s img out) list' first blocks ≡ some l
    unfolding blocks_owned block_address
    blocks-kept [] first l e h = e
    blocks-kept (b ∷ blocks) first l e h = elim (Bool-cases (b == 0)) [
      | inl end ↦ rw (end, blocks_owned) (rw (end, blocks_owned) at e)
      | inr more ↦
          let block = read_bytes s.image (block_address s b) s.block_size s.stray in
          let own = entries_owned list s.block_size (s.block_size + 1) first 0 0 block in
          let rest = blocks_owned s list false blocks in
          let outer =
            both_lists-parts (some (b ∷ [])) (both_lists own rest) l
              (rw (more, blocks_owned) at e) in
          let inner = both_lists-parts own rest outer.1 outer.3 in
          let whole : b ∷ (inner.0 ++ inner.1) ≡ l =
            ap (λ (bs : List ℕ). b ∷ bs) inner.4
            ∙ ap (λ (bs : List ℕ). bs ++ outer.1) (some-injective (b ∷ []) outer.0 outer.2)
            ∙ outer.4 in
          let hs = subst (Each (IsKeptIn s img)) (sym whole) h in
          let parts = append-Each (IsKeptIn s img) inner.0 inner.1 hs.1 in
          rw
            (
              more,
              blocks_owned,
              read_bytes-kept b hs.0,
              entries-kept (s.block_size + 1) first 0 0 block inner.0 inner.2 parts.0,
              blocks-kept blocks false inner.1 inner.3 parts.1,
            )
            (unfold both_lists in ap some whole)
    ]

  -- Of an inode the walk needs the mode, the size and the pointers.
  counts_only :
      (inode : Inode) (c : ℕ)
      → (inode_is_lnk (record inode { i_links_count = c }) ≡ inode_is_lnk inode)
        × (inode_is_reg (record inode { i_links_count = c }) ≡ inode_is_reg inode)
        × (file_owned (with_image s img out) (record inode { i_links_count = c })
            ≡ file_owned (with_image s img out) inode)
  unfolding inode_is_lnk inode_is_reg file_owned file_blocks
  counts_only inode c = (refl, refl, refl)

  -- x
  pub tree_owned-kept :
      SameButCounts s.super_block.s_inodes_count s (with_image s img out)
      → (depth : ℕ) → KeepsList (tree_owned s depth) (tree_owned (with_image s img out) depth)
  unfolding tree_owned
  tree_owned-kept same zero i l e h = absurd (none-ne-some l e)
  tree_owned-kept same (suc depth) i l e h =
      elim (Bool-cases (leb 1 i && leb i s.super_block.s_inodes_count)) [
        | inr out_of_range ↦ absurd (none-ne-some l (rw (out_of_range, tree_owned) at e))
        | inl range ↦
            let r = and-both (leb 1 i) (leb i s.super_block.s_inodes_count) range in
            let inode = inode_at s i in
            let new = same i (leb→le 1 i r.0) (leb→le i s.super_block.s_inodes_count r.1) in
            let only = counts_only inode new.0 in
            elim (Bool-cases (inode_is_lnk inode)) [
              | inl link ↦
                  rw (range, new.1, only.0, link, tree_owned) (rw (range, link, tree_owned) at e)
              | inr no_link ↦ elim (Bool-cases (inode_is_reg inode)) [
                | inl file ↦
                    rw (range, new.1, only.0, no_link, only.1, file, tree_owned)
                      (only.2
                        ∙ file_owned-kept s img out inode l
                            (rw (range, no_link, file, tree_owned) at e) h)
                | inr dir ↦
                    rw (range, new.1, only.0, no_link, only.1, dir, tree_owned)
                      (blocks-kept (tree_owned s depth) (tree_owned (with_image s img out) depth)
                        (tree_owned-kept same depth) inode.i_block true l
                        (rw (range, no_link, dir, tree_owned) at e) h)
              ]
            ]
      ]
