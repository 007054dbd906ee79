-- ===== src/Correct/FileBlocks/Tree.antt =====
-- The blocks that the directory tree owns, as a list, against the walk of `get_true_block_bitmap`.
use mathlib.Core.Path.{subst}
use mathlib.Core.Option.{some-injective, none-ne-some}
use my_fsck.Base.{
  and-both, leb→le, ℕ, zero, suc, ◌+◌, ◌≤◌, ◌≡◌, refl, ap, ◌∙◌, sym, if◌then◌else◌, List, [], ◌∷◌,
  ◌++◌, le→leb, Bool, true, false, not, leb, ltb, ◌==◌, Bool-cases, Option-cases, inl, inr, ◌&&◌,
  ◌||◌, Option, none, some,
}
use my_fsck.Machine.Memory.{Bytes, set_byte}
use my_fsck.Machine.State.{Fsck}
use my_fsck.Machine.Run.{M, Run, ok}
use my_fsck.Disk.{read_bytes}
use my_fsck.Disk.Blocks.{HasSectors, block_address, read_block-ok}
use my_fsck.Inode.Read.{InodeOnDisk, inode_at, read_inode-ok}
use my_fsck.Dir.{read_dir_entry_in_block}
use my_fsck.Correct.FileBlocks.{
  mark, inode_is_lnk, inode_is_reg, true_entries, true_blocks, get_true_block_bitmap,
}
use my_fsck.Correct.FileBlocks.Marked.{marked, append-marked}
use my_fsck.Correct.FileBlocks.Double.{AllUsable, append-AllUsable}
use my_fsck.Correct.FileBlocks.Owned.{file_owned, get_file_block_bitmap-owned}

-- Two lists one behind the other, if both are there.
unfoldable pub both_lists : Option (List ℕ) → Option (List ℕ) → Option (List ℕ)
both_lists none ys = none
both_lists (some xs) none = none
both_lists (some xs) (some ys) = some (xs ++ ys)

pub both_lists-parts :
    (a b : Option (List ℕ)) (l : List ℕ)
    → both_lists a b ≡ some l
    → (xs : List ℕ) × (ys : List ℕ) × (a ≡ some xs) × (b ≡ some ys) × (xs ++ ys ≡ l)
unfolding both_lists
both_lists-parts none b l e = absurd (none-ne-some l e)
both_lists-parts (some xs) none l e = absurd (none-ne-some l e)
both_lists-parts (some xs) (some ys) l e = (xs, ys, refl, refl, some-injective (xs ++ ys) l e)

-- What the entries of a block lead to, but for the first two entries of a directory. `visit` gives
-- the blocks of an inode.
unfoldable pub entries_owned :
    (ℕ → Option (List ℕ))
    → (block_size rounds : ℕ) → Bool
    → (offset count : ℕ) → Bytes
    → Option (List ℕ)
entries_owned visit block_size zero first offset count dir_block = none
entries_owned visit block_size (suc rounds) first offset count dir_block =
    elim (ltb offset block_size) [
      | false ↦ some []
      | true ↦ elim (read_dir_entry_in_block dir_block offset) [
        | none ↦ some []
        | some entry ↦
            both_lists (if not first || leb 2 count then visit entry.inode else some []) (
              entries_owned visit block_size rounds first (offset + entry.rec_len) (count + 1)
                dir_block)
      ]
    ]

-- The blocks of a directory, each with what its entries lead to.
unfoldable pub blocks_owned : Fsck → (ℕ → Option (List ℕ)) → Bool → List ℕ → Option (List ℕ)
blocks_owned s visit first [] = some []
blocks_owned s visit first (b ∷ blocks) = elim (b == 0) [
  | true ↦ some []
  | false ↦ both_lists (some (b ∷ [])) (
      both_lists
        (entries_owned visit s.block_size (s.block_size + 1) first 0 0
          (read_bytes s.image (block_address s b) s.block_size s.stray))
        (blocks_owned s visit false blocks))
]

-- The blocks of the tree below an inode. There is no list if the tree is deeper than `depth`, or an
-- inode number in it is 0 or beyond the inodes.
unfoldable pub tree_owned : Fsck → (depth inode_num : ℕ) → Option (List ℕ)
tree_owned s zero inode_num = none
tree_owned s (suc depth) inode_num =
    let inode = inode_at s inode_num in
    if leb 1 inode_num && leb inode_num s.super_block.s_inodes_count
    then (if inode_is_lnk inode
        then some []
        else (if inode_is_reg inode
            then file_owned s inode
            else blocks_owned s (tree_owned s depth) true inode.i_block))
    else none

-- A visit that marks the blocks of the list, if there is one whose blocks can be used.
abbrev MarksOwned : Fsck → (ℕ → Option (List ℕ)) → (Bytes → ℕ → M Bytes) → Type 0
MarksOwned s list visit =
    (table : Bytes) (i : ℕ) (l : List ℕ)
    → list i ≡ some l
    → AllUsable s l
    → visit table i s ≡ ok (marked table l) s

module _ (s : Fsck) (list : ℕ → Option (List ℕ)) (visit : Bytes → ℕ → M Bytes)
    (marks : MarksOwned s list visit) where
  joined :
      (xs ys l : List ℕ) (table : Bytes)
      → xs ++ ys ≡ l
      → ◌≡◌ {A = Run Bytes} (ok (marked (marked table xs) ys) s) (ok (marked table l) s)
  joined xs ys l table e =
      ap (λ (t : Bytes). ok t s) (sym (append-marked table xs ys) ∙ ap (marked table) e)

  visit_entry-owned :
      (deeper : Bool) (table : Bytes) (i : ℕ) (l : List ℕ)
      → (if deeper then list i else some []) ≡ some l
      → AllUsable s l
      → (if deeper then visit table i else (λ t. ok table t)) s ≡ ok (marked table l) s
  visit_entry-owned true table i l e u = marks table i l e u
  visit_entry-owned false table i l e u =
      ap (λ (bs : List ℕ). ok (marked table bs) s) (some-injective [] l e)

  true_entries-owned :
      (rounds : ℕ) (first : Bool) (offset count : ℕ) (m table : Bytes) (l : List ℕ)
      → entries_owned list s.block_size rounds first offset count m ≡ some l
      → AllUsable s l
      → true_entries visit rounds first offset count m table s ≡ ok (marked table l) s
  unfolding entries_owned true_entries
  true_entries-owned zero first offset count m table l e u = absurd (none-ne-some l e)
  true_entries-owned (suc rounds) first offset count m table l e u =
      elim (Bool-cases (ltb offset s.block_size)) [
        | inr past ↦ rw past (
            ap (λ (bs : List ℕ). ok (marked table bs) s)
              (some-injective [] l (rw (past, entries_owned) at e)))
        | inl inside ↦ elim (Option-cases (read_dir_entry_in_block m offset)) [
          | inl free ↦
              rw (inside, free)
                (ap (λ (bs : List ℕ). ok (marked table bs) s)
                  (some-injective [] l (rw (inside, free, entries_owned) at e)))
          | inr (entry, used) ↦
              let deeper = not first || leb 2 count in
              let parts =
                both_lists-parts (if deeper then list entry.inode else some [])
                  (entries_owned list s.block_size rounds first (offset + entry.rec_len) (count + 1)
                    m)
                  l (rw (inside, used, entries_owned) at e) in
              let us = append-AllUsable s parts.0 parts.1 (subst (AllUsable s) (sym parts.4) u) in
              rw (inside, used, visit_entry-owned deeper table entry.inode parts.0 parts.2 us.0)
                (true_entries-owned rounds first (offset + entry.rec_len) (count + 1) m
                    (marked table parts.0) parts.1 parts.3 us.1
                  ∙ joined parts.0 parts.1 l table parts.4)
        ]
      ]

  true_blocks-owned :
      (blocks : List ℕ) (first : Bool) (table : Bytes) (l : List ℕ)
      → HasSectors s
      → blocks_owned s list first blocks ≡ some l
      → AllUsable s l
      → true_blocks visit first blocks table s ≡ ok (marked table l) s
  unfolding blocks_owned true_blocks mark
  true_blocks-owned [] first table l sectors e u =
      ap (λ (bs : List ℕ). ok (marked table bs) s) (some-injective [] l e)
  true_blocks-owned (b ∷ blocks) first table l sectors e u = elim (Bool-cases (b == 0)) [
    | inl end ↦ rw end (
        ap (λ (bs : List ℕ). ok (marked table bs) s)
          (some-injective [] l (rw (end, blocks_owned) at e)))
    | inr more ↦
        let block = read_bytes s.image (block_address s b) s.block_size s.stray in
        let own = entries_owned list s.block_size (s.block_size + 1) first 0 0 block in
        let rest = blocks_owned s list false blocks in
        let outer =
          both_lists-parts (some (b ∷ [])) (both_lists own rest) l (rw (more, blocks_owned) at e) in
        let inner = both_lists-parts own rest outer.1 outer.3 in
        let whole : b ∷ (inner.0 ++ inner.1) ≡ l =
          ap (λ (bs : List ℕ). b ∷ bs) inner.4
          ∙ ap (λ (bs : List ℕ). bs ++ outer.1) (some-injective (b ∷ []) outer.0 outer.2)
          ∙ outer.4 in
        let us = subst (AllUsable s) (sym whole) u in
        let parts = append-AllUsable s inner.0 inner.1 us.2 in
        rw
          (
            more,
            le→leb b s.super_block.s_blocks_count us.0,
            read_block-ok s b s.stray sectors us.1,
            true_entries-owned (s.block_size + 1) first 0 0 block (set_byte table b 1) inner.0
                inner.2 parts.0,
          )
          (true_blocks-owned blocks false (marked (set_byte table b 1) inner.0) inner.1 sectors
              inner.3 parts.1
            ∙ joined inner.0 inner.1 (inner.0 ++ inner.1) (set_byte table b 1) refl
            ∙ ap (λ (bs : List ℕ). ok (marked table bs) s) whole)
  ]

-- If the block size is that of whole sectors and the inodes stand on the disk, then where the
-- blocks that the tree below an inode owns can be listed to the given depth, and these are on the
-- disk and not beyond `s_blocks_count`, `get_true_block_bitmap` succeeds, changes nothing in the
-- state, and marks in its table exactly the listed blocks.
pub get_true_block_bitmap-owned :
    (s : Fsck)
    → HasSectors s
    → ((j : ℕ) → 1 ≤ j → j ≤ s.super_block.s_inodes_count → InodeOnDisk s j)
    → (depth : ℕ) → MarksOwned s (tree_owned s depth) (get_true_block_bitmap depth)
unfolding tree_owned get_true_block_bitmap
get_true_block_bitmap-owned s sectors inodes zero table i l e u = absurd (none-ne-some l e)
get_true_block_bitmap-owned s sectors inodes (suc depth) table i l e u =
    let inode = inode_at s i in
    elim (Bool-cases (leb 1 i && leb i s.super_block.s_inodes_count)) [
      | inr out ↦ absurd (none-ne-some l (rw out at e))
      | inl range ↦
          let r = and-both (leb 1 i) (leb i s.super_block.s_inodes_count) range in
          let read =
            read_inode-ok s i
              (inodes i (leb→le 1 i r.0) (leb→le i s.super_block.s_inodes_count r.1)) in
          elim (Bool-cases (inode_is_lnk inode)) [
            | inl link ↦
                rw (read, link)
                  (ap (λ (bs : List ℕ). ok (marked table bs) s)
                    (some-injective [] l (rw (range, link) at e)))
            | inr no_link ↦ elim (Bool-cases (inode_is_reg inode)) [
              | inl file ↦
                  rw (read, no_link, file)
                    (get_file_block_bitmap-owned s table inode l sectors
                      (rw (range, no_link, file) at e) u)
              | inr dir ↦
                  rw (read, no_link, dir)
                    (true_blocks-owned s (tree_owned s depth) (get_true_block_bitmap depth)
                      (get_true_block_bitmap-owned s sectors inodes depth) inode.i_block true table
                      l sectors (rw (range, no_link, dir) at e) u)
            ]
          ]
    ]
