-- ===== src/Correct/Links/Frame.antt =====
-- `directory_traversor` changes nothing before the partition.
use my_fsck.Base.{
  ℕ, zero, suc, ◌+◌, ◌==◌, ◌&&◌, ◌||◌, not, Bool, false, true, ltb, leb, List, [], ◌∷◌,
  Option-cases, Bool-cases, inl, inr,
}
use my_fsck.Machine.Memory.{Bytes}
use my_fsck.Machine.State.{DirEntry}
use my_fsck.Machine.Run.{M, out_of_fuel}
use my_fsck.Machine.Frame.{
  IsFramed, Frames-bind, bind-IsFramed, if-IsFramed, pure-IsFramed, halt-IsFramed, require-IsFramed,
}
use my_fsck.Disk.Frame.{read_block-IsFramed}
use my_fsck.Inode.Frame.{read_inode-IsFramed}
use my_fsck.Dir.{read_dir_entry_in_block}
use my_fsck.Correct.Pass1.{dir_type}
use my_fsck.Correct.Links.{
  bump, traverse_entry, traverse_entries, traverse_blocks, directory_traversor,
}

module _ (visit : Bytes → ℕ → M Bytes)
    (visit-IsFramed : (t : Bytes) (i : ℕ) → IsFramed (visit t i)) where
  traverse_entry-IsFramed :
      (first : Bool) (count : ℕ) (e : DirEntry) (t : Bytes)
      → IsFramed (traverse_entry visit first count e t)
  unfolding traverse_entry
  traverse_entry-IsFramed first count e t s =
      Frames-bind _ (require-IsFramed (leb e.inode s.super_block.s_inodes_count) s) (λ _.
        if-IsFramed ((not first || leb 2 count) && e.file_type == dir_type)
          (visit-IsFramed (bump t e.inode) e.inode) (pure-IsFramed (bump t e.inode)))

  traverse_entries-IsFramed :
      (rounds : ℕ) (first : Bool) (offset count : ℕ) (m t : Bytes)
      → IsFramed (traverse_entries visit rounds first offset count m t)
  unfolding traverse_entries
  traverse_entries-IsFramed zero first offset count m t s = halt-IsFramed out_of_fuel s
  traverse_entries-IsFramed (suc rounds) first offset count m t s =
      elim (Bool-cases (ltb offset s.block_size)) [
        | inr past ↦ rw past (pure-IsFramed t s)
        | inl inside ↦ rw inside (elim (Option-cases (read_dir_entry_in_block m offset)) [
          | inl free ↦ rw free (pure-IsFramed t s)
          | inr (e, used) ↦ rw used (
              Frames-bind _ (traverse_entry-IsFramed first count e t s) (λ t'.
                traverse_entries-IsFramed rounds first (offset + e.rec_len) (count + 1) m t'))
        ])
      ]

  traverse_blocks-IsFramed :
      (first : Bool) (blocks : List ℕ) (t : Bytes) → IsFramed (traverse_blocks visit first blocks t)
  unfolding traverse_blocks
  traverse_blocks-IsFramed first [] t = pure-IsFramed t
  traverse_blocks-IsFramed first (b ∷ blocks) t = if-IsFramed (b == 0) (pure-IsFramed t) (λ s.
      Frames-bind _ (read_block-IsFramed b s.block_size s.stray s) (λ m.
        bind-IsFramed (traverse_entries-IsFramed (s.block_size + 1) first 0 0 m t)
          (λ t'. traverse_blocks-IsFramed false blocks t')))

pub directory_traversor-IsFramed :
    (depth : ℕ) (t : Bytes) (i : ℕ) → IsFramed (directory_traversor depth t i)
unfolding directory_traversor
directory_traversor-IsFramed zero t i = halt-IsFramed out_of_fuel
directory_traversor-IsFramed (suc depth) t i = bind-IsFramed (read_inode-IsFramed i) (λ inode.
    traverse_blocks-IsFramed (directory_traversor depth) (directory_traversor-IsFramed depth) true
      inode.i_block t)
