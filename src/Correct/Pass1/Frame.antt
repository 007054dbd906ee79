-- ===== src/Correct/Pass1/Frame.antt =====
-- Pass 1 changes nothing before the partition.
use my_fsck.Base.{
  ℕ, zero, suc, ◌+◌, ◌==◌, ltb, leb, List, [], ◌∷◌, Option-cases, Bool-cases, inl, inr,
}
use my_fsck.Machine.Memory.{Bytes}
use my_fsck.Machine.State.{DirEntry, dir_entry_error}
use my_fsck.Machine.Run.{M, out_of_fuel}
use my_fsck.Machine.Frame.{
  IsFramed, Frames-bind, bind-IsFramed, if-IsFramed, pure-IsFramed, halt-IsFramed, print-IsFramed,
  require-IsFramed,
}
use my_fsck.Util.{write_number_into_block}
use my_fsck.Disk.Frame.{read_block-IsFramed, write_block-IsFramed}
use my_fsck.Inode.Frame.{read_inode-IsFramed}
use my_fsck.Dir.{read_dir_entry_in_block}
use my_fsck.Correct.Pass1.{
  dir_type, inode_is_not_dir, pass1_corrector, check_entry, pass1_entry, pass1_entries,
  pass1_blocks, pass1,
}

pass1_corrector-IsFramed : (m : Bytes) (b offset n : ℕ) → IsFramed (pass1_corrector m b offset n)
unfolding pass1_corrector
pass1_corrector-IsFramed m b offset n s =
    Frames-bind _ (require-IsFramed (leb (offset + 4) s.block_size) s) (λ _.
      bind-IsFramed (write_block-IsFramed b s.block_size (write_number_into_block m offset n 4))
        (λ _. pure-IsFramed (write_number_into_block m offset n 4)))

check_entry-IsFramed :
    (m : Bytes) (b offset wanted : ℕ) (e : DirEntry) → IsFramed (check_entry m b offset e wanted)
unfolding check_entry
check_entry-IsFramed m b offset wanted e = if-IsFramed (e.inode == wanted) (pure-IsFramed m) (
    bind-IsFramed (print-IsFramed (dir_entry_error wanted e.name e.inode))
      (λ _. pass1_corrector-IsFramed m b offset wanted))

module _ (visit : ℕ → ℕ → M (Unit {0})) (visit-IsFramed : (p i : ℕ) → IsFramed (visit p i)) where
  pass1_entry-IsFramed :
      (parent n b offset count : ℕ) (e : DirEntry) (m : Bytes)
      → IsFramed (pass1_entry visit parent n b offset count e m)
  unfolding pass1_entry
  pass1_entry-IsFramed parent n b offset count e m =
      if-IsFramed (e.file_type == dir_type)
        (if-IsFramed (count == 0) (check_entry-IsFramed m b offset n e) (
          if-IsFramed (count == 1) (check_entry-IsFramed m b offset parent e)
            (bind-IsFramed (visit-IsFramed n e.inode) (λ _. pure-IsFramed m))))
        (pure-IsFramed m)

  pass1_entries-IsFramed :
      (rounds parent n b offset count : ℕ) (m : Bytes)
      → IsFramed (pass1_entries visit rounds parent n b offset count m)
  unfolding pass1_entries
  pass1_entries-IsFramed zero parent n b offset count m s = halt-IsFramed out_of_fuel s
  pass1_entries-IsFramed (suc rounds) parent n b offset count m s =
      elim (Bool-cases (ltb offset s.block_size)) [
        | inr past ↦ rw past (pure-IsFramed tt s)
        | inl inside ↦ rw inside (elim (Option-cases (read_dir_entry_in_block m offset)) [
          | inl free ↦ rw free (pure-IsFramed tt s)
          | inr (e, used) ↦ rw used (
              Frames-bind _ (pass1_entry-IsFramed parent n b offset count e m s) (λ m'.
                pass1_entries-IsFramed rounds parent n b (offset + e.rec_len) (count + 1) m'))
        ])
      ]

  pass1_blocks-IsFramed :
      (parent n : ℕ) (blocks : List ℕ) → IsFramed (pass1_blocks visit parent n blocks)
  unfolding pass1_blocks
  pass1_blocks-IsFramed parent n [] = pure-IsFramed tt
  pass1_blocks-IsFramed parent n (b ∷ blocks) = if-IsFramed (b == 0) (pure-IsFramed tt) (λ s.
      Frames-bind _ (read_block-IsFramed b s.block_size s.stray s) (λ m.
        bind-IsFramed (pass1_entries-IsFramed (s.block_size + 1) parent n b 0 0 m)
          (λ _. pass1_blocks-IsFramed parent n blocks)))

pub pass1-IsFramed : (depth parent n : ℕ) → IsFramed (pass1 depth parent n)
unfolding pass1
pass1-IsFramed zero parent n = halt-IsFramed out_of_fuel
pass1-IsFramed (suc depth) parent n = bind-IsFramed (read_inode-IsFramed n) (λ inode.
    if-IsFramed (inode_is_not_dir inode) (pure-IsFramed tt)
      (pass1_blocks-IsFramed (pass1 depth) (pass1-IsFramed depth) parent n inode.i_block))
