-- ===== src/Dir/Frame.antt =====
-- `search_dir_entry` changes nothing before the partition.
use my_fsck.Base.{
  ℕ, zero, suc, ◌+◌, ◌==◌, ltb, List, get_or, list_eq, none, some, Option-cases, Bool-cases, inl,
  inr,
}
use my_fsck.Machine.Memory.{Bytes}
use my_fsck.Machine.State.{Inode}
use my_fsck.Machine.Run.{fault, out_of_fuel}
use my_fsck.Machine.Frame.{
  IsFramed, Frames-bind, bind-IsFramed, if-IsFramed, pure-IsFramed, halt-IsFramed,
}
use my_fsck.Disk.Frame.{read_block-IsFramed}
use my_fsck.Dir.{read_dir_entry_in_block, search_loop, search_dir_entry}

search_loop-IsFramed :
    (rounds size : ℕ) (m : Bytes) (name : List ℕ) (offset : ℕ)
    → IsFramed (search_loop rounds size m name offset)
unfolding search_loop
search_loop-IsFramed zero size m name offset = halt-IsFramed out_of_fuel
search_loop-IsFramed (suc rounds) size m name offset =
    if-IsFramed (ltb offset size)
      (elim (Option-cases (read_dir_entry_in_block m offset)) [
        | inl free ↦ rw free (pure-IsFramed none)
        | inr (e, used) ↦ rw used (elim (Bool-cases (list_eq e.name name)) [
          | inl found ↦ rw found (pure-IsFramed (some e))
          | inr other ↦ rw other (search_loop-IsFramed rounds size m name (offset + e.rec_len))
        ])
      ])
      (pure-IsFramed none)

pub search_dir_entry-IsFramed :
    (inode : Inode) (name : List ℕ) → IsFramed (search_dir_entry inode name)
unfolding search_dir_entry
search_dir_entry-IsFramed inode name =
    if-IsFramed (get_or inode.i_block 0 0 == 0) (halt-IsFramed fault) (λ s.
      Frames-bind _ (read_block-IsFramed (get_or inode.i_block 0 0) s.block_size s.stray s) (λ m.
        bind-IsFramed (search_loop-IsFramed (s.block_size + 1) s.block_size m name 0)
          (λ found. pure-IsFramed _)))
