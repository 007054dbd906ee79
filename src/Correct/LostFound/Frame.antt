-- ===== src/Correct/LostFound/Frame.antt =====
-- `add_to_lost_found` changes nothing before the partition.
use my_fsck.Base.{
  ℕ, zero, suc, ◌+◌, ◌==◌, ltb, leb, List, [], ◌∷◌, get_or, u8, Option-cases, inl, inr,
}
use my_fsck.Machine.Memory.{Bytes}
use my_fsck.Machine.State.{DirEntry, no_lost_found}
use my_fsck.Machine.Run.{out_of_fuel}
use my_fsck.Machine.Frame.{
  IsFramed, Frames-bind, bind-IsFramed, if-IsFramed, pure-IsFramed, halt-IsFramed, print-IsFramed,
  require-IsFramed,
}
use my_fsck.Util.{write_number_into_block, pad_to_4_bytes}
use my_fsck.Disk.Frame.{read_block-IsFramed, write_block-IsFramed}
use my_fsck.Inode.Frame.{read_inode-IsFramed}
use my_fsck.Dir.{read_dir_entry_in_block}
use my_fsck.Dir.Frame.{search_dir_entry-IsFramed}
use my_fsck.Correct.LostFound.{
  root_inode_num, dir_entry_prefix_len, first_entry_len, lost_found_dir_name, new_entry,
  create_new_entry, put_entry, write_new_entry, last_entry, place_entry, set_parent,
  add_to_lost_found,
}

write_new_entry-IsFramed :
    (e : DirEntry) (m : Bytes) (b offset : ℕ) → IsFramed (write_new_entry e m b offset)
unfolding write_new_entry
write_new_entry-IsFramed e m b offset s =
    Frames-bind _ (require-IsFramed (leb (offset + 8 + (e.name_len + 1)) s.block_size) s)
      (λ _. write_block-IsFramed b s.block_size (put_entry s.block_size e m offset))

last_entry-IsFramed :
    (rounds size : ℕ) (m : Bytes) (offset len name_len : ℕ)
    → IsFramed (last_entry rounds size m offset len name_len)
unfolding last_entry
last_entry-IsFramed zero size m offset len name_len = halt-IsFramed out_of_fuel
last_entry-IsFramed (suc rounds) size m offset len name_len =
    if-IsFramed (ltb offset size)
      (elim (Option-cases (read_dir_entry_in_block m offset)) [
        | inl free ↦ rw free (pure-IsFramed _)
        | inr (e, used) ↦
            rw used (last_entry-IsFramed rounds size m (offset + e.rec_len) e.rec_len e.name_len)
      ])
      (pure-IsFramed _)

place_entry-IsFramed :
    (e : DirEntry) (name_len : ℕ) (blocks : List ℕ) → IsFramed (place_entry e name_len blocks)
unfolding place_entry
place_entry-IsFramed e name_len [] = pure-IsFramed tt
place_entry-IsFramed e name_len (b ∷ blocks) = if-IsFramed (b == 0) (pure-IsFramed tt) (λ s.
    Frames-bind _ (read_block-IsFramed b s.block_size s.stray s) (λ m.
      bind-IsFramed (last_entry-IsFramed (s.block_size + 1) s.block_size m 0 0 name_len) (λ last.
        let real_len = pad_to_4_bytes (dir_entry_prefix_len + last.1) in
        if-IsFramed (ltb (last.0 + real_len + e.rec_len) s.block_size)
          (write_new_entry-IsFramed e (write_number_into_block m (last.0 + 4) real_len 2) b
            (last.0 + real_len))
          (place_entry-IsFramed e last.1 blocks))))

set_parent-IsFramed : (n parent : ℕ) → IsFramed (set_parent n parent)
unfolding set_parent
set_parent-IsFramed n parent = bind-IsFramed (read_inode-IsFramed n) (λ inode s.
    Frames-bind _ (read_block-IsFramed (get_or inode.i_block 0 0) s.block_size s.stray s) (λ m.
      bind-IsFramed (require-IsFramed (leb (first_entry_len + 4) s.block_size)) (λ _.
        write_block-IsFramed (get_or inode.i_block 0 0) s.block_size
          (write_number_into_block m first_entry_len parent 4))))

pub add_to_lost_found-IsFramed : (n : ℕ) → IsFramed (add_to_lost_found n)
unfolding add_to_lost_found create_new_entry
add_to_lost_found-IsFramed n = bind-IsFramed (read_inode-IsFramed root_inode_num) (λ root.
    bind-IsFramed (search_dir_entry-IsFramed root lost_found_dir_name) (λ found.
      elim (Option-cases found) [
        | inl missing ↦ rw missing (print-IsFramed no_lost_found)
        | inr (dir, e) ↦ rw e (
            bind-IsFramed (read_inode-IsFramed dir.inode) (λ lost_found.
              bind-IsFramed
                (bind-IsFramed (read_inode-IsFramed n) (λ inode. pure-IsFramed (new_entry n inode)))
                (λ entry s.
                  Frames-bind _ (place_entry-IsFramed entry (u8 (s.stray 6)) lost_found.i_block s)
                    (λ _. set_parent-IsFramed n dir.inode))))
      ]))
