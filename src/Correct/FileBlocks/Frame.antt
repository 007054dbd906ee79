-- ===== src/Correct/FileBlocks/Frame.antt =====
-- `get_true_block_bitmap` changes nothing before the partition.
use my_fsck.Base.{
  ℕ, zero, suc, ◌+◌, ◌==◌, ◌||◌, not, Bool, true, false, ltb, leb, List, [], ◌∷◌, take, get_or,
  Option-cases, Bool-cases, inl, inr,
}
use my_fsck.Machine.Memory.{Bytes, set_byte}
use my_fsck.Machine.State.{Inode, too_large}
use my_fsck.Machine.Run.{M, out_of_fuel}
use my_fsck.Machine.Frame.{
  IsFramed, Frames-bind, bind-IsFramed, if-IsFramed, pure-IsFramed, halt-IsFramed, print-IsFramed,
  require-IsFramed,
}
use my_fsck.Util.{parse_bytes_to_decimal_u}
use my_fsck.Disk.Frame.{read_block-IsFramed}
use my_fsck.Inode.Frame.{read_inode-IsFramed}
use my_fsck.Dir.{read_dir_entry_in_block}
use my_fsck.Correct.FileBlocks.{
  ndir_blocks, dind_block, indirect_max_block, double_indirect_max_block, inode_is_lnk,
  inode_is_reg, mark, mark_all, pointer_rounds, pointer_loop, get_file_indirect_block_bitmap,
  whole_loop, double_loop, get_file_double_indirect_block_bitmap, file_blocks,
  get_file_block_bitmap, true_entries, true_blocks, get_true_block_bitmap,
}

mark-IsFramed : (t : Bytes) (b : ℕ) → IsFramed (mark t b)
unfolding mark
mark-IsFramed t b s =
    Frames-bind _ (require-IsFramed (leb b s.super_block.s_blocks_count) s)
      (λ _. pure-IsFramed (set_byte t b 1))

mark_all-IsFramed : (t : Bytes) (blocks : List ℕ) → IsFramed (mark_all t blocks)
unfolding mark_all
mark_all-IsFramed t [] = pure-IsFramed t
mark_all-IsFramed t (b ∷ blocks) =
    bind-IsFramed (mark-IsFramed t b) (λ t'. mark_all-IsFramed t' blocks)

pointer_loop-IsFramed : (rounds i k n : ℕ) (m t : Bytes) → IsFramed (pointer_loop rounds i k n m t)
unfolding pointer_loop
pointer_loop-IsFramed zero i k n m t = pure-IsFramed _
pointer_loop-IsFramed (suc rounds) i k n m t =
    bind-IsFramed (mark-IsFramed t (parse_bytes_to_decimal_u m i 4)) (λ t'.
      elim (Bool-cases (k + 1 == n)) [
        | inl last ↦ rw last (pure-IsFramed _)
        | inr more ↦ rw more (pointer_loop-IsFramed rounds (i + 4) (k + 1) n m t')
      ])

get_file_indirect_block_bitmap-IsFramed :
    (t : Bytes) (inode : Inode) (n : ℕ) → IsFramed (get_file_indirect_block_bitmap t inode n)
unfolding get_file_indirect_block_bitmap
get_file_indirect_block_bitmap-IsFramed t inode n =
    let b = get_or inode.i_block ndir_blocks 0 in
    bind-IsFramed (mark_all-IsFramed t (take ndir_blocks inode.i_block)) (λ direct.
      bind-IsFramed (mark-IsFramed direct b) (λ indirect s.
        Frames-bind _ (read_block-IsFramed b s.block_size s.stray s) (λ m.
          bind-IsFramed
            (pointer_loop-IsFramed (pointer_rounds s.block_size) 0 ndir_blocks n m indirect)
            (λ r. pure-IsFramed r.0))))

whole_loop-IsFramed : (rounds i k : ℕ) (m t : Bytes) → IsFramed (whole_loop rounds i k m t)
unfolding whole_loop
whole_loop-IsFramed zero i k m t = pure-IsFramed _
whole_loop-IsFramed (suc rounds) i k m t =
    bind-IsFramed (mark-IsFramed t (parse_bytes_to_decimal_u m i 4))
      (λ t'. whole_loop-IsFramed rounds (i + 4) (k + 1) m t')

double_loop-IsFramed : (rounds i k n : ℕ) (m t : Bytes) → IsFramed (double_loop rounds i k n m t)
unfolding double_loop
double_loop-IsFramed zero i k n m t = pure-IsFramed t
double_loop-IsFramed (suc rounds) i k n m t =
    let b = parse_bytes_to_decimal_u m i 4 in
    bind-IsFramed (mark-IsFramed t b) (λ t' s.
      Frames-bind _ (read_block-IsFramed b s.block_size s.stray s) (λ level2.
        bind-IsFramed (pointer_loop-IsFramed (pointer_rounds s.block_size) 0 k n level2 t') (λ r.
          elim (Bool-cases r.2) [
            | inl last ↦ rw last (pure-IsFramed r.0)
            | inr more ↦ rw more (double_loop-IsFramed rounds (i + 4) r.1 n m r.0)
          ])))

get_file_double_indirect_block_bitmap-IsFramed :
    (t : Bytes) (inode : Inode) (n : ℕ) → IsFramed (get_file_double_indirect_block_bitmap t inode n)
unfolding get_file_double_indirect_block_bitmap
get_file_double_indirect_block_bitmap-IsFramed t inode n =
    let single = get_or inode.i_block ndir_blocks 0 in
    let double = get_or inode.i_block dind_block 0 in
    bind-IsFramed (mark_all-IsFramed t (take ndir_blocks inode.i_block)) (λ direct.
      bind-IsFramed (mark-IsFramed direct single) (λ t1 s.
        Frames-bind _ (read_block-IsFramed single s.block_size s.stray s) (λ level1.
          bind-IsFramed (whole_loop-IsFramed (pointer_rounds s.block_size) 0 ndir_blocks level1 t1)
            (λ r. bind-IsFramed (mark-IsFramed r.0 double) (λ t3.
              bind-IsFramed (read_block-IsFramed double s.block_size level1) (λ level1'.
                double_loop-IsFramed (pointer_rounds s.block_size) 0 r.1 n level1' t3))))))

get_file_block_bitmap-IsFramed :
    (t : Bytes) (inode : Inode) → IsFramed (get_file_block_bitmap t inode)
unfolding get_file_block_bitmap
get_file_block_bitmap-IsFramed t inode s =
    let n = file_blocks s.block_size inode in
    if-IsFramed (leb n ndir_blocks) (mark_all-IsFramed t (take n inode.i_block))
      (if-IsFramed (leb n indirect_max_block) (get_file_indirect_block_bitmap-IsFramed t inode n) (
        if-IsFramed (leb n double_indirect_max_block)
          (get_file_double_indirect_block_bitmap-IsFramed t inode n)
          (bind-IsFramed (print-IsFramed too_large) (λ _. pure-IsFramed t))))
      s

module _ (visit : Bytes → ℕ → M Bytes)
    (visit-IsFramed : (t : Bytes) (i : ℕ) → IsFramed (visit t i)) where
  true_entries-IsFramed :
      (rounds : ℕ) (first : Bool) (offset count : ℕ) (m t : Bytes)
      → IsFramed (true_entries visit rounds first offset count m t)
  unfolding true_entries
  true_entries-IsFramed zero first offset count m t s = halt-IsFramed out_of_fuel s
  true_entries-IsFramed (suc rounds) first offset count m t s =
      elim (Bool-cases (ltb offset s.block_size)) [
        | inr past ↦ rw past (pure-IsFramed t s)
        | inl inside ↦ rw inside (elim (Option-cases (read_dir_entry_in_block m offset)) [
          | inl free ↦ rw free (pure-IsFramed t s)
          | inr (e, used) ↦ rw used (
              Frames-bind _
                (if-IsFramed (not first || leb 2 count) (visit-IsFramed t e.inode) (pure-IsFramed t)
                  s)
                (λ t'. true_entries-IsFramed rounds first (offset + e.rec_len) (count + 1) m t'))
        ])
      ]

  true_blocks-IsFramed :
      (first : Bool) (blocks : List ℕ) (t : Bytes) → IsFramed (true_blocks visit first blocks t)
  unfolding true_blocks
  true_blocks-IsFramed first [] t = pure-IsFramed t
  true_blocks-IsFramed first (b ∷ blocks) t = if-IsFramed (b == 0) (pure-IsFramed t) (
      bind-IsFramed (mark-IsFramed t b) (λ t1 s.
        Frames-bind _ (read_block-IsFramed b s.block_size s.stray s) (λ m.
          bind-IsFramed (true_entries-IsFramed (s.block_size + 1) first 0 0 m t1)
            (λ t2. true_blocks-IsFramed false blocks t2))))

pub get_true_block_bitmap-IsFramed :
    (depth : ℕ) (t : Bytes) (i : ℕ) → IsFramed (get_true_block_bitmap depth t i)
unfolding get_true_block_bitmap
get_true_block_bitmap-IsFramed zero t i = halt-IsFramed out_of_fuel
get_true_block_bitmap-IsFramed (suc depth) t i = bind-IsFramed (read_inode-IsFramed i) (λ inode.
    if-IsFramed (inode_is_lnk inode) (pure-IsFramed t) (
      if-IsFramed (inode_is_reg inode) (get_file_block_bitmap-IsFramed t inode) (
        true_blocks-IsFramed (get_true_block_bitmap depth) (get_true_block_bitmap-IsFramed depth)
          true inode.i_block t)))
