-- ===== src/Correct/Pass4/Whole.antt =====
-- The two loops of `pass4` together.
use my_fsck.Base.{
  ℕ, ◌+◌, ◌-◌, ◌*◌, ◌%◌, ◌^◌, ◌≤◌, ◌<◌, ◌≡◌, arith, ap, ◌∙◌, leb, if◌then◌else◌, Bool, false, [],
}
use my_fsck.Machine.Memory.{Bytes, IsBytes}
use my_fsck.Machine.State.{Fsck}
use my_fsck.DataBlock.{get_block_alloc_bit, get_block_group_num}
use my_fsck.DataBlock.Flip.{IsBlock}
use my_fsck.Correct.Pass4.{Check, check_bitmap, groups_loop, get_skip_block_num_in_group}
use my_fsck.Correct.Pass4.Blocks.{IsFlags}
use my_fsck.Correct.Pass4.Groups.{checked, groups_loop-bit, checked-mod}
use my_fsck.Correct.Pass4.Tables.{TableFits, in_tables, tables_loop-bit}

-- The groups of a file system whose blocks count from 1: they cover the blocks, the last one
-- reaches beyond the blocks that are passed over, and all numbers fit 32 bits.
pub record HasGroups (s : Fsck) : Type 0 where
  pub skip_fits : get_skip_block_num_in_group s < s.super_block.s_blocks_per_group
  pub covered :
      s.super_block.s_blocks_count ≤ 1 + get_block_group_num s * s.super_block.s_blocks_per_group
  pub last_used :
      1 + get_block_group_num s * s.super_block.s_blocks_per_group + get_skip_block_num_in_group s
      < s.super_block.s_blocks_count + s.super_block.s_blocks_per_group
  pub numbers_fit : 1 + get_block_group_num s * s.super_block.s_blocks_per_group < 2 ^ 32
  pub tables_fit : (k : ℕ) → k < get_block_group_num s → TableFits s k

module _ (s : Fsck) (t m : Bytes) where
  check_bitmap-checked :
      IsFlags t
      → IsBytes m
      → HasGroups s
      → (x : ℕ) → IsBlock x
      → get_block_alloc_bit (check_bitmap s t m).bitmap x ≡ (
          if in_tables (get_block_group_num s) 0 s x
          then 1
          else if checked s.super_block.s_blocks_count s.super_block.s_blocks_per_group
              (get_skip_block_num_in_group s)
              (get_block_group_num s)
              1
              x
          then t x
          else get_block_alloc_bit m x)
  unfolding check_bitmap
  check_bitmap-checked flags bytes h x hx =
      let start : Check = record { bitmap = m; block_id = 1; found_error = false; reported = [] } in
      let first =
        groups_loop-bit t s.super_block.s_blocks_count s.super_block.s_blocks_per_group
          (get_skip_block_num_in_group s) (get_block_group_num s) start flags bytes (omega arith)
          (omega (arith, h.skip_fits)) h.numbers_fit in
      let c =
        groups_loop s.super_block.s_blocks_count s.super_block.s_blocks_per_group
          (get_skip_block_num_in_group s) (get_block_group_num s) t start in
      (tables_loop-bit (get_block_group_num s) 0 s c first.0
          (λ k p q. h.tables_fit k (omega arith))).1
        x hx
      ∙ ap (λ (b : ℕ). if in_tables (get_block_group_num s) 0 s x then 1 else b) (first.1 x hx)

  -- If the table of blocks in use holds zeros and ones; the bitmap holds bytes; a group has more
  -- blocks than the reserved ones at its start that pass 4 passes over; the groups, counted as
  -- `get_block_group_num` does and each of `s_blocks_per_group` blocks from block 1 on, have every
  -- block below `s_blocks_count`; the last of them has a block below `s_blocks_count` behind its
  -- reserved ones; the number of the block behind the groups fits 32 bits; and every inode table
  -- starts at block 1 or later, the number of the block behind it fitting 32 bits; then after the
  -- loops of `pass4` the bit of a block from 1 up to but not including `s_blocks_count` is 1 in an
  -- inode table, else the entry of the table of blocks in use if the block stands behind the
  -- reserved blocks of its group, and else as it was read.
  pub check_bitmap-bit :
      IsFlags t
      → IsBytes m
      → HasGroups s
      → (x : ℕ) → 1 ≤ x
      → x < s.super_block.s_blocks_count
      → get_block_alloc_bit (check_bitmap s t m).bitmap x ≡ (
          if in_tables (get_block_group_num s) 0 s x
          then 1
          else if leb (get_skip_block_num_in_group s) ((x - 1) % s.super_block.s_blocks_per_group)
          then t x
          else get_block_alloc_bit m x)
  check_bitmap-bit flags bytes h x lo hi =
      check_bitmap-checked flags bytes h x (lo, omega (arith, h.covered, h.numbers_fit))
      ∙ ap
          (λ (b : Bool).
            if in_tables (get_block_group_num s) 0 s x
            then 1
            else if b
            then t x
            else get_block_alloc_bit m x)
          (checked-mod s.super_block.s_blocks_count s.super_block.s_blocks_per_group
            (get_skip_block_num_in_group s) (get_block_group_num s) 1 x h.skip_fits lo hi h.covered
            h.last_used)
