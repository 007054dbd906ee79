-- ===== src/Correct/Pass1.antt =====
-- Pass 1 of correct.c: the first two entries of each directory.
pub mod Listed
pub mod Kept
pub mod Moves
pub mod Buffer
pub mod Entries
pub mod Round
pub mod Loop
pub mod Blocks
pub mod Repaired
pub mod Strict
pub mod Corrected
pub mod Right
pub mod Frame
use my_fsck.Base.{
  ℕ, zero, suc, ◌+◌, List, [], ◌∷◌, Bool, none, some, bit_and, ltb, leb, ◌==◌, if◌then◌else◌,
}
use my_fsck.Machine.Memory.{Bytes}
use my_fsck.Machine.State.{Inode, DirEntry, dir_entry_error}
use my_fsck.Machine.Run.{M, out_of_fuel, pure, halt, gets, print, require, ◌>>=◌, ◌>>◌}
use my_fsck.Util.{write_number_into_block}
use my_fsck.Disk.{read_block, write_block}
use my_fsck.Inode.{read_inode}
use my_fsck.Dir.{read_dir_entry_in_block}

abbrev pub dir_type : ℕ
dir_type = 2

-- `INODE_IS_DIR`.
unfoldable pub inode_is_dir : Inode → Bool
inode_is_dir inode = bit_and inode.i_mode 0xF000 == 0x4000

-- `!INODE_IS_DIR(&inode)`. The macro has no outer parentheses, so `!` binds to its left operand.
unfoldable pub inode_is_not_dir : Inode → Bool
inode_is_not_dir inode = (if bit_and inode.i_mode 0xF000 == 0 then 1 else 0) == 0x4000

-- The block in memory is changed and written.
unfoldable pub pass1_corrector : Bytes → ℕ → ℕ → ℕ → M Bytes
pass1_corrector dir_block block_id offset_in_block inode_num = do
  block_size ← gets (λ s. s.block_size)
  require (leb (offset_in_block + 4) block_size)
  write_block block_id block_size (write_number_into_block dir_block offset_in_block inode_num 4)
  pure (write_number_into_block dir_block offset_in_block inode_num 4)

-- The entry is held to `wanted`.
unfoldable pub check_entry : Bytes → ℕ → ℕ → DirEntry → ℕ → M Bytes
check_entry dir_block block_id offset entry wanted =
    if entry.inode == wanted then pure dir_block else do
      print (dir_entry_error wanted entry.name entry.inode)
      pass1_corrector dir_block block_id offset wanted

-- What the loop does with one entry; `visit` is the recursive call of `pass1`.
unfoldable pub pass1_entry :
    (ℕ → ℕ → M (Unit {0}))
    → (parent inode_num block_id offset count : ℕ) → DirEntry
    → Bytes
    → M Bytes
pass1_entry visit parent inode_num block_id offset count entry dir_block =
    if entry.file_type == dir_type
    then (if count == 0
        then check_entry dir_block block_id offset entry inode_num
        else (if count == 1
            then check_entry dir_block block_id offset entry parent
            else (do visit inode_num entry.inode; pure dir_block)))
    else pure dir_block

-- The loop over the entries of a block.
unfoldable pub pass1_entries :
    (ℕ → ℕ → M (Unit {0}))
    → (rounds parent inode_num block_id offset count : ℕ) → Bytes
    → M (Unit {0})
pass1_entries visit zero parent inode_num block_id offset count dir_block = halt out_of_fuel
pass1_entries visit (suc rounds) parent inode_num block_id offset count dir_block = do
  block_size ← gets (λ s. s.block_size)
  if ltb offset block_size
      then (elim (read_dir_entry_in_block dir_block offset) [
        | none ↦ pure tt
        | some entry ↦ do
          dir_block' ← pass1_entry visit parent inode_num block_id offset count entry dir_block
          pass1_entries visit rounds parent inode_num block_id (offset + entry.rec_len) (count + 1)
              dir_block'
      ])
      else pure tt

-- The loop over the blocks. The count of entries begins anew in each.
unfoldable pub pass1_blocks :
    (ℕ → ℕ → M (Unit {0})) → (parent inode_num : ℕ) → List ℕ → M (Unit {0})
pass1_blocks visit parent inode_num [] = pure tt
pass1_blocks visit parent inode_num (block_id ∷ blocks) = if block_id == 0 then pure tt else do
  block_size ← gets (λ s. s.block_size)
  stray ← gets (λ s. s.stray)
  dir_block ← read_block block_id block_size stray
  pass1_entries visit (block_size + 1) parent inode_num block_id 0 0 dir_block
  pass1_blocks visit parent inode_num blocks

-- `depth` bounds the nesting of the calls.
unfoldable pub pass1 : (depth parent_inode_num inode_num : ℕ) → M (Unit {0})
pass1 zero parent_inode_num inode_num = halt out_of_fuel
pass1 (suc depth) parent_inode_num inode_num = do
  inode ← read_inode inode_num
  if inode_is_not_dir inode
      then pure tt
      else pass1_blocks (pass1 depth) parent_inode_num inode_num inode.i_block
