-- ===== src/Correct/Links.antt =====
-- `directory_traversor` of correct.c: the table of references to each inode.
pub mod References
pub mod Frame
use my_fsck.Base.{
  ℕ, zero, suc, ◌+◌, List, [], ◌∷◌, Bool, true, false, ◌&&◌, ◌||◌, not, none, some, u8, ltb, leb,
  ◌==◌, if◌then◌else◌,
}
use my_fsck.Machine.Memory.{Bytes, set_byte}
use my_fsck.Machine.State.{DirEntry}
use my_fsck.Machine.Run.{M, out_of_fuel, pure, halt, gets, require, ◌>>=◌, ◌>>◌}
use my_fsck.Disk.{read_block}
use my_fsck.Inode.{read_inode}
use my_fsck.Dir.{read_dir_entry_in_block}
use my_fsck.Correct.Pass1.{dir_type}

-- `calloc(n, 1)`.
abbrev pub calloc : Bytes → ℕ → Bytes
calloc stray n i = if ltb i n then 0 else stray i

-- `inode_links_count[i]++` on an array of `char`, kept as bit patterns.
unfoldable pub bump : Bytes → ℕ → Bytes
bump table i = set_byte table i (u8 (table i + 1))

-- What the loop does with one entry. `first` says that the block is the directory's first, and
-- `visit` is the recursive call.
unfoldable pub traverse_entry : (Bytes → ℕ → M Bytes) → Bool → ℕ → DirEntry → Bytes → M Bytes
traverse_entry visit first count entry table = do
  inodes ← gets (λ s. s.super_block.s_inodes_count)
  require (leb entry.inode inodes)
  if (not first || leb 2 count) && entry.file_type == dir_type
      then visit (bump table entry.inode) entry.inode
      else pure (bump table entry.inode)

unfoldable pub traverse_entries :
    (Bytes → ℕ → M Bytes) → (rounds : ℕ) → Bool → (offset count : ℕ) → Bytes → Bytes → M Bytes
traverse_entries visit zero first offset count dir_block table = halt out_of_fuel
traverse_entries visit (suc rounds) first offset count dir_block table = do
  block_size ← gets (λ s. s.block_size)
  if ltb offset block_size
      then (elim (read_dir_entry_in_block dir_block offset) [
        | none ↦ pure table
        | some entry ↦ do
          table' ← traverse_entry visit first count entry table
          traverse_entries visit rounds first (offset + entry.rec_len) (count + 1) dir_block table'
      ])
      else pure table

unfoldable pub traverse_blocks : (Bytes → ℕ → M Bytes) → Bool → List ℕ → Bytes → M Bytes
traverse_blocks visit first [] table = pure table
traverse_blocks visit first (block_id ∷ blocks) table = if block_id == 0 then pure table else do
  block_size ← gets (λ s. s.block_size)
  stray ← gets (λ s. s.stray)
  dir_block ← read_block block_id block_size stray
  table' ← traverse_entries visit (block_size + 1) first 0 0 dir_block table
  traverse_blocks visit false blocks table'

-- `depth` bounds the nesting of the calls.
unfoldable pub directory_traversor : ℕ → Bytes → ℕ → M Bytes
directory_traversor zero inode_links_count inode_num = halt out_of_fuel
directory_traversor (suc depth) inode_links_count inode_num = do
  inode ← read_inode inode_num
  traverse_blocks (directory_traversor depth) true inode.i_block inode_links_count
