-- ===== src/Correct/FileBlocks.antt =====
-- `get_true_block_bitmap` of correct.c and its helpers: the blocks that the directory tree uses.
pub mod Marked
pub mod Double
pub mod Owned
pub mod Kept
pub mod Tree
pub mod TreeKept
pub mod Frame
use my_fsck.Base.{
  ℕ, zero, suc, ◌+◌, ◌/◌, List, [], ◌∷◌, Bool, true, false, not, ◌||◌, none, some, take, get_or,
  u32, sub32, bit_and, ltb, leb, ◌==◌, if◌then◌else◌,
}
use my_fsck.Machine.Memory.{Bytes, set_byte}
use my_fsck.Machine.State.{Inode, too_large}
use my_fsck.Machine.Run.{M, out_of_fuel, pure, halt, gets, print, require, ◌>>=◌, ◌>>◌}
use my_fsck.Util.{parse_bytes_to_decimal_u}
use my_fsck.Disk.{read_block}
use my_fsck.Inode.{read_inode}
use my_fsck.Dir.{read_dir_entry_in_block}

-- `EXT2_NDIR_BLOCKS`, which is also `EXT2_IND_BLOCK`, and `EXT2_DIND_BLOCK`.
abbrev pub ndir_blocks : ℕ
ndir_blocks = 12

abbrev pub dind_block : ℕ
dind_block = 13

abbrev pub indirect_max_block : ℕ
indirect_max_block = 268

abbrev pub double_indirect_max_block : ℕ
double_indirect_max_block = 65549

-- `INODE_IS_LNK` and `INODE_IS_REG`.
unfoldable pub inode_is_lnk : Inode → Bool
inode_is_lnk inode = bit_and inode.i_mode 0xF000 == 0xA000

unfoldable pub inode_is_reg : Inode → Bool
inode_is_reg inode = bit_and inode.i_mode 0xF000 == 0x8000

-- `block_bitmap[block_id] = 1`, in an array of `s_blocks_count + 1` bytes.
unfoldable pub mark : Bytes → ℕ → M Bytes
mark block_bitmap block_id = do
  blocks ← gets (λ s. s.super_block.s_blocks_count)
  require (leb block_id blocks)
  pure (set_byte block_bitmap block_id 1)

unfoldable pub mark_all : Bytes → List ℕ → M Bytes
mark_all block_bitmap [] = pure block_bitmap
mark_all block_bitmap (b ∷ blocks) = do
  block_bitmap' ← mark block_bitmap b
  mark_all block_bitmap' blocks

-- The rounds of `for (i = 0; i < block_size; i += 4)`.
abbrev pub pointer_rounds : ℕ → ℕ
pointer_rounds block_size = (block_size + 3) / 4

-- The loop over a block of pointers from byte `i` on, which ends when `k` reaches the file's
-- number of blocks: the table, the last `k`, and whether it was reached.
unfoldable pub pointer_loop : (rounds i k file_block_num : ℕ) → Bytes → Bytes → M (Bytes × ℕ × Bool)
pointer_loop zero i k file_block_num pointer_block block_bitmap = pure (block_bitmap, k, false)
pointer_loop (suc rounds) i k file_block_num pointer_block block_bitmap = do
  block_bitmap' ← mark block_bitmap (parse_bytes_to_decimal_u pointer_block i 4)
  elim (k + 1 == file_block_num) [
    | true ↦ pure (block_bitmap', k + 1, true)
    | false ↦ pointer_loop rounds (i + 4) (k + 1) file_block_num pointer_block block_bitmap'
  ]

unfoldable pub get_file_indirect_block_bitmap : Bytes → Inode → ℕ → M Bytes
get_file_indirect_block_bitmap block_bitmap inode file_block_num = do
  direct ← mark_all block_bitmap (take ndir_blocks inode.i_block)
  let pointer = get_or inode.i_block ndir_blocks 0
  indirect ← mark direct pointer
  block_size ← gets (λ s. s.block_size)
  stray ← gets (λ s. s.stray)
  pointer_block ← read_block pointer block_size stray
  (table, _, _) ←
      pointer_loop (pointer_rounds block_size) 0 ndir_blocks file_block_num pointer_block indirect
  pure table

-- The loop over the single indirect block of a doubly indirect file has no early end.
unfoldable pub whole_loop : (rounds i k : ℕ) → Bytes → Bytes → M (Bytes × ℕ)
whole_loop zero i k pointer_block block_bitmap = pure (block_bitmap, k)
whole_loop (suc rounds) i k pointer_block block_bitmap = do
  block_bitmap' ← mark block_bitmap (parse_bytes_to_decimal_u pointer_block i 4)
  whole_loop rounds (i + 4) (k + 1) pointer_block block_bitmap'

-- The outer loop over the double indirect block.
unfoldable pub double_loop : (rounds i k file_block_num : ℕ) → Bytes → Bytes → M Bytes
double_loop zero i k file_block_num pointer_block block_bitmap = pure block_bitmap
double_loop (suc rounds) i k file_block_num pointer_block block_bitmap = do
  let indirect_block_id = parse_bytes_to_decimal_u pointer_block i 4
  block_bitmap' ← mark block_bitmap indirect_block_id
  block_size ← gets (λ s. s.block_size)
  stray ← gets (λ s. s.stray)
  level2 ← read_block indirect_block_id block_size stray
  (table, k', done) ←
      pointer_loop (pointer_rounds block_size) 0 k file_block_num level2 block_bitmap'
  elim done [
    | true ↦ pure table
    | false ↦ double_loop rounds (i + 4) k' file_block_num pointer_block table
  ]

unfoldable pub get_file_double_indirect_block_bitmap : Bytes → Inode → ℕ → M Bytes
get_file_double_indirect_block_bitmap block_bitmap inode file_block_num = do
  direct ← mark_all block_bitmap (take ndir_blocks inode.i_block)
  let single = get_or inode.i_block ndir_blocks 0
  table1 ← mark direct single
  block_size ← gets (λ s. s.block_size)
  stray ← gets (λ s. s.stray)
  level1 ← read_block single block_size stray
  (table2, k) ← whole_loop (pointer_rounds block_size) 0 ndir_blocks level1 table1
  let double = get_or inode.i_block dind_block 0
  table3 ← mark table2 double
  level1' ← read_block double block_size level1
  double_loop (pointer_rounds block_size) 0 k file_block_num level1' table3

unfoldable pub file_blocks : ℕ → Inode → ℕ
file_blocks block_size inode = sub32 (u32 (inode.i_size + block_size)) 1 / block_size

unfoldable pub get_file_block_bitmap : Bytes → Inode → M Bytes
get_file_block_bitmap block_bitmap inode = do
  block_size ← gets (λ s. s.block_size)
  let file_block_num = file_blocks block_size inode
  if leb file_block_num ndir_blocks
      then mark_all block_bitmap (take file_block_num inode.i_block)
      else (if leb file_block_num indirect_max_block
          then get_file_indirect_block_bitmap block_bitmap inode file_block_num
          else (if leb file_block_num double_indirect_max_block
              then get_file_double_indirect_block_bitmap block_bitmap inode file_block_num
              else (do print too_large; pure block_bitmap)))

-- What the loop does with one entry, `visit` being the recursive call.
unfoldable pub true_entries :
    (Bytes → ℕ → M Bytes) → (rounds : ℕ) → Bool → (offset count : ℕ) → Bytes → Bytes → M Bytes
true_entries visit zero first offset count dir_block table = halt out_of_fuel
true_entries visit (suc rounds) first offset count dir_block table = do
  block_size ← gets (λ s. s.block_size)
  if ltb offset block_size
      then (elim (read_dir_entry_in_block dir_block offset) [
        | none ↦ pure table
        | some entry ↦ do
          table' ← (if not first || leb 2 count then visit table entry.inode else pure table)
          true_entries visit rounds first (offset + entry.rec_len) (count + 1) dir_block table'
      ])
      else pure table

unfoldable pub true_blocks : (Bytes → ℕ → M Bytes) → Bool → List ℕ → Bytes → M Bytes
true_blocks visit first [] table = pure table
true_blocks visit first (block_id ∷ blocks) table = if block_id == 0 then pure table else do
  marked ← mark table block_id
  block_size ← gets (λ s. s.block_size)
  stray ← gets (λ s. s.stray)
  dir_block ← read_block block_id block_size stray
  table' ← true_entries visit (block_size + 1) first 0 0 dir_block marked
  true_blocks visit false blocks table'

-- `depth` bounds the nesting of the calls.
unfoldable pub get_true_block_bitmap : ℕ → Bytes → ℕ → M Bytes
get_true_block_bitmap zero block_bitmap inode_num = halt out_of_fuel
get_true_block_bitmap (suc depth) block_bitmap inode_num = do
  inode ← read_inode inode_num
  if inode_is_lnk inode
      then pure block_bitmap
      else (if inode_is_reg inode
          then get_file_block_bitmap block_bitmap inode
          else true_blocks (get_true_block_bitmap depth) true inode.i_block block_bitmap)
