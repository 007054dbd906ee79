-- ===== src/Correct/LostFound.antt =====
-- `create_new_entry`, `write_new_entry` and `add_to_lost_found` of correct.c.
pub mod Digits
pub mod Frame
pub mod Entry
pub mod Named
pub mod Parent
use mathlib.Core.List.{reverse}
use my_fsck.Base.{
  ℕ, zero, suc, ◌+◌, ◌-◌, ◌/◌, ◌%◌, List, [], ◌∷◌, none, some, length, get_or, u8, u16, sub32, ltb,
  leb, ◌==◌, if◌then◌else◌,
}
use my_fsck.Machine.Memory.{Bytes, set_byte, strncpy}
use my_fsck.Machine.State.{Inode, DirEntry, no_lost_found}
use my_fsck.Machine.Run.{M, out_of_fuel, pure, halt, gets, print, require, ◌>>=◌, ◌>>◌}
use my_fsck.Util.{write_number_into_block, pad_to_4_bytes}
use my_fsck.Disk.{read_block, write_block}
use my_fsck.Inode.{read_inode}
use my_fsck.Dir.{read_dir_entry_in_block, search_dir_entry}
use my_fsck.Correct.Pass1.{dir_type, inode_is_dir}

abbrev pub reg_type : ℕ
reg_type = 1

abbrev pub root_inode_num : ℕ
root_inode_num = 2

abbrev pub dir_entry_prefix_len : ℕ
dir_entry_prefix_len = 8

abbrev pub first_entry_len : ℕ
first_entry_len = 12

-- "lost+found".
abbrev pub lost_found_dir_name : List ℕ
lost_found_dir_name = b'l' ∷ b'o' ∷ b's' ∷ b't' ∷ b'+' ∷ b'f' ∷ b'o' ∷ b'u' ∷ b'n' ∷ b'd' ∷ []

-- The digits of the number, the last one first. The loop makes at most ten rounds on `__u32`.
unfoldable pub digits : ℕ → ℕ → List ℕ
digits zero inode_num = []
digits (suc rounds) inode_num =
    let rest = digits rounds (inode_num / 10) in
    if inode_num == 0 then [] else (inode_num % 10 + b'0') ∷ rest

-- The part of `create_new_entry` behind the call of `read_inode`.
unfoldable pub new_entry : ℕ → Inode → DirEntry
new_entry inode_num inode =
    let name = reverse (digits 10 inode_num) in
    record {
      inode = inode_num;
      rec_len = u16 (pad_to_4_bytes (dir_entry_prefix_len + length (digits 10 inode_num)));
      name_len = u8 (length (digits 10 inode_num));
      file_type = if inode_is_dir inode then dir_type else reg_type;
      name = name;
    }

unfoldable pub create_new_entry : ℕ → M DirEntry
create_new_entry inode_num = do inode ← read_inode inode_num; pure (new_entry inode_num inode)

-- The block with the entry in it; its length is what is left of the block.
unfoldable pub put_entry : ℕ → DirEntry → Bytes → ℕ → Bytes
put_entry block_size entry dir_block offset_in_block =
    let with_inode = write_number_into_block dir_block offset_in_block entry.inode 4 in
    let rec_len = u16 (sub32 block_size offset_in_block) in
    let with_len = write_number_into_block with_inode (offset_in_block + 4) rec_len 2 in
    let with_name_len = set_byte with_len (offset_in_block + 6) entry.name_len in
    let with_type = set_byte with_name_len (offset_in_block + 7) entry.file_type in
    strncpy with_type (offset_in_block + 8) entry.name (entry.name_len + 1)

unfoldable pub write_new_entry : DirEntry → Bytes → ℕ → ℕ → M (Unit {0})
write_new_entry entry dir_block block_id offset_in_block = do
  block_size ← gets (λ s. s.block_size)
  require (leb (offset_in_block + 8 + (entry.name_len + 1)) block_size)
  write_block block_id block_size (put_entry block_size entry dir_block offset_in_block)

-- The loop that finds the last entry of a block: `offset` less the last `len`, and the `name_len`
-- of the entry that was read last. At an inode number of 0 `len` is -1.
unfoldable pub last_entry : ℕ → ℕ → Bytes → (offset len name_len : ℕ) → M (ℕ × ℕ)
last_entry zero block_size dir_block offset len name_len = halt out_of_fuel
last_entry (suc rounds) block_size dir_block offset len name_len =
    if ltb offset block_size
    then (elim (read_dir_entry_in_block dir_block offset) [
      | none ↦ pure (offset + 1, name_len)
      | some e ↦ last_entry rounds block_size dir_block (offset + e.rec_len) e.rec_len e.name_len
    ])
    else pure (offset - len, name_len)

-- The loop over the blocks of lost+found: the entry goes behind the last one of the first block
-- that has room.
unfoldable pub place_entry : DirEntry → ℕ → List ℕ → M (Unit {0})
place_entry entry name_len [] = pure tt
place_entry entry name_len (block_id ∷ blocks) = if block_id == 0 then pure tt else do
  block_size ← gets (λ s. s.block_size)
  stray ← gets (λ s. s.stray)
  dir_block ← read_block block_id block_size stray
  (offset, name_len') ← last_entry (block_size + 1) block_size dir_block 0 0 name_len
  let real_len = pad_to_4_bytes (dir_entry_prefix_len + name_len')
  if ltb (offset + real_len + entry.rec_len) block_size
      then write_new_entry entry (write_number_into_block dir_block (offset + 4) real_len 2)
          block_id (offset + real_len)
      else place_entry entry name_len' blocks

-- The last part of `add_to_lost_found`: the inode number at byte 12 of the first block.
unfoldable pub set_parent : ℕ → ℕ → M (Unit {0})
set_parent inode_num parent = do
  inode ← read_inode inode_num
  block_size ← gets (λ s. s.block_size)
  stray ← gets (λ s. s.stray)
  dir_block ← read_block (get_or inode.i_block 0 0) block_size stray
  require (leb (first_entry_len + 4) block_size)
  write_block (get_or inode.i_block 0 0) block_size
      (write_number_into_block dir_block first_entry_len parent 4)

unfoldable pub add_to_lost_found : ℕ → M (Unit {0})
add_to_lost_found inode_num = do
  root_inode ← read_inode root_inode_num
  found ← search_dir_entry root_inode lost_found_dir_name
  elim found [
    | none ↦ print no_lost_found
    | some lost_found_dir ↦ do
      lost_found_inode ← read_inode lost_found_dir.inode
      entry ← create_new_entry inode_num
      stray ← gets (λ s. s.stray)
      place_entry entry (u8 (stray 6)) lost_found_inode.i_block
      set_parent inode_num lost_found_dir.inode
  ]
