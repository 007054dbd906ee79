-- ===== src/Dir.antt =====
-- dir.c: directory entries in a block, and the search for a name in a directory.
pub mod Codec
pub mod Frame
pub mod Links
pub mod Path
use my_fsck.Base.{
  ℕ, zero, suc, ◌+◌, List, [], ◌∷◌, ◌++◌, true, false, Option, none, some, take, length, list_eq,
  u8, u16, ltb, ◌==◌, if◌then◌else◌, get_or,
}
use my_fsck.Machine.Memory.{Bytes, c_string}
use my_fsck.Machine.State.{DirEntry, Inode, entry_name}
use my_fsck.Machine.Run.{M, fault, out_of_fuel, pure, halt, gets, print, ◌>>=◌, ◌>>◌}
use my_fsck.Util.{parse_bytes_to_decimal_u}
use my_fsck.Disk.{read_block}

-- `none` is the -1 of an entry whose inode number is 0.
unfoldable pub read_dir_entry_in_block : Bytes → ℕ → Option DirEntry
read_dir_entry_in_block dir_block offset =
    if parse_bytes_to_decimal_u dir_block offset 4 == 0
    then none
    else some (record {
      inode = parse_bytes_to_decimal_u dir_block offset 4;
      rec_len = u16 (parse_bytes_to_decimal_u dir_block (offset + 4) 2);
      name_len = u8 (parse_bytes_to_decimal_u dir_block (offset + 6) 1);
      file_type = u8 (parse_bytes_to_decimal_u dir_block (offset + 7) 1);
      name =
          c_string dir_block (offset + 8) (u8 (parse_bytes_to_decimal_u dir_block (offset + 6) 1));
    })

-- `memcpy` of 128 bytes of an entry: the name is copied up to its 120th byte, and behind it stands
-- what the target held.
unfoldable pub copy_entry : Bytes → DirEntry → DirEntry
copy_entry stray e =
    if ltb (length e.name) 120
    then e
    else record e { name = take 120 e.name ++ c_string stray 128 136 }

-- The loop of `search_dir_entry` over one block. An entry of length 0 keeps it at its place.
unfoldable pub search_loop : ℕ → ℕ → Bytes → List ℕ → ℕ → M (Option DirEntry)
search_loop zero block_size dir_block name offset = halt out_of_fuel
search_loop (suc rounds) block_size dir_block name offset =
    if ltb offset block_size
    then (elim (read_dir_entry_in_block dir_block offset) [
      | none ↦ pure none
      | some e ↦ elim (list_eq e.name name) [
        | true ↦ pure (some e)
        | false ↦ search_loop rounds block_size dir_block name (offset + e.rec_len)
      ]
    ])
    else pure none

-- Only the first block is looked at, since the loop over the blocks returns at its first round. A
-- directory without a block leaves the function without a `return`.
unfoldable pub search_dir_entry : Inode → List ℕ → M (Option DirEntry)
search_dir_entry inode name = if get_or inode.i_block 0 0 == 0 then halt fault else do
  block_size ← gets (λ s. s.block_size)
  stray ← gets (λ s. s.stray)
  dir_block ← read_block (get_or inode.i_block 0 0) block_size stray
  found ← search_loop (block_size + 1) block_size dir_block name 0
  pure (elim found [ none ↦ none | some e ↦ some (copy_entry stray e) ])

-- The loops of `print_entry_name_in_dir`.
unfoldable pub print_names_in_block : ℕ → ℕ → Bytes → ℕ → M (Unit {0})
print_names_in_block zero block_size dir_block offset = halt out_of_fuel
print_names_in_block (suc rounds) block_size dir_block offset =
    if ltb offset block_size
    then (elim (read_dir_entry_in_block dir_block offset) [
      | none ↦ pure tt
      | some e ↦ do
        print (entry_name e.inode e.name)
        print_names_in_block rounds block_size dir_block (offset + e.rec_len)
    ])
    else pure tt

unfoldable pub print_names_in_blocks : List ℕ → M (Unit {0})
print_names_in_blocks [] = pure tt
print_names_in_blocks (block_id ∷ blocks) = if block_id == 0 then pure tt else do
  block_size ← gets (λ s. s.block_size)
  stray ← gets (λ s. s.stray)
  dir_block ← read_block block_id block_size stray
  print_names_in_block (block_size + 1) block_size dir_block 0
  print_names_in_blocks blocks

unfoldable pub print_entry_name_in_dir : Inode → M (Unit {0})
print_entry_name_in_dir inode = print_names_in_blocks inode.i_block
