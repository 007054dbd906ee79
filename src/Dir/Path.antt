-- ===== src/Dir/Path.antt =====
-- `search_dir_entry_r` and `get_dir_name` of dir.c: the entry at the end of a path, and the name of
-- an inode.
pub mod Walk
use my_fsck.Base.{
  ℕ, zero, suc, ◌+◌, ◌-◌, ◌&&◌, not, Bool, List, [], ◌∷◌, take, drop, get_or, none, some, Option,
  u8, u16, ltb, ◌==◌, if◌then◌else◌,
}
use my_fsck.Machine.Memory.{Bytes, c_string, set_byte, strncpy}
use my_fsck.Machine.State.{Fsck, Inode, DirEntry}
use my_fsck.Machine.Run.{M, out_of_fuel, pure, halt, gets, require, ◌>>=◌, ◌>>◌}
use my_fsck.Disk.{read_block}
use my_fsck.Inode.{read_inode}
use my_fsck.Correct.Pass1.{inode_is_not_dir}
use my_fsck.Correct.FileBlocks.{inode_is_lnk}
use my_fsck.Dir.{read_dir_entry_in_block, search_dir_entry}
use my_fsck.Dir.Links.{extract_entry_name, parse_name}

-- `EXT2_NAME_LEN`.
abbrev pub name_len : ℕ
name_len = 255

-- A local entry that nothing was written to.
abbrev pub unset_dir_entry : Fsck → DirEntry
unset_dir_entry s = record {
  inode = s.stray 0;
  rec_len = u16 (s.stray 4);
  name_len = u8 (s.stray 6);
  file_type = u8 (s.stray 7);
  name = c_string s.stray 8 name_len;
}

-- The end of the loop's body: the search ends, or goes on in the inode that was found.
unfoldable pub enter :
    (Inode → DirEntry → M (Option DirEntry)) → Option DirEntry → M (Option DirEntry)
enter visit none = pure none
enter visit (some entry) = do inode ← read_inode entry.inode; visit inode entry

-- The loop. The name of a part is copied into an array of 255 bytes, with a zero behind it.
unfoldable pub path_loop :
    (rounds : ℕ) → List ℕ → (start end : ℕ) → Inode → DirEntry → M (Option DirEntry)
path_loop zero path start end inode entry = halt out_of_fuel
path_loop (suc rounds) path start end inode entry =
    if get_or path end 0 == 0 then pure (some entry) else do
      let end' = start + extract_entry_name (drop start path)
      if inode_is_not_dir inode && not (get_or path end' 0 == 0) then pure none else do
        require (ltb (end' - start) name_len)
        search_dir_entry inode (take (end' - start) (drop start path))
            >>= enter (path_loop rounds path (end' + 1) end')

-- The path is a C string, without its zero. `end` is read before it is set, so it is an unknown
-- number; one behind the path is taken to show a zero.
unfoldable pub search_dir_entry_r : (rounds : ℕ) → Inode → List ℕ → M (Option DirEntry)
search_dir_entry_r rounds cur_inode path = do
  end ← gets (λ s. s.stray 0)
  unset ← gets unset_dir_entry
  path_loop rounds path (if get_or path 0 0 == b'/' then 1 else 0) end cur_inode unset

-- What the local entry holds after it was read.
unfoldable pub entry_or : DirEntry → Option DirEntry → DirEntry
entry_or unset none = unset
entry_or unset (some e) = e

-- The name is left in the array `name`. Of an entry whose inode number is 0 the other fields are
-- not set.
unfoldable pub get_dir_name : ℕ → Bytes → M Bytes
get_dir_name inode_num name = do
  inode ← read_inode inode_num
  if inode_is_lnk inode then pure (parse_name inode name) else do
    block_size ← gets (λ s. s.block_size)
    unset ← gets unset_dir_entry
    dir_block ← gets (λ s. s.stray) >>= read_block (get_or inode.i_block 0 0) block_size
    let entry = entry_or unset (read_dir_entry_in_block dir_block 0)
    pure (set_byte (strncpy name 0 entry.name entry.name_len) entry.name_len 0)
