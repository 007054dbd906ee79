-- ===== src/Tests/Files.antt =====
-- The blocks of a small file with an indirect block, and the target of a symbolic link.
use my_fsck.Base.{List, Bool, true, leb, ◌&&◌, ◌+◌, ℕ, ◌≡◌, [], ◌∷◌}
use my_fsck.Machine.Memory.{c_string}
use my_fsck.Machine.State.{Fsck, Inode}
use my_fsck.Disk.Blocks.{block_address}
use my_fsck.Dir.Links.{parse_name, text, parse_name-text}
use my_fsck.Tests.Sample.{disk, from_list}

-- Thirteen blocks, of which block 7 holds the last pointer.
abbrev file : Inode
file = record {
  i_mode = 0x81A4;
  i_uid = 0;
  i_size = 6656;
  i_atime = 0;
  i_ctime = 0;
  i_mtime = 0;
  i_dtime = 0;
  i_gid = 0;
  i_links_count = 1;
  i_blocks = 14;
  i_flags = 0;
  i_block = 6 ∷ 6 ∷ 6 ∷ 6 ∷ 6 ∷ 6 ∷ 6 ∷ 6 ∷ 6 ∷ 6 ∷ 6 ∷ 6 ∷ 7 ∷ 0 ∷ 0 ∷ [];
}

-- A disk whose block 7 holds pointers to the blocks 5 and 6.
abbrev plain : Fsck
plain = record disk {
  image = record { size = 4096; byte = from_list ((3584, 5) ∷ (3588, 6) ∷ []) };
}

-- A file of 269 blocks, whose two blocks of pointers are the same.
abbrev large_file : Inode
large_file = record file {
  i_size = 137728;
  i_block = 6 ∷ 6 ∷ 6 ∷ 6 ∷ 6 ∷ 6 ∷ 6 ∷ 6 ∷ 6 ∷ 6 ∷ 6 ∷ 6 ∷ 7 ∷ 7 ∷ 0 ∷ [];
}

abbrev all_usable : List ℕ → Bool
all_usable [] = true
all_usable (b ∷ blocks) = (leb b 8 && leb (block_address plain b + 512) 4096) && all_usable blocks

-- A symbolic link to "../a".
abbrev link : Inode
link = record file {
  i_block = 0x612F2E2E ∷ 0 ∷ 0 ∷ 0 ∷ 0 ∷ 0 ∷ 0 ∷ 0 ∷ 0 ∷ 0 ∷ 0 ∷ 0 ∷ 0 ∷ 0 ∷ 0 ∷ [];
}

parse_name-text_example : c_string (parse_name link disk.stray) 0 60 ≡ 46 ∷ 46 ∷ 47 ∷ 97 ∷ []
unfolding text
parse_name-text_example = parse_name-text link disk.stray
