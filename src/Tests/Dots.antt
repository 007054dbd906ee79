-- ===== src/Tests/Dots.antt =====
-- Pass 1 over a root directory whose first two entries name other inodes.
use my_fsck.Base.{ℕ, zero, suc, ◌+◌, ◌≤◌, ◌≡◌, refl, arith, [], ◌∷◌, true, false, some}
use my_fsck.Machine.Memory.{set_byte}
use my_fsck.Machine.State.{Fsck}
use my_fsck.Machine.Run.{ok}
use my_fsck.Util.{parse_loop, parse_bytes_to_decimal_u}
use my_fsck.Disk.{read_bytes, block_sector}
use my_fsck.Disk.Blocks.{block_address}
use my_fsck.Disk.Written.{OnlyBytes}
use my_fsck.SuperBlock.{read_group_desc}
use my_fsck.Inode.{get_inode_group_offset, get_inode_offset_in_group, parse_inode, parse_pointers}
use my_fsck.Inode.Location.{table_start, table_offset}
use my_fsck.Inode.Read.{inode_at}
use my_fsck.Inode.Write.{inode_address}
use my_fsck.Inode.Update.{with_image-InodeOnDisk}
use my_fsck.Dir.{read_dir_entry_in_block}
use my_fsck.Correct.FileBlocks.Tree.{both_lists}
use my_fsck.Correct.Pass1.{pass1}
use my_fsck.Correct.Pass1.Right.{dots_right}
use my_fsck.Correct.Pass1.Listed.{
  entries_listed, names_right, fits_block, blocks_listed, dirs_listed, starts_as, first_len,
}
use my_fsck.Correct.Pass1.Moves.{IsPlaced, OnlyDots}
use my_fsck.Correct.Pass1.Repaired.{first_of, pass1-dots_right}
use my_fsck.Tests.Loaded.{loaded}
use my_fsck.Tests.Clean.{loaded-InodeOnDisk}

-- `.` names inode 5 and `..` inode 7.
abbrev wrong_dots : Fsck
wrong_dots = record loaded {
  image = record loaded.image { byte = set_byte (set_byte loaded.image.byte 6144 5) 6156 7 };
}

root_listed :
    dirs_listed wrong_dots (first_of wrong_dots) wrong_dots.image false 2 2 2 ≡ some (6 ∷ [])
unfolding dirs_listed blocks_listed entries_listed names_right fits_block starts_as first_len
    both_lists inode_at block_address block_sector table_start table_offset read_group_desc
    parse_inode parse_pointers parse_bytes_to_decimal_u parse_loop get_inode_group_offset
    get_inode_offset_in_group read_dir_entry_in_block read_bytes set_byte
root_listed = refl

place : (j : ℕ) → 1 ≤ j → j ≤ 4 → inode_address wrong_dots j + 128 ≤ 6144
unfolding inode_address block_address block_sector table_start table_offset read_group_desc
    parse_bytes_to_decimal_u parse_loop get_inode_group_offset get_inode_offset_in_group read_bytes
place zero lo hi = absurd (omega arith)
place (suc zero) lo hi = omega arith
place (suc (suc zero)) lo hi = omega arith
place (suc (suc (suc zero))) lo hi = omega arith
place (suc (suc (suc (suc zero)))) lo hi = omega arith
place (suc (suc (suc (suc (suc j))))) lo hi = absurd (omega arith)

sixth : block_address wrong_dots 6 ≡ 6144
unfolding block_address block_sector
sixth = refl

sixth-IsPlaced : IsPlaced wrong_dots 6
sixth-IsPlaced = (omega arith, omega (arith, sixth), λ j lo hi. omega (arith, sixth, place j lo hi))

pass1-dots_right_example :
    (s' : Fsck) × (pass1 2 2 2 wrong_dots ≡ ok tt s')
    × (pass1 2 2 2 s' ≡ ok tt s')
    × (dots_right s' 2 2 2 ≡ true)
    × (dirs_listed wrong_dots (first_of wrong_dots) s'.image true 2 2 2 ≡ some (6 ∷ []))
    × OnlyBytes wrong_dots s'
    × OnlyDots wrong_dots (first_of wrong_dots) (6 ∷ []) wrong_dots.image s'.image
    × ((j : ℕ) → 1 ≤ j → j ≤ 4 → inode_at s' j ≡ inode_at wrong_dots j)
pass1-dots_right_example =
    pass1-dots_right wrong_dots 2 2 2 (6 ∷ []) (omega arith)
      (λ j lo hi.
        with_image-InodeOnDisk loaded wrong_dots.image [] j refl (loaded-InodeOnDisk j lo hi))
      (omega arith) (omega arith) (omega arith) root_listed (sixth-IsPlaced, tt) (tt, tt)
