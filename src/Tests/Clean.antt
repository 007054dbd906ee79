-- ===== src/Tests/Clean.antt =====
-- The run over the file system without errors.
use my_fsck.Base.{
  ℕ, zero, suc, ◌-◌, ◌%◌, ◌≤◌, ◌<◌, ◌≡◌, refl, ap, ◌∙◌, arith, true, false, inl, inr,
}
use mathlib.Core.Path.{subst}
use my_fsck.Machine.Memory.{set_byte, splice}
use my_fsck.Machine.Run.{ok}
use my_fsck.Util.{parse_loop, parse_bytes_to_decimal_u}
use my_fsck.Disk.{read_bytes, block_sector}
use my_fsck.Disk.Blocks.{block_address}
use my_fsck.Disk.Runs.{RunOnDisk}
use my_fsck.SuperBlock.{read_group_desc}
use my_fsck.Inode.{
  get_inode_group_offset, get_inode_offset_in_group, get_group_inode_block_num,
  get_group_inode_bitmap_block_num, parse_inode, parse_pointers,
}
use my_fsck.Inode.Location.{HasTables, table_start, table_offset}
use my_fsck.Inode.Read.{InodeOnDisk, inode_at}
use my_fsck.DataBlock.{get_block_alloc_bit, get_block_group_num, get_group_block_bitmap_block_num}
use my_fsck.Correct.Links.{bump}
use my_fsck.Correct.Pass2.Right.{IsKept}
use my_fsck.Correct.Pass3.{char_to_u32}
use my_fsck.Correct.Pass4.{get_skip_block_num_in_group}
use my_fsck.Correct.Pass4.Tables.{TableFits, in_table, in_tables}
use my_fsck.Correct.Pass4.Whole.{HasGroups}
use my_fsck.Correct.Pass4.Right.{BitsRight}
use my_fsck.Correct.Partitions.{correct_one_partition}
use my_fsck.Correct.Partitions.Clean.{IsClean, correct_one_partition-clean}
use my_fsck.Tests.Loaded.{
  before, chosen, loaded, partition_chosen, partition_loaded, root_references, used_blocks,
  root_referred, root_used, block_bitmap, inode_bitmap, blocks_mapped, inodes_mapped, root_dots,
}

pub loaded-HasTables : HasTables loaded
loaded-HasTables = record { sectors = omega arith; per_group = omega arith; fits = omega arith }

pub group_of : (j : ℕ) → 1 ≤ j → j ≤ 4 → get_inode_group_offset loaded j ≡ 0
unfolding get_inode_group_offset
group_of j lo hi = omega arith

pub table_at : (read_group_desc loaded 0).bg_inode_table ≡ 5
unfolding read_group_desc parse_bytes_to_decimal_u parse_loop read_bytes
table_at = refl

pub start_at : (j : ℕ) → 1 ≤ j → j ≤ 4 → table_start loaded j ≡ 5
unfolding table_start
start_at j lo hi =
    ap (λ (g : ℕ). (read_group_desc loaded g).bg_inode_table) (group_of j lo hi) ∙ table_at

table_run : RunOnDisk loaded 5 1
unfolding block_address block_sector
table_run = record {
  sectors = omega arith;
  numbered = omega arith;
  offsets = omega arith;
  on_disk = omega arith;
}

pub table_blocks : get_group_inode_block_num loaded ≡ 1
unfolding get_group_inode_block_num
table_blocks = refl

pub loaded-InodeOnDisk : (j : ℕ) → 1 ≤ j → j ≤ 4 → InodeOnDisk loaded j
loaded-InodeOnDisk j lo hi = record {
  tables = loaded-HasTables;
  table = rw (start_at j lo hi, table_blocks) table_run;
}

links :
    (j : ℕ) → 1 ≤ j → j ≤ 4 → (inode_at loaded j).i_links_count ≡ char_to_u32 (root_references j)
unfolding inode_at block_address block_sector table_start table_offset read_group_desc parse_inode
    parse_pointers parse_bytes_to_decimal_u parse_loop get_inode_group_offset
    get_inode_offset_in_group read_bytes char_to_u32 bump set_byte
links zero lo hi = absurd (omega arith)
links (suc zero) lo hi = refl
links (suc (suc zero)) lo hi = refl
links (suc (suc (suc zero))) lo hi = refl
links (suc (suc (suc (suc zero)))) lo hi = refl
links (suc (suc (suc (suc (suc j))))) lo hi = absurd (omega arith)

none_lost : (j : ℕ) → 1 ≤ j → j ≤ 4 → IsKept loaded inode_bitmap root_references j
unfolding inode_at block_address block_sector table_start table_offset read_group_desc parse_inode
    parse_pointers parse_bytes_to_decimal_u parse_loop get_inode_group_offset
    get_inode_offset_in_group read_bytes bump set_byte
none_lost zero lo hi = absurd (omega arith)
none_lost (suc zero) lo hi = inl refl
none_lost (suc (suc zero)) lo hi = inr (inr (λ e. absurd (omega arith)))
none_lost (suc (suc (suc zero))) lo hi = inl refl
none_lost (suc (suc (suc (suc zero)))) lo hi = inl refl
none_lost (suc (suc (suc (suc (suc j))))) lo hi = absurd (omega arith)

pub one_group : get_block_group_num loaded ≡ 1
unfolding get_block_group_num
one_group = refl

five_skipped : get_skip_block_num_in_group loaded ≡ 5
unfolding get_skip_block_num_in_group get_group_block_bitmap_block_num
    get_group_inode_bitmap_block_num get_group_inode_block_num
five_skipped = refl

first_fits : TableFits loaded 0
first_fits = (omega (arith, table_at), omega (arith, table_at, table_blocks))

group-TableFits : (k : ℕ) → k < 1 → TableFits loaded k
group-TableFits zero h = first_fits
group-TableFits (suc k) h = absurd (omega arith)

pub loaded-HasGroups : HasGroups loaded
loaded-HasGroups = record {
  skip_fits = omega (arith, five_skipped);
  covered = omega (arith, one_group);
  last_used = omega (arith, one_group, five_skipped);
  numbers_fit = omega (arith, one_group);
  tables_fit = λ k lt. group-TableFits k (omega (arith, one_group));
}

bit_right :
    (x : ℕ) → 1 ≤ x → x < 8 → 5 ≤ (x - 1) % 8 → used_blocks x ≡ get_block_alloc_bit block_bitmap x
unfolding set_byte get_block_alloc_bit splice read_bytes
bit_right zero lo hi place = absurd (omega arith)
bit_right (suc zero) lo hi place = absurd (omega arith)
bit_right (suc (suc zero)) lo hi place = absurd (omega arith)
bit_right (suc (suc (suc zero))) lo hi place = absurd (omega arith)
bit_right (suc (suc (suc (suc zero)))) lo hi place = absurd (omega arith)
bit_right (suc (suc (suc (suc (suc zero))))) lo hi place = absurd (omega arith)
bit_right (suc (suc (suc (suc (suc (suc zero)))))) lo hi place = refl
bit_right (suc (suc (suc (suc (suc (suc (suc zero))))))) lo hi place = refl
bit_right (suc (suc (suc (suc (suc (suc (suc (suc x)))))))) lo hi place = absurd (omega arith)

fifth_set : get_block_alloc_bit block_bitmap 5 ≡ 1
unfolding get_block_alloc_bit splice read_bytes
fifth_set = refl

table_block : (x : ℕ) → in_tables 1 0 loaded x ≡ true → 5 ≡ x
unfolding in_tables in_table
table_block x h = ground (arith, table_at, table_blocks)

loaded-BitsRight : BitsRight loaded used_blocks block_bitmap
loaded-BitsRight = record {
  in_groups = λ x lo hi place. bit_right x lo hi (omega (arith, five_skipped));
  in_tables_set = λ x h.
      subst (λ (b : ℕ). get_block_alloc_bit block_bitmap b ≡ 1) (table_block x (rw one_group at h))
        fifth_set;
}

loaded-IsClean : IsClean 2 loaded root_references inode_bitmap used_blocks block_bitmap
loaded-IsClean = record {
  sectors = omega arith;
  inodes = loaded-InodeOnDisk;
  dots = root_dots;
  referred = root_referred;
  allocated = inodes_mapped;
  none_lost = none_lost;
  counted = links;
  used = root_used;
  mapped = blocks_mapped;
  groups = loaded-HasGroups;
  bits = loaded-BitsRight;
}

correct_one_partition-clean_example :
    (correct_one_partition 0 2 1 before ≡ ok false loaded)
    × (loaded.image ≡ before.image)
    × (loaded.output ≡ before.output)
correct_one_partition-clean_example =
    correct_one_partition-clean 0 2 1 before chosen loaded true root_references inode_bitmap
      used_blocks block_bitmap partition_chosen refl partition_loaded loaded-IsClean
