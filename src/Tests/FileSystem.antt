-- ===== src/Tests/FileSystem.antt =====
-- The theorems on blocks, inodes and the passes at the small file system.
use my_fsck.Base.{ℕ, zero, suc, ◌+◌, ◌*◌, ◌≤◌, ◌<◌, ◌≡◌, refl, arith, ap, ◌∙◌, sym, [], ◌∷◌, count}
use my_fsck.Machine.Memory.{Bytes, splice}
use my_fsck.Machine.State.{Fsck}
use my_fsck.Machine.Run.{ok, ◌>>◌}
use my_fsck.Util.{parse_loop, parse_bytes_to_decimal_u}
use my_fsck.Disk.{read_bytes, read_sectors, read_block, read_blocks, block_sector, write_block}
use my_fsck.Disk.Blocks.{block_address, written, read_block-write_block}
use my_fsck.Disk.Runs.{RunOnDisk, read_blocks-ok}
use my_fsck.SuperBlock.{read_group_desc}
use my_fsck.Inode.{
  get_inode_group_offset, get_inode_offset_in_group, get_group_inode_block_num, check_divisors,
  read_inode, read_group_inode_table, parse_inode, parse_pointers, write_inode,
}
use my_fsck.Inode.Location.{
  HasTables, table_start, table_offset, group_inode_block_num-covers, table_offset-in_table,
}
use my_fsck.Inode.Layout.{group_table, TablesOnDisk, read_inode-write_inode_tables}
use my_fsck.Inode.Read.{InodeOnDisk, inode_at}
use my_fsck.Inode.Write.{LinkCountWritten, write_inode-LinkCountWritten}
use my_fsck.Inode.Update.{Apart-same_group, read_inode-write_inode}
use my_fsck.Dir.{read_dir_entry_in_block}
use my_fsck.Correct.Links.{
  calloc, bump, traverse_entry, traverse_entries, traverse_blocks, directory_traversor,
}
use my_fsck.Correct.Links.References.{
  Agree, references, list_blocks, list_entries, list_entry, directory_traversor-references,
}
use my_fsck.Correct.LostFound.{root_inode_num, set_parent}
use my_fsck.Correct.LostFound.Parent.{ParentWritten, first_block, set_parent-ParentWritten}
use my_fsck.Correct.Pass3.{pass3}
use my_fsck.Correct.Pass3.Change.{InodesOnDisk, LinksFixed}
use my_fsck.Correct.Pass3.Fixed.{pass3-LinksFixed}
use my_fsck.Correct.Pass3.Counts.{stored_count, pass3-references}
use my_fsck.Tests.Sample.{disk}

disk-HasTables : HasTables disk
disk-HasTables = record { sectors = omega arith; per_group = omega arith; fits = omega arith }

one_block : get_group_inode_block_num disk ≡ 1
unfolding get_group_inode_block_num
one_block = refl

first_group : (j : ℕ) → 1 ≤ j → j ≤ 4 → get_inode_group_offset disk j ≡ 0
unfolding get_inode_group_offset
first_group j lo hi = omega arith

first_table : (read_group_desc disk 0).bg_inode_table ≡ 5
unfolding read_group_desc parse_bytes_to_decimal_u parse_loop
first_table = refl

at_five : (j : ℕ) → 1 ≤ j → j ≤ 4 → table_start disk j ≡ 5
unfolding table_start
at_five j lo hi =
    ap (λ (g : ℕ). (read_group_desc disk g).bg_inode_table) (first_group j lo hi) ∙ first_table

table_run : RunOnDisk disk 5 1
unfolding block_address block_sector
table_run = record {
  sectors = omega arith;
  numbered = omega arith;
  offsets = omega arith;
  on_disk = omega arith;
}

pub disk-InodeOnDisk : (j : ℕ) → 1 ≤ j → j ≤ 4 → InodeOnDisk disk j
disk-InodeOnDisk j lo hi = record {
  tables = disk-HasTables;
  table = rw (at_five j lo hi, one_block) table_run;
}

disk-InodesOnDisk : InodesOnDisk disk 4
disk-InodesOnDisk = record {
  on_disk = disk-InodeOnDisk;
  apart = λ i j lo hi lo' hi' ne.
      Apart-same_group disk i j disk-HasTables lo (omega arith) lo' (omega arith)
        (first_group i lo hi ∙ sym (first_group j lo' hi')) ne;
}

root_references : references 2 [] root_inode_num disk ≡ ok (2 ∷ 2 ∷ []) disk
unfolding references list_blocks list_entries list_entry read_inode check_divisors
    read_group_inode_table read_blocks read_block read_sectors read_bytes block_sector parse_inode
    parse_pointers read_dir_entry_in_block parse_bytes_to_decimal_u parse_loop read_group_desc
    get_inode_group_offset get_inode_offset_in_group get_group_inode_block_num splice
root_references = refl

abbrev root_table : Bytes
root_table = bump (bump (calloc disk.stray 5) 2) 2

root_traversal :
    directory_traversor 2 (calloc disk.stray 5) root_inode_num disk ≡ ok root_table disk
unfolding directory_traversor traverse_blocks traverse_entries traverse_entry read_inode
    check_divisors read_group_inode_table read_blocks read_block read_sectors read_bytes
    block_sector parse_inode parse_pointers read_dir_entry_in_block parse_bytes_to_decimal_u
    parse_loop read_group_desc get_inode_group_offset get_inode_offset_in_group
    get_group_inode_block_num splice
root_traversal = refl

read_block-write_block_example :
    (m : Bytes) × ((write_block 6 512 (λ i. 7) >> read_block 6 512 disk.stray) disk
      ≡ ok m (written disk 6 (λ i. 7)))
    × ((i : ℕ) → i < 512 → m i ≡ 7)
unfolding block_address block_sector
read_block-write_block_example =
    read_block-write_block disk 6 6 (λ i. 7) disk.stray (omega arith) (omega arith) (omega arith)
      (omega arith)

read_blocks-ok_example :
    (m : Bytes) × (read_blocks 1 5 0 512 disk.stray disk ≡ ok m disk)
    × ((j : ℕ) → j < 512 → m j ≡ disk.image.byte (block_address disk 5 + j))
read_blocks-ok_example = read_blocks-ok disk 5 1 disk.stray table_run

group_inode_block_num-covers_example :
    (4 * 128 ≤ 512 * get_group_inode_block_num disk)
    × (512 * get_group_inode_block_num disk < 4 * 128 + 512)
group_inode_block_num-covers_example = group_inode_block_num-covers disk disk-HasTables

table_offset-in_table_example :
    (table_offset disk 2 ≡ get_inode_offset_in_group disk 2 * 128)
    × (table_offset disk 2 + 128 ≤ 512 * get_group_inode_block_num disk)
table_offset-in_table_example = table_offset-in_table disk 2 disk-HasTables

write_inode-LinkCountWritten_example :
    (s' : Fsck) × (write_inode 2 2 disk ≡ ok tt s') × LinkCountWritten disk 2 2 s'
write_inode-LinkCountWritten_example =
    write_inode-LinkCountWritten disk 2 2 (disk-InodeOnDisk 2 (omega arith) (omega arith))

read_inode-write_inode_example :
    (s' : Fsck) × ((write_inode 2 2 >> read_inode 2) disk
      ≡ ok (record (inode_at disk 2) { i_links_count = 2 }) s')
    × LinkCountWritten disk 2 2 s'
read_inode-write_inode_example =
    read_inode-write_inode disk 2 2 2 (disk-InodeOnDisk 2 (omega arith) (omega arith))
      (disk-InodeOnDisk 2 (omega arith) (omega arith)) (λ ne. absurd (ne refl))

directory_traversor-references_example :
    Agree disk (references 2 [] 2 disk) (directory_traversor 2 (calloc disk.stray 5) 2 disk)
directory_traversor-references_example = directory_traversor-references disk 2 2

pass3-LinksFixed_example :
    (s' : Fsck) × (pass3 2 disk ≡ ok tt s') × LinksFixed 4 root_table 1 5 disk s'
pass3-LinksFixed_example = pass3-LinksFixed 2 disk root_table disk-InodesOnDisk root_traversal

-- The root, which had a link count of 7, gets one of 2.
pass3-references_example :
    (s' : Fsck) × (pass3 2 disk ≡ ok tt s')
    × ((j : ℕ)
        → 1 ≤ j
        → j ≤ 4
        → inode_at s' j
          ≡ record (inode_at disk j) { i_links_count = stored_count (count j (2 ∷ 2 ∷ [])) })
pass3-references_example = pass3-references 2 disk (2 ∷ 2 ∷ []) disk-InodesOnDisk root_references

root_block : first_block disk 2 ≡ 6
unfolding inode_at parse_inode parse_pointers table_start table_offset get_inode_group_offset
    get_inode_offset_in_group read_group_desc parse_bytes_to_decimal_u parse_loop block_address
    block_sector
root_block = refl

set_parent-ParentWritten_example :
    (s' : Fsck) × (set_parent 2 11 disk ≡ ok tt s') × ParentWritten disk (first_block disk 2) 11 s'
unfolding block_address block_sector
set_parent-ParentWritten_example =
    set_parent-ParentWritten disk 2 11 (disk-InodeOnDisk 2 (omega arith) (omega arith))
      (omega (arith, root_block)) (omega (arith, root_block))

tables_run : (g : ℕ) → g < 1 → RunOnDisk disk (group_table disk g) (get_group_inode_block_num disk)
tables_run zero lt = rw (first_table, one_block) table_run
tables_run (suc g) lt = absurd (omega arith)

disk-TablesOnDisk : TablesOnDisk disk 1
disk-TablesOnDisk = record {
  tables = disk-HasTables;
  run = tables_run;
  tables_apart = λ g k p q. absurd (omega arith);
}

read_inode-write_inode_tables_example :
    (s' : Fsck) × ((write_inode 2 5 >> read_inode 3) disk ≡ ok (inode_at disk 3) s')
    × LinkCountWritten disk 2 5 s'
read_inode-write_inode_tables_example =
    read_inode-write_inode_tables disk 1 disk-TablesOnDisk 2 5 3 (omega arith) (omega arith)
      (omega arith) (omega arith) (omega arith) (omega arith)
