-- ===== src/Partition.antt =====
-- partitionEntry.c: the partition table of the disk and of its extended partition.
pub mod Table
pub mod Ebr
pub mod Keeps
use my_fsck.Base.{
  ℕ, zero, suc, ◌+◌, ◌-◌, ◌*◌, Bool, true, false, Option, none, some, u32, ltb, leb, ◌==◌,
  if◌then◌else◌,
}
use my_fsck.Machine.Memory.{Bytes}
use my_fsck.Machine.State.{PartitionEntry, Fsck, minus_one, partition_info}
use my_fsck.Machine.Run.{M, out_of_fuel, pure, halt, gets, modify, print, ◌>>=◌, ◌>>◌}
use my_fsck.Util.{parse_bytes_to_decimal_u}
use my_fsck.Disk.{read_sectors}

abbrev pub first_partition_offset : ℕ
first_partition_offset = 446

abbrev pub partition_entry_size : ℕ
partition_entry_size = 16

abbrev pub invalid_type : ℕ
invalid_type = 0xFF

abbrev pub dos_extended_partition : ℕ
dos_extended_partition = 5

abbrev pub ext2_fs : ℕ
ext2_fs = 0x83

-- `IS_NULL_ENTRY` and `IS_EXT2_FS`.
abbrev pub is_null_entry : PartitionEntry → Bool
is_null_entry entry = entry.type == invalid_type

abbrev pub is_ext2_fs : PartitionEntry → Bool
is_ext2_fs entry = entry.type == ext2_fs

-- The second and third argument of the parser are written as start and end, but it takes a length:
-- it is handed `offset + 12` and `offset + 16` bytes, and reads behind the sector.
unfoldable pub read_partition_entry : Bytes → ℕ → ℕ → PartitionEntry
read_partition_entry section start offset = record {
  type = section (offset + 4);
  start = u32 (start + parse_bytes_to_decimal_u section (offset + 8) (offset + 12));
  length = parse_bytes_to_decimal_u section (offset + 12) (offset + 16);
}

-- The offset is 446 + 16 * (partition_num - 1), also for number 0.
unfoldable pub read_mbr : Bytes → ℕ → PartitionEntry
read_mbr mbr partition_num =
    read_partition_entry mbr 0
      (first_partition_offset + partition_entry_size * partition_num - partition_entry_size)

-- A local entry that nothing was written to.
abbrev pub unset_entry : Fsck → PartitionEntry
unset_entry s = record { type = s.stray 0; start = s.stray 1; length = s.stray 2 }

-- The loop of `read_ebr`, and the call of itself on an extended partition, which begins the loop
-- anew on that partition. `entry` is the local `partition_entry`.
unfoldable pub ebr_loop : ℕ → ℕ → ℕ → ℕ → PartitionEntry → M PartitionEntry
ebr_loop zero start end partition_num entry = halt out_of_fuel
ebr_loop (suc rounds) start end partition_num entry =
    if partition_num == 4
    then pure entry
    else (if leb end start then pure (record entry { type = invalid_type }) else do
      stray ← gets (λ s. s.stray)
      new_sector ← read_sectors start 1 stray
      let next = read_partition_entry new_sector start first_partition_offset
      if ltb end (u32 (next.start + next.length))
          then pure (record next { type = invalid_type })
          else (elim (next.type == dos_extended_partition) [
            | true ↦ ebr_loop rounds next.start (u32 (next.start + next.length)) partition_num entry
            | false ↦ ebr_loop rounds (u32 (next.start + next.length)) end (partition_num - 1) next
          ]))

unfoldable pub read_ebr : ℕ → PartitionEntry → ℕ → M PartitionEntry
read_ebr rounds base partition_num = do
  unset ← gets unset_entry
  ebr_loop rounds base.start (u32 (base.start + base.length)) partition_num unset

-- The first of the entries `i` to 4 of the MBR that is extended.
unfoldable pub find_extended : Bytes → ℕ → ℕ → Option PartitionEntry
find_extended mbr zero i = none
find_extended mbr (suc left) i =
    let rest = find_extended mbr left (i + 1) in
    if (read_mbr mbr i).type == dos_extended_partition then some (read_mbr mbr i) else rest

-- The result says whether 0 was returned, and not -1.
unfoldable pub read_partition_info : ℕ → ℕ → M Bool
read_partition_info rounds partition_num = do
  stray ← gets (λ s. s.stray)
  mbr ← read_sectors 0 1 stray
  if leb partition_num 4
      then (do modify (λ s. record s { partition_entry = read_mbr mbr partition_num }); pure true)
      else (elim (find_extended mbr 4 1) [
        | none ↦ do
          modify (λ s. record s {
            partition_entry = record (s.partition_entry) { type = invalid_type };
          })
          pure false
        | some base ↦ do
          entry ← read_ebr rounds base partition_num
          modify (λ s. record s { partition_entry = entry })
          pure true
      ])

unfoldable pub print_partition_info : ℕ → ℕ → M Bool
print_partition_info rounds partition_num = do
  read_partition_info rounds partition_num >>= λ _. pure tt
  entry ← gets (λ s. s.partition_entry)
  if is_null_entry entry
      then (do print minus_one; pure false)
      else (do print (partition_info entry.type entry.start entry.length); pure true)
