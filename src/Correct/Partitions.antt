-- ===== src/Correct/Partitions.antt =====
-- `correct_one_partition` and `correct_partition` of correct.c.
pub mod Skipped
pub mod All
pub mod Clean
pub mod Repairable
pub mod Repaired
pub mod Confined
use my_fsck.Base.{ℕ, zero, suc, ◌+◌, Bool, true, false, not, ◌==◌, if◌then◌else◌}
use my_fsck.Machine.Run.{M, out_of_fuel, pure, halt, gets, modify, ◌>>=◌, ◌>>◌}
use my_fsck.SuperBlock.{read_super_block, read_group_desc_block}
use my_fsck.Partition.{read_partition_info, is_null_entry, is_ext2_fs}
use my_fsck.Correct.Pass1.{pass1}
use my_fsck.Correct.LostFound.{root_inode_num}
use my_fsck.Correct.Pass2.{pass2}
use my_fsck.Correct.Pass3.{pass3}
use my_fsck.Correct.Pass4.{pass4}

-- The globals that the passes read.
unfoldable pub load_partition : M (Unit {0})
load_partition = do
  read_super_block
  stray ← gets (λ s. s.stray)
  block ← read_group_desc_block stray
  modify (λ s. record s { group_desc_block = block })

-- The result says whether the caller sees -1. Behind the passes there is no `return`, and what the
-- caller sees is not known. `rounds` is for the chain of extended partitions and `depth` for the
-- nesting of directories.
unfoldable pub correct_one_partition : (rounds depth partition_num : ℕ) → M Bool
correct_one_partition rounds depth partition_num = do
  read_partition_info rounds partition_num >>= λ _. pure tt
  entry ← gets (λ s. s.partition_entry)
  if is_null_entry entry
      then pure true
      else (if not (is_ext2_fs entry) then pure false else (do
        load_partition
        pass1 depth root_inode_num root_inode_num
        pass2 depth
        pass3 depth
        pass4 depth
        gets (λ s. s.stray_minus_one)))

-- The loop over the partitions from `i` on.
unfoldable pub all_partitions : (left rounds depth i : ℕ) → M (Unit {0})
all_partitions zero rounds depth i = halt out_of_fuel
all_partitions (suc left) rounds depth i = do
  last ← correct_one_partition rounds depth i
  elim last [ true ↦ pure tt | false ↦ all_partitions left rounds depth (i + 1) ]

unfoldable pub correct_partition : (left rounds depth partition_num : ℕ) → M (Unit {0})
correct_partition left rounds depth partition_num =
    if partition_num == 0
    then all_partitions left rounds depth 1
    else (do correct_one_partition rounds depth partition_num >>= λ _. pure tt; pure tt)
