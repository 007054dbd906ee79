-- ===== src/Tests/Partitions.antt =====
-- The theorems on the partition tables at small disks.
use my_fsck.Base.{zero, suc, ◌+◌, ◌%◌, ◌^◌, ◌≡◌, arith, [], ◌∷◌, u32, true, false}
use my_fsck.Machine.State.{partition_info}
use my_fsck.Machine.Run.{ok}
use my_fsck.Util.{parse_loop, parse_bytes_to_decimal_u}
use my_fsck.Util.Little.{little}
use my_fsck.Disk.{read_bytes}
use my_fsck.Partition.{read_partition_entry, read_partition_info, print_partition_info, read_ebr}
use my_fsck.Partition.Table.{
  read_partition_entry-little, read_partition_info-slot, print_partition_info-slot,
}
use my_fsck.Partition.Ebr.{entry_at, LeadsForward, Found, read_ebr-Found}
use my_fsck.Correct.Partitions.{correct_one_partition}
use my_fsck.Correct.Partitions.Confined.{Confines, correct_one_partition-Confined}
use my_fsck.Correct.Partitions.Skipped.{correct_one_partition-skips}
use my_fsck.Tests.Sample.{disk, chain}

read_partition_entry-little_example : read_partition_entry disk.image.byte 0 446 ≡ record {
  type = 0x83;
  start = u32 (0 + little disk.image.byte 454 4 % 2 ^ 32);
  length = little disk.image.byte 458 4 % 2 ^ 32;
}
read_partition_entry-little_example = read_partition_entry-little disk.image.byte 0 446

read_partition_info-slot_example :
    read_partition_info 0 1 disk
    ≡ ok true (record disk { partition_entry = record { type = 0x83; start = 1; length = 7 } })
unfolding little
read_partition_info-slot_example =
    read_partition_info-slot 0 1 disk (omega arith) (omega arith) (omega arith)

print_partition_info-slot_example :
    print_partition_info 0 1 disk
    ≡ ok true (record disk {
      partition_entry = record { type = 0x83; start = 1; length = 7 };
      output = partition_info 0x83 1 7 ∷ [];
    })
unfolding little
print_partition_info-slot_example =
    print_partition_info-slot 0 1 disk (omega arith) (omega arith) (omega arith)

chain-LeadsForward : LeadsForward chain 5
unfolding entry_at read_partition_entry read_bytes parse_bytes_to_decimal_u parse_loop
chain-LeadsForward zero h = (omega arith, λ e. absurd (omega arith), omega arith)
chain-LeadsForward (suc zero) h = (omega arith, λ e. absurd (omega arith), omega arith)
chain-LeadsForward (suc (suc zero)) h = (omega arith, λ e. absurd (omega arith), omega arith)
chain-LeadsForward (suc (suc (suc zero))) h = (omega arith, λ e. absurd (omega arith), omega arith)
chain-LeadsForward (suc (suc (suc (suc zero)))) h =
    (omega arith, λ e. absurd (omega arith), omega arith)
chain-LeadsForward (suc (suc (suc (suc (suc k))))) h = absurd (omega arith)

-- The extended partition of the sectors 2 to 4.
read_ebr-Found_example :
    Found chain 5 (read_ebr 20 (record { type = 5; start = 2; length = 3 }) 5 chain)
read_ebr-Found_example =
    read_ebr-Found 20 5 (record { type = 5; start = 2; length = 3 }) chain (omega arith)
      chain-LeadsForward (omega arith)

-- The first slot of this disk is empty.
correct_one_partition-skips_example :
    correct_one_partition 0 0 1 chain
    ≡ ok false (record chain { partition_entry = record { type = 0; start = 0; length = 0 } })
unfolding little
correct_one_partition-skips_example =
    correct_one_partition-skips 0 0 1 chain (omega arith) (omega arith) (omega arith)
      (λ e. absurd (omega arith))

-- The whole run on the first partition.
correct_one_partition-Confined_example : Confines disk (correct_one_partition 0 2 1 disk)
correct_one_partition-Confined_example = correct_one_partition-Confined 0 2 1 disk
