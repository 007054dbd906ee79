-- ===== src/Correct/Partitions/All.antt =====
-- The loop over all partitions on a disk without ext2 and extended partitions.
use my_fsck.Base.{
  ℕ, zero, suc, ◌+◌, ◌≤◌, ◌<◌, ◌≡◌, ◌≢◌, refl, arith, none, true, false, ne→==, ◌==◌, ==→eq,
  Bool-cases, inl, inr,
}
use my_fsck.Machine.State.{Fsck, PartitionEntry, Image}
use my_fsck.Machine.Run.{ok}
use my_fsck.Partition.{
  invalid_type, ext2_fs, dos_extended_partition, find_extended, read_partition_info,
}
use my_fsck.Partition.Table.{slot, first_sector, read_first, read_mbr-slot}
use my_fsck.Correct.Partitions.{correct_one_partition, all_partitions, correct_partition}
use my_fsck.Correct.Partitions.Skipped.{correct_one_partition-skips}

-- None of the four primary partitions is of ext2 or extended.
abbrev pub IsForeign : Image → Type 0
IsForeign img =
    (n : ℕ)
    → 1 ≤ n
    → n ≤ 4
    → ((slot img n).type ≢ ext2_fs) × ((slot img n).type ≢ dos_extended_partition)

find_extended-none :
    (left i : ℕ) (s : Fsck)
    → IsForeign s.image
    → 1 ≤ i
    → i + left ≤ 5
    → find_extended (first_sector s) left i ≡ none
unfolding find_extended
find_extended-none zero i s h lo hi = refl
find_extended-none (suc left) i s h lo hi =
    let other : ((slot s.image i).type == 5) ≡ false =
      ne→== (slot s.image i).type 5 ((h i lo (omega arith)).1) in
    rw (read_mbr-slot s i lo (omega arith), other)
      (find_extended-none left (i + 1) s h (omega arith) (omega arith))

correct_one_partition-no_fifth :
    (rounds depth : ℕ) (s : Fsck)
    → IsForeign s.image
    → 512 ≤ s.image.size
    → correct_one_partition rounds depth 5 s
      ≡ ok true (record s { partition_entry = record s.partition_entry { type = invalid_type } })
unfolding correct_one_partition read_partition_info
correct_one_partition-no_fifth rounds depth s h fits =
    rw (read_first s fits, find_extended-none 4 1 s h (omega arith) (omega arith)) refl

all_partitions-ends :
    (left rounds depth i : ℕ) (s : Fsck)
    → IsForeign s.image
    → 512 ≤ s.image.size
    → 1 ≤ i
    → i ≤ 5
    → 5 < i + left
    → (e : PartitionEntry) × (e.type ≡ invalid_type)
      × (all_partitions left rounds depth i s ≡ ok tt (record s { partition_entry = e }))
unfolding all_partitions
all_partitions-ends zero rounds depth i s h fits lo hi fuel = absurd (omega arith)
all_partitions-ends (suc left) rounds depth i s h fits lo hi fuel = elim (Bool-cases (i == 5)) [
  | inl five ↦
      let e = ==→eq i 5 five in
      (
        record s.partition_entry { type = invalid_type },
        refl,
        rw (e, correct_one_partition-no_fifth rounds depth s h fits) refl,
      )
  | inr less ↦
      let le : i ≤ 4 = ground arith in
      let e = slot s.image i in
      let skips = correct_one_partition-skips rounds depth i s lo le fits ((h i lo le).0) in
      elim (Bool-cases (e.type == invalid_type)) [
        | inl missing ↦ (e, ==→eq e.type invalid_type missing, rw (skips, missing) refl)
        | inr present ↦
            let rest =
              all_partitions-ends left rounds depth (i + 1) (record s { partition_entry = e }) h
                fits (omega arith) (omega arith) (omega arith) in
            (rest.0, rest.1, rw (skips, present) rest.2)
      ]
]

pub correct_partition-ends :
    (left rounds depth : ℕ) (s : Fsck)
    → IsForeign s.image
    → 512 ≤ s.image.size
    → 5 ≤ left
    → (e : PartitionEntry) × (e.type ≡ invalid_type)
      × (correct_partition left rounds depth 0 s ≡ ok tt (record s { partition_entry = e }))
unfolding correct_partition
correct_partition-ends left rounds depth s h fits fuel =
    all_partitions-ends left rounds depth 1 s h fits (omega arith) (omega arith) (omega arith)
