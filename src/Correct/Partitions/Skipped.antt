-- ===== src/Correct/Partitions/Skipped.antt =====
-- Partitions that are not checked.
use my_fsck.Base.{ℕ, ◌≤◌, ◌≡◌, ◌≢◌, false, ne→==, ◌==◌, Bool-cases, inl, inr}
use my_fsck.Machine.State.{Fsck}
use my_fsck.Machine.Run.{ok}
use my_fsck.Partition.{invalid_type, ext2_fs}
use my_fsck.Partition.Table.{slot, read_partition_info-slot}
use my_fsck.Correct.Partitions.{correct_one_partition}

-- For the partitions 1 to 4 of an image that has a first sector, if the type byte of the slot is
-- not that of ext2, `correct_one_partition` changes nothing but the global entry, which is the
-- slot, and returns -1 exactly if the type byte is 0xFF, and else 0.
pub correct_one_partition-skips :
    (rounds depth n : ℕ) (s : Fsck)
    → 1 ≤ n
    → n ≤ 4
    → 512 ≤ s.image.size
    → (slot s.image n).type ≢ ext2_fs
    → correct_one_partition rounds depth n s
      ≡ ok ((slot s.image n).type == invalid_type) (record s { partition_entry = slot s.image n })
unfolding correct_one_partition
correct_one_partition-skips rounds depth n s lo hi fits ne =
    let other : ((slot s.image n).type == ext2_fs) ≡ false =
      ne→== (slot s.image n).type ext2_fs ne in
    elim (Bool-cases ((slot s.image n).type == invalid_type)) [
      | inl missing ↦ rw (read_partition_info-slot rounds n s lo hi fits, missing)
      | inr present ↦ rw (read_partition_info-slot rounds n s lo hi fits, present, other)
    ]
