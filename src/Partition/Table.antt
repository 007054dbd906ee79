-- ===== src/Partition/Table.antt =====
-- Entries of a partition table, and the four primary partitions.
use my_fsck.Base.{
  ℕ, ◌+◌, ◌-◌, ◌*◌, ◌%◌, ◌^◌, ◌≤◌, ◌<◌, ◌≡◌, arith, u32, ap, ◌∙◌, true, false, ◌==◌, le→leb,
  if◌then◌else◌, [], ◌∷◌, ◌++◌,
}
use my_fsck.Machine.Memory.{Bytes}
use my_fsck.Machine.State.{PartitionEntry, Fsck, Image, minus_one, partition_info}
use my_fsck.Machine.Run.{ok}
use my_fsck.Util.{parse_bytes_to_decimal_u}
use my_fsck.Util.Little.{little, parse_over_read, little-same}
use my_fsck.Disk.{read_sectors, read_bytes}
use my_fsck.Partition.{read_partition_entry, read_mbr, read_partition_info, print_partition_info}

read_field : (m : Bytes) (a n : ℕ) → 4 ≤ n → parse_bytes_to_decimal_u m a n ≡ little m a 4 % 2 ^ 32
read_field m a n h = ap (parse_bytes_to_decimal_u m a) (omega arith) ∙ parse_over_read m a (n - 4)

-- The entry that is read at `offset` is the type byte, the first little-endian number of four
-- bytes with `start` added, and the second such number, modulo 2^32, whatever the bytes behind
-- them are.
pub read_partition_entry-little :
    (section : Bytes) (start offset : ℕ)
    → read_partition_entry section start offset ≡ record {
      type = section (offset + 4);
      start = u32 (start + little section (offset + 8) 4 % 2 ^ 32);
      length = little section (offset + 12) 4 % 2 ^ 32;
    }
unfolding read_partition_entry
read_partition_entry-little section start offset = λ i. record {
  type = section (offset + 4);
  start = u32 (start + read_field section (offset + 8) (offset + 12) (omega arith) i);
  length = read_field section (offset + 12) (offset + 16) (omega arith) i;
}

-- The primary entry `n` of the image, from its own bytes.
abbrev pub slot : Image → ℕ → PartitionEntry
slot img n = record {
  type = img.byte (446 + 16 * (n - 1) + 4);
  start = little img.byte (446 + 16 * (n - 1) + 8) 4 % 2 ^ 32;
  length = little img.byte (446 + 16 * (n - 1) + 12) 4 % 2 ^ 32;
}

pub first_sector : Fsck → Bytes
first_sector s = read_bytes s.image 0 512 s.stray

mbr_bytes : (s : Fsck) (i : ℕ) → i < 512 → first_sector s i ≡ s.image.byte i
unfolding first_sector read_bytes
mbr_bytes s i h = ground (arith, ap s.image.byte {x = 0 + i} {y = i})

number_of_image :
    (s : Fsck) (a : ℕ) → a + 4 ≤ 512 → little (first_sector s) a 4 ≡ little s.image.byte a 4
number_of_image s a h =
    little-same (first_sector s) s.image.byte a 4 (λ i p q. mbr_bytes s i (omega arith))

same_slot :
    (s : Fsck) (n : ℕ)
    → 1 ≤ n
    → n ≤ 4
    → ◌≡◌ {A = PartitionEntry}
        (record {
          type = first_sector s (446 + 16 * (n - 1) + 4);
          start = u32 (0 + little (first_sector s) (446 + 16 * (n - 1) + 8) 4 % 2 ^ 32);
          length = little (first_sector s) (446 + 16 * (n - 1) + 12) 4 % 2 ^ 32;
        })
        (slot s.image n)
same_slot s n lo hi =
    let o = 446 + 16 * (n - 1) in
    let type : first_sector s (o + 4) ≡ s.image.byte (o + 4) = mbr_bytes s (o + 4) (omega arith) in
    let start : u32 (0 + little (first_sector s) (o + 8) 4 % 2 ^ 32)
        ≡ little s.image.byte (o + 8) 4 % 2 ^ 32 =
      omega (arith, number_of_image s (o + 8) (omega arith)) in
    let length : little (first_sector s) (o + 12) 4 % 2 ^ 32
        ≡ little s.image.byte (o + 12) 4 % 2 ^ 32 =
      ap (λ (t : ℕ). t % 2 ^ 32) (number_of_image s (o + 12) (omega arith)) in
    λ i. record { type = type i; start = start i; length = length i }

pub read_mbr-slot :
    (s : Fsck) (n : ℕ) → 1 ≤ n → n ≤ 4 → read_mbr (first_sector s) n ≡ slot s.image n
unfolding read_mbr
read_mbr-slot s n lo hi =
    let o : 446 + 16 * n - 16 ≡ 446 + 16 * (n - 1) = omega arith in
    rw o (read_partition_entry-little (first_sector s) 0 (446 + 16 * (n - 1)) ∙ same_slot s n lo hi)

pub read_first :
    (s : Fsck) → 512 ≤ s.image.size → read_sectors 0 1 s.stray s ≡ ok (first_sector s) s
unfolding read_sectors first_sector
read_first s h = rw (le→leb 512 s.image.size h)

-- For the partitions 1 to 4 of an image that has a first sector `read_partition_info` returns 0,
-- and the global entry is then the slot of the table; nothing else has changed.
pub read_partition_info-slot :
    (rounds n : ℕ) (s : Fsck)
    → 1 ≤ n
    → n ≤ 4
    → 512 ≤ s.image.size
    → read_partition_info rounds n s ≡ ok true (record s { partition_entry = slot s.image n })
unfolding read_partition_info
read_partition_info-slot rounds n s lo hi fits =
    rw (read_first s fits, le→leb n 4 hi, read_mbr-slot s n lo hi)

-- For the partitions 1 to 4 of an image that has a first sector `print_partition_info` prints -1
-- and returns it exactly if the type byte of the slot is 0xFF, and else prints the slot and
-- returns 0.
pub print_partition_info-slot :
    (rounds n : ℕ) (s : Fsck)
    → 1 ≤ n
    → n ≤ 4
    → 512 ≤ s.image.size
    → print_partition_info rounds n s ≡ (
        let e = slot s.image n in
        if e.type == 0xFF
        then ok false (record s { partition_entry = e; output = s.output ++ (minus_one ∷ []) })
        else ok true (record s {
          partition_entry = e;
          output = s.output ++ (partition_info e.type e.start e.length ∷ []);
        }))
unfolding print_partition_info
print_partition_info-slot rounds n s lo hi fits =
    rw (read_partition_info-slot rounds n s lo hi fits) (ground arith)
