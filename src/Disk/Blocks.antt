-- ===== src/Disk/Blocks.antt =====
-- Blocks of the partition: a block that was written is read back, and no other changes.
use native.Mathlib.Nat.{mul-le-mul_right}
use my_fsck.Base.{
  ℕ, suc, ◌+◌, ◌-◌, ◌*◌, ◌/◌, ◌%◌, ◌^◌, ◌≤◌, ◌<◌, ◌≡◌, ◌≢◌, arith, u32, ap, ltb, ◌==◌,
  if◌then◌else◌, ◌++◌, ◌∷◌, [], le→leb, lt→ltb, Bool-cases, ltb→lt, ltb→le, ◌⊎◌, inl, inr, ==→eq,
  ==→ne,
}
use my_fsck.Machine.Memory.{Bytes}
use my_fsck.Machine.State.{Fsck, writing_sectors}
use my_fsck.Machine.Run.{ok, ◌>>◌}
use my_fsck.Disk.{
  read_bytes, write_bytes, read_sectors, write_sectors, block_sector, read_block, write_block,
}

-- Where a block starts in the image, in bytes.
unfoldable pub block_address : Fsck → ℕ → ℕ
block_address s b = block_sector s.partition_entry b s.block_size * 512

-- The block size is a number of sectors.
abbrev pub HasSectors : Fsck → Type 0
HasSectors s = (0 < s.block_size) × (s.block_size % 512 ≡ 0) × (s.block_size < 2 ^ 32)

-- The sector number of the block does not leave 32 bits.
abbrev pub IsNumbered : Fsck → ℕ → Type 0
IsNumbered s b = b * (s.block_size / 512) < 2 ^ 32

-- The image reaches behind the block.
abbrev pub IsOnDisk : Fsck → ℕ → Type 0
IsOnDisk s b = block_address s b + s.block_size ≤ s.image.size

-- The state after a block was written.
unfoldable pub written : Fsck → ℕ → Bytes → Fsck
written s b from = record s {
  output =
      s.output
      ++ (writing_sectors (block_sector s.partition_entry b s.block_size) (s.block_size / 512)
          ∷ []);
  image = write_bytes s.image (block_address s b) s.block_size from;
}

block_bytes : (s : Fsck) → HasSectors s → u32 (512 * (s.block_size / 512)) ≡ s.block_size
block_bytes s h = omega arith

pub read_block-ok :
    (s : Fsck) (b : ℕ) (into : Bytes)
    → HasSectors s
    → IsOnDisk s b
    → read_block b s.block_size into s
      ≡ ok (read_bytes s.image (block_address s b) s.block_size into) s
unfolding read_block read_sectors block_address
read_block-ok s b into h on_disk = rw (block_bytes s h, le→leb _ _ on_disk)

pub write_block-ok :
    (s : Fsck) (b : ℕ) (from : Bytes)
    → HasSectors s
    → write_block b s.block_size from s ≡ ok tt (written s b from)
unfolding write_block write_sectors written block_address
write_block-ok s b from h = rw (block_bytes s h)

-- Different blocks do not overlap.
apart :
    (s : Fsck) (b c : ℕ)
    → HasSectors s
    → IsNumbered s b
    → IsNumbered s c
    → b < c
    → block_address s b + s.block_size ≤ block_address s c
unfolding block_address block_sector
apart s b c h hb hc lt = omega (arith, mul-le-mul_right {m = suc b} {n = c} (s.block_size / 512) lt)

disjoint :
    (s : Fsck) (b c : ℕ)
    → HasSectors s
    → IsNumbered s b
    → IsNumbered s c
    → b ≢ c
    → (block_address s b + s.block_size ≤ block_address s c)
      ⊎ (block_address s c + s.block_size ≤ block_address s b)
disjoint s b c h hb hc ne = elim (Bool-cases (ltb b c)) [
  | inl l ↦ inl (apart s b c h hb hc (ltb→lt b c l))
  | inr r ↦ let ge = ltb→le b c r in inr (apart s c b h hc hb (omega arith))
]

written-IsOnDisk :
    (s : Fsck) (b c : ℕ) (from : Bytes) → IsOnDisk s c → IsOnDisk (written s b from) c
unfolding written write_bytes block_address
written-IsOnDisk s b c from h = ground arith

-- The bytes of block `c` after block `b` was written.
pub written-byte :
    (s : Fsck) (b c : ℕ) (from : Bytes)
    → HasSectors s
    → IsNumbered s b
    → IsNumbered s c
    → IsOnDisk s c
    → (i : ℕ) → i < s.block_size
    → (written s b from).image.byte (block_address s c + i)
      ≡ (if b == c then from i else s.image.byte (block_address s c + i))
unfolding written write_bytes
written-byte s b c from h hb hc on_disk i lt = elim (Bool-cases (b == c)) [
  | inl e ↦
      let q = ==→eq b c e in
      ground (
        arith,
        ap (block_address s) q,
        ap from {x = block_address s c + i - block_address s b} {y = i},
      )
  | inr e ↦ ground (arith, disjoint s b c h hb hc (==→ne b c e))
]

-- If the block size is a number of sectors, the sector numbers of two blocks fit 32 bits, and the
-- second block lies on the disk, then after `write_block` of the first, `read_block` of the second
-- succeeds and gives what was written if the blocks are the same, and else what the disk held
-- before.
pub read_block-write_block :
    (s : Fsck) (b c : ℕ) (from into : Bytes)
    → HasSectors s
    → IsNumbered s b
    → IsNumbered s c
    → IsOnDisk s c
    → (m : Bytes) × ((write_block b s.block_size from >> read_block c s.block_size into) s
        ≡ ok m (written s b from))
      × ((i : ℕ)
          → i < s.block_size
          → m i ≡ (if b == c then from i else s.image.byte (block_address s c + i)))
unfolding written block_address
read_block-write_block s b c from into h hb hc on_disk = (
  read_bytes (written s b from).image (block_address s c) s.block_size into,
  rw (write_block-ok s b from h)
      (read_block-ok (written s b from) c into h (written-IsOnDisk s b c from on_disk)),
  λ i lt.
      unfold read_bytes in
      (rw (lt→ltb i s.block_size lt) (written-byte s b c from h hb hc on_disk i lt)),
)
