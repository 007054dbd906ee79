-- ===== src/Disk.antt =====
-- readwrite.c, and `read_block` and `write_block` of util.c: sectors and blocks of the image.
pub mod Blocks
pub mod Reads
pub mod Runs
pub mod Frame
pub mod Dump
pub mod Written
use my_fsck.Base.{
  ℕ, zero, suc, ◌+◌, ◌-◌, ◌*◌, ◌/◌, Bool, ◌&&◌, ◌||◌, u32, ltb, leb, ◌==◌, if◌then◌else◌,
}
use my_fsck.Machine.Memory.{Bytes, shift, splice}
use my_fsck.Machine.State.{Image, Fsck, PartitionEntry, writing_sectors}
use my_fsck.Machine.Run.{M, ok, stop, exited, pure, gets, modify, print, ◌>>=◌, ◌>>◌}

-- `sector_size_bytes`.
abbrev pub sector_size : ℕ
sector_size = 512

-- What `read` puts into the buffer: `n` bytes of the image from `off`.
unfoldable pub read_bytes : Image → ℕ → ℕ → Bytes → Bytes
read_bytes img off n into i = if ltb i n then img.byte (off + i) else into i

-- What `write` does to the file. Behind its old end it grows, by zeros where nothing is written.
unfoldable pub write_bytes : Image → ℕ → ℕ → Bytes → Image
write_bytes img off n from = record {
  size = if n == 0 then img.size else if ltb img.size (off + n) then off + n else img.size;
  byte = λ i.
      if leb off i && ltb i (off + n)
      then from (i - off)
      else if ltb i img.size
      then img.byte i
      else 0;
}

-- A short read ends the program; one of no bytes is never short.
unfoldable pub read_sectors : ℕ → ℕ → Bytes → M Bytes
read_sectors start_sector num_sectors into s =
    let sector_offset = start_sector * sector_size in
    let bytes_to_read = u32 (sector_size * num_sectors) in
    if leb (sector_offset + bytes_to_read) s.image.size || bytes_to_read == 0
    then ok (read_bytes s.image sector_offset bytes_to_read into) s
    else stop exited s

unfoldable pub write_sectors : ℕ → ℕ → Bytes → M (Unit {0})
write_sectors start_sector num_sectors from = do
  print (writing_sectors start_sector num_sectors)
  let sector_offset = start_sector * sector_size
  let bytes_to_write = u32 (sector_size * num_sectors)
  modify (λ s. record s { image = write_bytes s.image sector_offset bytes_to_write from })

-- The sector at which a block starts, counted from the start of the disk.
unfoldable pub block_sector : PartitionEntry → ℕ → ℕ → ℕ
block_sector p block_offset block_size =
    let sector_per_block = block_size / sector_size in
    p.start + u32 (block_offset * sector_per_block)

unfoldable pub read_block : ℕ → ℕ → Bytes → M Bytes
read_block block_offset block_size into = do
  p ← gets (λ s. s.partition_entry)
  read_sectors (block_sector p block_offset block_size) (block_size / sector_size) into

unfoldable pub write_block : ℕ → ℕ → Bytes → M (Unit {0})
write_block block_offset block_size from = do
  p ← gets (λ s. s.partition_entry)
  write_sectors (block_sector p block_offset block_size) (block_size / sector_size) from

-- The loop that reads `left` blocks from `start + i` on, each behind the one before it:
-- `for (; i < n; ++i) read_block(start + i, block_size, into + block_size * i)`.
unfoldable pub read_blocks : ℕ → ℕ → ℕ → ℕ → Bytes → M Bytes
read_blocks zero start i block_size into = pure into
read_blocks (suc left) start i block_size into = do
  let off = u32 (block_size * i)
  sub ← read_block (u32 (start + i)) block_size (shift into off)
  read_blocks left start (i + 1) block_size (splice into off sub)

-- The loop that writes `left` blocks from `start + i` on.
unfoldable pub write_blocks : ℕ → ℕ → ℕ → ℕ → Bytes → M (Unit {0})
write_blocks zero start i block_size from = pure tt
write_blocks (suc left) start i block_size from = do
  write_block (u32 (start + i)) block_size (shift from (u32 (i * block_size)))
  write_blocks left start (i + 1) block_size from
