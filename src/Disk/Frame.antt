-- ===== src/Disk/Frame.antt =====
-- Writing blocks changes nothing before the partition.
use my_fsck.Base.{ℕ, zero, suc, ◌+◌, ◌*◌, ◌/◌, refl, arith, [], ◌∷◌, u32}
use my_fsck.Machine.Memory.{Bytes, shift}
use my_fsck.Machine.State.{writing_sectors}
use my_fsck.Machine.Frame.{IsFramed, returned, pure-IsFramed, Keeps-IsFramed, bind-IsFramed}
use my_fsck.Disk.{
  write_bytes, write_sectors, block_sector, read_block, write_block, read_blocks, write_blocks,
}
use my_fsck.Disk.Reads.{read_block-Keeps, read_blocks-Keeps}

pub write_block-IsFramed : (b size : ℕ) (from : Bytes) → IsFramed (write_block b size from)
unfolding write_block write_sectors write_bytes block_sector
write_block-IsFramed b size from s = returned (record {
  printed = writing_sectors (block_sector s.partition_entry b size) (size / 512) ∷ [];
  only_image = refl;
  size_le = ground arith;
  before = λ x lt lt'. ground arith;
})

pub read_block-IsFramed : (b size : ℕ) (into : Bytes) → IsFramed (read_block b size into)
read_block-IsFramed b size into =
    Keeps-IsFramed (read_block b size into) (read_block-Keeps b size into)

pub read_blocks-IsFramed :
    (left start i size : ℕ) (into : Bytes) → IsFramed (read_blocks left start i size into)
read_blocks-IsFramed left start i size into =
    Keeps-IsFramed (read_blocks left start i size into) (read_blocks-Keeps left start i size into)

pub write_blocks-IsFramed :
    (left start i size : ℕ) (from : Bytes) → IsFramed (write_blocks left start i size from)
unfolding write_blocks
write_blocks-IsFramed zero start i size from = pure-IsFramed tt
write_blocks-IsFramed (suc left) start i size from =
    bind-IsFramed (write_block-IsFramed (u32 (start + i)) size (shift from (u32 (i * size))))
      (λ _. write_blocks-IsFramed left start (i + 1) size from)
