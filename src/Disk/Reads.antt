-- ===== src/Disk/Reads.antt =====
-- The functions that read leave the state alone, whether they succeed or end the program.
use my_fsck.Base.{ℕ, zero, suc, ◌+◌, ◌*◌, ◌/◌, ◌==◌, Bool-cases, inl, inr, leb, ◌||◌, u32}
use my_fsck.Machine.Memory.{Bytes, shift, splice}
use my_fsck.Machine.State.{Fsck}
use my_fsck.Machine.Run.{Keeps, kept, ended, Keeps-bind}
use my_fsck.Disk.{read_sectors, block_sector, read_block, read_blocks}

pub read_sectors-Keeps :
    (start n : ℕ) (into : Bytes) (s : Fsck) → Keeps s (read_sectors start n into s)
unfolding read_sectors
read_sectors-Keeps start n into s =
    elim (Bool-cases (leb (start * 512 + u32 (512 * n)) s.image.size || u32 (512 * n) == 0)) [
      | inl e ↦ rw e kept
      | inr e ↦ rw e ended
    ]

pub read_block-Keeps : (b size : ℕ) (into : Bytes) (s : Fsck) → Keeps s (read_block b size into s)
unfolding read_block
read_block-Keeps b size into s =
    read_sectors-Keeps (block_sector s.partition_entry b size) (size / 512) into s

pub read_blocks-Keeps :
    (left start i size : ℕ) (into : Bytes) (s : Fsck)
    → Keeps s (read_blocks left start i size into s)
unfolding read_blocks
read_blocks-Keeps zero start i size into s = kept
read_blocks-Keeps (suc left) start i size into s =
    Keeps-bind _ (read_block-Keeps (u32 (start + i)) size (shift into (u32 (size * i))) s)
      (λ sub. read_blocks-Keeps left start (i + 1) size (splice into (u32 (size * i)) sub) s)
