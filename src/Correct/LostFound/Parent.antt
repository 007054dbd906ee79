-- ===== src/Correct/LostFound/Parent.antt =====
-- What the last part of `add_to_lost_found` does to the first block of the inode.
use my_fsck.Base.{
  ℕ, ◌+◌, ◌%◌, ◌^◌, ◌≤◌, ◌<◌, ◌≡◌, refl, arith, ◌∙◌, sym, ◌⊎◌, get_or, le→leb, eq→==,
}
use my_fsck.Machine.Memory.{Bytes, shift}
use my_fsck.Machine.State.{Fsck}
use my_fsck.Machine.Run.{ok}
use my_fsck.Util.{write_number_into_block}
use my_fsck.Util.Little.{little, little-same}
use my_fsck.Util.Number.{little-write_number, write_number_outside}
use my_fsck.Disk.{read_bytes}
use my_fsck.Disk.Blocks.{
  HasSectors, IsNumbered, IsOnDisk, block_address, written, written-byte, read_block-ok,
  write_block-ok,
}
use my_fsck.Disk.Runs.{read_bytes_inside}
use my_fsck.Inode.Read.{InodeOnDisk, inode_at, read_inode-ok}
use my_fsck.Util.Little.{little-shift}
use my_fsck.Correct.LostFound.{set_parent}

-- The first block of the inode.
abbrev pub first_block : Fsck → ℕ → ℕ
first_block s n = get_or (inode_at s n).i_block 0 0

-- The bytes 12 to 15 of block `b` are the number of the parent, all others of it are as before.
pub record ParentWritten (s : Fsck) (b inode_num : ℕ) (s' : Fsck) : Type 0 where
  pub parent : little s'.image.byte (block_address s b + 12) 4 ≡ inode_num % 2 ^ 32
  pub others :
      (i : ℕ)
      → i < s.block_size
      → (i < 12) ⊎ (16 ≤ i)
      → s'.image.byte (block_address s b + i) ≡ s.image.byte (block_address s b + i)

module _ (s : Fsck) (b parent : ℕ) (sectors : HasSectors s) (numbered : IsNumbered s b)
    (on_disk : IsOnDisk s b) where
  abbrev old_block : Bytes
  old_block = read_bytes s.image (block_address s b) s.block_size s.stray

  abbrev new_block : Bytes
  new_block = write_number_into_block old_block 12 parent 4

  new_byte :
      (i : ℕ)
      → i < s.block_size
      → (written s b new_block).image.byte (block_address s b + i) ≡ new_block i
  new_byte i lt =
      written-byte s b b new_block sectors numbered numbered on_disk i lt ∙ rw (eq→== b b refl)

  new_block-ParentWritten : 16 ≤ s.block_size → ParentWritten s b parent (written s b new_block)
  new_block-ParentWritten le = record {
    parent =
        sym (little-shift (written s b new_block).image.byte (block_address s b) 12 4)
        ∙ little-same (shift (written s b new_block).image.byte (block_address s b)) new_block 12 4
            (λ i p q. new_byte i (omega arith))
        ∙ little-write_number old_block 12 parent 4;
    others = λ i lt out.
        new_byte i lt
        ∙ write_number_outside old_block 12 parent 4 i out
        ∙ read_bytes_inside s.image (block_address s b) s.block_size s.stray i lt;
  }

-- If the table of the inode and the first block of the inode stand on the disk, and the number of
-- that block fits 32 bits, then the last part of `add_to_lost_found` succeeds, whatever the type
-- of the inode is; the bytes 12 to 15 of that block are then the number of the parent, and the
-- others of it are as before.
pub set_parent-ParentWritten :
    (s : Fsck) (n parent : ℕ)
    → InodeOnDisk s n
    → IsNumbered s (first_block s n)
    → IsOnDisk s (first_block s n)
    → (s' : Fsck) × (set_parent n parent s ≡ ok tt s') × ParentWritten s (first_block s n) parent s'
unfolding set_parent
set_parent-ParentWritten s n parent h numbered on_disk =
    let b = first_block s n in
    let sectors = h.tables.sectors in
    let m = read_bytes s.image (block_address s b) s.block_size s.stray in
    (
      written s b (write_number_into_block m 12 parent 4),
      rw (
        read_inode-ok s n h,
        read_block-ok s b s.stray sectors on_disk,
        le→leb 16 s.block_size (omega (arith, sectors)),
        write_block-ok s b (write_number_into_block m 12 parent 4) sectors,
      ),
      new_block-ParentWritten s b parent sectors numbered on_disk (omega (arith, sectors)),
    )
