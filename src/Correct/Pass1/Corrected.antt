-- ===== src/Correct/Pass1/Corrected.antt =====
-- What pass 1 makes of the first two entries of a directory.
use my_fsck.Base.{
  ℕ, ◌+◌, ◌^◌, ◌≤◌, ◌<◌, ◌≡◌, refl, ◌==◌, Bool-cases, inl, inr, ◌⊎◌, ap, ◌∙◌, some, ==→eq, eq→==,
  le→leb, ◌++◌, ◌∷◌, [],
}
use my_fsck.Machine.Memory.{Bytes}
use my_fsck.Machine.State.{Fsck, DirEntry, dir_entry_error}
use my_fsck.Machine.Run.{ok}
use my_fsck.Util.{write_number_into_block}
use my_fsck.Util.Number.{write_number_outside}
use my_fsck.Disk.Blocks.{
  HasSectors, IsNumbered, IsOnDisk, block_address, written, written-byte, write_block-ok,
}
use my_fsck.Dir.{read_dir_entry_in_block}
use my_fsck.Dir.Codec.{read_dir_entry-write_inode}
use my_fsck.Correct.Pass1.{pass1_corrector, check_entry}

-- The buffer is what the block of the disk holds.
abbrev pub HoldsBlock : Fsck → ℕ → Bytes → Type 0
HoldsBlock s b m = (i : ℕ) → i < s.block_size → s.image.byte (block_address s b + i) ≡ m i

-- The entry at `offset` now names `wanted` and is as before in all else; no byte but the four of
-- its inode number has changed in the buffer, and the disk holds the buffer.
pub record EntrySet (block_id offset wanted : ℕ) (e : DirEntry) (m : Bytes) (m' : Bytes) (s' : Fsck)
    : Type 0 where
  pub entry : read_dir_entry_in_block m' offset ≡ some (record e { inode = wanted })
  pub others : (j : ℕ) → (j < offset) ⊎ (offset + 4 ≤ j) → m' j ≡ m j
  pub on_disk : HoldsBlock s' block_id m'

-- If the buffer is what a block on the disk holds, the number of the block fits 32 bits, an entry
-- is read at `offset`, and its inode number fits the block, then `check_entry` succeeds, the entry
-- has the wanted inode number, one from 1 to 2^32 - 1, and is as before in all else, no byte of
-- the buffer but the four of the inode number has changed, and the disk holds the buffer.
pub check_entry-EntrySet :
    (s : Fsck) (m : Bytes) (block_id offset wanted : ℕ) (e : DirEntry)
    → HasSectors s
    → IsNumbered s block_id
    → IsOnDisk s block_id
    → HoldsBlock s block_id m
    → read_dir_entry_in_block m offset ≡ some e
    → offset + 4 ≤ s.block_size
    → 1 ≤ wanted
    → wanted < 2 ^ 32
    → (m' : Bytes) × (s' : Fsck) × (check_entry m block_id offset e wanted s ≡ ok m' s')
      × EntrySet block_id offset wanted e m m' s'
unfolding check_entry pass1_corrector written block_address
check_entry-EntrySet s m b offset wanted e sectors numbered on_disk holds read fits lo hi =
    elim (Bool-cases (e.inode == wanted)) [
      | inl same ↦ (
        m,
        s,
        rw same,
        record {
          entry = read ∙ ap (λ (n : ℕ). some (record e { inode = n })) (==→eq e.inode wanted same);
          others = λ j out. refl;
          on_disk = holds;
        },
      )
      | inr differs ↦
          let s1 = record s { output = s.output ++ (dir_entry_error wanted e.name e.inode ∷ []) } in
          let m' = write_number_into_block m offset wanted 4 in
          (
            m',
            written s1 b m',
            rw (differs, le→leb (offset + 4) s.block_size fits, write_block-ok s1 b m' sectors),
            record {
              entry = read_dir_entry-write_inode m offset wanted e read lo hi;
              others = write_number_outside m offset wanted 4;
              on_disk = λ i lt.
                  written-byte s1 b b m' sectors numbered numbered on_disk i lt
                  ∙ rw (eq→== b b refl);
            },
          )
    ]
