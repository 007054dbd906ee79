-- ===== src/SuperBlock/Stored.antt =====
-- The super block that `read_super_block` loads, against the structure `ext2_super_block` of
-- ext2_fs.h on the disk.
use my_fsck.Base.{
  ℕ, ◌+◌, ◌*◌, ◌^◌, ◌≤◌, ◌<◌, ◌≡◌, refl, arith, ap, ◌∙◌, List, [], ◌∷◌, le→leb, lt→ltb,
}
use my_fsck.Machine.Memory.{Bytes, IsBytes}
use my_fsck.Machine.State.{Fsck, SuperBlock}
use my_fsck.Machine.Run.{ok}
use my_fsck.Util.{parse_bytes_to_decimal_u, parse_bytes_to_decimal_s, get_block_size}
use my_fsck.Util.Little.{little}
use my_fsck.Util.Numbers.{numbers, numbers-same, total, parse-four, parse-two}
use my_fsck.Util.Sizes.{get_block_size-pow}
use my_fsck.Disk.{read_bytes, read_block, read_sectors, block_sector}
use my_fsck.SuperBlock.{parse_super_block, read_super_block, super_block_size}

-- The widths of the fields of `ext2_super_block`, up to `s_feature_ro_compat`.
abbrev pub super_block_widths : List ℕ
super_block_widths =
    4 ∷ 4 ∷ 4 ∷ 4 ∷ 4 ∷ 4 ∷ 4 ∷ 4 ∷ 4 ∷ 4 ∷ 4 ∷ 4 ∷ 4 ∷ 2 ∷ 2 ∷ 2 ∷ 2 ∷ 2 ∷ 2 ∷ 4 ∷ 4 ∷ 4 ∷ 4 ∷ 2
    ∷ 2 ∷ 4 ∷ 2 ∷ 2 ∷ 4 ∷ 4 ∷ 4 ∷ []

-- The fields in the order of `ext2_super_block`.
abbrev pub super_block_numbers : SuperBlock → List ℕ
super_block_numbers block =
    block.s_inodes_count ∷ block.s_blocks_count ∷ block.s_r_blocks_count ∷ block.s_free_blocks_count
    ∷ block.s_free_inodes_count ∷ block.s_first_data_block ∷ block.s_log_block_size
    ∷ block.s_log_frag_size ∷ block.s_blocks_per_group ∷ block.s_frags_per_group
    ∷ block.s_inodes_per_group ∷ block.s_mtime ∷ block.s_wtime ∷ block.s_mnt_count
    ∷ block.s_max_mnt_count ∷ block.s_magic ∷ block.s_state ∷ block.s_errors
    ∷ block.s_minor_rev_level ∷ block.s_lastcheck ∷ block.s_checkinterval ∷ block.s_creator_os
    ∷ block.s_rev_level ∷ block.s_def_resuid ∷ block.s_def_resgid ∷ block.s_first_ino
    ∷ block.s_inode_size ∷ block.s_block_group_nr ∷ block.s_feature_compat
    ∷ block.s_feature_incompat ∷ block.s_feature_ro_compat ∷ []

parse_super_block-numbers :
    (m : Bytes)
    → IsBytes m
    → super_block_numbers (parse_super_block m) ≡ numbers m 0 0 super_block_widths
unfolding parse_super_block numbers parse_bytes_to_decimal_u parse_bytes_to_decimal_s
parse_super_block-numbers m h = λ j.
    parse-four m 0 h j
    ∷ parse-four m 4 h j
    ∷ parse-four m 8 h j
    ∷ parse-four m 12 h j
    ∷ parse-four m 16 h j
    ∷ parse-four m 20 h j
    ∷ parse-four m 24 h j
    ∷ parse-four m 28 h j
    ∷ parse-four m 32 h j
    ∷ parse-four m 36 h j
    ∷ parse-four m 40 h j
    ∷ parse-four m 44 h j
    ∷ parse-four m 48 h j
    ∷ parse-two m 52 h j
    ∷ parse-two m 54 h j
    ∷ parse-two m 56 h j
    ∷ parse-two m 58 h j
    ∷ parse-two m 60 h j
    ∷ parse-two m 62 h j
    ∷ parse-four m 64 h j
    ∷ parse-four m 68 h j
    ∷ parse-four m 72 h j
    ∷ parse-four m 76 h j
    ∷ parse-two m 80 h j
    ∷ parse-two m 82 h j
    ∷ parse-four m 84 h j
    ∷ parse-two m 88 h j
    ∷ parse-two m 90 h j
    ∷ parse-four m 92 h j
    ∷ parse-four m 96 h j
    ∷ parse-four m 100 h j
    ∷ []

buffer-IsBytes :
    (s : Fsck) (off n : ℕ)
    → IsBytes s.image.byte
    → IsBytes s.stray
    → IsBytes (read_bytes s.image off n s.stray)
unfolding read_bytes
buffer-IsBytes s off n h k i = ground (arith, h (off + i), k i)

-- Where the super block starts on the disk.
abbrev pub super_block_address : Fsck → ℕ
super_block_address s = 512 * s.partition_entry.start + 1024

-- The bytes that `read_super_block` parses.
abbrev buffer : Fsck → Bytes
buffer s = read_bytes s.image ((s.partition_entry.start + 2) * 512) 1024 s.stray

read_block-buffer :
    (s : Fsck)
    → super_block_address s + 1024 ≤ s.image.size
    → read_block 1 super_block_size s.stray s ≡ ok (buffer s) s
unfolding read_block read_sectors block_sector
read_block-buffer s on_disk =
    rw (le→leb ((s.partition_entry.start + 2) * 512 + 1024) s.image.size (omega arith))

buffer-same : (s : Fsck) (j : ℕ) → j < 1024 → buffer s j ≡ s.image.byte (super_block_address s + j)
unfolding read_bytes
buffer-same s j lt = rw (lt→ltb j 1024 lt) (ap s.image.byte (omega arith))

same_numbers :
    (s : Fsck) (off : ℕ) (ws : List ℕ)
    → off + total ws ≤ 1024
    → numbers (buffer s) 0 off ws ≡ numbers s.image.byte (super_block_address s) off ws
same_numbers s off ws h =
    numbers-same (buffer s) s.image.byte 0 (super_block_address s) off ws
      (λ j p q. ap (buffer s) (omega arith) ∙ buffer-same s j (omega (arith, q, h)))

abbrev first : List ℕ → ℕ
first [] = 0
first (n ∷ ns) = n

log_size :
    (s : Fsck)
    → IsBytes (buffer s)
    → (parse_super_block (buffer s)).s_log_block_size
      ≡ little s.image.byte (super_block_address s + 24) 4
unfolding parse_super_block numbers total
log_size s h = parse-four (buffer s) 24 h ∙ ap first (same_numbers s 24 (4 ∷ []) (omega arith))

-- If the 1024 bytes from byte 1024 of the partition on are on the disk, the image and unwritten
-- memory hold bytes, and the number at byte 24 of them, `s_log_block_size`, is at most 21, then
-- `read_super_block` succeeds, changes nothing but `super_block` and `block_size`, sets the latter
-- to 1024 * 2 ^ `s_log_block_size`, and gives the fields of `ext2_super_block` up to
-- `s_feature_ro_compat`, in the order and the widths of that structure, the little-endian numbers
-- that stand there.
pub read_super_block-numbers :
    (s : Fsck)
    → super_block_address s + 1024 ≤ s.image.size
    → IsBytes s.image.byte
    → IsBytes s.stray
    → little s.image.byte (super_block_address s + 24) 4 ≤ 21
    → (block : SuperBlock) × (read_super_block s
        ≡ ok tt (record s {
          super_block = block;
          block_size = 1024 * 2 ^ little s.image.byte (super_block_address s + 24) 4;
        }))
      × (super_block_numbers block
          ≡ numbers s.image.byte (super_block_address s) 0 super_block_widths)
unfolding read_super_block total
read_super_block-numbers s on_disk image_bytes stray_bytes small =
    let bytes =
      buffer-IsBytes s ((s.partition_entry.start + 2) * 512) 1024 image_bytes stray_bytes in
    let log = log_size s bytes in
    let size : get_block_size (parse_super_block (buffer s)).s_log_block_size
        ≡ 1024 * 2 ^ little s.image.byte (super_block_address s + 24) 4 =
      ap get_block_size log ∙ get_block_size-pow _ small in
    (
      parse_super_block (buffer s),
      rw (read_block-buffer s on_disk, size) refl,
      parse_super_block-numbers (buffer s) bytes
          ∙ same_numbers s 0 super_block_widths (omega arith),
    )
