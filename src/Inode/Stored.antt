-- ===== src/Inode/Stored.antt =====
-- The inode that `read_inode` gives, against the structure `ext2_inode` of ext2_fs.h on the disk.
use native.Mathlib.Nat.{
  mul-le-mul_right, mul-add-div_right, mul-add-mod_self_right, div-eq_of_lt, mod-eq_of_lt,
}
use mathlib.Core.Path.{subst}
use my_fsck.Base.{
  ℕ, zero, suc, ◌+◌, ◌*◌, ◌/◌, ◌%◌, ◌^◌, ◌<◌, ◌≡◌, refl, arith, ap, ◌∙◌, sym, u32, sub32, List, ◌∷◌,
}
use my_fsck.Machine.Memory.{Bytes, IsBytes, shift}
use my_fsck.Machine.State.{Fsck, Inode}
use my_fsck.Machine.Run.{ok}
use my_fsck.Util.{parse_bytes_to_decimal_u}
use my_fsck.Util.Little.{little, little-shift}
use my_fsck.Util.Numbers.{numbers, fours, numbers-shift, parse-four, parse-two}
use my_fsck.Disk.{block_sector}
use my_fsck.Disk.Blocks.{block_address}
use my_fsck.SuperBlock.{read_group_desc}
use my_fsck.Inode.{
  get_group_inode_block_num, get_inode_group_offset, get_inode_offset_in_group, parse_inode,
  parse_pointers, read_inode,
}
use my_fsck.Inode.Location.{table_start, table_offset, table_offset-in_table}
use my_fsck.Inode.Read.{InodeOnDisk, inode_at, read_inode-ok}

-- The widths of the fields of `ext2_inode`, up to the pointers to blocks.
abbrev pub inode_widths : List ℕ
inode_widths = 2 ∷ 2 ∷ 4 ∷ 4 ∷ 4 ∷ 4 ∷ 4 ∷ 2 ∷ 2 ∷ 4 ∷ 4 ∷ 4 ∷ fours 15

-- The fields in the order of `ext2_inode`. What it keeps for operating systems is no part of `Inode`.
abbrev pub inode_numbers : (osd1 : ℕ) → Inode → List ℕ
inode_numbers osd1 inode =
    inode.i_mode ∷ inode.i_uid ∷ inode.i_size ∷ inode.i_atime ∷ inode.i_ctime ∷ inode.i_mtime
    ∷ inode.i_dtime ∷ inode.i_gid ∷ inode.i_links_count ∷ inode.i_blocks ∷ inode.i_flags ∷ osd1
    ∷ inode.i_block

pointers-numbers :
    (m : Bytes) (o left i : ℕ)
    → IsBytes m
    → parse_pointers m o left i ≡ numbers m o (40 + i * 4) (fours left)
unfolding parse_pointers numbers
pointers-numbers m o zero i h = refl
pointers-numbers m o (suc left) i h = λ j. first j ∷ (pointers-numbers m o left (i + 1) h ∙ next) j
  where
    first : parse_bytes_to_decimal_u m (o + 40 + i * 4) 4 ≡ little m (o + (40 + i * 4)) 4
    first = parse-four m (o + 40 + i * 4) h ∙ ap (λ (t : ℕ). little m t 4) (omega arith)

    next : numbers m o (40 + (i + 1) * 4) (fours left) ≡ numbers m o (40 + i * 4 + 4) (fours left)
    next = ap (λ (t : ℕ). numbers m o t (fours left)) (omega arith)

parse_inode-numbers :
    (m : Bytes) (o : ℕ)
    → IsBytes m
    → inode_numbers (little m (o + 36) 4) (parse_inode m o) ≡ numbers m o 0 inode_widths
unfolding parse_inode numbers
parse_inode-numbers m o h = λ j.
    (parse-two m o h ∙ ap (λ (t : ℕ). little m t 2) {x = o} {y = o + 0} (omega arith)) j
    ∷ parse-two m (o + 2) h j
    ∷ parse-four m (o + 4) h j
    ∷ parse-four m (o + 8) h j
    ∷ parse-four m (o + 12) h j
    ∷ parse-four m (o + 16) h j
    ∷ parse-four m (o + 20) h j
    ∷ parse-two m (o + 24) h j
    ∷ parse-two m (o + 26) h j
    ∷ parse-four m (o + 28) h j
    ∷ parse-four m (o + 32) h j
    ∷ little m (o + 36) 4
    ∷ pointers-numbers m o 15 0 h j

-- Inode `g * s_inodes_per_group + k + 1` is the one at place `k` of group `g`.
place_lem :
    (s : Fsck) (g k : ℕ)
    → k < s.super_block.s_inodes_per_group
    → g * s.super_block.s_inodes_per_group + k + 1 < 2 ^ 32
    → (get_inode_group_offset s (g * s.super_block.s_inodes_per_group + k + 1) ≡ g)
      × (get_inode_offset_in_group s (g * s.super_block.s_inodes_per_group + k + 1) ≡ k)
unfolding get_inode_group_offset get_inode_offset_in_group
place_lem s g k lt small =
    let ipg = s.super_block.s_inodes_per_group in
    let before : sub32 (g * ipg + k + 1) 1 ≡ g * ipg + k = omega arith in
    (
      ap (λ (t : ℕ). t / ipg) before
          ∙ mul-add-div_right {m = ipg} (omega arith) g k
          ∙ omega (arith, div-eq_of_lt lt),
      ap (λ (t : ℕ). t % ipg) before ∙ mul-add-mod_self_right g ipg k ∙ mod-eq_of_lt lt,
    )

module _ (s : Fsck) (g : ℕ) where
  -- The first block of the inode table of group `g`, from the group's descriptor of 32 bytes.
  abbrev pub stored_table : ℕ
  stored_table = little s.group_desc_block (32 * g + 8) 4

  -- Where inode `k` of group `g` starts on the disk.
  abbrev pub stored_address : ℕ → ℕ
  stored_address k = 512 * s.partition_entry.start + stored_table * s.block_size + 128 * k

  table_start-stored :
      (n : ℕ)
      → IsBytes s.group_desc_block
      → 32 * g + 8 < 2 ^ 32
      → get_inode_group_offset s n ≡ g
      → table_start s n ≡ stored_table
  unfolding table_start read_group_desc
  table_start-stored n h small group =
      ap (λ (t : ℕ). parse_bytes_to_decimal_u s.group_desc_block (u32 (u32 (t * 32) + 8)) 4) group
      ∙ ap (λ (t : ℕ). parse_bytes_to_decimal_u s.group_desc_block t 4) {y = 32 * g + 8}
          (omega arith)
      ∙ parse-four s.group_desc_block (32 * g + 8) h

  block_address_lem :
      (b : ℕ)
      → s.block_size % 512 ≡ 0
      → b * (s.block_size / 512) < 2 ^ 32
      → block_address s b ≡ 512 * s.partition_entry.start + b * s.block_size
  unfolding block_address block_sector
  block_address_lem b sectors small =
      let spb = s.block_size / 512 in
      let size : s.block_size ≡ 512 * spb = omega arith in omega (arith, ap (λ (t : ℕ). b * t) size)

  -- If the block size is that of one or more whole sectors; the table of group `g`, as
  -- `read_inode` finds it, lies on the disk with a size and numbers of sectors that fit 32 bits;
  -- `s_inodes_per_group` inodes and a block together have less than 2^32 bytes; the image and the
  -- block of group descriptors hold bytes; the number of the inode and the offset of the group's
  -- descriptor fit 32 bits; and `k` is less than `s_inodes_per_group`; then `read_inode` of inode
  -- `g * s_inodes_per_group + k + 1` succeeds, changes nothing, and gives the fields of
  -- `ext2_inode` up to the pointers to blocks, in the order and the widths of that structure, the
  -- little-endian numbers that stand 128 * `k` bytes behind the start of the table, which is the
  -- block of the partition that the little-endian number at byte 32 * `g` + 8 of the group
  -- descriptors names. The field for the operating system, which the program does not read, is
  -- passed over.
  pub read_inode-numbers :
      (k : ℕ)
      → k < s.super_block.s_inodes_per_group
      → g * s.super_block.s_inodes_per_group + k + 1 < 2 ^ 32
      → 32 * g + 8 < 2 ^ 32
      → IsBytes s.image.byte
      → IsBytes s.group_desc_block
      → InodeOnDisk s (g * s.super_block.s_inodes_per_group + k + 1)
      → (inode : Inode) × (read_inode (g * s.super_block.s_inodes_per_group + k + 1) s ≡ ok inode s)
        × (inode_numbers (little s.image.byte (stored_address k + 36) 4) inode
            ≡ numbers s.image.byte (stored_address k) 0 inode_widths)
  unfolding inode_at
  read_inode-numbers k lt small desc image_bytes desc_bytes h =
      let n = g * s.super_block.s_inodes_per_group + k + 1 in
      let a = block_address s (table_start s n) in
      let o = table_offset s n in
      let place = place_lem s g k lt small in
      let table = table_start-stored n desc_bytes desc place.0 in
      let start = block_address_lem (table_start s n) h.table.sectors.1 (
        omega (
          arith,
          mul-le-mul_right {m = table_start s n} {n = table_start s n + get_group_inode_block_num s}
              (s.block_size / 512) (omega arith),
          h.table.numbered,
        )) in
      let at : a + o ≡ stored_address k = omega (
        arith,
        start,
        ap (λ (t : ℕ). t * s.block_size) table,
        (table_offset-in_table s n h.tables).0,
        place.1,
      ) in
      (
        inode_at s n,
        read_inode-ok s n h,
        subst
            (λ (p : ℕ).
              inode_numbers (little s.image.byte (p + 36) 4) (inode_at s n)
              ≡ numbers s.image.byte p 0 inode_widths)
            at
            (ap (λ (t : ℕ). inode_numbers t (inode_at s n))
                (sym (
                  little-shift s.image.byte a (o + 36) 4
                  ∙ ap (λ (t : ℕ). little s.image.byte t 4) {y = a + o + 36} (omega arith)))
              ∙ parse_inode-numbers (shift s.image.byte a) o (λ i. image_bytes (a + i))
              ∙ numbers-shift s.image.byte a o 0 inode_widths),
      )
