-- ===== src/Inode/Write.antt =====
-- `write_inode` changes two bytes of the disk: the link count of the inode.
use native.Mathlib.Nat.{div-add-mod, mod-lt, lt_of_mul-lt-mul_left, mul-le-mul_left}
use my_fsck.Base.{
  ℕ, ◌+◌, ◌-◌, ◌*◌, ◌/◌, ◌%◌, ◌^◌, ◌≤◌, ◌<◌, ◌≡◌, refl, arith, u32, ap, ◌∙◌, sym, ◌⊎◌,
}
use my_fsck.Machine.Memory.{Bytes, IsBytes, shift}
use my_fsck.Machine.State.{Fsck}
use my_fsck.Machine.Run.{ok}
use my_fsck.Util.{write_number_into_block}
use my_fsck.Util.Little.{little, little-same, little-shift}
use my_fsck.Util.Number.{little-write_number, write_number_outside, write_number-lt}
use my_fsck.Disk.{write_bytes}
use my_fsck.Disk.Blocks.{block_address, written, write_block-ok}
use my_fsck.Disk.Runs.{address-add, small_number, read_blocks-ok}
use my_fsck.Inode.{get_group_inode_block_num, write_inode, read_group_inode_table}
use my_fsck.Inode.Location.{table_offset, table_start, table_offset-in_table, check_divisors-ok}
use my_fsck.Inode.Read.{InodeOnDisk}

-- The inode's first byte on the disk.
unfoldable pub inode_address : Fsck → ℕ → ℕ
inode_address s n = block_address s (table_start s n) + table_offset s n

-- The state `s'` differs from `s` in what was printed and in the two bytes of the link count of
-- inode `n`, which now spell `c`, cut to 16 bits.
pub record LinkCountWritten (s : Fsck) (n c : ℕ) (s' : Fsck) : Type 0 where
  pub only_image : s' ≡ record s { image = s'.image; output = s'.output }
  pub same_size : s'.image.size ≡ s.image.size
  pub count : little s'.image.byte (inode_address s n + 26) 2 ≡ c % 2 ^ 16
  pub others :
      (x : ℕ)
      → x < s.image.size
      → (x < inode_address s n + 26) ⊎ (inode_address s n + 28 ≤ x)
      → s'.image.byte x ≡ s.image.byte x
  pub bytes : IsBytes s.image.byte → IsBytes s'.image.byte

module _ (s : Fsck) (n c : ℕ) (h : InodeOnDisk s n) where
  abbrev index : ℕ
  index = table_offset s n / s.block_size

  abbrev in_block : ℕ
  in_block = table_offset s n % s.block_size

  -- Inodes do not straddle blocks.
  in_block-le : in_block + 128 ≤ s.block_size
  in_block-le =
      let bs = s.block_size in
      let q = bs / 128 in
      let size : bs ≡ 128 * q = omega (arith, h.tables.sectors) in
      omega (
        arith,
        h.tables.sectors,
        div-add-mod (table_offset s n) bs,
        mod-lt (table_offset s n) {m = bs} (omega (arith, h.tables.sectors)),
        (table_offset-in_table s n h.tables).0,
        ap (λ (t : ℕ). t * index) size,
      )

  offset_split : s.block_size * index + in_block ≡ table_offset s n
  offset_split = div-add-mod (table_offset s n) s.block_size

  index-lt : index < get_group_inode_block_num s
  index-lt =
      lt_of_mul-lt-mul_left s.block_size {m = index} {n = get_group_inode_block_num s}
        (omega (arith, offset_split, table_offset-in_table s n h.tables))

  index_bytes : s.block_size * (index + 1) ≤ s.block_size * get_group_inode_block_num s
  index_bytes =
      mul-le-mul_left {m = index + 1} {n = get_group_inode_block_num s} s.block_size
        (omega (arith, index-lt))

  block_place :
      block_address s (table_start s n + index)
      ≡ block_address s (table_start s n) + s.block_size * index
  block_place =
      address-add s (table_start s n) (get_group_inode_block_num s) index h.table
        (omega (arith, index-lt))

  -- The buffer that is written, for the table `m` that was read.
  abbrev new_block : Bytes → Bytes
  new_block m =
      write_number_into_block (shift m (u32 (index * s.block_size))) (u32 (in_block + 26)) c 2

  pub write_inode-written :
      (m : Bytes) × (write_inode n c s ≡ ok tt (written s (table_start s n + index) (new_block m)))
      × ((j : ℕ)
          → j < s.block_size * get_group_inode_block_num s
          → m j ≡ s.image.byte (block_address s (table_start s n) + j))
  unfolding write_inode read_group_inode_table table_start table_offset
  write_inode-written =
      let r = read_blocks-ok s (table_start s n) (get_group_inode_block_num s) s.stray h.table in
      let number =
        small_number s (table_start s n) (get_group_inode_block_num s) index h.table
          (omega (arith, index-lt)) in
      (
        r.0,
        rw
            (
              check_divisors-ok s h.tables,
              r.1,
              number,
              write_block-ok s (table_start s n + index) (new_block r.0) h.tables.sectors,
            )
            refl,
        r.2,
      )

  inside_byte :
      (m : Bytes) (i : ℕ)
      → i < s.block_size
      → (written s (table_start s n + index) (new_block m)).image.byte
          (block_address s (table_start s n + index) + i)
        ≡ new_block m i
  unfolding written write_bytes
  inside_byte m i lt = ground (
    arith,
    ap (new_block m)
        {x = block_address s (table_start s n + index)
          + i
          - block_address s (table_start s n + index)}
        {y = i},
  )

  small_offsets :
      (u32 (index * s.block_size) ≡ s.block_size * index) × (u32 (in_block + 26) ≡ in_block + 26)
  small_offsets = omega (arith, index_bytes, h.table.offsets, in_block-le, h.tables.sectors)

  old_byte :
      (m : Bytes)
      → ((j : ℕ)
          → j < s.block_size * get_group_inode_block_num s
          → m j ≡ s.image.byte (block_address s (table_start s n) + j))
      → (x : ℕ) → block_address s (table_start s n + index) ≤ x
      → x < block_address s (table_start s n + index) + s.block_size
      → (x < inode_address s n + 26) ⊎ (inode_address s n + 28 ≤ x)
      → new_block m (x - block_address s (table_start s n + index)) ≡ s.image.byte x
  unfolding inode_address
  old_byte m table x lo hi out =
      let a = block_address s (table_start s n + index) in
      write_number_outside (shift m (u32 (index * s.block_size))) (u32 (in_block + 26)) c 2 (x - a)
        (omega (arith, small_offsets, offset_split, block_place))
      ∙ table (u32 (index * s.block_size) + (x - a)) (omega (arith, small_offsets, index_bytes))
      ∙ ap s.image.byte (omega (arith, small_offsets, block_place))

  block_byte-lt :
      (m : Bytes)
      → ((j : ℕ)
          → j < s.block_size * get_group_inode_block_num s
          → m j ≡ s.image.byte (block_address s (table_start s n) + j))
      → IsBytes s.image.byte
      → (j : ℕ) → j < s.block_size
      → new_block m j < 256
  block_byte-lt m table image_bytes j lt =
      let at = u32 (index * s.block_size) in
      write_number-lt (shift m at) (u32 (in_block + 26)) c 2 j (
        omega (
          arith,
          table (at + j) (omega (arith, small_offsets, index_bytes)),
          image_bytes (block_address s (table_start s n) + (at + j)),
        ))

  stays-IsBytes :
      (m : Bytes)
      → ((j : ℕ)
          → j < s.block_size * get_group_inode_block_num s
          → m j ≡ s.image.byte (block_address s (table_start s n) + j))
      → IsBytes s.image.byte
      → IsBytes (written s (table_start s n + index) (new_block m)).image.byte
  unfolding written write_bytes
  stays-IsBytes m table image_bytes x = ground (
    arith,
    block_byte-lt m table image_bytes (x - block_address s (table_start s n + index)),
    image_bytes x,
  )

  other_byte :
      (m : Bytes)
      → ((j : ℕ)
          → j < s.block_size * get_group_inode_block_num s
          → m j ≡ s.image.byte (block_address s (table_start s n) + j))
      → (x : ℕ) → x < s.image.size
      → (x < inode_address s n + 26) ⊎ (inode_address s n + 28 ≤ x)
      → (written s (table_start s n + index) (new_block m)).image.byte x ≡ s.image.byte x
  unfolding written write_bytes
  other_byte m table x below out = ground (arith, old_byte m table x)

  same_size :
      (m : Bytes) → (written s (table_start s n + index) (new_block m)).image.size ≡ s.image.size
  unfolding written write_bytes
  same_size m = ground (arith, block_place, index_bytes, h.table.on_disk, h.tables.sectors)

  count_bytes :
      (m : Bytes)
      → little
          (written s (table_start s n + index) (new_block m)).image.byte
          (inode_address s n + 26)
          2
        ≡ c % 2 ^ 16
  unfolding inode_address
  count_bytes m =
      let a = block_address s (table_start s n + index) in
      let img = (written s (table_start s n + index) (new_block m)).image.byte in
      ap (λ (t : ℕ). little img t 2) (omega (arith, offset_split, block_place, small_offsets))
      ∙ sym (little-shift img a (u32 (in_block + 26)) 2)
      ∙ little-same (shift img a) (new_block m) (u32 (in_block + 26)) 2
          (λ i p q. inside_byte m i (omega (arith, small_offsets, in_block-le)))
      ∙ little-write_number (shift m (u32 (index * s.block_size))) (u32 (in_block + 26)) c 2

  -- If the table of the inode stands on the disk, `write_inode` succeeds and changes the two bytes
  -- of the inode's link count, which then spell the number cut to 16 bits, and no other byte of
  -- the disk; of the rest of the state only the output changes.
  pub write_inode-LinkCountWritten :
      (s' : Fsck) × (write_inode n c s ≡ ok tt s') × LinkCountWritten s n c s'
  write_inode-LinkCountWritten =
      let w = write_inode-written in
      (
        written s (table_start s n + index) (new_block w.0),
        w.1,
        record {
          only_image = unfold written in refl;
          same_size = same_size w.0;
          count = count_bytes w.0;
          others = other_byte w.0 w.2;
          bytes = stays-IsBytes w.0 w.2;
        },
      )
