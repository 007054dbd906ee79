-- ===== src/Inode/Location.antt =====
-- Where an inode stands: its group, and its place in the table of the group.
use native.Mathlib.Nat.{lt-div-mul-add, mod-lt, div-add-mod}
use my_fsck.Base.{ℕ, ◌+◌, ◌-◌, ◌*◌, ◌^◌, ◌≤◌, ◌<◌, ◌≡◌, arith, u32, sub32, ap, ne→==}
use my_fsck.Machine.State.{Fsck}
use my_fsck.Machine.Run.{ok}
use my_fsck.SuperBlock.{read_group_desc}
use my_fsck.Disk.Blocks.{HasSectors}
use my_fsck.Inode.{
  get_group_inode_block_num, get_inode_group_offset, get_inode_offset_in_group, check_divisors,
}

-- The sizes that the places of inodes are computed from fit 32 bits.
pub record HasTables (s : Fsck) : Type 0 where
  pub sectors : HasSectors s
  pub per_group : 0 < s.super_block.s_inodes_per_group
  pub fits : s.super_block.s_inodes_per_group * 128 + s.block_size < 2 ^ 32

-- The offset of inode `n` in the table of its group.
unfoldable pub table_offset : Fsck → ℕ → ℕ
table_offset s n = u32 (get_inode_offset_in_group s n * 128)

-- The first block of the table of the group that holds inode `n`.
unfoldable pub table_start : Fsck → ℕ → ℕ
table_start s n = (read_group_desc s (get_inode_group_offset s n)).bg_inode_table

-- If the block size is a number of sectors and the size of a table fits 32 bits, the blocks that
-- `get_group_inode_block_num` gives hold the inodes of a group, and with one block less they would
-- not.
pub group_inode_block_num-covers :
    (s : Fsck)
    → HasTables s
    → (s.super_block.s_inodes_per_group * 128 ≤ s.block_size * get_group_inode_block_num s)
      × (s.block_size * get_group_inode_block_num s
          < s.super_block.s_inodes_per_group * 128 + s.block_size)
unfolding get_group_inode_block_num
group_inode_block_num-covers s h =
    let ipg = s.super_block.s_inodes_per_group in
    let bs = s.block_size in
    let x = sub32 (u32 (u32 (ipg * 128) + bs)) 1 in
    let exact : x ≡ ipg * 128 + bs - 1 = omega (arith, h.fits, h.sectors) in
    omega (
      arith,
      h.sectors,
      exact,
      lt-div-mul-add {a = x} {b = bs} (omega (arith, h.sectors)),
      div-add-mod x bs,
    )

-- If the block size is a number of sectors and the size of a table fits 32 bits, the offset of an
-- inode in the table of its group is 128 times its place in the group, and its 128 bytes lie
-- within the blocks that are read for the table.
pub table_offset-in_table :
    (s : Fsck) (n : ℕ)
    → HasTables s
    → (table_offset s n ≡ get_inode_offset_in_group s n * 128)
      × (table_offset s n + 128 ≤ s.block_size * get_group_inode_block_num s)
unfolding table_offset get_inode_offset_in_group
table_offset-in_table s n h = omega (
  arith,
  h.fits,
  group_inode_block_num-covers s h,
  mod-lt (sub32 n 1) {m = s.super_block.s_inodes_per_group} h.per_group,
)

-- If the block size is a number of sectors and the size of a table fits 32 bits, two inode numbers
-- from 1 to 2^32 - 1 with the same group and the same offset in its table are the same.
pub table_offset-injective :
    (s : Fsck) (i j : ℕ)
    → HasTables s
    → 1 ≤ i
    → i < 2 ^ 32
    → 1 ≤ j
    → j < 2 ^ 32
    → get_inode_group_offset s i ≡ get_inode_group_offset s j
    → table_offset s i ≡ table_offset s j
    → i ≡ j
unfolding get_inode_group_offset get_inode_offset_in_group
table_offset-injective s i j h lo hi lo' hi' group offset =
    let ipg = s.super_block.s_inodes_per_group in
    omega (
      arith,
      table_offset-in_table s i h,
      table_offset-in_table s j h,
      div-add-mod (sub32 i 1) ipg,
      div-add-mod (sub32 j 1) ipg,
      ap (λ (t : ℕ). ipg * t) group,
    )

pub check_divisors-ok : (s : Fsck) → HasTables s → check_divisors s ≡ ok tt s
unfolding check_divisors
check_divisors-ok s h = rw (
  ne→== s.super_block.s_inodes_per_group 0 (omega (arith, h.per_group)),
  ne→== s.block_size 0 (omega (arith, h.sectors)),
)
