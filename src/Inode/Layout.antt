-- ===== src/Inode/Layout.antt =====
-- Inodes of different groups: where the tables of the groups stand apart, all inodes do.
use native.Mathlib.Nat.{div-lt_iff_lt-mul}
use my_fsck.Base.{
  ℕ, ◌+◌, ◌*◌, ◌^◌, ◌≤◌, ◌<◌, ◌%◌, if◌then◌else◌, ◌≡◌, ◌≢◌, arith, sub32, ◌⊎◌, inl, inr, ◌==◌,
  Bool-cases, ltb, ltb→lt, ltb→le,
}
use my_fsck.Machine.State.{Fsck}
use my_fsck.Machine.Run.{ok, ◌>>◌}
use my_fsck.SuperBlock.{read_group_desc}
use my_fsck.Disk.Blocks.{block_address}
use my_fsck.Disk.Runs.{RunOnDisk}
use my_fsck.Inode.{read_inode, write_inode, get_group_inode_block_num, get_inode_group_offset}
use my_fsck.Inode.Location.{HasTables, table_start, table_offset-in_table}
use my_fsck.Inode.Read.{InodeOnDisk, inode_at}
use my_fsck.Inode.Write.{inode_address, LinkCountWritten}
use my_fsck.Inode.Update.{Apart, Apart-same_group, read_inode-write_inode}

-- Where the table of a group starts, and the bytes of its blocks.
abbrev pub group_table : Fsck → ℕ → ℕ
group_table s g = (read_group_desc s g).bg_inode_table

abbrev pub table_bytes : Fsck → ℕ
table_bytes s = s.block_size * get_group_inode_block_num s

-- The tables of the first `n` groups lie on the disk, apart from one another.
pub record TablesOnDisk (s : Fsck) (n : ℕ) : Type 0 where
  pub tables : HasTables s
  pub run : (g : ℕ) → g < n → RunOnDisk s (group_table s g) (get_group_inode_block_num s)
  pub tables_apart :
      (g k : ℕ)
      → g < k
      → k < n
      → (block_address s (group_table s g) + table_bytes s ≤ block_address s (group_table s k))
        ⊎ (block_address s (group_table s k) + table_bytes s ≤ block_address s (group_table s g))

Apart-sym : (s : Fsck) (i j : ℕ) → Apart s i j → Apart s j i
Apart-sym s i j (inl h) = inr h
Apart-sym s i j (inr h) = inl h

module _ (s : Fsck) (n : ℕ) (h : TablesOnDisk s n) where
  -- The group of an inode is one of them.
  group-lt :
      (j : ℕ)
      → 1 ≤ j
      → j ≤ n * s.super_block.s_inodes_per_group
      → j < 2 ^ 32
      → get_inode_group_offset s j < n
  unfolding get_inode_group_offset
  group-lt j lo hi small =
      (div-lt_iff_lt-mul {k = s.super_block.s_inodes_per_group} {x = sub32 j 1} {y = n}
          h.tables.per_group).1
        (omega arith)

  pub TablesOnDisk-InodeOnDisk :
      (j : ℕ) → 1 ≤ j → j ≤ n * s.super_block.s_inodes_per_group → j < 2 ^ 32 → InodeOnDisk s j
  unfolding table_start
  TablesOnDisk-InodeOnDisk j lo hi small = record {
    tables = h.tables;
    table = h.run (get_inode_group_offset s j) (group-lt j lo hi small);
  }

  -- Of two inodes in different groups the one with the lower group.
  lower_group :
      (i j : ℕ)
      → get_inode_group_offset s i < get_inode_group_offset s j
      → get_inode_group_offset s j < n
      → Apart s i j
  unfolding inode_address table_start
  lower_group i j lt below =
      let in_i = table_offset-in_table s i h.tables in
      let in_j = table_offset-in_table s j h.tables in
      omega (
        arith,
        h.tables_apart (get_inode_group_offset s i) (get_inode_group_offset s j) lt below,
        in_i,
        in_j,
      )

  pub TablesOnDisk-Apart :
      (i j : ℕ)
      → 1 ≤ i
      → i ≤ n * s.super_block.s_inodes_per_group
      → i < 2 ^ 32
      → 1 ≤ j
      → j ≤ n * s.super_block.s_inodes_per_group
      → j < 2 ^ 32
      → i ≢ j
      → Apart s i j
  TablesOnDisk-Apart i j lo hi small lo' hi' small' ne =
      let a = get_inode_group_offset s i in
      let b = get_inode_group_offset s j in
      elim (Bool-cases (ltb a b)) [
        | inl less ↦ lower_group i j (ltb→lt a b less) (group-lt j lo' hi' small')
        | inr not_less ↦ elim (Bool-cases (ltb b a)) [
          | inl more ↦ Apart-sym s j i (lower_group j i (ltb→lt b a more) (group-lt i lo hi small))
          | inr not_more ↦
              let le = ltb→le a b not_less in
              let ge = ltb→le b a not_more in
              Apart-same_group s i j h.tables lo small lo' small' (omega arith) ne
        ]
      ]

  -- If the inode tables of the groups stand on the disk, apart from one another, then for any two
  -- inodes of these groups, in one group or in two, `read_inode` of the one after `write_inode` of
  -- the other succeeds, and reads the new link count, cut to 16 bits, if they are the same inode,
  -- and else the inode as it was; of the state only the two bytes of that link count and the
  -- output have changed.
  pub read_inode-write_inode_tables :
      (i c j : ℕ)
      → 1 ≤ i
      → i ≤ n * s.super_block.s_inodes_per_group
      → i < 2 ^ 32
      → 1 ≤ j
      → j ≤ n * s.super_block.s_inodes_per_group
      → j < 2 ^ 32
      → (s' : Fsck) × ((write_inode i c >> read_inode j) s
          ≡ ok
              (if i == j
                then record (inode_at s j) { i_links_count = c % 2 ^ 16 }
                else inode_at s j)
              s')
        × LinkCountWritten s i c s'
  read_inode-write_inode_tables i c j lo hi small lo' hi' small' =
      read_inode-write_inode s i c j (TablesOnDisk-InodeOnDisk i lo hi small)
        (TablesOnDisk-InodeOnDisk j lo' hi' small')
        (TablesOnDisk-Apart i j lo hi small lo' hi' small')
