-- ===== src/Inode/Read.antt =====
-- `read_inode` reads the inode's own bytes on the disk.
use mathlib.Core.Path.{ap₂}
use my_fsck.Base.{ℕ, zero, suc, ◌+◌, ◌*◌, ◌≤◌, ◌≡◌, refl, arith, u16, ap, ◌∷◌}
use my_fsck.Machine.Memory.{Bytes, shift, SameOn}
use my_fsck.Machine.State.{Fsck, Inode}
use my_fsck.Machine.Run.{ok}
use my_fsck.Util.{parse_bytes_to_decimal_u}
use my_fsck.Util.Number.{parse-same}
use my_fsck.Disk.Blocks.{block_address}
use my_fsck.Disk.Runs.{RunOnDisk, read_blocks-ok}
use my_fsck.Inode.{
  get_group_inode_block_num, parse_inode, parse_pointers, read_inode, read_group_inode_table,
}
use my_fsck.Inode.Location.{
  HasTables, table_offset, table_start, table_offset-in_table, check_divisors-ok,
}

-- The table of the inode's group lies on the disk.
pub record InodeOnDisk (s : Fsck) (n : ℕ) : Type 0 where
  pub tables : HasTables s
  pub table : RunOnDisk s (table_start s n) (get_group_inode_block_num s)

-- The inode that the image holds.
unfoldable pub inode_at : Fsck → ℕ → Inode
inode_at s n =
    parse_inode (shift s.image.byte (block_address s (table_start s n))) (table_offset s n)

pub parse_pointers-same :
    (m m' : Bytes) (offset left i : ℕ)
    → SameOn (offset + 40 + i * 4) (offset + 40 + (i + left) * 4) m m'
    → parse_pointers m offset left i ≡ parse_pointers m' offset left i
unfolding parse_pointers
parse_pointers-same m m' offset zero i h = refl
parse_pointers-same m m' offset (suc left) i h =
    ap₂ ◌∷◌ (parse-same m m' (offset + 40 + i * 4) 4 (λ j p q. h j p (omega arith)))
      (parse_pointers-same m m' offset left (i + 1) (λ j p q. h j (omega arith) (omega arith)))

-- An inode depends on its first 100 bytes only.
pub parse_inode-same :
    (m m' : Bytes) (o : ℕ) → SameOn o (o + 100) m m' → parse_inode m o ≡ parse_inode m' o
unfolding parse_inode
parse_inode-same m m' o h = λ i. record {
  i_mode = u16 (parse-same m m' o 2 (λ j p q. h j (omega arith) (omega arith)) i);
  i_uid = u16 (part 2 2 (omega arith) i);
  i_size = part 4 4 (omega arith) i;
  i_atime = part 8 4 (omega arith) i;
  i_ctime = part 12 4 (omega arith) i;
  i_mtime = part 16 4 (omega arith) i;
  i_dtime = part 20 4 (omega arith) i;
  i_gid = u16 (part 24 2 (omega arith) i);
  i_links_count = u16 (part 26 2 (omega arith) i);
  i_blocks = part 28 4 (omega arith) i;
  i_flags = part 32 4 (omega arith) i;
  i_block = parse_pointers-same m m' o 15 0 (λ j p q. h j (omega arith) (omega arith)) i;
}
  where
    part :
        (k n : ℕ)
        → k + n ≤ 100
        → parse_bytes_to_decimal_u m (o + k) n ≡ parse_bytes_to_decimal_u m' (o + k) n
    part k n le = parse-same m m' (o + k) n (λ j p q. h j (omega arith) (omega arith))

-- If the table of the inode stands on the disk, `read_inode` succeeds, changes nothing, and gives
-- the inode that the image holds at the inode's place in the table of its group.
pub read_inode-ok : (s : Fsck) (n : ℕ) → InodeOnDisk s n → read_inode n s ≡ ok (inode_at s n) s
unfolding read_inode read_group_inode_table inode_at table_start table_offset
read_inode-ok s n h =
    let r = read_blocks-ok s (table_start s n) (get_group_inode_block_num s) s.stray h.table in
    rw (check_divisors-ok s h.tables, r.1)
      (ap (λ (x : Inode). ok x s)
        (parse_inode-same r.0 (shift s.image.byte (block_address s (table_start s n)))
          (table_offset s n) (λ j p q. r.2 j (omega (arith, table_offset-in_table s n h.tables)))))
