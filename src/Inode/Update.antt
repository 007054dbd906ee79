-- ===== src/Inode/Update.antt =====
-- Reading an inode after the link count of one was written.
use mathlib.Core.Path.{subst}
use my_fsck.Base.{
  ℕ, ◌+◌, ◌%◌, ◌^◌, ◌≤◌, ◌<◌, ◌≡◌, ◌≢◌, refl, arith, u16, ap, ◌∙◌, sym, ◌⊎◌, inl, inr, Bool-cases,
  ltb, ◌==◌, if◌then◌else◌, ==→eq, List, ==→ne, ltb→lt, ltb→le,
}
use my_fsck.Machine.Memory.{Bytes, shift, SameOn}
use my_fsck.Machine.State.{Fsck, Image, Inode, Message}
use my_fsck.Machine.Run.{ok, ◌>>◌}
use my_fsck.Util.{parse_bytes_to_decimal_u}
use my_fsck.Util.Little.{little, little-shift, parse-little}
use my_fsck.Util.Number.{parse-same}
use my_fsck.Disk.Blocks.{block_address}
use my_fsck.SuperBlock.{read_group_desc}
use my_fsck.Inode.{
  get_group_inode_block_num, get_inode_group_offset, get_inode_offset_in_group, parse_inode,
  read_inode, write_inode,
}
use my_fsck.Inode.Location.{
  HasTables, table_offset, table_start, table_offset-in_table, table_offset-injective,
}
use my_fsck.Inode.Read.{InodeOnDisk, inode_at, parse_inode-same, parse_pointers-same, read_inode-ok}
use my_fsck.Inode.Write.{inode_address, LinkCountWritten, write_inode-LinkCountWritten}

-- Two inodes stand apart on the disk.
abbrev pub Apart : Fsck → ℕ → ℕ → Type 0
Apart s i j =
    (inode_address s i + 128 ≤ inode_address s j) ⊎ (inode_address s j + 128 ≤ inode_address s i)

-- Different inodes of one group do.
pub Apart-same_group :
    (s : Fsck) (i j : ℕ)
    → HasTables s
    → 1 ≤ i
    → i < 2 ^ 32
    → 1 ≤ j
    → j < 2 ^ 32
    → get_inode_group_offset s i ≡ get_inode_group_offset s j
    → i ≢ j
    → Apart s i j
unfolding inode_address table_start
Apart-same_group s i j h lo hi lo' hi' group ne =
    let base = ap (λ (g : ℕ). block_address s (read_group_desc s g).bg_inode_table) group in
    let distinct : table_offset s i ≢ table_offset s j =
      λ e. ne (table_offset-injective s i j h lo hi lo' hi' group e) in
    let at_i = (table_offset-in_table s i h).0 in
    let at_j = (table_offset-in_table s j h).0 in
    elim (Bool-cases (ltb (table_offset s i) (table_offset s j))) [
      | inl l ↦ let lt = ltb→lt (table_offset s i) (table_offset s j) l in inl (omega arith)
      | inr r ↦ let le = ltb→le (table_offset s i) (table_offset s j) r in inr (omega arith)
    ]

-- The link count apart, an inode depends on the bytes around its link count.
parse_inode-links :
    (m m' : Bytes) (o : ℕ)
    → SameOn o (o + 26) m m'
    → SameOn (o + 28) (o + 100) m m'
    → parse_inode m' o
      ≡ record (parse_inode m o) { i_links_count = u16 (parse_bytes_to_decimal_u m' (o + 26) 2) }
unfolding parse_inode
parse_inode-links m m' o h h' = λ i. record {
  i_mode = u16 (sym (parse-same m m' o 2 (λ j p q. h j (omega arith) (omega arith))) i);
  i_uid = u16 (before 2 2 (omega arith) i);
  i_size = before 4 4 (omega arith) i;
  i_atime = before 8 4 (omega arith) i;
  i_ctime = before 12 4 (omega arith) i;
  i_mtime = before 16 4 (omega arith) i;
  i_dtime = before 20 4 (omega arith) i;
  i_gid = u16 (before 24 2 (omega arith) i);
  i_links_count = u16 (parse_bytes_to_decimal_u m' (o + 26) 2);
  i_blocks = behind 28 4 (omega arith) (omega arith) i;
  i_flags = behind 32 4 (omega arith) (omega arith) i;
  i_block = sym (parse_pointers-same m m' o 15 0 (λ j p q. h' j (omega arith) (omega arith))) i;
}
  where
    before :
        (k n : ℕ)
        → k + n ≤ 26
        → parse_bytes_to_decimal_u m' (o + k) n ≡ parse_bytes_to_decimal_u m (o + k) n
    before k n le = sym (parse-same m m' (o + k) n (λ j p q. h j (omega arith) (omega arith)))

    behind :
        (k n : ℕ)
        → 28 ≤ k
        → k + n ≤ 100
        → parse_bytes_to_decimal_u m' (o + k) n ≡ parse_bytes_to_decimal_u m (o + k) n
    behind k n lo le = sym (parse-same m m' (o + k) n (λ j p q. h' j (omega arith) (omega arith)))

abbrev pub with_image : Fsck → Image → List Message → Fsck
with_image s img out = record s { image = img; output = out }

pub with_image-InodeOnDisk :
    (s : Fsck) (img : Image) (out : List Message) (j : ℕ)
    → img.size ≡ s.image.size
    → InodeOnDisk s j
    → InodeOnDisk (with_image s img out) j
unfolding table_start block_address get_group_inode_block_num get_inode_group_offset read_group_desc
with_image-InodeOnDisk s img out j e h = record {
  tables = record {
    sectors = h.tables.sectors;
    per_group = h.tables.per_group;
    fits = h.tables.fits;
  };
  table = record {
    sectors = h.table.sectors;
    numbered = h.table.numbered;
    offsets = h.table.offsets;
    on_disk = omega (arith, h.table.on_disk);
  };
}

inode_at_lem :
    (s : Fsck) (j : ℕ)
    → inode_at s j
      ≡ parse_inode (shift s.image.byte (block_address s (table_start s j))) (table_offset s j)
unfolding inode_at
inode_at_lem s j = refl

-- Where the inode stands does not depend on the image.
with_image-inode :
    (s : Fsck) (img : Image) (out : List Message) (j : ℕ)
    → inode_at (with_image s img out) j
      ≡ parse_inode (shift img.byte (block_address s (table_start s j))) (table_offset s j)
unfolding inode_at table_start table_offset block_address get_inode_group_offset
    get_inode_offset_in_group read_group_desc
with_image-inode s img out j = refl

-- An inode whose bytes are as before but for the link count.
with_image-links :
    (s : Fsck) (img : Image) (out : List Message) (j : ℕ)
    → InodeOnDisk s j
    → ((x : ℕ)
        → inode_address s j ≤ x
        → x < inode_address s j + 128
        → (x < inode_address s j + 26) ⊎ (inode_address s j + 28 ≤ x)
        → img.byte x ≡ s.image.byte x)
    → inode_at (with_image s img out) j ≡ record (inode_at s j) {
      i_links_count = u16 (little img.byte (inode_address s j + 26) 2 % 2 ^ 32);
    }
unfolding inode_address
with_image-links s img out j h same =
    let a = block_address s (table_start s j) in
    let o = table_offset s j in
    with_image-inode s img out j
    ∙ parse_inode-links (shift s.image.byte a) (shift img.byte a) o
        (λ k p q. sym (same (a + k) (omega arith) (omega arith) (inl (omega arith))))
        (λ k p q. sym (same (a + k) (omega arith) (omega arith) (inr (omega arith))))
    ∙ ap (λ (c : ℕ). record (parse_inode (shift s.image.byte a) o) { i_links_count = u16 c })
        (parse-little (shift img.byte a) (o + 26) 2
          ∙ ap (λ (t : ℕ). t % 2 ^ 32)
              (little-shift img.byte a (o + 26) 2
                ∙ ap (λ (t : ℕ). little img.byte t 2) (omega arith)))
    ∙ ap (λ (i : Inode). record i { i_links_count = u16 (little img.byte (a + o + 26) 2 % 2 ^ 32) })
        (sym (inode_at_lem s j))

pub same_inode :
    (s : Fsck) (img : Image) (out : List Message) (j : ℕ)
    → ((x : ℕ) → inode_address s j ≤ x → x < inode_address s j + 128 → img.byte x ≡ s.image.byte x)
    → inode_at (with_image s img out) j ≡ inode_at s j
unfolding inode_address
same_inode s img out j same =
    let a = block_address s (table_start s j) in
    with_image-inode s img out j
    ∙ parse_inode-same (shift img.byte a) (shift s.image.byte a) (table_offset s j)
        (λ k p q. same (a + k) (omega arith) (omega arith))
    ∙ sym (inode_at_lem s j)

pub inode_end : (s : Fsck) (j : ℕ) → InodeOnDisk s j → inode_address s j + 128 ≤ s.image.size
unfolding inode_address
inode_end s j h = omega (arith, table_offset-in_table s j h.tables, h.table.on_disk)

module _ (s : Fsck) (n c : ℕ) (s' : Fsck) (w : LinkCountWritten s n c s') where
  pub written-InodeOnDisk : (j : ℕ) → InodeOnDisk s j → InodeOnDisk s' j
  written-InodeOnDisk j h =
      subst (λ (t : Fsck). InodeOnDisk t j) (sym w.only_image)
        (with_image-InodeOnDisk s s'.image s'.output j w.same_size h)

  pub inode_at-written :
      InodeOnDisk s n → inode_at s' n ≡ record (inode_at s n) { i_links_count = c % 2 ^ 16 }
  inode_at-written h =
      subst (λ (t : Fsck). inode_at t n ≡ record (inode_at s n) { i_links_count = c % 2 ^ 16 })
        (sym w.only_image)
        (with_image-links s s'.image s'.output n h
            (λ x lo hi out. w.others x (omega (arith, inode_end s n h)) out)
          ∙ ap (λ (k : ℕ). record (inode_at s n) { i_links_count = k }) (omega (arith, w.count)))

  pub inode_at-written-Apart :
      (j : ℕ) → InodeOnDisk s j → Apart s n j → inode_at s' j ≡ inode_at s j
  inode_at-written-Apart j h apart =
      subst (λ (t : Fsck). inode_at t j ≡ inode_at s j) (sym w.only_image)
        (same_inode s s'.image s'.output j
          (λ x lo hi. w.others x (omega (arith, inode_end s j h)) (omega arith)))

-- If the tables of two inodes stand on the disk, and the inodes apart from one another unless they
-- are the same, then after `write_inode` the one reads with the new link count, cut to 16 bits, if
-- it is the one that was written, and else as before; of the state only the two bytes of that link
-- count and the output have changed.
pub read_inode-write_inode :
    (s : Fsck) (n c j : ℕ)
    → InodeOnDisk s n
    → InodeOnDisk s j
    → (n ≢ j → Apart s n j)
    → (s' : Fsck) × ((write_inode n c >> read_inode j) s
        ≡ ok
            (if n == j then record (inode_at s j) { i_links_count = c % 2 ^ 16 } else inode_at s j)
            s')
      × LinkCountWritten s n c s'
read_inode-write_inode s n c j hn hj apart =
    let r = write_inode-LinkCountWritten s n c hn in
    (
      r.0,
      rw (r.1, read_inode-ok r.0 j (written-InodeOnDisk s n c r.0 r.2 j hj))
          (ap (λ (i : Inode). ok i r.0)
            (elim (Bool-cases (n == j)) [
              | inl e ↦
                  let q = ==→eq n j e in
                  rw e (
                    subst
                      (λ (k : ℕ).
                        inode_at r.0 k ≡ record (inode_at s k) { i_links_count = c % 2 ^ 16 })
                      q (inode_at-written s n c r.0 r.2 hn))
              | inr e ↦ rw e (inode_at-written-Apart s n c r.0 r.2 j hj (apart (==→ne n j e)))
            ])),
      r.2,
    )
