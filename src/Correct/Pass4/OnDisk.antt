-- ===== src/Correct/Pass4/OnDisk.antt =====
-- `pass4` as a whole: the bitmaps on the disk afterwards.
use native.Mathlib.Nat.{mul-le-mul_left, mul_comm, mul_assoc}
use my_fsck.Base.{
  ℕ, ◌+◌, ◌-◌, ◌*◌, ◌/◌, ◌%◌, ◌^◌, ◌≤◌, ◌<◌, ◌≡◌, refl, arith, u32, sub32, ap, ◌∙◌, sym, leb,
  if◌then◌else◌, Bool-cases, inl, inr, bit_of, List,
}
use my_fsck.Machine.Memory.{Bytes, IsBytes}
use my_fsck.Machine.State.{Fsck, Message}
use my_fsck.Machine.Run.{ok, when}
use my_fsck.Disk.Blocks.{block_address}
use my_fsck.Disk.Written.{OnlyBytes, OnlyBytes-trans}
use my_fsck.SuperBlock.{read_group_desc}
use my_fsck.DataBlock.{
  get_block_alloc_bit, get_block_group_num, get_group_block_bitmap_block_num,
  get_block_bitmap_in_partition, write_block_bitmap_in_partition,
}
use my_fsck.DataBlock.Contents.{get_block_bitmap_in_partition-IsBytes}
use my_fsck.DataBlock.RoundTrip.{
  bitmap_bytes, get_block_bitmap_in_partition-ok, OnlyBytes-HasBitmaps, get_block_bitmap-same,
  written-read, write_block_bitmap_in_partition-ok,
}
use my_fsck.Correct.Links.{calloc}
use my_fsck.Correct.LostFound.{root_inode_num}
use my_fsck.Correct.FileBlocks.{get_true_block_bitmap}
use my_fsck.Correct.Pass4.{Check, check_bitmap, pass4, get_skip_block_num_in_group}
use my_fsck.Correct.Pass4.Blocks.{IsFlags}
use my_fsck.Correct.Pass4.Tables.{in_tables}
use my_fsck.Correct.Pass4.Whole.{check_bitmap-bit}
use my_fsck.Correct.Pass4.Same.{check_bitmap-same}
use my_fsck.Correct.Pass4.Reported.{Tracked, check_bitmap-Tracked, report_blocks-ok}
use my_fsck.Correct.Pass4.Disk.{HasBlockBitmap, BitmapFixed, OnlyBitmaps}

pub bit_same :
    (m m' : Bytes) (n x : ℕ)
    → ((y : ℕ) → y < n → m y ≡ m' y)
    → 1 ≤ x
    → x ≤ 8 * n
    → x < 2 ^ 32
    → get_block_alloc_bit m x ≡ get_block_alloc_bit m' x
unfolding get_block_alloc_bit
bit_same m m' n x h lo hi small =
    ap (λ (b : ℕ). bit_of b (sub32 x 1 % 8)) (h (sub32 x 1 / 8) (omega arith))

module _ (s : Fsck) (h : HasBlockBitmap s) where
  pub bits_held :
      get_block_group_num s * s.super_block.s_blocks_per_group
      ≤ 8 * (bitmap_bytes s * get_block_group_num s)
  bits_held =
      let n = get_block_group_num s in
      omega (
        arith,
        mul-le-mul_left {m = s.super_block.s_blocks_per_group} {n = 8 * bitmap_bytes s} n h.holds,
        mul_comm n (8 * bitmap_bytes s),
        mul_assoc 8 (bitmap_bytes s) n,
      )

  array_size :
      u32 (u32 (get_block_group_num s * get_group_block_bitmap_block_num s) * s.block_size)
      ≡ bitmap_bytes s * get_block_group_num s
  unfolding bitmap_bytes
  array_size =
      let n = get_block_group_num s in
      let b = get_group_block_bitmap_block_num s in
      let on_disk = h.bitmaps.1 in
      let small : n * b ≤ n * b * s.block_size =
        omega (arith, mul-le-mul_left {m = 1} {n = s.block_size} (n * b) on_disk.sized) in
      let first : u32 (n * b) ≡ n * b = omega (arith, on_disk.fit) in
      ap (λ (t : ℕ). u32 (t * s.block_size)) first
      ∙ omega (
        arith,
        on_disk.fit,
        mul_comm (n * b) s.block_size,
        mul_comm n b,
        mul_assoc s.block_size b n,
      )

  written_bitmaps :
      (out : List Message) (from : Bytes)
      → (s' : Fsck) × (m : Bytes) × (write_block_bitmap_in_partition from
            (record s { output = out })
          ≡ ok tt s')
        × (get_block_bitmap_in_partition s' ≡ ok m s')
        × ((y : ℕ) → y < bitmap_bytes s * get_block_group_num s → m y ≡ from y)
        × OnlyBitmaps s s'
  unfolding bitmap_bytes get_block_group_num get_group_block_bitmap_block_num block_address
      read_group_desc
  written_bitmaps out from =
      let s1 : Fsck = record s { output = out } in
      let f : OnlyBytes s s1 = record { only_image = refl; same_size = refl } in
      let here = OnlyBytes-HasBitmaps f h.bitmaps in
      let w = write_block_bitmap_in_partition-ok s1 from here in
      let r = written-read s1 w.0 from here w.2 in
      (
        w.0,
        r.0,
        w.1,
        r.1,
        r.2,
        record {
          only_bytes = OnlyBytes-trans f w.2.only_bytes;
          others = λ x lt out. w.2.others x lt (λ g lo hi. out g hi);
        },
      )

  -- What is written, or not, after the messages.
  rewritten :
      (out : List Message) (c : Check)
      → Tracked
          (get_block_bitmap_in_partition-ok s h.bitmaps).0
          (1 + get_block_group_num s * s.super_block.s_blocks_per_group)
          c
      → (s' : Fsck) × (m : Bytes) × (when c.found_error
            (write_block_bitmap_in_partition c.bitmap)
            (record s { output = out })
          ≡ ok tt s')
        × (get_block_bitmap_in_partition s' ≡ ok m s')
        × ((y : ℕ) → y < bitmap_bytes s * get_block_group_num s → m y ≡ c.bitmap y)
        × OnlyBitmaps s s'
  unfolding bitmap_bytes get_block_group_num get_group_block_bitmap_block_num
  rewritten out c tracked =
      let s1 : Fsck = record s { output = out } in
      let f : OnlyBytes s s1 = record { only_image = refl; same_size = refl } in
      elim (Bool-cases c.found_error) [
        | inl e ↦ let w = written_bitmaps out c.bitmap in (w.0, w.1, rw e w.2, w.3, w.4, w.5)
        | inr e ↦
            let r = get_block_bitmap_in_partition-ok s1 (OnlyBytes-HasBitmaps f h.bitmaps) in
            (
              s1,
              r.0,
              rw e refl,
              r.1,
              λ y lt.
                  get_block_bitmap-same f h.bitmaps (λ g j p q. refl) y lt
                  ∙ ap (λ (m : Bytes). m y) (sym (tracked.untouched e)),
              record { only_bytes = f; others = λ x lt out. refl },
            )
      ]

  -- `pass4` with the table `t` of the walk, and a table `t'` that says the same of the blocks.
  pub pass4-agreeing :
      (depth : ℕ) (t t' : Bytes)
      → IsBytes s.image.byte
      → IsBytes s.stray
      → IsFlags t'
      → ((x : ℕ) → 1 ≤ x → x < s.super_block.s_blocks_count → t x ≡ t' x)
      → get_true_block_bitmap depth
          (calloc s.stray (s.super_block.s_blocks_count + 1))
          root_inode_num
          s
        ≡ ok t s
      → (s' : Fsck) × (old : Bytes) × (get_block_bitmap_in_partition s ≡ ok old s)
        × (pass4 depth s ≡ ok tt s')
        × BitmapFixed s t' old s'
        × OnlyBitmaps s s'
  unfolding pass4
  pass4-agreeing depth t t' image_bytes stray_bytes flags same used =
      let read = get_block_bitmap_in_partition-ok s h.bitmaps in
      let bytes =
        get_block_bitmap_in_partition-IsBytes s image_bytes h.bitmaps stray_bytes read.0 read.1 in
      let c = check_bitmap s t' read.0 in
      let limit = 1 + get_block_group_num s * s.super_block.s_blocks_per_group in
      let tracked =
        check_bitmap-Tracked read.0 limit h.groups.numbers_fit s t' flags bytes
          (omega (arith, h.groups.skip_fits)) (omega arith) h.tables in
      let report =
        report_blocks-ok (bitmap_bytes s * get_block_group_num s) limit c.reported s
          tracked.reported_below (omega (arith, bits_held)) h.groups.numbers_fit in
      let w = rewritten report.0 c tracked in
      (
        w.0,
        read.0,
        read.1,
        rw (read.1, used, check_bitmap-same s t t' read.0 h.groups same, array_size, report.1) w.2,
        record {
          new = w.1;
          read = w.3;
          bits = λ x lo hi.
              bit_same w.1 c.bitmap (bitmap_bytes s * get_block_group_num s) x w.4 lo
                (omega (arith, bits_held, h.groups.covered))
                (omega (arith, h.groups.covered, h.groups.numbers_fit))
              ∙ check_bitmap-bit s t' read.0 flags bytes h.groups x lo hi;
        },
        w.5,
      )

  -- If the groups cover the blocks of the file system, the bitmaps of the groups lie on the disk
  -- and apart, each with a bit for every block of its group, the inode tables lie within the
  -- groups, the disk and unwritten memory hold bytes, and the walk from the root succeeds without
  -- a change in the state, with a table of zeros and ones, then `pass4` succeeds, and the block
  -- bitmap that is read from the disk afterwards has for every block from 1 up to `s_blocks_count`
  -- the bit 1 in an inode table, else the entry of the walk's table behind the reserved blocks of
  -- a group, and else the bit that was read before.
  pub pass4-bitmap :
      (depth : ℕ) (t : Bytes)
      → IsBytes s.image.byte
      → IsBytes s.stray
      → IsFlags t
      → get_true_block_bitmap depth
          (calloc s.stray (s.super_block.s_blocks_count + 1))
          root_inode_num
          s
        ≡ ok t s
      → (s' : Fsck) × (old : Bytes) × (new : Bytes) × (get_block_bitmap_in_partition s ≡ ok old s)
        × (pass4 depth s ≡ ok tt s')
        × (get_block_bitmap_in_partition s' ≡ ok new s')
        × ((x : ℕ)
            → 1 ≤ x
            → x < s.super_block.s_blocks_count
            → get_block_alloc_bit new x ≡ (
                if in_tables (get_block_group_num s) 0 s x
                then 1
                else if leb
                    (get_skip_block_num_in_group s)
                    ((x - 1) % s.super_block.s_blocks_per_group)
                then t x
                else get_block_alloc_bit old x))
  pass4-bitmap depth t image_bytes stray_bytes flags used =
      let r = pass4-agreeing depth t t image_bytes stray_bytes flags (λ x lo hi. refl) used in
      (r.0, r.1, r.4.new, r.2, r.3, r.4.read, r.4.bits)
