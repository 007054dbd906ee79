-- ===== src/DataBlock/RoundTrip.antt =====
-- The block bitmaps of the groups are written to the disk and read again.
use native.Mathlib.Nat.{mod-lt, mul-le-mul_left, div-add-mod}
use mathlib.Core.Path.{subst}
use my_fsck.Base.{
  ℕ, ◌+◌, ◌*◌, ◌/◌, ◌%◌, ◌<◌, ◌≡◌, sym, ap, ◌∙◌, arith, ltb, inl, inr, Bool-cases, ltb→lt, ltb→le,
}
use my_fsck.Machine.Memory.{Bytes}
use my_fsck.Machine.State.{Fsck}
use my_fsck.Machine.Run.{ok}
use my_fsck.Disk.Written.{OnlyBytes}
use my_fsck.DataBlock.{
  get_block_group_num, get_group_block_bitmap_block_num, get_block_bitmap_in_partition,
  write_block_bitmap_in_partition,
}
use my_fsck.DataBlock.OnDisk.{
  bitmap_address, block_bitmap_loop-run, HasBitmaps, check_block_divisors-ok,
}
use my_fsck.DataBlock.Stored.{
  with_image-BitmapsOnDisk, OnlyBytes-bitmap_address, write_bitmap_loop-run, BitmapsWritten,
}

-- The number of bytes of a group's bitmap in memory.
unfoldable pub bitmap_bytes : Fsck → ℕ
bitmap_bytes s = s.block_size * get_group_block_bitmap_block_num s

pub get_block_bitmap_in_partition-ok :
    (s : Fsck)
    → HasBitmaps s
    → (m : Bytes) × (get_block_bitmap_in_partition s ≡ ok m s)
      × ((g j : ℕ)
          → g < get_block_group_num s
          → j < bitmap_bytes s
          → m (bitmap_bytes s * g + j) ≡ s.image.byte (bitmap_address s g + j))
unfolding get_block_bitmap_in_partition bitmap_bytes
get_block_bitmap_in_partition-ok s h =
    let r =
      block_bitmap_loop-run s (get_group_block_bitmap_block_num s) (get_block_group_num s) h.1
        (get_block_group_num s) 0 s.stray (omega arith) in
    (r.0, rw (check_block_divisors-ok s h) r.1, λ g j p q. r.3 g j (omega arith) p q)

pub write_block_bitmap_in_partition-ok :
    (s : Fsck) (from : Bytes)
    → HasBitmaps s
    → (s' : Fsck) × (write_block_bitmap_in_partition from s ≡ ok tt s')
      × BitmapsWritten s (get_group_block_bitmap_block_num s) 0 (get_block_group_num s) from s'
unfolding write_block_bitmap_in_partition
write_block_bitmap_in_partition-ok s from h =
    let r =
      write_bitmap_loop-run (get_group_block_bitmap_block_num s) (get_block_group_num s) from
        (get_block_group_num s) 0 s h.1 (omega arith) in
    (r.0, rw (check_block_divisors-ok s h) r.1, r.2)

pub OnlyBytes-HasBitmaps : {s s' : Fsck} → OnlyBytes s s' → HasBitmaps s → HasBitmaps s'
unfolding get_block_group_num get_group_block_bitmap_block_num
OnlyBytes-HasBitmaps {s} {s'} f h = subst HasBitmaps (sym f.only_image) (
  h.0,
  with_image-BitmapsOnDisk s s'.image s'.output (get_group_block_bitmap_block_num s)
      (get_block_group_num s) f.same_size h.1,
)

-- The position of a byte among the bitmaps.
position : (w n y : ℕ) → y < w * n → (g : ℕ) × (j : ℕ) × (g < n) × (j < w) × (y ≡ w * g + j)
position w n y lt =
    let pos : 0 < w = elim (Bool-cases (ltb 0 w)) [
      | inl p ↦ ltb→lt 0 w p
      | inr z ↦ absurd (
          omega (
            arith,
            ltb→le 0 w z,
            ap (λ (k : ℕ). k * n) {x = w} {y = 0} (omega (arith, ltb→le 0 w z)),
          ))
    ] in
    let split = div-add-mod y w in
    (
      y / w,
      y % w,
      ground (arith, mul-le-mul_left {m = n} {n = y / w} w),
      mod-lt y pos,
      omega (arith, split),
    )

-- Where the bitmaps on the disk are the same, the same bitmaps are read.
pub get_block_bitmap-same :
    {s s' : Fsck} (f : OnlyBytes s s') (h : HasBitmaps s)
    → ((g j : ℕ)
        → g < get_block_group_num s
        → j < bitmap_bytes s
        → s'.image.byte (bitmap_address s g + j) ≡ s.image.byte (bitmap_address s g + j))
    → (y : ℕ) → y < bitmap_bytes s * get_block_group_num s
    → (get_block_bitmap_in_partition-ok s' (OnlyBytes-HasBitmaps f h)).0 y
      ≡ (get_block_bitmap_in_partition-ok s h).0 y
unfolding bitmap_bytes get_block_group_num get_group_block_bitmap_block_num
get_block_bitmap-same {s} {s'} f h same y lt =
    let p = position (bitmap_bytes s) (get_block_group_num s) y lt in
    let r = get_block_bitmap_in_partition-ok s' (OnlyBytes-HasBitmaps f h) in
    let old = get_block_bitmap_in_partition-ok s h in
    let width : bitmap_bytes s' ≡ bitmap_bytes s = ap bitmap_bytes f.only_image in
    let groups : get_block_group_num s' ≡ get_block_group_num s =
      ap get_block_group_num f.only_image in
    ap r.0 (omega (arith, p.4, ap (λ (k : ℕ). k * p.0) width))
    ∙ r.2 p.0 p.1 (omega (arith, p.2, groups)) (omega (arith, p.3, width))
    ∙ ap (λ (a : ℕ). s'.image.byte (a + p.1)) (OnlyBytes-bitmap_address p.0 f)
    ∙ same p.0 p.1 p.2 p.3
    ∙ sym (ap old.0 p.4 ∙ old.2 p.0 p.1 p.2 p.3)

-- Bitmaps that were written are read back.
pub written-read :
    (s s' : Fsck) (from : Bytes) (h : HasBitmaps s)
    → BitmapsWritten s (get_group_block_bitmap_block_num s) 0 (get_block_group_num s) from s'
    → (m : Bytes) × (get_block_bitmap_in_partition s' ≡ ok m s')
      × ((y : ℕ) → y < bitmap_bytes s * get_block_group_num s → m y ≡ from y)
unfolding bitmap_bytes get_block_group_num get_group_block_bitmap_block_num
written-read s s' from h w =
    let f = w.only_bytes in
    let r = get_block_bitmap_in_partition-ok s' (OnlyBytes-HasBitmaps f h) in
    (
      r.0,
      r.1,
      λ y lt.
          let p = position (bitmap_bytes s) (get_block_group_num s) y lt in
          let width : bitmap_bytes s' ≡ bitmap_bytes s = ap bitmap_bytes f.only_image in
          let groups : get_block_group_num s' ≡ get_block_group_num s =
            ap get_block_group_num f.only_image in
          ap r.0 (omega (arith, p.4, ap (λ (k : ℕ). k * p.0) width))
          ∙ r.2 p.0 p.1 (omega (arith, p.2, groups)) (omega (arith, p.3, width))
          ∙ ap (λ (a : ℕ). s'.image.byte (a + p.1)) (OnlyBytes-bitmap_address p.0 f)
          ∙ w.bitmaps p.0 p.1 (omega arith) p.2 p.3
          ∙ ap from (sym p.4),
    )

-- If the bitmaps of the groups lie on the disk, apart from one another, and together fit 32 bits,
-- then `write_block_bitmap_in_partition` succeeds, `get_block_bitmap_in_partition` succeeds after
-- it and changes nothing, and gives the bytes that were written.
pub get_block_bitmap-write_block_bitmap :
    (s : Fsck) (from : Bytes)
    → HasBitmaps s
    → (s' : Fsck) × (m : Bytes) × (write_block_bitmap_in_partition from s ≡ ok tt s')
      × (get_block_bitmap_in_partition s' ≡ ok m s')
      × ((y : ℕ) → y < bitmap_bytes s * get_block_group_num s → m y ≡ from y)
get_block_bitmap-write_block_bitmap s from h =
    let w = write_block_bitmap_in_partition-ok s from h in
    let r = written-read s w.0 from h w.2 in (w.0, r.0, w.1, r.1, r.2)
