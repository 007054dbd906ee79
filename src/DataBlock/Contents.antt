-- ===== src/DataBlock/Contents.antt =====
-- The block bitmap as read holds bytes.
use my_fsck.Base.{
  ℕ, zero, suc, ◌+◌, ◌-◌, ◌*◌, ◌/◌, ◌≡◌, arith, u32, leb, ◌==◌, ◌||◌, Bool-cases, inl, inr,
}
use mathlib.Core.Path.{subst}
use my_fsck.Machine.Memory.{Bytes, IsBytes, shift, splice}
use my_fsck.Machine.State.{Fsck}
use my_fsck.Machine.Run.{Run, M, Stop, ok, stop, and_then}
use my_fsck.Disk.{read_bytes, read_sectors, read_block, read_blocks, block_sector}
use my_fsck.DataBlock.{
  get_block_bitmap_in_group, get_block_group_num, get_group_block_bitmap_block_num,
  block_bitmap_loop, get_block_bitmap_in_partition,
}
use my_fsck.DataBlock.OnDisk.{HasBitmaps, check_block_divisors-ok}

-- A run that changes nothing and, if it returns, returns memory that holds bytes.
data GivesBytes (s : Fsck) : Run Bytes → Type 0 where
  gave : {m : Bytes} → IsBytes m → GivesBytes s (ok m s)
  ended : {e : Stop} → GivesBytes s (stop e s)

GivesBytes-bind :
    {s : Fsck} {r : Run Bytes} (k : Bytes → M Bytes)
    → GivesBytes s r
    → ((m : Bytes) → IsBytes m → GivesBytes s (k m s))
    → GivesBytes s (and_then r k)
GivesBytes-bind k (gave h) next = next _ h
GivesBytes-bind k ended next = ended

returned : {s : Fsck} {r : Run Bytes} → GivesBytes s r → (m : Bytes) → r ≡ ok m s → IsBytes m
returned {s} {r} g m e = of_ok (subst (GivesBytes s) e g)
  where
    of_ok : {t : Fsck} → GivesBytes s (ok m t) → IsBytes m
    of_ok (gave h) = h

module _ (s : Fsck) (image_bytes : IsBytes s.image.byte) where
  read_block-GivesBytes :
      (b n : ℕ) (into : Bytes) → IsBytes into → GivesBytes s (read_block b n into s)
  unfolding read_block read_sectors read_bytes
  read_block-GivesBytes b n into h =
      let off = block_sector s.partition_entry b n * 512 in
      let count = u32 (512 * (n / 512)) in
      elim (Bool-cases (leb (off + count) s.image.size || count == 0)) [
        | inl e ↦ rw e (gave (λ i. ground (arith, image_bytes (off + i), h i)))
        | inr e ↦ rw e ended
      ]

  splice-IsBytes : (m sub : Bytes) (off : ℕ) → IsBytes m → IsBytes sub → IsBytes (splice m off sub)
  unfolding splice
  splice-IsBytes m sub off h k i = ground (arith, h i, k (i - off))

  read_blocks-GivesBytes :
      (left start i n : ℕ) (into : Bytes)
      → IsBytes into
      → GivesBytes s (read_blocks left start i n into s)
  unfolding read_blocks
  read_blocks-GivesBytes zero start i n into h = gave h
  read_blocks-GivesBytes (suc left) start i n into h =
      GivesBytes-bind _
        (read_block-GivesBytes (u32 (start + i)) n (shift into (u32 (n * i)))
          (λ j. h (u32 (n * i) + j)))
        (λ sub k.
          read_blocks-GivesBytes left start (i + 1) n _ (splice-IsBytes into sub (u32 (n * i)) h k))

  block_bitmap_loop-GivesBytes :
      (left blocks i : ℕ) (into : Bytes)
      → IsBytes into
      → GivesBytes s (block_bitmap_loop left blocks i into s)
  unfolding block_bitmap_loop get_block_bitmap_in_group
  block_bitmap_loop-GivesBytes zero blocks i into h = gave h
  block_bitmap_loop-GivesBytes (suc left) blocks i into h =
      let off = u32 (u32 (i * blocks) * s.block_size) in
      GivesBytes-bind _
        (read_blocks-GivesBytes blocks _ 0 s.block_size (shift into off) (λ j. h (off + j)))
        (λ sub k.
          block_bitmap_loop-GivesBytes left blocks (i + 1) _ (splice-IsBytes into sub off h k))

  pub get_block_bitmap_in_partition-IsBytes :
      HasBitmaps s
      → IsBytes s.stray
      → (m : Bytes) → get_block_bitmap_in_partition s ≡ ok m s
      → IsBytes m
  unfolding get_block_bitmap_in_partition
  get_block_bitmap_in_partition-IsBytes h stray = returned (
      rw (check_block_divisors-ok s h) (
        block_bitmap_loop-GivesBytes (get_block_group_num s) (get_group_block_bitmap_block_num s) 0
          s.stray stray))
