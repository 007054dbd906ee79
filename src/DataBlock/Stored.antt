-- ===== src/DataBlock/Stored.antt =====
-- What writing the block bitmaps of the groups leaves on the disk.
use mathlib.Core.Path.{subst}
use my_fsck.Base.{
  ℕ, zero, suc, ◌+◌, ◌*◌, ◌≤◌, ◌<◌, ◌≡◌, refl, sym, ap, ◌∙◌, arith, List, ◌⊎◌, inl, inr, Bool-cases,
  ◌==◌, ==→eq, ==→ne,
}
use my_fsck.Machine.Memory.{Bytes, shift}
use my_fsck.Machine.State.{Fsck, Image, Message}
use my_fsck.Machine.Run.{ok}
use my_fsck.SuperBlock.{read_group_desc}
use my_fsck.Disk.Blocks.{block_address}
use my_fsck.Disk.Written.{
  OnlyBytes, OnlyBytes-refl, OnlyBytes-trans, OnlyBytes-RunOnDisk, BytesWritten, write_blocks-ok,
}
use my_fsck.DataBlock.{write_block_bitmap_in_group, write_bitmap_loop}
use my_fsck.DataBlock.OnDisk.{BitmapsOnDisk, bitmap_block, bitmap_address, bitmap_offset}

pub with_image-BitmapsOnDisk :
    (s : Fsck) (img : Image) (out : List Message) (blocks n : ℕ)
    → img.size ≡ s.image.size
    → BitmapsOnDisk s blocks n
    → BitmapsOnDisk (record s { image = img; output = out }) blocks n
unfolding block_address read_group_desc
with_image-BitmapsOnDisk s img out blocks n e h = record {
  run = λ g lt.
      OnlyBytes-RunOnDisk {s = s} (bitmap_block s g) blocks
        (record { only_image = refl; same_size = e }) (h.run g lt);
  fit = h.fit;
  sized = h.sized;
  apart = h.apart;
}

OnlyBytes-BitmapsOnDisk :
    {s s' : Fsck} (blocks n : ℕ)
    → OnlyBytes s s'
    → BitmapsOnDisk s blocks n
    → BitmapsOnDisk s' blocks n
OnlyBytes-BitmapsOnDisk {s} {s'} blocks n f h =
    subst (λ (t : Fsck). BitmapsOnDisk t blocks n) (sym f.only_image)
      (with_image-BitmapsOnDisk s s'.image s'.output blocks n f.same_size h)

pub OnlyBytes-bitmap_address :
    {s s' : Fsck} (g : ℕ) → OnlyBytes s s' → bitmap_address s' g ≡ bitmap_address s g
unfolding block_address read_group_desc
OnlyBytes-bitmap_address g f = ap (λ (t : Fsck). bitmap_address t g) f.only_image

-- The bitmaps of the groups from `i` up to `n` are those of `from`, and no other byte changed.
pub record BitmapsWritten (s : Fsck) (blocks i n : ℕ) (from : Bytes) (s' : Fsck) : Type 0 where
  pub only_bytes : OnlyBytes s s'
  pub bitmaps :
      (g j : ℕ)
      → i ≤ g
      → g < n
      → j < s.block_size * blocks
      → s'.image.byte (bitmap_address s g + j) ≡ from (s.block_size * blocks * g + j)
  pub others :
      (x : ℕ)
      → x < s.image.size
      → ((g : ℕ)
          → i ≤ g
          → g < n
          → (x < bitmap_address s g) ⊎ (bitmap_address s g + s.block_size * blocks ≤ x))
      → s'.image.byte x ≡ s.image.byte x

module _ (blocks n : ℕ) (from : Bytes) where
  write_bitmap_loop-next :
      (left i : ℕ) (s : Fsck)
      → BitmapsOnDisk s blocks n
      → i < n
      → (t : Fsck) × (write_bitmap_loop (suc left) blocks i from s
          ≡ write_bitmap_loop left blocks (i + 1) from t)
        × BytesWritten s
            (bitmap_address s i)
            (bitmap_address s i + s.block_size * blocks)
            0
            (shift from (s.block_size * blocks * i))
            t
  unfolding write_bitmap_loop write_block_bitmap_in_group
  write_bitmap_loop-next left i s h lt =
      let r =
        write_blocks-ok (bitmap_block s i) blocks (shift from (s.block_size * blocks * i)) s
          (h.run i lt) in
      (r.0, rw (bitmap_offset s blocks n h i lt, r.1) refl, r.2)

  pub write_bitmap_loop-run :
      (left i : ℕ) (s : Fsck)
      → BitmapsOnDisk s blocks n
      → i + left ≡ n
      → (s' : Fsck) × (write_bitmap_loop left blocks i from s ≡ ok tt s')
        × BitmapsWritten s blocks i n from s'
  write_bitmap_loop-run zero i s h e = (
    s,
    unfold write_bitmap_loop in refl,
    record {
      only_bytes = OnlyBytes-refl s;
      bitmaps = λ g j p q r. absurd (omega arith);
      others = λ x lt out. refl;
    },
  )
  write_bitmap_loop-run (suc left) i s h e =
      let w = s.block_size * blocks in
      let one = write_bitmap_loop-next left i s h (omega arith) in
      let t = one.0 in
      let step = one.2 in
      let rest =
        write_bitmap_loop-run left (i + 1) t (OnlyBytes-BitmapsOnDisk blocks n step.only_bytes h)
          (omega arith) in
      let width : t.block_size * blocks ≡ w =
        ap (λ (x : Fsck). x.block_size * blocks) step.only_bytes.only_image in
      let place : (g : ℕ) → bitmap_address t g ≡ bitmap_address s g =
        λ g. OnlyBytes-bitmap_address g step.only_bytes in
      (
        rest.0,
        one.1 ∙ rest.1,
        record {
          only_bytes = OnlyBytes-trans step.only_bytes rest.2.only_bytes;
          bitmaps = λ g j p q r. elim (Bool-cases (g == i)) [
            | inl same ↦
                let x = bitmap_address s i + j in
                let inside : x < s.image.size = omega (arith, (h.run i (omega arith)).on_disk) in
                let kept : rest.0.image.byte x ≡ t.image.byte x =
                  rest.2.others x (omega (arith, inside, step.only_bytes.same_size))
                    (λ k a b. omega (arith, h.apart i k (omega arith) b, width, place k)) in
                let here : rest.0.image.byte x ≡ from (w * i + j) =
                  kept ∙ step.inside x (omega arith) (omega arith) ∙ ap from (omega arith) in
                subst (λ (k : ℕ). rest.0.image.byte (bitmap_address s k + j) ≡ from (w * k + j))
                  (sym (==→eq g i same)) here
            | inr other ↦
                ap (λ (a : ℕ). rest.0.image.byte (a + j)) (sym (place g))
                ∙ rest.2.bitmaps g j (omega (arith, ==→ne g i other)) q (omega (arith, width))
                ∙ ap (λ (k : ℕ). from (k * g + j)) width
          ];
          others = λ x lt out.
              rest.2.others x (omega (arith, lt, step.only_bytes.same_size))
                (λ g p q. omega (arith, out g, width, place g))
              ∙ step.others x lt (out i (omega arith) (omega arith));
        },
      )
