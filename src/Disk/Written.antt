-- ===== src/Disk/Written.antt =====
-- Blocks that are written one behind the other: the bytes of the image afterwards.
use native.Mathlib.Nat.{mul-le-mul_left, mul_comm}
use mathlib.Core.Path.{subst}
use my_fsck.Base.{
  ℕ, zero, suc, ◌+◌, ◌-◌, ◌*◌, ◌≤◌, ◌<◌, ◌≡◌, refl, sym, ap, ◌∙◌, arith, u32, ltb, ◌⊎◌, inl, inr,
  Bool-cases, ltb→lt, ltb→le, List,
}
use my_fsck.Machine.Memory.{Bytes, shift}
use my_fsck.Machine.State.{Fsck, Image, Message}
use my_fsck.Machine.Run.{ok}
use my_fsck.Disk.{write_bytes, write_blocks}
use my_fsck.Disk.Blocks.{block_address, written, write_block-ok}
use my_fsck.Disk.Runs.{RunOnDisk, address-add, small_number}

-- Only the image, whose size is as before, and the output differ.
pub record OnlyBytes (s s' : Fsck) : Type 0 where
  pub only_image : s' ≡ record s { image = s'.image; output = s'.output }
  pub same_size : s'.image.size ≡ s.image.size

pub OnlyBytes-refl : (s : Fsck) → OnlyBytes s s
OnlyBytes-refl s = record { only_image = refl; same_size = refl }

pub OnlyBytes-trans : {s t u : Fsck} → OnlyBytes s t → OnlyBytes t u → OnlyBytes s u
OnlyBytes-trans {u} f g = record {
  only_image =
      g.only_image
      ∙ ap (λ (x : Fsck). record x { image = u.image; output = u.output }) f.only_image;
  same_size = g.same_size ∙ f.same_size;
}

-- From byte `lo` to byte `hi` of the image stand the bytes of `from` from `off` on; the rest of the
-- image is as before.
pub record BytesWritten (s : Fsck) (lo hi off : ℕ) (from : Bytes) (s' : Fsck) : Type 0 where
  pub only_bytes : OnlyBytes s s'
  pub inside : (x : ℕ) → lo ≤ x → x < hi → s'.image.byte x ≡ from (off + (x - lo))
  pub others : (x : ℕ) → x < s.image.size → (x < lo) ⊎ (hi ≤ x) → s'.image.byte x ≡ s.image.byte x

module _ {from : Bytes} where
  pub BytesWritten-trans :
      {s t u : Fsck} {lo mid hi off off' : ℕ}
      → lo ≤ mid
      → mid ≤ hi
      → hi ≤ s.image.size
      → off' ≡ off + (mid - lo)
      → BytesWritten s lo mid off from t
      → BytesWritten t mid hi off' from u
      → BytesWritten s lo hi off from u
  BytesWritten-trans {s} {t} {u} {lo} {mid} {hi} {off} {off'} p q bound e f g =
      let size = f.only_bytes.same_size in
      record {
        only_bytes = OnlyBytes-trans f.only_bytes g.only_bytes;
        inside = λ x a b. elim (Bool-cases (ltb x mid)) [
          | inl l ↦
              let lt = ltb→lt x mid l in g.others x (omega (arith, size)) (inl lt) ∙ f.inside x a lt
          | inr r ↦ let le = ltb→le x mid r in g.inside x le b ∙ ap from (omega arith)
        ];
        others = λ x lt out.
            g.others x (omega (arith, size)) (omega arith) ∙ f.others x lt (omega arith);
      }

-- One block.
written-BytesWritten :
    (s : Fsck) (b lo off : ℕ) (from : Bytes)
    → block_address s b ≡ lo
    → lo + s.block_size ≤ s.image.size
    → 0 < s.block_size
    → BytesWritten s lo (lo + s.block_size) off from (written s b (shift from off))
unfolding written write_bytes
written-BytesWritten s b lo off from e fits pos = record {
  only_bytes = record { only_image = refl; same_size = ground arith };
  inside = λ x p q. ground (arith, ap (λ (a : ℕ). from (off + (x - a))) e);
  others = λ x lt out. ground arith;
}

with_image-RunOnDisk :
    (s : Fsck) (img : Image) (out : List Message) (start n : ℕ)
    → img.size ≡ s.image.size
    → RunOnDisk s start n
    → RunOnDisk (record s { image = img; output = out }) start n
unfolding block_address
with_image-RunOnDisk s img out start n e h = record {
  sectors = h.sectors;
  numbered = h.numbered;
  offsets = h.offsets;
  on_disk = omega (arith, h.on_disk);
}

pub OnlyBytes-RunOnDisk :
    {s s' : Fsck} (start n : ℕ) → OnlyBytes s s' → RunOnDisk s start n → RunOnDisk s' start n
OnlyBytes-RunOnDisk {s} {s'} start n f h =
    subst (λ (t : Fsck). RunOnDisk t start n) (sym f.only_image)
      (with_image-RunOnDisk s s'.image s'.output start n f.same_size h)

pub OnlyBytes-address :
    {s s' : Fsck} (b : ℕ) → OnlyBytes s s' → block_address s' b ≡ block_address s b
unfolding block_address
OnlyBytes-address b f = ap (λ (t : Fsck). block_address t b) f.only_image

-- One round of the loop.
write_blocks-next :
    (left i start n : ℕ) (from : Bytes) (s : Fsck)
    → RunOnDisk s start n
    → i < n
    → write_blocks (suc left) start i s.block_size from s
      ≡ write_blocks left start
          (i + 1)
          s.block_size
          from
          (written s (start + i) (shift from (s.block_size * i)))
unfolding write_blocks
write_blocks-next left i start n from s h lt =
    let end = mul-le-mul_left {m = i} {n = n} s.block_size (omega arith) in
    let number : u32 (start + i) ≡ start + i = small_number s start n i h (omega arith) in
    let place : u32 (i * s.block_size) ≡ s.block_size * i =
      omega (arith, h.offsets, mul_comm i s.block_size) in
    rw (number, place, write_block-ok s (start + i) (shift from (s.block_size * i)) h.sectors) refl

write_blocks-run :
    (left i start n : ℕ) (from : Bytes) (s : Fsck)
    → RunOnDisk s start n
    → i + left ≡ n
    → (s' : Fsck) × (write_blocks left start i s.block_size from s ≡ ok tt s')
      × BytesWritten s
          (block_address s start + s.block_size * i)
          (block_address s start + s.block_size * n)
          (s.block_size * i)
          from
          s'
unfolding write_blocks written
write_blocks-run zero i start n from s h e = (
  s,
  refl,
  record {
    only_bytes = OnlyBytes-refl s;
    inside = λ x p q. absurd (omega (arith, ap (λ (k : ℕ). s.block_size * k) e));
    others = λ x lt out. refl;
  },
)
write_blocks-run (suc left) i start n from s h e =
    let bs = s.block_size in
    let a = block_address s start in
    let end = mul-le-mul_left {m = i + 1} {n = n} bs (omega arith) in
    let next : bs * (i + 1) ≡ bs * i + bs = omega arith in
    let one : BytesWritten s (a + bs * i) (a + bs * i + bs) (bs * i) from
        (written s (start + i) (shift from (bs * i))) =
      written-BytesWritten s (start + i) (a + bs * i) (bs * i) from
        (address-add s start n i h (omega arith)) (omega (arith, h.on_disk)) (h.sectors.0) in
    let t = written s (start + i) (shift from (bs * i)) in
    let rest =
      write_blocks-run left (i + 1) start n from t (OnlyBytes-RunOnDisk start n one.only_bytes h)
        (omega arith) in
    let place_end : block_address t start ≡ a = OnlyBytes-address start one.only_bytes in
    (
      rest.0,
      write_blocks-next left i start n from s h (omega arith) ∙ rest.1,
      BytesWritten-trans {mid = a + bs * (i + 1)} (omega (arith, next)) (omega (arith, end))
          (omega (arith, h.on_disk)) (omega (arith, next))
          (subst (λ (k : ℕ). BytesWritten s (a + bs * i) k (bs * i) from t) (omega (arith, next))
            one)
          (subst
            (λ (k : ℕ). BytesWritten t (k + bs * (i + 1)) (k + bs * n) (bs * (i + 1)) from rest.0)
            place_end rest.2),
    )

-- If `n` blocks from `start` on lie on the disk, and their numbers and their size fit 32 bits,
-- writing them one behind the other succeeds and puts the bytes there in one piece.
pub write_blocks-ok :
    (start n : ℕ) (from : Bytes) (s : Fsck)
    → RunOnDisk s start n
    → (s' : Fsck) × (write_blocks n start 0 s.block_size from s ≡ ok tt s')
      × BytesWritten s (block_address s start) (block_address s start + s.block_size * n) 0 from s'
write_blocks-ok start n from s h =
    let r = write_blocks-run n 0 start n from s h (omega arith) in
    (
      r.0,
      r.1,
      record {
        only_bytes = r.2.only_bytes;
        inside = λ x p q. r.2.inside x (omega arith) q ∙ ap from (omega arith);
        others = λ x lt out. r.2.others x lt (omega arith);
      },
    )
