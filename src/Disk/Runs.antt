-- ===== src/Disk/Runs.antt =====
-- Blocks that are read one behind the other give the bytes of the image in one piece.
use native.Mathlib.Nat.{mul-le-mul_right, mul-le-mul_left}
use my_fsck.Base.{
  ℕ, zero, suc, ◌+◌, ◌-◌, ◌*◌, ◌/◌, ◌^◌, ◌≤◌, ◌<◌, ◌≡◌, refl, arith, u32, ap, ◌∙◌, ltb, lt→ltb,
  Bool-cases, inl, inr, ltb→lt, ltb→le,
}
use my_fsck.Machine.Memory.{Bytes, shift, splice, splice_below, splice_above}
use my_fsck.Machine.State.{Fsck, Image}
use my_fsck.Machine.Run.{ok}
use my_fsck.Disk.{read_bytes, block_sector, read_blocks}
use my_fsck.Disk.Blocks.{HasSectors, IsNumbered, IsOnDisk, block_address, read_block-ok}

-- The `n` blocks from `start` on have numbers and byte offsets of 32 bits and lie on the disk.
pub record RunOnDisk (s : Fsck) (start n : ℕ) : Type 0 where
  pub sectors : HasSectors s
  pub numbered : IsNumbered s (start + n)
  pub offsets : s.block_size * n < 2 ^ 32
  pub on_disk : block_address s start + s.block_size * n ≤ s.image.size

-- The blocks stand one behind the other.
pub address-add :
    (s : Fsck) (start n k : ℕ)
    → RunOnDisk s start n
    → k ≤ n
    → block_address s (start + k) ≡ block_address s start + s.block_size * k
unfolding block_address block_sector
address-add s start n k h le =
    let spb = s.block_size / 512 in
    let size : s.block_size ≡ 512 * spb = omega (arith, h.sectors) in
    omega (arith, h.numbered, mul-le-mul_right {m = k} {n = n} spb le, ap (λ (t : ℕ). t * k) size)

bytes_le : (s : Fsck) (i n : ℕ) → i ≤ n → s.block_size * i ≤ s.block_size * n
bytes_le s i n le = mul-le-mul_left {m = i} {n = n} s.block_size le

pub small_number :
    (s : Fsck) (start n i : ℕ) → RunOnDisk s start n → i ≤ n → u32 (start + i) ≡ start + i
small_number s start n i h le =
    let spb = s.block_size / 512 in
    let pos : 1 ≤ spb = omega (arith, h.sectors) in
    omega (arith, h.numbered, mul-le-mul_left {m = 1} {n = spb} (start + n) pos)

pub read_bytes_inside :
    (img : Image) (a n : ℕ) (into : Bytes) (i : ℕ)
    → i < n
    → read_bytes img a n into i ≡ img.byte (a + i)
unfolding read_bytes
read_bytes_inside img a n into i h = rw (lt→ltb i n h)

read_blocks-run :
    (s : Fsck) (start n : ℕ)
    → RunOnDisk s start n
    → (left i : ℕ) (into : Bytes) → i + left ≡ n
    → (m : Bytes) × (read_blocks left start i s.block_size into s ≡ ok m s)
      × ((j : ℕ) → j < s.block_size * i → m j ≡ into j)
      × ((j : ℕ)
          → s.block_size * i ≤ j
          → j < s.block_size * n
          → m j ≡ s.image.byte (block_address s start + j))
unfolding read_blocks
read_blocks-run s start n h zero i into e =
    (into, refl, λ j p. refl, λ j p q. absurd (omega (arith, bytes_le s n i (omega arith))))
read_blocks-run s start n h (suc left) i into e =
    let off = u32 (s.block_size * i) in
    let sub = read_bytes s.image (block_address s (start + i)) s.block_size (shift into off) in
    let rest = read_blocks-run s start n h left (i + 1) (splice into off sub) (omega arith) in
    let number : u32 (start + i) ≡ start + i = small_number s start n i h (omega arith) in
    let place : off ≡ s.block_size * i = omega (arith, bytes_le s i n (omega arith), h.offsets) in
    let next : s.block_size * (i + 1) ≡ s.block_size * i + s.block_size = omega arith in
    let address = address-add s start n i h (omega arith) in
    let fits : IsOnDisk s (start + i) =
      omega (arith, address, h.on_disk, bytes_le s (i + 1) n (omega arith), next) in
    (
      rest.0,
      rw (number, read_block-ok s (start + i) (shift into off) h.sectors fits) rest.1,
      λ j p. rest.2 j (omega arith) ∙ splice_below into off sub j (omega arith),
      λ j p q. elim (Bool-cases (ltb j (s.block_size * (i + 1)))) [
        | inl l ↦
            let lt = ltb→lt j (s.block_size * (i + 1)) l in
            rest.2 j lt
            ∙ splice_above into off sub j (omega arith)
            ∙ read_bytes_inside s.image (block_address s (start + i)) s.block_size (shift into off)
                (j - off) (omega arith)
            ∙ ap s.image.byte (omega (arith, address, place))
        | inr r ↦ rest.3 j (ltb→le j (s.block_size * (i + 1)) r) q
      ],
    )

-- If `n` blocks from `start` on lie on the disk, and their numbers and their size fit 32 bits,
-- reading them one behind the other succeeds, changes nothing, and gives their bytes in one piece.
pub read_blocks-ok :
    (s : Fsck) (start n : ℕ) (into : Bytes)
    → RunOnDisk s start n
    → (m : Bytes) × (read_blocks n start 0 s.block_size into s ≡ ok m s)
      × ((j : ℕ) → j < s.block_size * n → m j ≡ s.image.byte (block_address s start + j))
read_blocks-ok s start n into h =
    let r = read_blocks-run s start n h n 0 into (omega arith) in
    (r.0, r.1, λ j q. r.3 j (omega arith) q)
