-- ===== src/Correct/Pass3/Change.antt =====
-- What pass 3 changes: the link counts of a range of inodes.
use mathlib.Core.Path.{subst}
use my_fsck.Base.{
  ℕ, ◌+◌, ◌%◌, ◌^◌, ◌≤◌, ◌<◌, ◌≡◌, ◌≢◌, refl, arith, ap, ◌∙◌, sym, ◌⊎◌, inl, inr, Bool-cases, ltb,
  ltb→lt, ltb→le, List,
}
use my_fsck.Machine.Memory.{Bytes, IsBytes}
use my_fsck.Machine.State.{Fsck, Image, Inode, Message}
use my_fsck.Disk.Blocks.{block_address}
use my_fsck.SuperBlock.{read_group_desc}
use my_fsck.Inode.{get_inode_group_offset, get_inode_offset_in_group}
use my_fsck.Inode.Location.{table_offset, table_start}
use my_fsck.Inode.Read.{InodeOnDisk, inode_at}
use my_fsck.Inode.Write.{inode_address}
use my_fsck.Inode.Update.{Apart, with_image, with_image-InodeOnDisk}
use my_fsck.Correct.Pass3.{char_to_u32}

-- The inodes 1 to `n` lie on the disk, apart from one another.
pub record InodesOnDisk (s : Fsck) (n : ℕ) : Type 0 where
  pub on_disk : (j : ℕ) → 1 ≤ j → j ≤ n → InodeOnDisk s j
  pub apart : (i j : ℕ) → 1 ≤ i → i ≤ n → 1 ≤ j → j ≤ n → i ≢ j → Apart s i j

with_image-Apart :
    (s : Fsck) (img : Image) (out : List Message) (i j : ℕ)
    → Apart s i j
    → Apart (with_image s img out) i j
unfolding inode_address table_start table_offset block_address get_inode_group_offset
    get_inode_offset_in_group read_group_desc
with_image-Apart s img out i j h = h

pub with_image-InodesOnDisk :
    (s : Fsck) (img : Image) (out : List Message) (n : ℕ)
    → img.size ≡ s.image.size
    → InodesOnDisk s n
    → InodesOnDisk (with_image s img out) n
with_image-InodesOnDisk s img out n e h = record {
  on_disk = λ j lo hi. with_image-InodeOnDisk s img out j e (h.on_disk j lo hi);
  apart = λ i j lo hi lo' hi' ne. with_image-Apart s img out i j (h.apart i j lo hi lo' hi' ne);
}

-- The inode with the link count that pass 3 gives it: the entry of the table as a `char` extended
-- to 32 bits, of which 16 are stored.
abbrev pub with_count : Inode → ℕ → Inode
with_count inode c = record inode { i_links_count = char_to_u32 c % 2 ^ 16 }

-- No link count has the byte `x`.
abbrev pub BesideCounts : Fsck → ℕ → ℕ → Type 0
BesideCounts s n x =
    (j : ℕ) → 1 ≤ j → j ≤ n → (x < inode_address s j + 26) ⊎ (inode_address s j + 28 ≤ x)

-- A change of the image leaves the inodes where they are.
with_image-address :
    (s : Fsck) (img : Image) (out : List Message) (j : ℕ)
    → inode_address (with_image s img out) j ≡ inode_address s j
unfolding inode_address table_start table_offset block_address get_inode_group_offset
    get_inode_offset_in_group read_group_desc
with_image-address s img out j = refl

pub same_address :
    (s s' : Fsck)
    → s' ≡ with_image s s'.image s'.output
    → (j : ℕ) → inode_address s' j ≡ inode_address s j
same_address s s' e j =
    ap (λ (t : Fsck). inode_address t j) e ∙ with_image-address s s'.image s'.output j

-- The link counts of the inodes from `lo` up to `hi`, of `n`, are those of the table. Nothing else
-- has changed in any inode, nor in the state but for the image and the output.
pub record LinksFixed (n : ℕ) (table : Bytes) (lo hi : ℕ) (s s' : Fsck) : Type 0 where
  pub only_image : s' ≡ with_image s s'.image s'.output
  pub same_size : s'.image.size ≡ s.image.size
  pub fixed :
      (j : ℕ)
      → 1 ≤ j
      → j ≤ n
      → lo ≤ j
      → j < hi
      → inode_at s' j ≡ with_count (inode_at s j) (table j)
  pub others : (j : ℕ) → 1 ≤ j → j ≤ n → (j < lo) ⊎ (hi ≤ j) → inode_at s' j ≡ inode_at s j
  pub bytes : IsBytes s.image.byte → IsBytes s'.image.byte
  pub other_bytes :
      (x : ℕ) → x < s.image.size → BesideCounts s n x → s'.image.byte x ≡ s.image.byte x

pub LinksFixed-InodesOnDisk :
    {n lo hi : ℕ} {table : Bytes} {s s' : Fsck}
    → LinksFixed n table lo hi s s'
    → InodesOnDisk s n
    → InodesOnDisk s' n
LinksFixed-InodesOnDisk {n} {s} {s'} f h =
    subst (λ (t : Fsck). InodesOnDisk t n) (sym f.only_image)
      (with_image-InodesOnDisk s s'.image s'.output n f.same_size h)

pub LinksFixed-refl : (n : ℕ) (table : Bytes) (i : ℕ) (s : Fsck) → LinksFixed n table i i s s
LinksFixed-refl n table i s = record {
  only_image = refl;
  same_size = refl;
  fixed = λ j p q lo hi. absurd (omega arith);
  others = λ j p q out. refl;
  bytes = λ h. h;
  other_bytes = λ x lt out. refl;
}

pub LinksFixed-trans :
    {n lo mid hi : ℕ} {table : Bytes} {s t u : Fsck}
    → lo ≤ mid
    → mid ≤ hi
    → LinksFixed n table lo mid s t
    → LinksFixed n table mid hi t u
    → LinksFixed n table lo hi s u
LinksFixed-trans {n} {lo} {mid} {hi} {table} {s} {t} {u} p q f g = record {
  only_image = g.only_image ∙ ap (λ (x : Fsck). with_image x u.image u.output) f.only_image;
  same_size = g.same_size ∙ f.same_size;
  fixed = λ j one le at_lo at_hi. elim (Bool-cases (ltb j mid)) [
    | inl l ↦ g.others j one le (inl (ltb→lt j mid l)) ∙ f.fixed j one le at_lo (ltb→lt j mid l)
    | inr r ↦
        g.fixed j one le (ltb→le j mid r) at_hi
        ∙ ap (λ (i : Inode). with_count i (table j)) (f.others j one le (inr (ltb→le j mid r)))
  ];
  others = λ j one le out. g.others j one le (omega arith) ∙ f.others j one le (omega arith);
  bytes = λ h. g.bytes (f.bytes h);
  other_bytes = λ x lt out.
      g.other_bytes x (omega (arith, f.same_size))
        (λ j one le. omega (arith, out j one le, same_address s t f.only_image j))
      ∙ f.other_bytes x lt out;
}
