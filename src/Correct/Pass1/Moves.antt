-- ===== src/Correct/Pass1/Moves.antt =====
-- The changes that pass 1 makes, block by block.
use my_fsck.Base.{inl, ℕ, ◌+◌, ◌≤◌, ◌<◌, ◌≡◌, ◌⊎◌, arith, ◌∙◌, List, [], ◌∷◌, ◌++◌}
use my_fsck.Machine.State.{Fsck, Image, Message}
use my_fsck.Disk.Blocks.{IsNumbered, IsOnDisk, block_address}
use my_fsck.Inode.Read.{InodeOnDisk, inode_at}
use my_fsck.Inode.Write.{inode_address}
use my_fsck.Inode.Update.{with_image, same_inode, inode_end}
use my_fsck.Correct.FileBlocks.Kept.{Each, append-Each}
use my_fsck.Correct.Partitions.Repairable.{BlockBeside}
use my_fsck.Correct.Pass1.Kept.{IsSameBlock}

-- The blocks do not overlap.
abbrev pub BlocksApart : Fsck → ℕ → ℕ → Type 0
BlocksApart s b c =
    (block_address s b + s.block_size ≤ block_address s c)
    ⊎ (block_address s c + s.block_size ≤ block_address s b)

-- No two blocks of the list do.
abbrev pub AllApart : Fsck → List ℕ → Type 0
AllApart s [] = Unit
AllApart s (b ∷ blocks) = Each (BlocksApart s b) blocks × AllApart s blocks

pub append-AllApart :
    (s : Fsck) (xs ys : List ℕ)
    → AllApart s (xs ++ ys)
    → AllApart s xs × AllApart s ys × Each (λ x. Each (BlocksApart s x) ys) xs
append-AllApart s [] ys h = (tt, h, tt)
append-AllApart s (x ∷ xs) ys h =
    let first = append-Each (BlocksApart s x) xs ys h.0 in
    let rest = append-AllApart s xs ys h.1 in ((first.0, rest.0), rest.1, (first.1, rest.2))

-- Byte `x` is outside the block, or outside the inode numbers of its first two entries.
abbrev pub IsOutside : Fsck → (ℕ → ℕ) → ℕ → ℕ → Type 0
IsOutside s first x b =
    let a = block_address s b in
    ((x < a) ⊎ (a + s.block_size ≤ x))
    ⊎ (((x < a) ⊎ (a + 4 ≤ x)) × ((x < a + first b) ⊎ (a + first b + 4 ≤ x)))

-- The images differ in the inode numbers of the first two entries of the listed blocks only. The
-- second entry of a block stands where `first` tells.
abbrev pub OnlyDots : Fsck → (ℕ → ℕ) → List ℕ → Image → Image → Type 0
OnlyDots s first l img img' =
    (x : ℕ) → x < s.image.size → Each (IsOutside s first x) l → img'.byte x ≡ img.byte x

-- A block of the list is on the disk and beside the inodes.
abbrev pub IsPlaced : Fsck → ℕ → Type 0
IsPlaced s b = IsNumbered s b × IsOnDisk s b × BlockBeside s b

-- The image has the size and the inodes of the state's.
pub record IsIntact (s : Fsck) (img : Image) : Type 0 where
  pub size : img.size ≡ s.image.size
  pub inode_bytes :
      (j : ℕ)
      → 1 ≤ j
      → j ≤ s.super_block.s_inodes_count
      → (x : ℕ) → inode_address s j ≤ x
      → x < inode_address s j + 128
      → img.byte x ≡ s.image.byte x

pub IsIntact-inode :
    (s : Fsck) (img : Image) (out : List Message)
    → IsIntact s img
    → (j : ℕ) → 1 ≤ j
    → j ≤ s.super_block.s_inodes_count
    → inode_at (with_image s img out) j ≡ inode_at s j
IsIntact-inode s img out h j lo hi = same_inode s img out j (h.inode_bytes j lo hi)

module _ (s : Fsck) (first : ℕ → ℕ) where
  -- A byte of a block apart from the others is outside them.
  pub Each-IsOutside :
      (b x : ℕ) (l : List ℕ)
      → block_address s b ≤ x
      → x < block_address s b + s.block_size
      → Each (BlocksApart s b) l
      → Each (IsOutside s first x) l
  Each-IsOutside b x [] lo hi h = tt
  Each-IsOutside b x (c ∷ l) lo hi h = (inl (omega (arith, h.0)), Each-IsOutside b x l lo hi h.1)

  -- A block apart from those that changed is the same.
  pub outside-same :
      (b : ℕ) (l : List ℕ) (img img' : Image)
      → IsOnDisk s b
      → Each (BlocksApart s b) l
      → OnlyDots s first l img img'
      → IsSameBlock s img img' b
  outside-same b l img img' on_disk apart only k lt =
      only (block_address s b + k) (omega arith)
        (Each-IsOutside b (block_address s b + k) l (omega arith) (omega arith) apart)

  pub all-same :
      (ys l : List ℕ) (img img' : Image)
      → Each (IsPlaced s) ys
      → Each (λ y. Each (BlocksApart s y) l) ys
      → OnlyDots s first l img img'
      → Each (IsSameBlock s img img') ys
  all-same [] l img img' placed apart only = tt
  all-same (y ∷ ys) l img img' placed apart only = (
    outside-same y l img img' placed.0.1 apart.0 only,
    all-same ys l img img' placed.1 apart.1 only,
  )

  pub apart-flip :
      (b : ℕ) (ys : List ℕ) → Each (BlocksApart s b) ys → Each (λ y. BlocksApart s y b) ys
  apart-flip b [] h = tt
  apart-flip b (y ∷ ys) h = (omega (arith, h.0), apart-flip b ys h.1)

  pub with_one :
      (x : ℕ) (xs ys : List ℕ)
      → Each (λ y. BlocksApart s y x) ys
      → Each (λ y. Each (BlocksApart s y) xs) ys
      → Each (λ y. Each (BlocksApart s y) (x ∷ xs)) ys
  with_one x xs [] p q = tt
  with_one x xs (y ∷ ys) p q = ((p.0, q.0), with_one x xs ys p.1 q.1)

  pub cross-flip :
      (xs ys : List ℕ)
      → Each (λ x. Each (BlocksApart s x) ys) xs
      → Each (λ y. Each (BlocksApart s y) xs) ys
  cross-flip [] ys h = all_tt ys
    where
      all_tt : (ys : List ℕ) → Each (λ y. Unit) ys
      all_tt [] = tt
      all_tt (y ∷ ys) = (tt, all_tt ys)
  cross-flip (x ∷ xs) ys h = with_one x xs ys (apart-flip x ys h.0) (cross-flip xs ys h.1)

  pub OnlyDots-IsIntact :
      (l : List ℕ) (img img' : Image)
      → ((j : ℕ) → 1 ≤ j → j ≤ s.super_block.s_inodes_count → InodeOnDisk s j)
      → Each (IsPlaced s) l
      → img'.size ≡ s.image.size
      → OnlyDots s first l img img'
      → IsIntact s img
      → IsIntact s img'
  OnlyDots-IsIntact l img img' inodes placed size only h = record {
    size = size;
    inode_bytes = λ j lo hi x p q.
        only x (omega (arith, inode_end s j (inodes j lo hi))) (outside j lo hi x p q l placed)
        ∙ h.inode_bytes j lo hi x p q;
  }
    where
      outside :
          (j : ℕ)
          → 1 ≤ j
          → j ≤ s.super_block.s_inodes_count
          → (x : ℕ) → inode_address s j ≤ x
          → x < inode_address s j + 128
          → (l : List ℕ) → Each (IsPlaced s) l
          → Each (IsOutside s first x) l
      outside j lo hi x p q [] h = tt
      outside j lo hi x p q (b ∷ l) h =
          (inl (omega (arith, h.0.2 j lo hi)), outside j lo hi x p q l h.1)
