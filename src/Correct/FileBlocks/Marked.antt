-- ===== src/Correct/FileBlocks/Marked.antt =====
-- The blocks that `get_file_block_bitmap` marks for a file with at most one indirect block.
use mathlib.Core.Path.{subst}
use my_fsck.Base.{
  ℕ, zero, suc, ◌+◌, ◌-◌, ◌*◌, ◌≤◌, ◌<◌, ◌≡◌, refl, arith, ap, ◌∙◌, sym, ◌==◌, if◌then◌else◌, List,
  [], ◌∷◌, ◌++◌, count, take, get_or, le→leb, true, false, leb, ltb, Bool-cases, inl, inr, ne→==,
  eq→==, ltb→lt, ltb→le,
}
use my_fsck.Machine.Memory.{Bytes, shift, set_byte}
use my_fsck.Machine.State.{Fsck, Inode}
use my_fsck.Machine.Run.{ok}
use my_fsck.Util.{parse_bytes_to_decimal_u}
use my_fsck.Util.Number.{parse-same}
use my_fsck.Disk.{read_bytes}
use my_fsck.Disk.Blocks.{HasSectors, IsOnDisk, block_address, read_block-ok}
use my_fsck.Disk.Runs.{read_bytes_inside}
use my_fsck.Correct.FileBlocks.{
  mark, mark_all, pointer_loop, pointer_rounds, file_blocks, get_file_block_bitmap,
  get_file_indirect_block_bitmap,
}

-- The table with the blocks of the list marked.
abbrev pub marked : Bytes → List ℕ → Bytes
marked table [] = table
marked table (b ∷ blocks) = marked (set_byte table b 1) blocks

pub marked-count :
    (table : Bytes) (blocks : List ℕ) (x : ℕ)
    → marked table blocks x ≡ (if count x blocks == 0 then table x else 1)
unfolding set_byte
marked-count table [] x = refl
marked-count table (b ∷ blocks) x = ground (arith, marked-count (set_byte table b 1) blocks x)

-- The numbers in the list do not leave the table of blocks.
abbrev pub AllInside : ℕ → List ℕ → Type 0
AllInside n [] = Unit
AllInside n (b ∷ blocks) = (b ≤ n) × AllInside n blocks

pub mark_all-marked :
    (s : Fsck) (table : Bytes) (blocks : List ℕ)
    → AllInside s.super_block.s_blocks_count blocks
    → mark_all table blocks s ≡ ok (marked table blocks) s
unfolding mark_all mark
mark_all-marked s table [] h = refl
mark_all-marked s table (b ∷ blocks) h =
    rw (le→leb b s.super_block.s_blocks_count h.0)
      (mark_all-marked s (set_byte table b 1) blocks h.1)

-- The first `n` pointers of a block of pointers, from byte `i` on.
unfoldable pub pointers : ℕ → ℕ → Bytes → List ℕ
pointers zero i pointer_block = []
pointers (suc n) i pointer_block =
    parse_bytes_to_decimal_u pointer_block i 4 ∷ pointers n (i + 4) pointer_block

pub pointers-same :
    (n i : ℕ) (m m' : Bytes)
    → ((j : ℕ) → j < i + 4 * n → m j ≡ m' j)
    → pointers n i m ≡ pointers n i m'
unfolding pointers
pointers-same zero i m m' h = refl
pointers-same (suc n) i m m' h = λ k.
    parse-same m m' i 4 (λ j p q. h j (omega arith)) k
    ∷ pointers-same n (i + 4) m m' (λ j p. h j (omega arith)) k

-- The loop ends after the pointers that the file has.
pub pointer_loop-marked :
    (s : Fsck) (rounds n i k total : ℕ) (m table : Bytes)
    → n < rounds
    → k + suc n ≡ total
    → AllInside s.super_block.s_blocks_count (pointers (suc n) i m)
    → pointer_loop rounds i k total m table s
      ≡ ok (marked table (pointers (suc n) i m), total, true) s
unfolding pointer_loop mark pointers
pointer_loop-marked s zero n i k total m table lt e h = absurd (omega arith)
pointer_loop-marked s (suc rounds) zero i k total m table lt e h =
    let last : k + 1 ≡ total = omega arith in
    rw (le→leb _ s.super_block.s_blocks_count h.0, eq→== (k + 1) total last)
      (λ j. ok (set_byte table (parse_bytes_to_decimal_u m i 4) 1, last j, true) s)
pointer_loop-marked s (suc rounds) (suc n) i k total m table lt e h =
    rw (le→leb _ s.super_block.s_blocks_count h.0, ne→== (k + 1) total (omega arith))
      (pointer_loop-marked s rounds n (i + 4) (k + 1) total m
        (set_byte table (parse_bytes_to_decimal_u m i 4) 1) (omega arith) (omega arith) h.1)

-- The bytes of block `b` on the disk.
abbrev pub block_bytes : Fsck → ℕ → Bytes
block_bytes s b = shift s.image.byte (block_address s b)

-- The blocks of a file of `total` blocks: direct ones, then the indirect block and those that its
-- pointers name.
unfoldable pub blocks_of : Fsck → Inode → ℕ → List ℕ
blocks_of s inode total =
    if leb total 12
    then take total inode.i_block
    else take 12 inode.i_block
      ++ (get_or inode.i_block 12 0
          ∷ pointers (total - 12) 0 (block_bytes s (get_or inode.i_block 12 0)))

pub append-AllInside :
    (n : ℕ) (xs ys : List ℕ) → AllInside n (xs ++ ys) → AllInside n xs × AllInside n ys
append-AllInside n [] ys h = (tt, h)
append-AllInside n (x ∷ xs) ys h = let r = append-AllInside n xs ys h.1 in ((h.0, r.0), r.1)

pub append-marked :
    (table : Bytes) (xs ys : List ℕ) → marked table (xs ++ ys) ≡ marked (marked table xs) ys
append-marked table [] ys = refl
append-marked table (x ∷ xs) ys = append-marked (set_byte table x 1) xs ys

module _ (s : Fsck) (table : Bytes) (inode : Inode) where
  abbrev direct : List ℕ
  direct = take 12 inode.i_block

  abbrev indirect : ℕ
  indirect = get_or inode.i_block 12 0

  abbrev on_disk_pointers : ℕ → List ℕ
  on_disk_pointers n = pointers n 0 (block_bytes s indirect)

  abbrev read_pointers : ℕ → List ℕ
  read_pointers n =
      pointers n 0 (read_bytes s.image (block_address s indirect) s.block_size s.stray)

  same_pointers : (n : ℕ) → 4 * n ≤ s.block_size → on_disk_pointers n ≡ read_pointers n
  same_pointers n le = pointers-same n 0 _ _ (λ j lt.
      sym
        (read_bytes_inside s.image (block_address s indirect) s.block_size s.stray j (omega arith)))

  pub indirect-marked :
      (n total : ℕ)
      → 12 + suc n ≡ total
      → HasSectors s
      → IsOnDisk s indirect
      → 4 * suc n ≤ s.block_size
      → AllInside s.super_block.s_blocks_count (direct ++ (indirect ∷ on_disk_pointers (suc n)))
      → get_file_indirect_block_bitmap table inode total s
        ≡ ok (marked table (direct ++ (indirect ∷ on_disk_pointers (suc n)))) s
  unfolding get_file_indirect_block_bitmap mark
  indirect-marked n total e sectors on_disk le inside =
      let parts =
        append-AllInside s.super_block.s_blocks_count direct (indirect ∷ on_disk_pointers (suc n))
          inside in
      let m = read_bytes s.image (block_address s indirect) s.block_size s.stray in
      let same = same_pointers (suc n) le in
      let table1 = set_byte (marked table direct) indirect 1 in
      rw
        (
          mark_all-marked s table direct parts.0,
          le→leb indirect s.super_block.s_blocks_count parts.1.0,
          read_block-ok s indirect s.stray sectors on_disk,
          pointer_loop-marked s (pointer_rounds s.block_size) n 0 12 total m table1 (omega arith) e
              (subst (AllInside s.super_block.s_blocks_count) same parts.1.1),
        )
        (ap (λ (ps : List ℕ). ok (marked table1 ps) s) (sym same)
          ∙ ap (λ (t : Bytes). ok t s)
              (sym (append-marked table direct (indirect ∷ on_disk_pointers (suc n)))))

-- For a file of at most 268 blocks whose pointers fit one indirect block, if the 13th pointer is a
-- block on the disk and no block of the file is beyond `s_blocks_count`, then
-- `get_file_block_bitmap` succeeds, changes nothing in the state, and marks in the table exactly
-- the blocks of the file: the direct ones, and beyond twelve the indirect block and those that its
-- first pointers name.
pub get_file_block_bitmap-blocks_of :
    (s : Fsck) (table : Bytes) (inode : Inode)
    → HasSectors s
    → file_blocks s.block_size inode ≤ 268
    → 4 * (file_blocks s.block_size inode - 12) ≤ s.block_size
    → IsOnDisk s (get_or inode.i_block 12 0)
    → AllInside s.super_block.s_blocks_count (blocks_of s inode (file_blocks s.block_size inode))
    → (table' : Bytes) × (get_file_block_bitmap table inode s ≡ ok table' s)
      × ((x : ℕ)
          → table' x ≡ (
              if count x (blocks_of s inode (file_blocks s.block_size inode)) == 0
              then table x
              else 1))
unfolding get_file_block_bitmap blocks_of
get_file_block_bitmap-blocks_of s table inode sectors small fits on_disk inside =
    let total = file_blocks s.block_size inode in
    (marked table (blocks_of s inode total), runs, marked-count table (blocks_of s inode total))
  where
    runs :
        get_file_block_bitmap table inode s
        ≡ ok (marked table (blocks_of s inode (file_blocks s.block_size inode))) s
    runs =
        let total = file_blocks s.block_size inode in
        elim (Bool-cases (ltb 12 total)) [
          | inr few ↦
              let le = le→leb total 12 (ltb→le 12 total few) in
              rw le (mark_all-marked s table (take total inode.i_block) (rw le at inside))
          | inl many ↦
              let lt = ltb→lt 12 total many in
              let not_direct : leb total 12 ≡ false = ground arith in
              let n = total - 13 in
              let rest : total - 12 ≡ suc n = omega arith in
              rw (not_direct, le→leb total 268 small, rest)
                (indirect-marked s table inode n total (omega arith) sectors on_disk (omega arith)
                  (rw (not_direct, rest) at inside))
        ]
