-- ===== src/Correct/FileBlocks/Double.antt =====
-- The blocks that are marked for a file with a double indirect block.
use mathlib.Core.Path.{subst}
use my_fsck.Base.{
  ℕ, zero, suc, ◌+◌, ◌-◌, ◌*◌, ◌/◌, ◌≤◌, ◌<◌, ◌≡◌, refl, arith, ap, ◌∙◌, sym, if◌then◌else◌, List,
  [], ◌∷◌, ◌++◌, take, get_or, le→leb, true, false, leb, Bool-cases, inl, inr, ne→==,
}
use my_fsck.Machine.Memory.{Bytes, set_byte}
use my_fsck.Machine.State.{Fsck, Inode}
use my_fsck.Machine.Run.{ok}
use my_fsck.Util.{parse_bytes_to_decimal_u}
use my_fsck.Disk.{read_bytes}
use my_fsck.Disk.Blocks.{HasSectors, IsOnDisk, block_address, read_block-ok}
use my_fsck.Disk.Runs.{read_bytes_inside}
use my_fsck.Correct.FileBlocks.{
  mark, pointer_loop, pointer_rounds, whole_loop, double_loop,
  get_file_double_indirect_block_bitmap,
}
use my_fsck.Correct.FileBlocks.Marked.{
  marked, AllInside, pointers, pointers-same, pointer_loop-marked, mark_all-marked, append-marked,
  block_bytes,
}

-- The blocks are within the table of blocks and on the disk.
abbrev pub AllUsable : Fsck → List ℕ → Type 0
AllUsable s [] = Unit
AllUsable s (b ∷ blocks) = (b ≤ s.super_block.s_blocks_count) × IsOnDisk s b × AllUsable s blocks

pub AllUsable-AllInside :
    (s : Fsck) (blocks : List ℕ)
    → AllUsable s blocks
    → AllInside s.super_block.s_blocks_count blocks
AllUsable-AllInside s [] h = tt
AllUsable-AllInside s (b ∷ blocks) h = (h.0, AllUsable-AllInside s blocks h.2)

pub append-AllUsable :
    (s : Fsck) (xs ys : List ℕ) → AllUsable s (xs ++ ys) → AllUsable s xs × AllUsable s ys
append-AllUsable s [] ys h = (tt, h)
append-AllUsable s (x ∷ xs) ys h = let r = append-AllUsable s xs ys h.2 in ((h.0, h.1, r.0), r.1)

-- The pointers in a block, whatever the buffer held before it was read.
pub pointers-read :
    (s : Fsck) (b n : ℕ) (into : Bytes)
    → 4 * n ≤ s.block_size
    → pointers n 0 (read_bytes s.image (block_address s b) s.block_size into)
      ≡ pointers n 0 (block_bytes s b)
pointers-read s b n into le =
    pointers-same n 0 _ _
      (λ j lt. read_bytes_inside s.image (block_address s b) s.block_size into j (omega arith))

-- Behind the pointers of a double indirect block stand the blocks that they name, and behind each
-- of these those that its own pointers name, `left` of them in all.
unfoldable pub doubles : Fsck → List ℕ → (left : ℕ) → List ℕ
doubles s [] left = []
doubles s (q ∷ qs) left =
    let r = s.block_size / 4 in
    let rest = doubles s qs (left - r) in
    q
    ∷ (if leb left r
        then pointers left 0 (block_bytes s q)
        else pointers r 0 (block_bytes s q) ++ rest)

-- The loop over a block that ends before the last block of the file.
pointer_loop-all :
    (s : Fsck) (rounds i k total : ℕ) (m table : Bytes)
    → k + rounds < total
    → AllInside s.super_block.s_blocks_count (pointers rounds i m)
    → pointer_loop rounds i k total m table s
      ≡ ok (marked table (pointers rounds i m), k + rounds, false) s
unfolding pointer_loop mark pointers
pointer_loop-all s zero i k total m table lt h = λ j. ok (table, place j, false) s
  where
    place : k ≡ k + 0
    place = omega arith
pointer_loop-all s (suc rounds) i k total m table lt h =
    let b = parse_bytes_to_decimal_u m i 4 in
    let rest =
      pointer_loop-all s rounds (i + 4) (k + 1) total m (set_byte table b 1) (omega arith) h.1 in
    let place : k + 1 + rounds ≡ k + suc rounds = omega arith in
    rw (le→leb b s.super_block.s_blocks_count h.0, ne→== (k + 1) total (omega arith))
      (rest ∙ ap (λ (e : ℕ). ok (marked table (pointers (suc rounds) i m), e, false) s) place)

whole_loop-marked :
    (s : Fsck) (rounds i k : ℕ) (m table : Bytes)
    → AllInside s.super_block.s_blocks_count (pointers rounds i m)
    → whole_loop rounds i k m table s ≡ ok (marked table (pointers rounds i m), k + rounds) s
unfolding whole_loop mark pointers
whole_loop-marked s zero i k m table h = λ j. ok (table, place j) s
  where
    place : k ≡ k + 0
    place = omega arith
whole_loop-marked s (suc rounds) i k m table h =
    let b = parse_bytes_to_decimal_u m i 4 in
    let place : k + 1 + rounds ≡ k + suc rounds = omega arith in
    rw (le→leb b s.super_block.s_blocks_count h.0) (
      whole_loop-marked s rounds (i + 4) (k + 1) m (set_byte table b 1) h.1
      ∙ ap (λ (e : ℕ). ok (marked table (pointers (suc rounds) i m), e) s) place)

rounds_lem :
    (s : Fsck)
    → HasSectors s
    → (pointer_rounds s.block_size ≡ s.block_size / 4) × (4 * (s.block_size / 4) ≡ s.block_size)
rounds_lem s h = (omega arith, omega arith)

-- The blocks of a file of `total` blocks with a double indirect block.
abbrev pub double_blocks : Fsck → Inode → ℕ → List ℕ
double_blocks s inode total =
    let r = s.block_size / 4 in
    let single = get_or inode.i_block 12 0 in
    let double = get_or inode.i_block 13 0 in
    take 12 inode.i_block
    ++ (single
        ∷ (pointers r 0 (block_bytes s single)
            ++ (double ∷ doubles s (pointers r 0 (block_bytes s double)) (total - (12 + r)))))

module _ (s : Fsck) (sectors : HasSectors s) where
  abbrev per_block : ℕ
  per_block = s.block_size / 4

  -- The pointers in block `q` are all that is left.
  last_block :
      (q k total left : ℕ) (table : Bytes)
      → k + left ≡ total
      → 1 ≤ left
      → left ≤ per_block
      → AllInside s.super_block.s_blocks_count (pointers left 0 (block_bytes s q))
      → pointer_loop
          (pointer_rounds s.block_size)
          0
          k
          total
          (read_bytes s.image (block_address s q) s.block_size s.stray)
          table
          s
        ≡ ok (marked table (pointers left 0 (block_bytes s q)), total, true) s
  last_block q k total zero table e lo le inside = absurd (omega arith)
  last_block q k total (suc n) table e lo le inside =
      let m = read_bytes s.image (block_address s q) s.block_size s.stray in
      let same = pointers-read s q (suc n) s.stray (omega arith) in
      pointer_loop-marked s (pointer_rounds s.block_size) n 0 k total m table (omega arith) e
        (subst (AllInside s.super_block.s_blocks_count) (sym same) inside)
      ∙ ap (λ (ps : List ℕ). ok (marked table ps, total, true) s) same

  full_block :
      (q k total : ℕ) (table : Bytes)
      → k + per_block < total
      → AllInside s.super_block.s_blocks_count (pointers per_block 0 (block_bytes s q))
      → pointer_loop
          (pointer_rounds s.block_size)
          0
          k
          total
          (read_bytes s.image (block_address s q) s.block_size s.stray)
          table
          s
        ≡ ok (marked table (pointers per_block 0 (block_bytes s q)), k + per_block, false) s
  full_block q k total table lt inside =
      let m = read_bytes s.image (block_address s q) s.block_size s.stray in
      let same = pointers-read s q per_block s.stray (omega arith) in
      ap (λ (r : ℕ). pointer_loop r 0 k total m table s) (rounds_lem s sectors).0
      ∙ pointer_loop-all s per_block 0 k total m table lt
          (subst (AllInside s.super_block.s_blocks_count) (sym same) inside)
      ∙ ap (λ (ps : List ℕ). ok (marked table ps, k + per_block, false) s) same

  doubles-last :
      (q : ℕ) (qs : List ℕ) (left : ℕ)
      → leb left per_block ≡ true
      → doubles s (q ∷ qs) left ≡ q ∷ pointers left 0 (block_bytes s q)
  unfolding doubles
  doubles-last q qs left e = rw e refl

  doubles-more :
      (q : ℕ) (qs : List ℕ) (left : ℕ)
      → leb left per_block ≡ false
      → doubles s (q ∷ qs) left
        ≡ q ∷ (pointers per_block 0 (block_bytes s q) ++ doubles s qs (left - per_block))
  unfolding doubles
  doubles-more q qs left e = rw e refl

  double_loop-doubles :
      (rounds i k left total : ℕ) (m table : Bytes)
      → k + left ≡ total
      → 1 ≤ left
      → left ≤ rounds * per_block
      → AllUsable s (doubles s (pointers rounds i m) left)
      → double_loop rounds i k total m table s
        ≡ ok (marked table (doubles s (pointers rounds i m) left)) s
  unfolding double_loop mark pointers
  double_loop-doubles zero i k left total m table e lo le h = absurd (omega arith)
  double_loop-doubles (suc rounds) i k left total m table e lo le h =
      let q = parse_bytes_to_decimal_u m i 4 in
      let qs = pointers rounds (i + 4) m in
      elim (Bool-cases (leb left per_block)) [
        | inl few ↦
            let shape = doubles-last q qs left few in
            let u = subst (AllUsable s) shape h in
            rw
              (
                le→leb q s.super_block.s_blocks_count u.0,
                read_block-ok s q s.stray sectors u.1,
                last_block q k total left (set_byte table q 1) e lo (ground arith)
                    (AllUsable-AllInside s _ u.2),
                shape,
              )
              refl
        | inr many ↦
            let shape = doubles-more q qs left many in
            let u = subst (AllUsable s) shape h in
            let parts =
              append-AllUsable s (pointers per_block 0 (block_bytes s q))
                (doubles s qs (left - per_block)) u.2 in
            let more : per_block < left = ground arith in
            let table' = marked (set_byte table q 1) (pointers per_block 0 (block_bytes s q)) in
            let rest =
              double_loop-doubles rounds (i + 4) (k + per_block) (left - per_block) total m table'
                (omega arith) (omega arith) (omega arith) parts.1 in
            rw
              (
                le→leb q s.super_block.s_blocks_count u.0,
                read_block-ok s q s.stray sectors u.1,
                full_block q k total (set_byte table q 1) (omega arith)
                    (AllUsable-AllInside s _ parts.0),
                shape,
              )
              (rest
                ∙ ap (λ (t : Bytes). ok t s)
                    (sym (
                      append-marked (set_byte table q 1) (pointers per_block 0 (block_bytes s q))
                        (doubles s qs (left - per_block)))))
      ]

  pub get_file_double-marked :
      (table : Bytes) (inode : Inode) (total : ℕ)
      → 12 + per_block < total
      → total ≤ 12 + per_block + per_block * per_block
      → AllUsable s (double_blocks s inode total)
      → get_file_double_indirect_block_bitmap table inode total s
        ≡ ok (marked table (double_blocks s inode total)) s
  unfolding get_file_double_indirect_block_bitmap mark
  get_file_double-marked table inode total lo hi h =
      let direct = take 12 inode.i_block in
      let single = get_or inode.i_block 12 0 in
      let double = get_or inode.i_block 13 0 in
      let singles = pointers per_block 0 (block_bytes s single) in
      let left = total - (12 + per_block) in
      let tail = double ∷ doubles s (pointers per_block 0 (block_bytes s double)) left in
      let first = append-AllUsable s direct (single ∷ (singles ++ tail)) h in
      let second = append-AllUsable s singles tail first.1.2 in
      let level1 = read_bytes s.image (block_address s single) s.block_size s.stray in
      let level1' = read_bytes s.image (block_address s double) s.block_size level1 in
      let same = pointers-read s single per_block s.stray (omega arith) in
      let same' = pointers-read s double per_block level1 (omega arith) in
      let t1 = set_byte (marked table direct) single 1 in
      let t2 = marked t1 singles in
      let t3 = set_byte t2 double 1 in
      let rounds = (rounds_lem s sectors).0 in
      let whole =
        ap (λ (r : ℕ). whole_loop r 0 12 level1 t1 s) rounds
        ∙ whole_loop-marked s per_block 0 12 level1 t1 (
            subst (AllInside s.super_block.s_blocks_count) (sym same)
              (AllUsable-AllInside s _ second.0))
        ∙ ap (λ (ps : List ℕ). ok (marked t1 ps, 12 + per_block) s) same in
      let last =
        ap (λ (r : ℕ). double_loop r 0 (12 + per_block) total level1' t3 s) rounds
        ∙ double_loop-doubles per_block 0 (12 + per_block) left total level1' t3 (omega arith)
            (omega arith) (omega arith)
            (subst (λ (ps : List ℕ). AllUsable s (doubles s ps left)) (sym same') second.1.2)
        ∙ ap (λ (ps : List ℕ). ok (marked t3 (doubles s ps left)) s) same' in
      rw
        (
          mark_all-marked s table direct (AllUsable-AllInside s direct first.0),
          le→leb single s.super_block.s_blocks_count first.1.0,
          read_block-ok s single s.stray sectors first.1.1,
          whole,
          le→leb double s.super_block.s_blocks_count second.1.0,
          read_block-ok s double level1 sectors second.1.1,
        )
        (last
          ∙ ap (λ (t : Bytes). ok t s)
              (sym (
                append-marked table direct (single ∷ (singles ++ tail))
                ∙ append-marked t1 singles tail)))
