-- ===== src/Correct/Pass1/Blocks.antt =====
-- The loop over the blocks of a directory makes their entries right.
use mathlib.Core.Path.{subst}
use my_fsck.Base.{
  u16, ==→eq, ℕ, ◌+◌, ◌^◌, ◌≤◌, ◌<◌, ◌≡◌, refl, arith, ◌∙◌, sym, List, Bool, true, false, ◌==◌, [],
  ◌∷◌, ◌++◌, leb, leb→le, lt→ltb, Bool-cases, inl, inr, Option, some, and-both,
}
use my_fsck.Machine.Memory.{Bytes}
use my_fsck.Machine.State.{Fsck, Image, Message}
use my_fsck.Machine.Run.{M, ok}
use my_fsck.Util.{parse_bytes_to_decimal_u}
use my_fsck.Util.Number.{parse-same}
use my_fsck.Disk.{read_bytes}
use my_fsck.Disk.Blocks.{HasSectors, IsOnDisk, block_address, read_block-ok}
use my_fsck.Inode.Read.{InodeOnDisk}
use my_fsck.Inode.Update.{with_image}
use my_fsck.Correct.FileBlocks.Kept.{Each, append-Each}
use my_fsck.Correct.FileBlocks.Tree.{both_lists}
use my_fsck.Correct.Pass1.{pass1_blocks}
use my_fsck.Correct.Pass1.Listed.{
  starts_as, first_len, entries_listed, blocks_listed, block_parts, block_of,
}
use my_fsck.Correct.Pass1.Kept.{entries_listed-kept, blocks_listed-kept, block_of-same, KeepsListed}
use my_fsck.Correct.Pass1.Moves.{
  BlocksApart, AllApart, append-AllApart, IsOutside, OnlyDots, Each-IsOutside, IsPlaced, IsIntact,
  outside-same, all-same, apart-flip, cross-flip, with_one,
}
use my_fsck.Correct.Pass1.Buffer.{HoldsIn, block_of-held}
use my_fsck.Correct.Pass1.Entries.{AtEntry, Moved, FixesDirs}
use my_fsck.Correct.Pass1.Loop.{entries-fixed}

module _ (s : Fsck) (first : ℕ → ℕ) (sectors : HasSectors s)
    (inodes : (j : ℕ) → 1 ≤ j → j ≤ s.super_block.s_inodes_count → InodeOnDisk s j)
    (list : Image → Bool → ℕ → ℕ → Option (List ℕ)) (visit : ℕ → ℕ → M (Unit {0}))
    (fixes : FixesDirs s first list visit)
    (keeps : (img img' : Image) (strict : Bool)
      → KeepsListed s img img' strict (list img strict) (list img' strict))
    (parent num : ℕ) (parent_lo : 1 ≤ parent) (parent_hi : parent < 2 ^ 32) (num_lo : 1 ≤ num)
    (num_hi : num < 2 ^ 32) where
  abbrev BlocksDone : List ℕ → List ℕ → Image → List Message → Type 0
  BlocksDone blocks l img out =
      (img' : Image) × (out' : List Message) × (pass1_blocks visit parent num blocks
          (with_image s img out)
        ≡ ok tt (with_image s img' out'))
      × Moved s first l img img'
      × (blocks_listed s first img' (list img' true) true parent num blocks ≡ some l)

  block_held : (img : Image) (b : ℕ) → HoldsIn s img b (block_of s img b)
  unfolding read_bytes
  block_held img b i lt = rw (lt→ltb i s.block_size lt) refl

  behind_block : (img : Image) (b j : ℕ) → s.block_size ≤ j → block_of s img b j ≡ s.stray j
  unfolding read_bytes
  behind_block img b j le = ground arith

  -- The length of the first entry is not changed.
  same_start :
      (b : ℕ) (xs : List ℕ) (img img' : Image) (m m' : Bytes)
      → IsOnDisk s b
      → Each (BlocksApart s b) xs
      → OnlyDots s first (b ∷ xs) img img'
      → HoldsIn s img b m
      → HoldsIn s img' b m'
      → starts_as (first b) m ≡ true
      → starts_as (first b) m' ≡ true
  unfolding starts_as first_len
  same_start b xs img img' m m' on_disk apart only held held' starts =
      let start =
        and-both (leb 8 (first b)) (u16 (parse_bytes_to_decimal_u m 4 2) == first b) starts in
      let long = leb→le 8 (first b) start.0 in
      rw
        (parse-same m' m 4 2 (λ j lo hi.
          let a = block_address s b in
          sym (held' j (omega (arith, sectors)))
          ∙ only (a + j) (omega (arith, sectors)) (
            inr (omega arith, omega arith),
            Each-IsOutside s first b (a + j) xs (omega arith) (omega (arith, sectors)) apart,
          )
          ∙ held j (omega (arith, sectors))))
        starts

  -- The block `b` with what it leads to, `xs`, and the blocks behind it with theirs, `ys`.
  block-fixed :
      (b : ℕ) (blocks xs ys : List ℕ) (img : Image) (out : List Message)
      → ((img1 : Image) (out1 : List Message)
          → IsIntact s img1
          → blocks_listed s first img1 (list img1 false) false parent num blocks ≡ some ys
          → BlocksDone blocks ys img1 out1)
      → IsIntact s img
      → (b == 0) ≡ false
      → starts_as (first b) (block_of s img b) ≡ true
      → entries_listed
          (list img false)
          false
          s.block_size
          (s.block_size + 1)
          parent
          num
          0
          0
          (block_of s img b)
        ≡ some xs
      → blocks_listed s first img (list img false) false parent num blocks ≡ some ys
      → Each (IsPlaced s) (b ∷ (xs ++ ys))
      → AllApart s (b ∷ (xs ++ ys))
      → BlocksDone (b ∷ blocks) (b ∷ (xs ++ ys)) img out
  unfolding pass1_blocks blocks_listed both_lists block_address starts_as
  block-fixed b blocks xs ys img out next h more starts own rest places aparts =
      let place = append-Each (IsPlaced s) xs ys places.1 in
      let apart = append-AllApart s xs ys aparts.1 in
      let from_b = append-Each (BlocksApart s b) xs ys aparts.0 in
      let m = block_of s img b in
      let start = and-both (leb 8 (first b)) (first_len m == first b) starts in
      let at_start : AtEntry first b 0 0 m =
        (λ e. (refl, ==→eq (first_len m) (first b) start.1), λ e. absurd (omega arith)) in
      let e =
        entries-fixed s first sectors inodes list visit fixes keeps parent num b parent_lo parent_hi
          num_lo num_hi places.0 (s.block_size + 1) 0 0 xs m img out h (block_held img b) at_start
          own place.0 (from_b.0, apart.0) in
      let img1 = e.0 in
      let f = e.4 in
      let to_ys =
        with_one s first b xs ys (apart-flip s first b ys from_b.1)
          (cross-flip s first xs ys apart.2) in
      let r = next img1 e.1 f.moved.intact (
        blocks_listed-kept s img img1 false (list img false) (list img1 false)
          (keeps img img1 false) first parent num blocks ys rest
          (all-same s first ys (b ∷ xs) img img1 place.1 to_ys f.moved.only)) in
      let img' = r.0 in
      let held : block_of s img1 b ≡ e.2 =
        block_of-held s img1 b e.2 f.held (λ j le. f.others j (inr le) ∙ behind_block img b j le) in
      let kept : block_of s img' b ≡ e.2 =
        block_of-same s img1 img' true b
          (outside-same s first b ys img1 img' places.0.1 from_b.1 r.3.only)
        ∙ held in
      let starts' : starts_as (first b) e.2 ≡ true =
        same_start b xs img img1 m e.2 places.0.1 from_b.0 f.moved.only (block_held img b) f.held
          starts in
      let own' =
        entries_listed-kept s img1 img' true (list img1 true) (list img' true)
          (keeps img1 img' true) (s.block_size + 1) parent num 0 0 e.2 xs f.listed
          (all-same s first xs ys img1 img' place.0 apart.2 r.3.only) in
      (
        img',
        r.1,
        rw
            (
              more,
              pass1_blocks,
              read_block-ok (with_image s img out) b s.stray sectors
                  (omega (arith, h.size, places.0.1)),
              e.3,
            )
            r.2,
        record {
          intact = r.3.intact;
          only = λ x lt outside.
              let parts = append-Each (IsOutside s first x) xs ys outside.1 in
              r.3.only x lt parts.1 ∙ f.moved.only x lt (outside.0, parts.0);
        },
        rw (more, blocks_listed, kept, starts', own', r.4) refl,
      )

  pub blocks-fixed :
      (blocks l : List ℕ) (img : Image) (out : List Message)
      → IsIntact s img
      → blocks_listed s first img (list img false) false parent num blocks ≡ some l
      → Each (IsPlaced s) l
      → AllApart s l
      → BlocksDone blocks l img out
  unfolding pass1_blocks blocks_listed
  blocks-fixed [] l img out h e places aparts =
      (img, out, refl, record { intact = h; only = λ x lt outside. refl }, e)
  blocks-fixed (b ∷ blocks) l img out h e places aparts = elim (Bool-cases (b == 0)) [
    | inl end ↦ (
      img,
      out,
      rw (end, pass1_blocks) refl,
      record { intact = h; only = λ x lt outside. refl },
      rw (end, blocks_listed) (rw (end, blocks_listed) at e),
    )
    | inr more ↦
        let parts = block_parts s first img (list img false) false parent num b blocks l more e in
        subst (λ (ls : List ℕ). BlocksDone (b ∷ blocks) ls img out) parts.4
          (let places' = subst (Each (IsPlaced s)) (sym parts.4) places in
            let aparts' = subst (AllApart s) (sym parts.4) aparts in
            block-fixed b blocks parts.0 parts.1 img out
              (λ img1 out1 h1 e1.
                blocks-fixed blocks parts.1 img1 out1 h1 e1
                  (append-Each (IsPlaced s) parts.0 parts.1 places'.1).1
                  (append-AllApart s parts.0 parts.1 aparts'.1).1)
              h more parts.5 parts.2 parts.3 places' aparts')
  ]
