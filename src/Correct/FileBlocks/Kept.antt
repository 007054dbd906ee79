-- ===== src/Correct/FileBlocks/Kept.antt =====
-- The blocks that files own stay the same while their own bytes do.
use mathlib.Core.Path.{subst}
use mathlib.Core.Option.{some-injective, none-ne-some}
use my_fsck.Base.{
  ℕ, ◌+◌, ◌-◌, ◌*◌, ◌/◌, ◌≤◌, ◌<◌, ◌≡◌, refl, arith, ap, ◌∙◌, sym, List, [], ◌∷◌, ◌++◌, take,
  get_or, leb, ltb, leb→le, Bool-cases, inl, inr, ◌&&◌, some,
}
use my_fsck.Machine.State.{Fsck, Image, Inode, Message}
use my_fsck.Disk.Blocks.{block_address}
use my_fsck.Inode.Update.{with_image}
use my_fsck.Correct.FileBlocks.{file_blocks}
use my_fsck.Correct.FileBlocks.Marked.{pointers, pointers-same, block_bytes}
use my_fsck.Correct.FileBlocks.Double.{doubles, double_blocks}
use my_fsck.Correct.FileBlocks.Owned.{file_owned, single_blocks}

-- The predicate holds of every number in the list.
abbrev pub Each : (ℕ → Type 0) → List ℕ → Type 0
Each P [] = Unit
Each P (b ∷ blocks) = P b × Each P blocks

pub append-Each : (P : ℕ → Type 0) (xs ys : List ℕ) → Each P (xs ++ ys) → Each P xs × Each P ys
append-Each P [] ys h = (tt, h)
append-Each P (x ∷ xs) ys h = let r = append-Each P xs ys h.1 in ((h.0, r.0), r.1)

-- The image `img` has in block `b` the bytes that the state's image has.
abbrev pub IsKeptIn : Fsck → Image → ℕ → Type 0
IsKeptIn s img b =
    (k : ℕ)
    → k < s.block_size
    → img.byte (block_address s b + k) ≡ s.image.byte (block_address s b + k)

module _ (s : Fsck) (img : Image) (out : List Message) where
  pointers-kept :
      (b n : ℕ)
      → 4 * n ≤ s.block_size
      → IsKeptIn s img b
      → pointers n 0 (block_bytes (with_image s img out) b) ≡ pointers n 0 (block_bytes s b)
  unfolding block_address
  pointers-kept b n le h = pointers-same n 0 _ _ (λ j lt. h j (omega arith))

  doubles-kept :
      (qs : List ℕ) (left : ℕ)
      → Each (IsKeptIn s img) (doubles s qs left)
      → doubles (with_image s img out) qs left ≡ doubles s qs left
  unfolding doubles
  doubles-kept [] left h = refl
  doubles-kept (q ∷ qs) left h =
      let r = s.block_size / 4 in
      elim (Bool-cases (leb left r)) [
        | inl last ↦ rw last (
            ap (λ (ps : List ℕ). q ∷ ps)
              (pointers-kept q left (omega (arith, leb→le left r last)) h.0))
        | inr more ↦
            let parts =
              append-Each (IsKeptIn s img) (pointers r 0 (block_bytes s q))
                (doubles s qs (left - r)) (rw more at h.1) in
            rw (more, pointers-kept q r (omega arith) h.0, doubles-kept qs (left - r) parts.1) refl
      ]

  single-kept :
      (inode : Inode) (total : ℕ)
      → total ≤ 12 + s.block_size / 4
      → Each (IsKeptIn s img) (single_blocks s inode total)
      → single_blocks (with_image s img out) inode total ≡ single_blocks s inode total
  single-kept inode total le h =
      let b = get_or inode.i_block 12 0 in
      let parts =
        append-Each (IsKeptIn s img) (take 12 inode.i_block)
          (b ∷ pointers (total - 12) 0 (block_bytes s b)) h in
      ap (λ (ps : List ℕ). take 12 inode.i_block ++ (b ∷ ps))
        (pointers-kept b (total - 12) (omega arith) parts.1.0)

  double-kept :
      (inode : Inode) (total : ℕ)
      → Each (IsKeptIn s img) (double_blocks s inode total)
      → double_blocks (with_image s img out) inode total ≡ double_blocks s inode total
  double-kept inode total h =
      let r = s.block_size / 4 in
      let b = get_or inode.i_block 12 0 in
      let d = get_or inode.i_block 13 0 in
      let ps = pointers r 0 (block_bytes s b) in
      let qs = pointers r 0 (block_bytes s d) in
      let ds = doubles s qs (total - (12 + r)) in
      let outer = append-Each (IsKeptIn s img) (take 12 inode.i_block) (b ∷ (ps ++ (d ∷ ds))) h in
      let inner = append-Each (IsKeptIn s img) ps (d ∷ ds) outer.1.1 in
      rw
        (
          pointers-kept b r (omega arith) outer.1.0,
          pointers-kept d r (omega arith) inner.1.0,
          doubles-kept qs (total - (12 + r)) inner.1.1,
        )
        refl

  pub file_owned-kept :
      (inode : Inode) (blocks : List ℕ)
      → file_owned s inode ≡ some blocks
      → Each (IsKeptIn s img) blocks
      → file_owned (with_image s img out) inode ≡ some blocks
  unfolding file_owned
  file_owned-kept inode blocks owned kept =
      let total = file_blocks s.block_size inode in
      let r = s.block_size / 4 in
      elim (Bool-cases (leb total 12)) [
        | inl few ↦ rw few (rw few at owned)
        | inr not_direct ↦ elim (Bool-cases (leb total 268)) [
          | inl single ↦ elim (Bool-cases (leb total (12 + r))) [
            | inr unfit ↦ absurd (none-ne-some blocks (rw (not_direct, single, unfit) at owned))
            | inl fits ↦
                rw (not_direct, single, fits)
                  (listed (single_blocks s inode total)
                    (single_blocks (with_image s img out) inode total)
                    (rw (not_direct, single, fits) at owned)
                    (single-kept inode total (leb→le total (12 + r) fits)))
          ]
          | inr double ↦
              elim (Bool-cases
                (ltb (12 + r) total && (leb total 65549 && leb total (12 + r + r * r)))) [
                  | inr unfit ↦
                      absurd (none-ne-some blocks (rw (not_direct, double, unfit) at owned))
                  | inl fits ↦
                      rw (not_direct, double, fits)
                        (listed (double_blocks s inode total)
                          (double_blocks (with_image s img out) inode total)
                          (rw (not_direct, double, fits) at owned) (double-kept inode total))
                ]
        ]
      ]
    where
      listed :
          (known new : List ℕ)
          → some known ≡ some blocks
          → (Each (IsKeptIn s img) known → new ≡ known)
          → some new ≡ some blocks
      listed known new e f =
          ap some (f (subst (Each (IsKeptIn s img)) (sym (some-injective known blocks e)) kept)) ∙ e
