-- ===== src/Correct/FileBlocks/Owned.antt =====
-- The blocks that a file owns, as a list, against the marking of `get_file_block_bitmap`.
use mathlib.Core.Path.{subst}
use mathlib.Core.Option.{some-injective, none-ne-some}
use my_fsck.Base.{
  and-both, leb→le, leb→lt, ltb→lt, ℕ, suc, ◌+◌, ◌-◌, ◌*◌, ◌/◌, ◌≤◌, ◌<◌, ◌≡◌, arith, ap, ◌∙◌, sym,
  if◌then◌else◌, List, ◌∷◌, ◌++◌, take, get_or, leb, ltb, Bool-cases, inl, inr, ◌&&◌, Option, none,
  some,
}
use my_fsck.Machine.Memory.{Bytes}
use my_fsck.Machine.State.{Fsck, Inode}
use my_fsck.Machine.Run.{ok}
use my_fsck.Disk.Blocks.{HasSectors}
use my_fsck.Correct.FileBlocks.{file_blocks, get_file_block_bitmap, get_file_indirect_block_bitmap}
use my_fsck.Correct.FileBlocks.Marked.{
  marked, AllInside, pointers, block_bytes, mark_all-marked, indirect-marked,
}
use my_fsck.Correct.FileBlocks.Double.{
  AllUsable, AllUsable-AllInside, append-AllUsable, double_blocks, get_file_double-marked,
}

-- The blocks of a file with a single indirect block.
abbrev pub single_blocks : Fsck → Inode → ℕ → List ℕ
single_blocks s inode total =
    take 12 inode.i_block
    ++ (get_or inode.i_block 12 0
        ∷ pointers (total - 12) 0 (block_bytes s (get_or inode.i_block 12 0)))

-- The blocks of a file: the direct ones alone, with the single indirect block and the blocks that it
-- names, or with the double indirect block as well. A file whose size does not fit the blocks of
-- pointers, or is beyond the limits of correct.h, has no list.
unfoldable pub file_owned : Fsck → Inode → Option (List ℕ)
file_owned s inode =
    let total = file_blocks s.block_size inode in
    let r = s.block_size / 4 in
    if leb total 12
    then some (take total inode.i_block)
    else (if leb total 268
        then (if leb total (12 + r) then some (single_blocks s inode total) else none)
        else (if ltb (12 + r) total && (leb total 65549 && leb total (12 + r + r * r))
            then some (double_blocks s inode total)
            else none))

single-marked :
    (s : Fsck)
    → HasSectors s
    → (table : Bytes) (inode : Inode) (total : ℕ) → 12 < total
    → total ≤ 12 + s.block_size / 4
    → AllUsable s (single_blocks s inode total)
    → get_file_indirect_block_bitmap table inode total s
      ≡ ok (marked table (single_blocks s inode total)) s
single-marked s sectors table inode total lo hi u =
    let b = get_or inode.i_block 12 0 in
    let listed = λ (k : ℕ). take 12 inode.i_block ++ (b ∷ pointers k 0 (block_bytes s b)) in
    let n = total - 13 in
    let count : total - 12 ≡ suc n = omega arith in
    let parts =
      append-AllUsable s (take 12 inode.i_block) (b ∷ pointers (total - 12) 0 (block_bytes s b))
        u in
    indirect-marked s table inode n total (omega arith) sectors parts.1.1 (omega arith) (
      subst (λ (k : ℕ). AllInside s.super_block.s_blocks_count (listed k)) count
        (AllUsable-AllInside s _ u))
    ∙ ap (λ (k : ℕ). ok (marked table (listed k)) s) (sym count)

pub get_file_block_bitmap-owned :
    (s : Fsck) (table : Bytes) (inode : Inode) (blocks : List ℕ)
    → HasSectors s
    → file_owned s inode ≡ some blocks
    → AllUsable s blocks
    → get_file_block_bitmap table inode s ≡ ok (marked table blocks) s
unfolding file_owned get_file_block_bitmap
get_file_block_bitmap-owned s table inode blocks sectors owned usable =
    let total = file_blocks s.block_size inode in
    let r = s.block_size / 4 in
    elim (Bool-cases (leb total 12)) [
      | inl few ↦ listed (take total inode.i_block) (rw few at owned) (λ u.
          rw few (mark_all-marked s table (take total inode.i_block) (AllUsable-AllInside s _ u)))
      | inr not_direct ↦ elim (Bool-cases (leb total 268)) [
        | inl single ↦ elim (Bool-cases (leb total (12 + r))) [
          | inr unfit ↦ absurd (none-ne-some blocks (rw (not_direct, single, unfit) at owned))
          | inl fits ↦
              listed (single_blocks s inode total) (rw (not_direct, single, fits) at owned) (λ u.
                rw (not_direct, single)
                  (single-marked s sectors table inode total (leb→lt total 12 not_direct)
                    (leb→le total (12 + r) fits) u))
        ]
        | inr double ↦
            elim (Bool-cases
              (ltb (12 + r) total && (leb total 65549 && leb total (12 + r + r * r)))) [
                | inr unfit ↦ absurd (none-ne-some blocks (rw (not_direct, double, unfit) at owned))
                | inl fits ↦
                    let one =
                      and-both (ltb (12 + r) total) (leb total 65549 && leb total (12 + r + r * r))
                        fits in
                    let two = and-both (leb total 65549) (leb total (12 + r + r * r)) one.1 in
                    listed (double_blocks s inode total) (rw (not_direct, double, fits) at owned)
                      (λ u.
                        rw (not_direct, double, two.0)
                          (get_file_double-marked s sectors table inode total (ltb→lt _ _ one.0)
                            (leb→le _ _ two.1) u))
              ]
      ]
    ]
  where
    listed :
        (known : List ℕ)
        → some known ≡ some blocks
        → (AllUsable s known → get_file_block_bitmap table inode s ≡ ok (marked table known) s)
        → get_file_block_bitmap table inode s ≡ ok (marked table blocks) s
    listed known e f =
        let same = some-injective known blocks e in
        f (subst (AllUsable s) (sym same) usable)
        ∙ ap (λ (bs : List ℕ). ok (marked table bs) s) same
