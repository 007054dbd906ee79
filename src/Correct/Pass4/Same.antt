-- ===== src/Correct/Pass4/Same.antt =====
-- The loops of `pass4` look at the table of blocks in use below `s_blocks_count` only.
use mathlib.Core.Bool.{true≢false}
use my_fsck.Base.{
  or-left, or-right, ℕ, zero, suc, ◌+◌, ◌-◌, ◌*◌, ◌^◌, ◌≤◌, ◌<◌, ◌≡◌, refl, sym, ap, ◌∙◌, arith,
  u32, true, false, Bool-cases, inl, inr, ltb, leb, ◌&&◌, [], false, ltb→lt, ltb→le,
}
use my_fsck.Machine.Memory.{Bytes}
use my_fsck.Machine.State.{Fsck}
use my_fsck.DataBlock.{get_block_group_num}
use my_fsck.Correct.Pass4.{
  Check, correct_bit, check_block, next_block, blocks_loop, groups_loop, tables_loop, check_bitmap,
  get_skip_block_num_in_group,
}
use my_fsck.Correct.Pass4.Blocks.{blocks_end, blocks_end-last, blocks_end-next, blocks_end_bounds}
use my_fsck.Correct.Pass4.Groups.{checked, checked_below}
use my_fsck.Correct.Pass4.Right.{checked-lt}
use my_fsck.Correct.Pass4.Whole.{HasGroups}

module _ (t t' : Bytes) where
  check_block-same : (c : Check) → t c.block_id ≡ t' c.block_id → check_block t c ≡ check_block t' c
  unfolding check_block
  check_block-same c e = rw e refl

  check_block-id : (c : Check) → (check_block t c).block_id ≡ c.block_id
  unfolding check_block correct_bit
  check_block-id c = ground arith

  -- The loop over the blocks of a group ends at the same block, and in the same way.
  blocks_loop-same :
      (n left : ℕ) (c : Check)
      → ((x : ℕ) → c.block_id ≤ x → x < blocks_end n left c.block_id → t x ≡ t' x)
      → c.block_id + left < 2 ^ 32
      → ((blocks_loop n left t c).block_id ≡ blocks_end n left c.block_id)
        × (blocks_loop n left t c ≡ blocks_loop n left t' c)
  unfolding blocks_loop
  blocks_loop-same n zero c h small = (unfold blocks_end in refl, refl)
  blocks_loop-same n (suc left) c h small =
      let c' = next_block (check_block t c) in
      let next : c'.block_id ≡ c.block_id + 1 = omega (arith, check_block-id c) in
      let range = blocks_end_bounds n left (c.block_id + 1) in
      elim (Bool-cases (leb n (c.block_id + 1))) [
        | inl e ↦
            let last = blocks_end-last n left c.block_id e in
            let step = check_block-same c (h c.block_id (omega arith) (omega (arith, last))) in
            rw (sym step, ap (leb n) next ∙ e) (next ∙ sym last, refl)
        | inr e ↦
            let rest = blocks_end-next n left c.block_id e in
            let step =
              check_block-same c (h c.block_id (omega arith) (omega (arith, rest, range))) in
            let ih =
              blocks_loop-same n left c'
                (λ x p q.
                  h x (omega (arith, next))
                    (omega (arith, next, rest, ap (blocks_end n left) next)))
                (omega (arith, next)) in
            rw (sym step, ap (leb n) next ∙ e) (ih.0 ∙ ap (blocks_end n left) next ∙ sym rest, ih.1)
      ]

  groups_loop-same :
      (n bpg skip left : ℕ) (c : Check)
      → ((x : ℕ) → checked n bpg skip left c.block_id x ≡ true → t x ≡ t' x)
      → skip ≤ bpg
      → c.block_id + left * bpg < 2 ^ 32
      → groups_loop n bpg skip left t c ≡ groups_loop n bpg skip left t' c
  unfolding groups_loop checked
  groups_loop-same n bpg skip zero c h hs small = refl
  groups_loop-same n bpg skip (suc left) c h hs small =
      let c' : Check = record c { block_id = u32 (c.block_id + skip) } in
      let first : c'.block_id ≡ c.block_id + skip = omega arith in
      let b = c.block_id + skip in
      let e = blocks_end n (bpg - skip) b in
      let range = blocks_end_bounds n (bpg - skip) b in
      let group =
        blocks_loop-same n (bpg - skip) c'
          (λ x p q.
            let below = ltb_of x (ap (blocks_end n (bpg - skip)) first) q in
            h x (or-left (leb b x && ltb x e) _ (ground arith)))
          (omega (arith, first)) in
      let end : (blocks_loop n (bpg - skip) t c').block_id ≡ e =
        group.0 ∙ ap (blocks_end n (bpg - skip)) first in
      groups_loop-same n bpg skip left (blocks_loop n (bpg - skip) t c')
        (λ x k. h x (
          or-right (leb b x && ltb x e) _
            (ap (λ (d : ℕ). checked n bpg skip left d x) (sym end) ∙ k)))
        hs (omega (arith, range, end))
      ∙ ap (groups_loop n bpg skip left t') group.1
    where
      ltb_of : {a b : ℕ} (x : ℕ) → a ≡ b → x < a → x < b
      ltb_of x e lt = omega arith

pub check_bitmap-same :
    (s : Fsck) (t t' m : Bytes)
    → HasGroups s
    → ((x : ℕ) → 1 ≤ x → x < s.super_block.s_blocks_count → t x ≡ t' x)
    → check_bitmap s t m ≡ check_bitmap s t' m
unfolding check_bitmap
check_bitmap-same s t t' m h same =
    let n = s.super_block.s_blocks_count in
    let bpg = s.super_block.s_blocks_per_group in
    let skip = get_skip_block_num_in_group s in
    let left = get_block_group_num s in
    let start : Check = record { bitmap = m; block_id = 1; found_error = false; reported = [] } in
    ap (tables_loop left 0 s) (
      groups_loop-same t t' n bpg skip left start
        (λ x c.
          same x
            (elim (Bool-cases (ltb x 1)) [
              | inl below ↦
                  absurd (true≢false (sym c ∙ checked_below n bpg skip left 1 x (ltb→lt x 1 below)))
              | inr above ↦ ltb→le x 1 above
            ])
            (checked-lt n bpg skip left 1 x h.skip_fits h.last_used c))
        (omega (arith, h.skip_fits)) h.numbers_fit)
