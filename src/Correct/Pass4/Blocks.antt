-- ===== src/Correct/Pass4/Blocks.antt =====
-- The loop of `pass4` over the blocks of a group.
use my_fsck.Base.{
  ℕ, zero, suc, ◌+◌, ◌^◌, ◌≤◌, ◌<◌, ◌≡◌, refl, arith, ap, ◌∙◌, sym, ◌==◌, leb, ltb, if◌then◌else◌,
  true, false, Bool-cases, inl, inr, ==→eq, ==→ne, ltb→lt, ltb→le,
}
use mathlib.Core.Path.{subst}
use my_fsck.Machine.Memory.{Bytes, IsBytes}
use my_fsck.DataBlock.{get_block_alloc_bit}
use my_fsck.DataBlock.Flip.{IsBlock, alloc_bit-fix, fix-IsBytes}
use my_fsck.Correct.Pass4.{Check, check_block, correct_bit, next_block, blocks_loop}

-- Each entry is 0 or 1.
abbrev pub IsFlags : Bytes → Type 0
IsFlags t = (x : ℕ) → t x ≤ 1

pub alloc_bit-le : (m : Bytes) (x : ℕ) → get_block_alloc_bit m x ≤ 1
unfolding get_block_alloc_bit
alloc_bit-le m x = omega arith

-- The block behind the last one that the loop looks at, from block `b` on.
unfoldable pub blocks_end : ℕ → ℕ → ℕ → ℕ
blocks_end blocks_count zero b = b
blocks_end blocks_count (suc left) b =
    let rest = blocks_end blocks_count left (b + 1) in
    if leb blocks_count (b + 1) then b + 1 else rest

pub blocks_end_bounds :
    (blocks_count left b : ℕ)
    → (b ≤ blocks_end blocks_count left b) × (blocks_end blocks_count left b ≤ b + left)
unfolding blocks_end
blocks_end_bounds blocks_count zero b = omega arith
blocks_end_bounds blocks_count (suc left) b =
    ground (arith, blocks_end_bounds blocks_count left (b + 1))

pub blocks_end-last : (n left b : ℕ) → leb n (b + 1) ≡ true → blocks_end n (suc left) b ≡ b + 1
unfolding blocks_end
blocks_end-last n left b e = rw e

pub blocks_end-next :
    (n left b : ℕ) → leb n (b + 1) ≡ false → blocks_end n (suc left) b ≡ blocks_end n left (b + 1)
unfolding blocks_end
blocks_end-next n left b e = rw e

-- The bits from block `b` up to `e` are those of the table, and all others are as before.
pub record Corrected (true_bitmap old : Bytes) (b e : ℕ) (new : Bytes) : Type 0 where
  pub bytes : IsBytes new
  pub inside : (x : ℕ) → IsBlock x → b ≤ x → x < e → get_block_alloc_bit new x ≡ true_bitmap x
  pub below : (x : ℕ) → IsBlock x → x < b → get_block_alloc_bit new x ≡ get_block_alloc_bit old x
  pub above : (x : ℕ) → IsBlock x → e ≤ x → get_block_alloc_bit new x ≡ get_block_alloc_bit old x

pub Corrected-trans :
    {t old mid new : Bytes} {b d e : ℕ}
    → b ≤ d
    → d ≤ e
    → Corrected t old b d mid
    → Corrected t mid d e new
    → Corrected t old b e new
Corrected-trans {d} p q f g = record {
  bytes = g.bytes;
  inside = λ x hx lo hi. elim (Bool-cases (ltb x d)) [
    | inl l ↦ g.below x hx (ltb→lt x d l) ∙ f.inside x hx lo (ltb→lt x d l)
    | inr r ↦ g.inside x hx (ltb→le x d r) hi
  ];
  below = λ x hx h. g.below x hx (omega arith) ∙ f.below x hx h;
  above = λ x hx h. g.above x hx h ∙ f.above x hx (omega arith);
}

pub Corrected-refl : {t m : Bytes} {b : ℕ} → IsBytes m → Corrected t m b b m
Corrected-refl h = record {
  bytes = h;
  inside = λ x hx p q. absurd (omega arith);
  below = λ x hx p. refl;
  above = λ x hx p. refl;
}

module _ (t : Bytes) (flags : IsFlags t) where
  pub check_block-Corrected :
      (c : Check)
      → IsBytes c.bitmap
      → IsBlock c.block_id
      → Corrected t c.bitmap c.block_id (c.block_id + 1) (check_block t c).bitmap
  unfolding check_block correct_bit
  check_block-Corrected c h hb =
      elim (Bool-cases (t c.block_id == get_block_alloc_bit c.bitmap c.block_id)) [
        | inl e ↦ rw e (record {
          bytes = h;
          inside = λ x hx p q.
              let xe : c.block_id ≡ x = omega arith in
              sym (ap t (sym xe) ∙ ==→eq _ _ e ∙ ap (get_block_alloc_bit c.bitmap) xe);
          below = λ x hx p. refl;
          above = λ x hx p. refl;
        })
        | inr e ↦ rw e (record {
          bytes = fix-IsBytes c.bitmap c.block_id h;
          inside = λ x hx p q.
              let xe : c.block_id ≡ x = omega arith in
              ground (
                arith,
                alloc_bit-fix c.bitmap c.block_id x h hb hx,
                flags c.block_id,
                alloc_bit-le c.bitmap c.block_id,
                ap t xe,
                ==→ne _ _ e,
              );
          below = λ x hx p. ground (arith, alloc_bit-fix c.bitmap c.block_id x h hb hx);
          above = λ x hx p. ground (arith, alloc_bit-fix c.bitmap c.block_id x h hb hx);
        })
      ]

  check_block-block_id : (c : Check) → (check_block t c).block_id ≡ c.block_id
  unfolding check_block correct_bit
  check_block-block_id c = ground arith

  next_block-block_id :
      (c : Check)
      → c.block_id + 1 < 2 ^ 32
      → (next_block (check_block t c)).block_id ≡ c.block_id + 1
  next_block-block_id c h = omega (arith, check_block-block_id c)

  blocks_loop-last :
      (n left : ℕ) (c : Check)
      → leb n (next_block (check_block t c)).block_id ≡ true
      → blocks_loop n (suc left) t c ≡ next_block (check_block t c)
  unfolding blocks_loop
  blocks_loop-last n left c e = rw e

  blocks_loop-next :
      (n left : ℕ) (c : Check)
      → leb n (next_block (check_block t c)).block_id ≡ false
      → blocks_loop n (suc left) t c ≡ blocks_loop n left t (next_block (check_block t c))
  unfolding blocks_loop
  blocks_loop-next n left c e = rw e

  -- With a table of zeros and ones, a bitmap of bytes and block numbers from 1 that fit 32 bits,
  -- the loop of `pass4` over the blocks of a group ends at the first block behind the group or the
  -- file system, the bits of the blocks that it has passed are those of the table, and all others
  -- are as before.
  pub blocks_loop-Corrected :
      (n left : ℕ) (c : Check)
      → IsBytes c.bitmap
      → 1 ≤ c.block_id
      → c.block_id + left < 2 ^ 32
      → ((blocks_loop n left t c).block_id ≡ blocks_end n left c.block_id)
        × Corrected t c.bitmap c.block_id
            (blocks_end n left c.block_id)
            (blocks_loop n left t c).bitmap
  blocks_loop-Corrected n zero c h lo hi = unfold blocks_loop blocks_end in (refl, Corrected-refl h)
  blocks_loop-Corrected n (suc left) c h lo hi =
      let step = check_block-Corrected c h (omega arith) in
      let id = next_block-block_id c (omega arith) in
      let c' = next_block (check_block t c) in
      let after = blocks_loop n left t c' in
      let ih =
        subst
          (λ (b : ℕ).
            (after.block_id ≡ blocks_end n left b)
            × Corrected t c'.bitmap b (blocks_end n left b) after.bitmap)
          id
          (blocks_loop-Corrected n left (next_block (check_block t c)) step.bytes
            (omega (arith, id)) (omega (arith, id))) in
      elim (Bool-cases (leb n (c.block_id + 1))) [
        | inl e ↦
            rw (blocks_loop-last n left c (ap (leb n) id ∙ e), blocks_end-last n left c.block_id e)
              (id, step)
        | inr e ↦
            rw (blocks_loop-next n left c (ap (leb n) id ∙ e), blocks_end-next n left c.block_id e)
              (
                ih.0,
                Corrected-trans (omega arith) ((blocks_end_bounds n left (c.block_id + 1)).0) step
                    ih.1,
              )
      ]
