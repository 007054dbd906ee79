-- ===== src/Correct/Pass4/Groups.antt =====
-- The loop of `pass4` over the groups.
use native.Mathlib.Nat.{mod-eq_of_lt, mod-eq-sub-mod}
use my_fsck.Base.{
  ℕ, zero, suc, ◌+◌, ◌-◌, ◌*◌, ◌%◌, ◌^◌, ◌≤◌, ◌<◌, ◌≡◌, refl, arith, u32, ap, ◌∙◌, leb, ltb, ◌&&◌,
  ◌||◌, if◌then◌else◌, Bool, false, Bool-cases, inl, inr, ltb→lt, ltb→le, le→ltb,
}
use mathlib.Core.Path.{subst}
use my_fsck.Machine.Memory.{Bytes, IsBytes}
use my_fsck.DataBlock.{get_block_alloc_bit}
use my_fsck.DataBlock.Flip.{IsBlock}
use my_fsck.Correct.Pass4.{Check, blocks_loop, groups_loop}
use my_fsck.Correct.Pass4.Blocks.{
  IsFlags, Corrected, blocks_end, blocks_end_bounds, blocks_loop-Corrected,
}

-- Whether the loop over `left` groups from block `b` on looks at block `x`.
unfoldable pub checked : (blocks_count blocks_per_group skip left b x : ℕ) → Bool
checked blocks_count blocks_per_group skip zero b x = false
checked blocks_count blocks_per_group skip (suc left) b x =
    let e = blocks_end blocks_count (blocks_per_group - skip) (b + skip) in
    (leb (b + skip) x && ltb x e) || checked blocks_count blocks_per_group skip left e x

pub Corrected-bit :
    {t old new : Bytes} {b e : ℕ} (x : ℕ)
    → Corrected t old b e new
    → IsBlock x
    → get_block_alloc_bit new x ≡ (if leb b x && ltb x e then t x else get_block_alloc_bit old x)
Corrected-bit {b} {e} x h hx = ground (arith, h.inside x, h.below x, h.above x)

join :
    (p q : Bool) (a b c : ℕ)
    → b ≡ (if p then a else c)
    → (if q then a else b) ≡ (if p || q then a else c)
join p q a b c h = ground arith

-- Every bit that the loop looks at is that of the table, and all others are as before.
pub groups_loop-bit :
    (t : Bytes) (n bpg skip left : ℕ) (c : Check)
    → IsFlags t
    → IsBytes c.bitmap
    → 1 ≤ c.block_id
    → skip ≤ bpg
    → c.block_id + left * bpg < 2 ^ 32
    → IsBytes (groups_loop n bpg skip left t c).bitmap
      × ((x : ℕ)
          → IsBlock x
          → get_block_alloc_bit (groups_loop n bpg skip left t c).bitmap x ≡ (
              if checked n bpg skip left c.block_id x then t x else get_block_alloc_bit c.bitmap x))
unfolding groups_loop checked
groups_loop-bit t n bpg skip zero c flags h lo hs hi = (h, λ x hx. refl)
groups_loop-bit t n bpg skip (suc left) c flags h lo hs hi =
    let c' : Check = record c { block_id = u32 (c.block_id + skip) } in
    let id : c'.block_id ≡ c.block_id + skip = omega arith in
    let d = blocks_loop n (bpg - skip) t c' in
    let e = blocks_end n (bpg - skip) (c.block_id + skip) in
    let step =
      subst
        (λ (b : ℕ).
          (d.block_id ≡ blocks_end n (bpg - skip) b)
          × Corrected t c.bitmap b (blocks_end n (bpg - skip) b) d.bitmap)
        id (blocks_loop-Corrected t flags n (bpg - skip) c' h (omega arith) (omega arith)) in
    let ih =
      groups_loop-bit t n bpg skip left d flags step.1.bytes
        (omega (arith, step.0, blocks_end_bounds n (bpg - skip) (c.block_id + skip))) hs
        (omega (arith, step.0, blocks_end_bounds n (bpg - skip) (c.block_id + skip))) in
    (
      ih.0,
      λ x hx.
          ih.1 x hx
          ∙ ap
              (λ (k : ℕ).
                if checked n bpg skip left k x then t x else get_block_alloc_bit d.bitmap x)
              step.0
          ∙ join (leb (c.block_id + skip) x && ltb x e) (checked n bpg skip left e x) _ _ _
              (Corrected-bit x step.1 hx),
    )

pub blocks_end-min :
    (n left b : ℕ) → b < n → blocks_end n left b ≡ (if ltb n (b + left) then n else b + left)
unfolding blocks_end
blocks_end-min n zero b h = ground arith
blocks_end-min n (suc left) b h = ground (arith, blocks_end-min n left (b + 1))

pub checked_below : (n bpg skip left b x : ℕ) → x < b → checked n bpg skip left b x ≡ false
unfolding checked
checked_below n bpg skip zero b x h = refl
checked_below n bpg skip (suc left) b x h = ground (
  arith,
  blocks_end_bounds n (bpg - skip) (b + skip),
  checked_below n bpg skip left (blocks_end n (bpg - skip) (b + skip)) x,
)

-- Where the last group reaches beyond the blocks that are passed over, the loop looks at exactly
-- the blocks that stand at `skip` or later in their group.
pub checked-mod :
    (n bpg skip left b x : ℕ)
    → skip < bpg
    → b ≤ x
    → x < n
    → n ≤ b + left * bpg
    → b + left * bpg + skip < n + bpg
    → checked n bpg skip left b x ≡ leb skip ((x - b) % bpg)
unfolding checked
checked-mod n bpg skip zero b x hs lo hi cover last = absurd (omega arith)
checked-mod n bpg skip (suc left) b x hs lo hi cover last = elim (Bool-cases (ltb x (b + bpg))) [
  | inl e ↦
      let in_group = ltb→lt x (b + bpg) e in
      let end = blocks_end-min n (bpg - skip) (b + skip) (omega arith) in
      let pos : (x - b) % bpg ≡ x - b = mod-eq_of_lt (omega arith) in
      ground
        (arith, end, pos, checked_below n bpg skip left (blocks_end n (bpg - skip) (b + skip)) x)
  | inr e ↦
      let behind = ltb→le x (b + bpg) e in
      let end : blocks_end n (bpg - skip) (b + skip) ≡ b + bpg =
        ground (arith, blocks_end-min n (bpg - skip) (b + skip)) in
      let pos : (x - b) % bpg ≡ (x - (b + bpg)) % bpg =
        mod-eq-sub-mod {n = x - b} {m = bpg} (omega arith)
        ∙ ap (λ (t : ℕ). t % bpg) (omega arith) in
      let rest : checked n bpg skip left (b + bpg) x ≡ leb skip ((x - (b + bpg)) % bpg) =
        checked-mod n bpg skip left (b + bpg) x hs behind hi (omega arith) (omega arith) in
      rw (end, le→ltb x (b + bpg) behind, rest, pos) (ground arith)
]
