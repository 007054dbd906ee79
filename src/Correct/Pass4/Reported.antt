-- ===== src/Correct/Pass4/Reported.antt =====
-- The blocks that `pass4` reports, and what it leaves alone where it reports none.
use my_fsck.Base.{
  ℕ, zero, suc, ◌+◌, ◌-◌, ◌*◌, ◌/◌, ◌^◌, ◌≤◌, ◌<◌, ◌≡◌, refl, arith, u32, sub32, leb, ◌==◌, List,
  [], ◌∷◌, ◌++◌, false, Bool-cases, inl, inr, lt→ltb,
}
use mathlib.Core.Bool.{true≢false}
use my_fsck.Machine.Memory.{Bytes, IsBytes}
use my_fsck.Machine.State.{Fsck, Message, block_difference}
use my_fsck.Machine.Run.{ok}
use my_fsck.SuperBlock.{read_group_desc}
use my_fsck.Inode.{get_group_inode_block_num}
use my_fsck.DataBlock.{get_block_alloc_bit, get_block_group_num}
use my_fsck.Correct.Pass4.{
  Check, check_bitmap, get_skip_block_num_in_group, correct_bit, check_block, next_block,
  blocks_loop, groups_loop, table_loop, tables_loop, report_blocks,
}
use my_fsck.Correct.Pass4.Blocks.{IsFlags, blocks_end_bounds, blocks_loop-Corrected}
use my_fsck.Correct.Pass4.Tables.{set_bit}

-- The blocks of the list are from 1 up to `limit`.
abbrev pub AllBelow : ℕ → List ℕ → Type 0
AllBelow limit [] = Unit
AllBelow limit (b ∷ blocks) = (1 ≤ b) × (b < limit) × AllBelow limit blocks

AllBelow-add :
    (limit b : ℕ) (blocks : List ℕ)
    → AllBelow limit blocks
    → 1 ≤ b
    → b < limit
    → AllBelow limit (blocks ++ (b ∷ []))
AllBelow-add limit b [] h lo hi = (lo, hi, tt)
AllBelow-add limit b (c ∷ blocks) h lo hi = (h.0, h.1, AllBelow-add limit b blocks h.2 lo hi)

-- The table of the group is no block 0, and ends below `limit`.
abbrev pub TableBelow : Fsck → ℕ → ℕ → Type 0
TableBelow s limit k =
    (1 ≤ (read_group_desc s k).bg_inode_table)
    × ((read_group_desc s k).bg_inode_table + get_group_inode_block_num s ≤ limit)

-- Without an error the bitmap is the one that was read, and only blocks below `limit` are reported.
pub record Tracked (m : Bytes) (limit : ℕ) (c : Check) : Type 0 where
  pub untouched : c.found_error ≡ false → c.bitmap ≡ m
  pub reported_below : AllBelow limit c.reported

module _ (m : Bytes) (limit : ℕ) (small : limit < 2 ^ 32) where
  correct_bit-Tracked :
      (c : Check)
      → Tracked m limit c
      → 1 ≤ c.block_id
      → c.block_id < limit
      → Tracked m limit (correct_bit c)
  unfolding correct_bit
  correct_bit-Tracked c h lo hi = record {
    untouched = λ e. absurd (true≢false e);
    reported_below = AllBelow-add limit c.block_id c.reported h.reported_below lo hi;
  }

  check_block-Tracked :
      (t : Bytes) (c : Check)
      → Tracked m limit c
      → 1 ≤ c.block_id
      → c.block_id < limit
      → Tracked m limit (check_block t c)
  unfolding check_block
  check_block-Tracked t c h lo hi =
      elim (Bool-cases (t c.block_id == get_block_alloc_bit c.bitmap c.block_id)) [
        | inl e ↦ rw e h
        | inr e ↦ rw e (correct_bit-Tracked c h lo hi)
      ]

  renumbered : (c : Check) (b : ℕ) → Tracked m limit c → Tracked m limit (record c { block_id = b })
  renumbered c b h = record { untouched = h.untouched; reported_below = h.reported_below }

  check_block-id : (t : Bytes) (c : Check) → (check_block t c).block_id ≡ c.block_id
  unfolding check_block correct_bit
  check_block-id t c = ground arith

  blocks_loop-Tracked :
      (t : Bytes) (n left : ℕ) (c : Check)
      → Tracked m limit c
      → 1 ≤ c.block_id
      → c.block_id + left ≤ limit
      → Tracked m limit (blocks_loop n left t c)
  unfolding blocks_loop
  blocks_loop-Tracked t n zero c h lo hi = h
  blocks_loop-Tracked t n (suc left) c h lo hi =
      let step =
        renumbered (check_block t c) (u32 ((check_block t c).block_id + 1))
          (check_block-Tracked t c h lo (omega arith)) in
      let c' = next_block (check_block t c) in
      elim (Bool-cases (leb n c'.block_id)) [
        | inl e ↦ rw e step
        | inr e ↦ rw e (
            blocks_loop-Tracked t n left c' step (omega (arith, check_block-id t c))
              (omega (arith, check_block-id t c)))
      ]

  groups_loop-Tracked :
      (t : Bytes) (n bpg skip left : ℕ) (c : Check)
      → IsFlags t
      → IsBytes c.bitmap
      → Tracked m limit c
      → 1 ≤ c.block_id
      → skip ≤ bpg
      → c.block_id + left * bpg ≤ limit
      → Tracked m limit (groups_loop n bpg skip left t c)
  unfolding groups_loop
  groups_loop-Tracked t n bpg skip zero c flags bytes h lo hs hi = h
  groups_loop-Tracked t n bpg skip (suc left) c flags bytes h lo hs hi =
      let c' : Check = record c { block_id = u32 (c.block_id + skip) } in
      let id : c'.block_id ≡ c.block_id + skip = omega arith in
      let d = blocks_loop n (bpg - skip) t c' in
      let group =
        blocks_loop-Corrected t flags n (bpg - skip) c' bytes (omega arith) (omega arith) in
      let range = blocks_end_bounds n (bpg - skip) c'.block_id in
      groups_loop-Tracked t n bpg skip left d flags group.1.bytes
        (blocks_loop-Tracked t n (bpg - skip) c' (renumbered c _ h) (omega arith) (omega arith))
        (omega (arith, group.0, range)) hs (omega (arith, group.0, range))

  set_bit-Tracked :
      (c : Check) (b : ℕ) → Tracked m limit c → 1 ≤ b → b < limit → Tracked m limit (set_bit c b)
  set_bit-Tracked c b h lo hi = elim (Bool-cases (get_block_alloc_bit c.bitmap b == 1)) [
    | inl e ↦ rw e (renumbered c b h)
    | inr e ↦ rw e (correct_bit-Tracked (record c { block_id = b }) (renumbered c b h) lo hi)
  ]

  table_loop-Tracked :
      (left start j : ℕ) (c : Check)
      → Tracked m limit c
      → 1 ≤ start
      → start + j + left ≤ limit
      → Tracked m limit (table_loop left start j c)
  unfolding table_loop
  table_loop-Tracked zero start j c h lo hi = h
  table_loop-Tracked (suc left) start j c h lo hi =
      let c' = set_bit c (u32 (start + j)) in
      table_loop-Tracked left start (j + 1) c'
        (set_bit-Tracked c (u32 (start + j)) h (omega arith) (omega arith)) lo (omega arith)

  tables_loop-Tracked :
      (left i : ℕ) (s : Fsck) (c : Check)
      → ((k : ℕ) → i ≤ k → k < i + left → TableBelow s limit k)
      → Tracked m limit c
      → Tracked m limit (tables_loop left i s c)
  unfolding tables_loop
  tables_loop-Tracked zero i s c fits h = h
  tables_loop-Tracked (suc left) i s c fits h =
      let start = (read_group_desc s i).bg_inode_table in
      let table = fits i (omega arith) (omega arith) in
      tables_loop-Tracked left (i + 1) s _ (λ k p q. fits k (omega arith) (omega arith))
        (table_loop-Tracked (get_group_inode_block_num s) start 0 c h (omega (arith, table))
          (omega (arith, table)))

  -- Both loops.
  pub check_bitmap-Tracked :
      (s : Fsck) (t : Bytes)
      → IsFlags t
      → IsBytes m
      → get_skip_block_num_in_group s ≤ s.super_block.s_blocks_per_group
      → 1 + get_block_group_num s * s.super_block.s_blocks_per_group ≤ limit
      → ((k : ℕ) → k < get_block_group_num s → TableBelow s limit k)
      → Tracked m limit (check_bitmap s t m)
  unfolding check_bitmap
  check_bitmap-Tracked s t flags bytes skip groups tables =
      let start : Check = record { bitmap = m; block_id = 1; found_error = false; reported = [] } in
      tables_loop-Tracked (get_block_group_num s) 0 s _ (λ k p q. tables k (omega arith))
        (groups_loop-Tracked t s.super_block.s_blocks_count s.super_block.s_blocks_per_group
          (get_skip_block_num_in_group s) (get_block_group_num s) start flags bytes
          (record { untouched = λ e. refl; reported_below = tt }) (omega arith) skip groups)

-- The messages are printed, and nothing else happens, if the bits of the blocks lie in the array.
pub report_blocks-ok :
    (size limit : ℕ) (blocks : List ℕ) (s : Fsck)
    → AllBelow limit blocks
    → limit ≤ 8 * size + 1
    → limit < 2 ^ 32
    → (out : List Message) × (report_blocks size blocks s ≡ ok tt (record s { output = out }))
unfolding report_blocks
report_blocks-ok size limit [] s h fits small = (s.output, refl)
report_blocks-ok size limit (b ∷ blocks) s h fits small =
    let s' : Fsck = record s { output = s.output ++ (block_difference b ∷ []) } in
    let rest = report_blocks-ok size limit blocks s' h.2 fits small in
    (rest.0, rw (lt→ltb (sub32 b 1 / 8) size (omega (arith, h.0, h.1))) rest.1)
