-- ===== src/Correct/Pass4/Right.antt =====
-- A bitmap that is right is left alone by pass 4.
use mathlib.Core.Bool.{true≢false, false≢true}
use my_fsck.Base.{
  or-left, or-right, ℕ, zero, suc, ◌+◌, ◌-◌, ◌*◌, ◌%◌, ◌^◌, ◌≤◌, ◌<◌, ◌≡◌, refl, sym, ap, ◌∙◌,
  arith, u32, true, false, Bool-cases, inl, inr, ltb, leb, ◌&&◌, eq→==, [], ltb→lt, ltb→le,
}
use my_fsck.Machine.Memory.{Bytes}
use my_fsck.Machine.State.{Fsck}
use my_fsck.Machine.Run.{ok}
use my_fsck.SuperBlock.{read_group_desc}
use my_fsck.Inode.{get_group_inode_block_num}
use my_fsck.DataBlock.{get_block_alloc_bit, get_block_group_num, get_block_bitmap_in_partition}
use my_fsck.Correct.Links.{calloc}
use my_fsck.Correct.LostFound.{root_inode_num}
use my_fsck.Correct.FileBlocks.{get_true_block_bitmap}
use my_fsck.Correct.Pass4.{
  Check, check_block, blocks_loop, groups_loop, table_loop, tables_loop, check_bitmap,
  get_skip_block_num_in_group, report_blocks, pass4,
}
use my_fsck.Correct.Pass4.Blocks.{blocks_end, blocks_end-last, blocks_end-next, blocks_end_bounds}
use my_fsck.Correct.Pass4.Groups.{checked, checked-mod, checked_below, blocks_end-min}
use my_fsck.Correct.Pass4.Tables.{in_table, in_tables}
use my_fsck.Correct.Pass4.Whole.{HasGroups}

-- The variables of the loops, with no block reported.
abbrev unreported : Bytes → ℕ → Check
unreported m b = record { bitmap = m; block_id = b; found_error = false; reported = [] }

module _ (t m : Bytes) where
  check_block-right :
      (b : ℕ) → t b ≡ get_block_alloc_bit m b → check_block t (unreported m b) ≡ unreported m b
  unfolding check_block
  check_block-right b h = rw (eq→== (t b) (get_block_alloc_bit m b) h) refl

  blocks_loop-right :
      (n left b : ℕ)
      → ((x : ℕ) → b ≤ x → x < blocks_end n left b → t x ≡ get_block_alloc_bit m x)
      → b + left < 2 ^ 32
      → blocks_loop n left t (unreported m b) ≡ unreported m (blocks_end n left b)
  unfolding blocks_loop
  blocks_loop-right n zero b h small = unfold blocks_end in refl
  blocks_loop-right n (suc left) b h small =
      let next : u32 (b + 1) ≡ b + 1 = omega arith in
      elim (Bool-cases (leb n (b + 1))) [
        | inl e ↦
            let last = blocks_end-last n left b e in
            rw (check_block-right b (h b (omega arith) (omega (arith, last))), next, e, last) refl
        | inr e ↦
            let rest = blocks_end-next n left b e in
            let range = blocks_end_bounds n left (b + 1) in
            rw (check_block-right b (h b (omega arith) (omega (arith, rest, range))), next, e, rest)
              (blocks_loop-right n left (b + 1) (λ x p q. h x (omega arith) (omega (arith, rest)))
                (omega arith))
      ]

  groups_loop-right :
      (n bpg skip left b : ℕ)
      → ((x : ℕ) → checked n bpg skip left b x ≡ true → t x ≡ get_block_alloc_bit m x)
      → skip ≤ bpg
      → b + left * bpg < 2 ^ 32
      → (b' : ℕ) × (groups_loop n bpg skip left t (unreported m b) ≡ unreported m b')
  unfolding groups_loop checked
  groups_loop-right n bpg skip zero b h hs small = (b, refl)
  groups_loop-right n bpg skip (suc left) b h hs small =
      let e = blocks_end n (bpg - skip) (b + skip) in
      let range = blocks_end_bounds n (bpg - skip) (b + skip) in
      let first : u32 (b + skip) ≡ b + skip = omega arith in
      let rest =
        groups_loop-right n bpg skip left e
          (λ x c. h x (or-right (leb (b + skip) x && ltb x e) _ c)) hs (omega (arith, range)) in
      let group =
        blocks_loop-right n (bpg - skip) (b + skip)
          (λ x p q. h x (or-left (leb (b + skip) x && ltb x e) _ (ground arith))) (omega arith) in
      (
        rest.0,
        ap (groups_loop n bpg skip left t)
              (ap (λ (k : ℕ). blocks_loop n (bpg - skip) t (unreported m k)) first ∙ group)
            ∙ rest.1,
      )

  table_loop-next :
      (left start j b : ℕ)
      → start + j < 2 ^ 32
      → get_block_alloc_bit m (start + j) ≡ 1
      → table_loop (suc left) start j (unreported m b)
        ≡ table_loop left start (j + 1) (unreported m (start + j))
  unfolding table_loop
  table_loop-next left start j b small set =
      let place : u32 (start + j) ≡ start + j = omega arith in
      rw (place, eq→== (get_block_alloc_bit m (start + j)) 1 set) refl

  table_loop-right :
      (left start j b : ℕ)
      → ((x : ℕ) → start + j ≤ x → x < start + j + left → get_block_alloc_bit m x ≡ 1)
      → start + j + left < 2 ^ 32
      → (b' : ℕ) × (table_loop left start j (unreported m b) ≡ unreported m b')
  unfolding table_loop
  table_loop-right zero start j b h small = (b, refl)
  table_loop-right (suc left) start j b h small =
      let rest =
        table_loop-right left start (j + 1) (start + j) (λ x p q. h x (omega arith) (omega arith))
          (omega arith) in
      (
        rest.0,
        table_loop-next left start j b (omega arith) (h (start + j) (omega arith) (omega arith))
            ∙ rest.1,
      )

  tables_loop-right :
      (left i : ℕ) (s : Fsck) (b : ℕ)
      → ((x : ℕ) → in_tables left i s x ≡ true → get_block_alloc_bit m x ≡ 1)
      → ((k : ℕ)
          → i ≤ k
          → k < i + left
          → (read_group_desc s k).bg_inode_table + get_group_inode_block_num s < 2 ^ 32)
      → (b' : ℕ) × (tables_loop left i s (unreported m b) ≡ unreported m b')
  unfolding tables_loop in_tables in_table
  tables_loop-right zero i s b h fits = (b, refl)
  tables_loop-right (suc left) i s b h fits =
      let start = (read_group_desc s i).bg_inode_table in
      let count = get_group_inode_block_num s in
      let small = fits i (omega arith) (omega arith) in
      let table =
        table_loop-right count start 0 b
          (λ x p q. h x (or-left (leb start x && ltb x (start + count)) _ (ground arith)))
          (omega arith) in
      let rest =
        tables_loop-right left (i + 1) s table.0
          (λ x c. h x (or-right (leb start x && ltb x (start + count)) _ c))
          (λ k p q. fits k (omega arith) (omega arith)) in
      (rest.0, rw table.1 rest.1)

-- The loop looks at no block behind the last one.
pub checked-lt :
    (n bpg skip left b x : ℕ)
    → skip < bpg
    → b + left * bpg + skip < n + bpg
    → checked n bpg skip left b x ≡ true
    → x < n
unfolding checked
checked-lt n bpg skip zero b x hs last h = absurd (false≢true h)
checked-lt n bpg skip (suc left) b x hs last h =
    let e = blocks_end n (bpg - skip) (b + skip) in
    let end = blocks_end-min n (bpg - skip) (b + skip) (omega arith) in
    elim (Bool-cases (leb (b + skip) x && ltb x e)) [
      | inl here ↦ ground (arith, end)
      | inr later ↦
          checked-lt n bpg skip left e x hs
            (omega (arith, blocks_end_bounds n (bpg - skip) (b + skip))) (rw later at h)
    ]

-- The bits that `pass4` compares are right: behind the reserved blocks of a group those of the
-- table, and 1 in the inode tables.
pub record BitsRight (s : Fsck) (t m : Bytes) : Type 0 where
  pub in_groups :
      (x : ℕ)
      → 1 ≤ x
      → x < s.super_block.s_blocks_count
      → get_skip_block_num_in_group s ≤ (x - 1) % s.super_block.s_blocks_per_group
      → t x ≡ get_block_alloc_bit m x
  pub in_tables_set :
      (x : ℕ) → in_tables (get_block_group_num s) 0 s x ≡ true → get_block_alloc_bit m x ≡ 1

check_bitmap-right :
    (s : Fsck) (t m : Bytes)
    → HasGroups s
    → BitsRight s t m
    → (b : ℕ) × (check_bitmap s t m ≡ unreported m b)
unfolding check_bitmap
check_bitmap-right s t m h right =
    let n = s.super_block.s_blocks_count in
    let bpg = s.super_block.s_blocks_per_group in
    let skip = get_skip_block_num_in_group s in
    let left = get_block_group_num s in
    let groups =
      groups_loop-right t m n bpg skip left 1
        (λ x c.
          let lt = checked-lt n bpg skip left 1 x h.skip_fits h.last_used c in
          let lo : 1 ≤ x = elim (Bool-cases (ltb x 1)) [
            | inl below ↦
                absurd (true≢false (sym c ∙ checked_below n bpg skip left 1 x (ltb→lt x 1 below)))
            | inr above ↦ ltb→le x 1 above
          ] in
          let place = checked-mod n bpg skip left 1 x h.skip_fits lo lt h.covered h.last_used in
          right.in_groups x lo lt (ground (arith, place)))
        (omega (arith, h.skip_fits)) h.numbers_fit in
    let tables =
      tables_loop-right t m left 0 s groups.0 right.in_tables_set
        (λ k p q. (h.tables_fit k (omega arith)).1) in
    (tables.0, rw groups.1 tables.1)

pub pass4-right :
    (depth : ℕ) (s : Fsck) (t m : Bytes)
    → get_block_bitmap_in_partition s ≡ ok m s
    → get_true_block_bitmap depth
        (calloc s.stray (s.super_block.s_blocks_count + 1))
        root_inode_num
        s
      ≡ ok t s
    → HasGroups s
    → BitsRight s t m
    → pass4 depth s ≡ ok tt s
unfolding pass4 report_blocks
pass4-right depth s t m read walked h right =
    rw (read, walked, (check_bitmap-right s t m h right).1) refl
