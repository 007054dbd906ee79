-- ===== src/Correct/Pass4/Tables.antt =====
-- The loop of `pass4` over the inode tables.
use my_fsck.Base.{
  ℕ, zero, suc, ◌+◌, ◌^◌, ◌≤◌, ◌<◌, ◌≡◌, refl, arith, u32, ap, ◌∙◌, ◌==◌, leb, ltb, ◌&&◌, ◌||◌,
  if◌then◌else◌, Bool, false, Bool-cases, inl, inr, ==→ne,
}
use my_fsck.Machine.Memory.{IsBytes}
use my_fsck.Machine.State.{Fsck}
use my_fsck.SuperBlock.{read_group_desc}
use my_fsck.Inode.{get_group_inode_block_num}
use my_fsck.DataBlock.{get_block_alloc_bit}
use my_fsck.DataBlock.Flip.{IsBlock, alloc_bit-fix, fix-IsBytes}
use my_fsck.Correct.Pass4.{Check, correct_bit, table_loop, tables_loop}
use my_fsck.Correct.Pass4.Blocks.{alloc_bit-le}

-- What the loop does with block `b`.
abbrev pub set_bit : Check → ℕ → Check
set_bit c b =
    let c' : Check = record c { block_id = b } in
    if get_block_alloc_bit c'.bitmap c'.block_id == 1 then c' else correct_bit c'

set_bit-lem :
    (c : Check) (b : ℕ)
    → IsBytes c.bitmap
    → IsBlock b
    → IsBytes (set_bit c b).bitmap
      × ((x : ℕ)
          → IsBlock x
          → get_block_alloc_bit (set_bit c b).bitmap x
            ≡ (if b == x then 1 else get_block_alloc_bit c.bitmap x))
unfolding correct_bit
set_bit-lem c b h hb = elim (Bool-cases (get_block_alloc_bit c.bitmap b == 1)) [
  | inl e ↦ rw e (h, λ x hx. ground (arith, ap (get_block_alloc_bit c.bitmap) {x = b} {y = x}))
  | inr e ↦ rw e (
    fix-IsBytes c.bitmap b h,
    λ x hx.
        ground (arith, alloc_bit-fix c.bitmap b x h hb hx, alloc_bit-le c.bitmap b, ==→ne _ _ e),
  )
]

join :
    (start j left x b c : ℕ)
    → start + j + suc left < 2 ^ 32
    → b ≡ (if u32 (start + j) == x then 1 else c)
    → (if leb (start + (j + 1)) x && ltb x (start + (j + 1) + left) then 1 else b)
      ≡ (if leb (start + j) x && ltb x (start + j + suc left) then 1 else c)
join start j left x b c lt h = ground arith

table_loop-bit :
    (left start j : ℕ) (c : Check)
    → IsBytes c.bitmap
    → 1 ≤ start
    → start + j + left < 2 ^ 32
    → IsBytes (table_loop left start j c).bitmap
      × ((x : ℕ)
          → IsBlock x
          → get_block_alloc_bit (table_loop left start j c).bitmap x ≡ (
              if leb (start + j) x && ltb x (start + j + left)
              then 1
              else get_block_alloc_bit c.bitmap x))
unfolding table_loop
table_loop-bit zero start j c h lo hi = (h, λ x hx. ground arith)
table_loop-bit (suc left) start j c h lo hi =
    let step = set_bit-lem c (u32 (start + j)) h (omega arith) in
    let ih =
      table_loop-bit left start (j + 1) (set_bit c (u32 (start + j))) step.0 lo (omega arith) in
    (ih.0, λ x hx. ih.1 x hx ∙ join start j left x _ _ hi (step.1 x hx))

-- Whether block `x` is one of the inode table of group `i`.
unfoldable pub in_table : Fsck → ℕ → ℕ → Bool
in_table s i x =
    let start = (read_group_desc s i).bg_inode_table in
    leb start x && ltb x (start + get_group_inode_block_num s)

-- Whether it is one of the tables of the `left` groups from `i` on.
unfoldable pub in_tables : ℕ → ℕ → Fsck → ℕ → Bool
in_tables zero i s x = false
in_tables (suc left) i s x = in_table s i x || in_tables left (i + 1) s x

-- The table of the group is no block 0, and its blocks have numbers of 32 bits.
abbrev pub TableFits : Fsck → ℕ → Type 0
TableFits s i =
    (1 ≤ (read_group_desc s i).bg_inode_table)
    × ((read_group_desc s i).bg_inode_table + get_group_inode_block_num s < 2 ^ 32)

one_table :
    (s : Fsck) (i : ℕ) (c : Check)
    → IsBytes c.bitmap
    → TableFits s i
    → (let c' =
          table_loop (get_group_inode_block_num s) ((read_group_desc s i).bg_inode_table) 0 c in
        IsBytes c'.bitmap
        × ((x : ℕ)
            → IsBlock x
            → get_block_alloc_bit c'.bitmap x
              ≡ (if in_table s i x then 1 else get_block_alloc_bit c.bitmap x)))
unfolding in_table
one_table s i c h fits =
    let r =
      table_loop-bit (get_group_inode_block_num s) ((read_group_desc s i).bg_inode_table) 0 c h
        fits.0 (omega arith) in
    (r.0, λ x hx. ground (arith, r.1 x hx))

either :
    (p q : Bool) (b c : ℕ)
    → b ≡ (if p then 1 else c)
    → (if q then 1 else b) ≡ (if p || q then 1 else c)
either p q b c h = ground arith

-- The blocks of the inode tables are marked, and all others are as before.
pub tables_loop-bit :
    (left i : ℕ) (s : Fsck) (c : Check)
    → IsBytes c.bitmap
    → ((k : ℕ) → i ≤ k → k < i + left → TableFits s k)
    → IsBytes (tables_loop left i s c).bitmap
      × ((x : ℕ)
          → IsBlock x
          → get_block_alloc_bit (tables_loop left i s c).bitmap x
            ≡ (if in_tables left i s x then 1 else get_block_alloc_bit c.bitmap x))
unfolding tables_loop in_tables
tables_loop-bit zero i s c h fits = (h, λ x hx. refl)
tables_loop-bit (suc left) i s c h fits =
    let step = one_table s i c h (fits i (omega arith) (omega arith)) in
    let c' = table_loop (get_group_inode_block_num s) ((read_group_desc s i).bg_inode_table) 0 c in
    let ih =
      tables_loop-bit left (i + 1) s c' step.0 (λ k p q. fits k (omega arith) (omega arith)) in
    (
      ih.0,
      λ x hx. ih.1 x hx ∙ either (in_table s i x) (in_tables left (i + 1) s x) _ _ (step.1 x hx),
    )
