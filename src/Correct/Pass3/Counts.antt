-- ===== src/Correct/Pass3/Counts.antt =====
-- Pass 3 in terms of the references that the directories hold.
use my_fsck.Base.{
  ℕ, ◌+◌, ◌%◌, ◌^◌, ◌≤◌, ◌≡◌, refl, arith, List, [], ap, ◌∙◌, count, ltb, if◌then◌else◌,
}
use my_fsck.Machine.Memory.{Bytes}
use my_fsck.Machine.State.{Fsck, Inode}
use my_fsck.Machine.Run.{Run, ok, stop}
use my_fsck.Inode.Read.{inode_at}
use my_fsck.Correct.Links.References.{
  Agree, both, neither, Counts, references, directory_traversor-references,
}
use my_fsck.Correct.Links.{calloc, directory_traversor}
use my_fsck.Correct.LostFound.{root_inode_num}
use my_fsck.Correct.Pass3.{char_to_u32, pass3}
use my_fsck.Correct.Pass3.Change.{InodesOnDisk, with_count}
use my_fsck.Correct.Pass3.Fixed.{pass3-LinksFixed}

-- What is stored for `c` references: they are counted modulo 256 in a signed `char`.
abbrev pub stored_count : ℕ → ℕ
stored_count c = if ltb (c % 256) 128 then c % 256 else 65280 + c % 256

abbrev Outcome : Fsck → Run (List ℕ) → Run Bytes → Type 0
Outcome s (ok refs s') r =
    (table : Bytes) × (r ≡ ok table s') × Counts s.super_block.s_inodes_count refs table
Outcome s (stop e s') r = Unit

Agree-Outcome : {s : Fsck} {q : Run (List ℕ)} {r : Run Bytes} → Agree s q r → Outcome s q r
Agree-Outcome (both c) = (_, refl, c)
Agree-Outcome neither = tt

-- The table of `directory_traversor` where the references can be listed.
pub counting_table :
    (depth : ℕ) (s : Fsck) (refs : List ℕ)
    → references depth [] root_inode_num s ≡ ok refs s
    → (table : Bytes) × (directory_traversor depth
          (calloc s.stray (s.super_block.s_inodes_count + 1))
          root_inode_num
          s
        ≡ ok table s)
      × Counts s.super_block.s_inodes_count refs table
counting_table depth s refs walked =
    Agree-Outcome (rw walked at (directory_traversor-references s depth root_inode_num))

pub with_count-stored :
    (inode : Inode) (b c : ℕ)
    → b ≡ c % 256
    → with_count inode b ≡ record inode { i_links_count = stored_count c }
with_count-stored inode b c e = ap (λ (n : ℕ). record inode { i_links_count = n }) stored
  where
    stored : char_to_u32 b % 2 ^ 16 ≡ stored_count c
    stored = unfold char_to_u32 in ground arith

-- If the inodes 1 to `s_inodes_count` stand on the disk, apart from one another, and the walk from
-- the root lists the references `refs`, then `pass3` succeeds, and each of these inodes has as
-- link count the number of its references modulo 256, with 65280 added where that is 128 or more;
-- all else in these inodes is as before.
pub pass3-references :
    (depth : ℕ) (s : Fsck) (refs : List ℕ)
    → InodesOnDisk s s.super_block.s_inodes_count
    → references depth [] root_inode_num s ≡ ok refs s
    → (s' : Fsck) × (pass3 depth s ≡ ok tt s')
      × ((j : ℕ)
          → 1 ≤ j
          → j ≤ s.super_block.s_inodes_count
          → inode_at s' j ≡ record (inode_at s j) { i_links_count = stored_count (count j refs) })
pass3-references depth s refs h walked =
    let t = counting_table depth s refs walked in
    let r = pass3-LinksFixed depth s t.0 h t.1 in
    (
      r.0,
      r.1,
      λ j one le.
          r.2.fixed j one le one (omega arith)
          ∙ with_count-stored (inode_at s j) (t.0 j) (count j refs) (t.2 j le),
    )
