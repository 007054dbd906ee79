-- ===== src/Correct/Links/References.antt =====
-- `directory_traversor` against a traversal that lists the references that it meets.
use my_fsck.Base.{
  ℕ, zero, suc, ◌+◌, ◌%◌, ◌≤◌, ◌≡◌, arith, List, [], ◌∷◌, ◌++◌, count, Bool, true, false, not, ◌&&◌,
  ◌||◌, none, some, ltb, leb, ◌==◌, if◌then◌else◌, Bool-cases, Option-cases, inl, inr,
}
use my_fsck.Machine.Memory.{Bytes, set_byte}
use my_fsck.Machine.State.{Fsck, DirEntry}
use my_fsck.Machine.Run.{
  M, Run, Stop, Keeps, kept, ended, ok, stop, out_of_fuel, pure, halt, gets, require, and_then,
  ◌>>=◌, ◌>>◌,
}
use my_fsck.Disk.{read_block}
use my_fsck.Disk.Reads.{read_block-Keeps}
use my_fsck.Inode.Keeps.{read_inode-Keeps}
use my_fsck.Inode.{read_inode}
use my_fsck.Dir.{read_dir_entry_in_block}
use my_fsck.Correct.Pass1.{dir_type}
use my_fsck.Correct.Links.{
  calloc, bump, traverse_entry, traverse_entries, traverse_blocks, directory_traversor,
}

-- The same walk, with the inode numbers of the entries in a list, in the order in which they are
-- met.
unfoldable pub list_entry : (List ℕ → ℕ → M (List ℕ)) → Bool → ℕ → DirEntry → List ℕ → M (List ℕ)
list_entry visit first index entry refs = do
  inodes ← gets (λ s. s.super_block.s_inodes_count)
  require (leb entry.inode inodes)
  if (not first || leb 2 index) && entry.file_type == dir_type
      then visit (refs ++ (entry.inode ∷ [])) entry.inode
      else pure (refs ++ (entry.inode ∷ []))

unfoldable pub list_entries :
    (List ℕ → ℕ → M (List ℕ))
    → (rounds : ℕ) → Bool
    → (offset index : ℕ) → Bytes
    → List ℕ
    → M (List ℕ)
list_entries visit zero first offset index dir_block refs = halt out_of_fuel
list_entries visit (suc rounds) first offset index dir_block refs = do
  block_size ← gets (λ s. s.block_size)
  if ltb offset block_size
      then (elim (read_dir_entry_in_block dir_block offset) [
        | none ↦ pure refs
        | some entry ↦ do
          refs' ← list_entry visit first index entry refs
          list_entries visit rounds first (offset + entry.rec_len) (index + 1) dir_block refs'
      ])
      else pure refs

unfoldable pub list_blocks : (List ℕ → ℕ → M (List ℕ)) → Bool → List ℕ → List ℕ → M (List ℕ)
list_blocks visit first [] refs = pure refs
list_blocks visit first (block_id ∷ blocks) refs = if block_id == 0 then pure refs else do
  block_size ← gets (λ s. s.block_size)
  stray ← gets (λ s. s.stray)
  dir_block ← read_block block_id block_size stray
  refs' ← list_entries visit (block_size + 1) first 0 0 dir_block refs
  list_blocks visit false blocks refs'

unfoldable pub references : ℕ → List ℕ → ℕ → M (List ℕ)
references zero refs inode_num = halt out_of_fuel
references (suc depth) refs inode_num = do
  inode ← read_inode inode_num
  list_blocks (references depth) true inode.i_block refs

-- The table holds the number of references to each inode up to `n`, modulo 256.
abbrev pub Counts : ℕ → List ℕ → Bytes → Type 0
Counts n refs table = (x : ℕ) → x ≤ n → table x ≡ count x refs % 256

-- Both runs end in the same way and change nothing, and a table counts its list.
pub data Agree (s : Fsck) : Run (List ℕ) → Run Bytes → Type 0 where
  both :
      {refs : List ℕ} {table : Bytes}
      → Counts s.super_block.s_inodes_count refs table
      → Agree s (ok refs s) (ok table s)
  neither : {e : Stop} → Agree s (stop e s) (stop e s)

-- Two visits of a directory that agree.
abbrev Visits : Fsck → (List ℕ → ℕ → M (List ℕ)) → (Bytes → ℕ → M Bytes) → Type 0
Visits s f g =
    (refs : List ℕ) (table : Bytes) (i : ℕ)
    → Counts s.super_block.s_inodes_count refs table
    → Agree s (f refs i s) (g table i s)

module _ {s : Fsck} (k : List ℕ → M (List ℕ)) (k' : Bytes → M Bytes) where
  Agree-bind :
      {r : Run (List ℕ)} {r' : Run Bytes}
      → Agree s r r'
      → ((refs : List ℕ) (table : Bytes)
          → Counts s.super_block.s_inodes_count refs table
          → Agree s (k refs s) (k' table s))
      → Agree s (and_then r k) (and_then r' k')
  Agree-bind (both c) next = next _ _ c
  Agree-bind neither next = neither

-- A step that both make and that changes nothing.
Agree-shared :
    {A : Type 0} {s : Fsck} {r : Run A} (k : A → M (List ℕ)) (k' : A → M Bytes)
    → Keeps s r
    → ((a : A) → Agree s (k a s) (k' a s))
    → Agree s (and_then r k) (and_then r k')
Agree-shared k k' kept next = next _
Agree-shared k k' ended next = neither

count-append : (x : ℕ) (xs ys : List ℕ) → count x (xs ++ ys) ≡ count x xs + count x ys
count-append x [] ys = omega arith
count-append x (y ∷ xs) ys = omega (arith, count-append x xs ys)

Counts-bump :
    (n : ℕ) (refs : List ℕ) (table : Bytes) (i : ℕ)
    → Counts n refs table
    → Counts n (refs ++ (i ∷ [])) (bump table i)
unfolding bump set_byte
Counts-bump n refs table i h x le = ground (arith, h x le, count-append x refs (i ∷ []))

module _ (s : Fsck) (f : List ℕ → ℕ → M (List ℕ)) (g : Bytes → ℕ → M Bytes)
    (visits : Visits s f g) where
  abbrev n : ℕ
  n = s.super_block.s_inodes_count

  traverse_entry-Agree :
      (first : Bool) (index : ℕ) (entry : DirEntry) (refs : List ℕ) (table : Bytes)
      → Counts n refs table
      → Agree s (list_entry f first index entry refs s) (traverse_entry g first index entry table s)
  unfolding list_entry traverse_entry
  traverse_entry-Agree first index entry refs table c = elim (Bool-cases (leb entry.inode n)) [
    | inr out ↦ rw out neither
    | inl fits ↦
        rw fits (elim (Bool-cases ((not first || leb 2 index) && entry.file_type == dir_type)) [
          | inl deeper ↦ rw deeper (visits _ _ entry.inode (Counts-bump n refs table entry.inode c))
          | inr flat ↦ rw flat (both (Counts-bump n refs table entry.inode c))
        ])
  ]

  traverse_entries-Agree :
      (rounds : ℕ) (first : Bool) (offset index : ℕ) (block : Bytes) (refs : List ℕ) (table : Bytes)
      → Counts n refs table
      → Agree s
          (list_entries f rounds first offset index block refs s)
          (traverse_entries g rounds first offset index block table s)
  unfolding list_entries traverse_entries
  traverse_entries-Agree zero first offset index block refs table c = neither
  traverse_entries-Agree (suc rounds) first offset index block refs table c =
      elim (Bool-cases (ltb offset s.block_size)) [
        | inr past ↦ rw past (both c)
        | inl inside ↦ rw inside (elim (Option-cases (read_dir_entry_in_block block offset)) [
          | inl free ↦ rw free (both c)
          | inr (entry, used) ↦ rw used (
              Agree-bind _ _ (traverse_entry-Agree first index entry refs table c)
                (λ refs' table' c'.
                  traverse_entries-Agree rounds first (offset + entry.rec_len) (index + 1) block
                    refs' table' c'))
        ])
      ]

  traverse_blocks-Agree :
      (blocks : List ℕ) (first : Bool) (refs : List ℕ) (table : Bytes)
      → Counts n refs table
      → Agree s (list_blocks f first blocks refs s) (traverse_blocks g first blocks table s)
  unfolding list_blocks traverse_blocks
  traverse_blocks-Agree [] first refs table c = both c
  traverse_blocks-Agree (b ∷ blocks) first refs table c = elim (Bool-cases (b == 0)) [
    | inl end ↦ rw end (both c)
    | inr used ↦ rw used (
        Agree-shared _ _ (read_block-Keeps b s.block_size s.stray s) (λ block.
          Agree-bind _ _ (traverse_entries-Agree (s.block_size + 1) first 0 0 block refs table c)
            (λ refs' table' c'. traverse_blocks-Agree blocks false refs' table' c')))
  ]

directory_traversor-Agree :
    (s : Fsck) (depth : ℕ) → Visits s (references depth) (directory_traversor depth)
unfolding references directory_traversor
directory_traversor-Agree s zero refs table i c = neither
directory_traversor-Agree s (suc depth) refs table i c =
    Agree-shared _ _ (read_inode-Keeps i s) (λ inode.
      traverse_blocks-Agree s (references depth) (directory_traversor depth)
        (directory_traversor-Agree s depth) inode.i_block true refs table c)

-- From an empty table `directory_traversor` ends as the traversal that lists the references does,
-- with the same stop if it stops, changes nothing in the state, and if it returns, its table holds
-- for every inode number up to `s_inodes_count` the number of listed references to it, modulo 256.
pub directory_traversor-references :
    (s : Fsck) (depth inode_num : ℕ)
    → Agree s
        (references depth [] inode_num s)
        (directory_traversor depth (calloc s.stray (s.super_block.s_inodes_count + 1)) inode_num s)
directory_traversor-references s depth inode_num =
    directory_traversor-Agree s depth [] _ inode_num (λ x le. ground arith)
