-- ===== src/Correct/Pass1/Listed.antt =====
-- The blocks of the directories that pass 1 goes through, as a list.
use mathlib.Core.Option.{some-injective, none-ne-some}
use my_fsck.Base.{
  u16, ℕ, zero, suc, ◌+◌, ◌≡◌, ap, ◌∙◌, if◌then◌else◌, List, Bool, true, false, not, ◌==◌, ◌&&◌,
  ◌||◌, [], ◌∷◌, ◌++◌, leb, ltb, Bool-cases, inl, inr, Option, none, some,
}
use my_fsck.Machine.Memory.{Bytes}
use my_fsck.Util.{parse_bytes_to_decimal_u}
use my_fsck.Machine.State.{Fsck, Image, DirEntry}
use my_fsck.Disk.{read_bytes}
use my_fsck.Disk.Blocks.{block_address}
use my_fsck.Inode.Read.{inode_at}
use my_fsck.Dir.{read_dir_entry_in_block}
use my_fsck.Correct.FileBlocks.Tree.{both_lists, both_lists-parts}
use my_fsck.Correct.Pass1.{dir_type}

-- The first two entries of a block, where they are directories, name the directory and its parent.
unfoldable pub names_right : (parent num count : ℕ) → DirEntry → Bool
names_right parent num count e =
    if e.file_type == dir_type
    then (if count == 0 then e.inode == num else (if count == 1 then e.inode == parent else true))
    else true

-- An entry has a length of at least 8, and its inode number is within the block.
unfoldable pub fits_block : (block_size offset : ℕ) → DirEntry → Bool
fits_block block_size offset e = leb 8 e.rec_len && leb (offset + 4) block_size

-- What the entries of a block lead to. If `strict`, the first two have to be right.
unfoldable pub entries_listed :
    (ℕ → ℕ → Option (List ℕ))
    → Bool
    → (block_size rounds parent num offset count : ℕ) → Bytes
    → Option (List ℕ)
entries_listed visit strict block_size zero parent num offset count m = none
entries_listed visit strict block_size (suc rounds) parent num offset count m =
    elim (ltb offset block_size) [
      | false ↦ some []
      | true ↦ elim (read_dir_entry_in_block m offset) [
        | none ↦ some []
        | some e ↦
            if fits_block block_size offset e && (not strict || names_right parent num count e)
            then both_lists
                (if e.file_type == dir_type && leb 2 count then visit num e.inode else some [])
                (entries_listed visit strict block_size rounds parent num (offset + e.rec_len)
                  (count + 1) m)
            else none
      ]
    ]

-- The bytes of a block in an image, as they are read.
abbrev pub block_of : Fsck → Image → ℕ → Bytes
block_of s img b = read_bytes img (block_address s b) s.block_size s.stray

-- The length of the first entry of a block.
unfoldable pub first_len : Bytes → ℕ
first_len m = u16 (parse_bytes_to_decimal_u m 4 2)

unfoldable pub starts_as : ℕ → Bytes → Bool
starts_as n m = leb 8 n && first_len m == n

-- The blocks of a directory up to the number 0, each with what its entries lead to. The first entries
-- have the lengths that `first` tells of the blocks.
unfoldable pub blocks_listed :
    Fsck
    → (ℕ → ℕ)
    → Image
    → (ℕ → ℕ → Option (List ℕ))
    → Bool
    → (parent num : ℕ) → List ℕ
    → Option (List ℕ)
blocks_listed s first img visit strict parent num [] = some []
blocks_listed s first img visit strict parent num (b ∷ blocks) = elim (b == 0) [
  | true ↦ some []
  | false ↦
      if starts_as (first b) (block_of s img b)
      then both_lists (some (b ∷ [])) (
          both_lists
            (entries_listed visit strict s.block_size (s.block_size + 1) parent num 0 0
              (block_of s img b))
            (blocks_listed s first img visit strict parent num blocks))
      else none
]

-- The blocks of the directories below an inode: the directories in the image, the inodes in the
-- state. There is no list if they are nested deeper than `depth`, an inode number is 0 or beyond the
-- inodes, an entry does not fit, or the first entry of a block has not the length that `first` tells.
unfoldable pub dirs_listed :
    Fsck → (ℕ → ℕ) → Image → Bool → (depth parent num : ℕ) → Option (List ℕ)
dirs_listed s first img strict zero parent num = none
dirs_listed s first img strict (suc depth) parent num =
    if leb 1 num && leb num s.super_block.s_inodes_count
    then blocks_listed s first img (dirs_listed s first img strict depth) strict parent num
        (inode_at s num).i_block
    else none

-- What is listed of a block and what is listed of the blocks behind it.
pub block_parts :
    (s : Fsck) (first : ℕ → ℕ) (img : Image) (visit : ℕ → ℕ → Option (List ℕ)) (strict : Bool)
    (parent num b : ℕ) (blocks l : List ℕ)
    → (b == 0) ≡ false
    → blocks_listed s first img visit strict parent num (b ∷ blocks) ≡ some l
    → (xs : List ℕ) × (ys : List ℕ) × (entries_listed visit strict s.block_size
          (s.block_size + 1)
          parent
          num
          0
          0
          (block_of s img b)
        ≡ some xs)
      × (blocks_listed s first img visit strict parent num blocks ≡ some ys)
      × (b ∷ (xs ++ ys) ≡ l)
      × (starts_as (first b) (block_of s img b) ≡ true)
unfolding blocks_listed
block_parts s first img visit strict parent num b blocks l more e =
    elim (Bool-cases (starts_as (first b) (block_of s img b))) [
      | inr bad ↦ absurd (none-ne-some l (rw (more, bad, blocks_listed) at e))
      | inl good ↦
          let own =
            entries_listed visit strict s.block_size (s.block_size + 1) parent num 0 0
              (block_of s img b) in
          let rest = blocks_listed s first img visit strict parent num blocks in
          let outer =
            both_lists-parts (some (b ∷ [])) (both_lists own rest) l
              (rw (more, good, blocks_listed) at e) in
          let inner = both_lists-parts own rest outer.1 outer.3 in
          (
            inner.0,
            inner.1,
            inner.2,
            inner.3,
            ap (λ (bs : List ℕ). b ∷ bs) inner.4
                ∙ ap (λ (bs : List ℕ). bs ++ outer.1) (some-injective (b ∷ []) outer.0 outer.2)
                ∙ outer.4,
            good,
          )
    ]
