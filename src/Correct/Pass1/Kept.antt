-- ===== src/Correct/Pass1/Kept.antt =====
-- What is listed of directories stays the same while the blocks do.
use mathlib.Core.Path.{subst}
use mathlib.Core.Option.{none-ne-some}
use my_fsck.Base.{
  ℕ, zero, suc, ◌+◌, ◌≤◌, ◌<◌, ◌≡◌, refl, arith, ap, sym, if◌then◌else◌, List, Bool, true, false,
  not, ◌==◌, ◌&&◌, ◌||◌, [], ◌∷◌, leb, ltb, ltb→lt, Bool-cases, Option-cases, inl, inr, Option,
  some,
}
use my_fsck.Machine.Memory.{Bytes}
use my_fsck.Machine.State.{Fsck, Image}
use my_fsck.Disk.{read_bytes}
use my_fsck.Disk.Blocks.{block_address}
use my_fsck.Inode.Read.{inode_at}
use my_fsck.Dir.{read_dir_entry_in_block}
use my_fsck.Dir.Codec.{read_dir_entry-same}
use my_fsck.Correct.FileBlocks.Kept.{Each, append-Each}
use my_fsck.Correct.FileBlocks.Tree.{both_lists, both_lists-parts}
use my_fsck.Correct.Pass1.{dir_type}
use my_fsck.Correct.Pass1.Listed.{
  names_right, fits_block, entries_listed, block_of, blocks_listed, block_parts, dirs_listed,
}

-- The two images have the same bytes in the block.
abbrev pub IsSameBlock : Fsck → Image → Image → ℕ → Type 0
IsSameBlock s img img' b =
    (k : ℕ)
    → k < s.block_size
    → img'.byte (block_address s b + k) ≡ img.byte (block_address s b + k)

-- The entries from `offset` on depend on the bytes from there on.
pub entries_listed-same :
    (visit : ℕ → ℕ → Option (List ℕ)) (strict : Bool) (bs rounds parent num offset count : ℕ)
    (m m' : Bytes)
    → ((j : ℕ) → offset ≤ j → m j ≡ m' j)
    → entries_listed visit strict bs rounds parent num offset count m
      ≡ entries_listed visit strict bs rounds parent num offset count m'
unfolding entries_listed
entries_listed-same visit strict bs zero parent num offset count m m' h = refl
entries_listed-same visit strict bs (suc rounds) parent num offset count m m' h =
    let same = read_dir_entry-same m m' offset (λ j lo hi. h j lo) in
    elim (Bool-cases (ltb offset bs)) [
      | inr past ↦ rw (past, entries_listed) refl
      | inl inside ↦ elim (Option-cases (read_dir_entry_in_block m' offset)) [
        | inl free ↦ rw (inside, same, free, entries_listed) refl
        | inr (e, used) ↦
            rw
              (
                inside,
                same,
                used,
                entries_listed,
                entries_listed-same visit strict bs rounds parent num (offset + e.rec_len)
                    (count + 1) m m' (λ j lo. h j (omega arith)),
              )
              refl
      ]
    ]

module _ (s : Fsck) (img img' : Image) (strict : Bool) where
  abbrev pub KeepsListed : (ℕ → ℕ → Option (List ℕ)) → (ℕ → ℕ → Option (List ℕ)) → Type 0
  KeepsListed f g =
      (parent num : ℕ) (l : List ℕ)
      → f parent num ≡ some l
      → Each (IsSameBlock s img img') l
      → g parent num ≡ some l

  pub block_of-same : (b : ℕ) → IsSameBlock s img img' b → block_of s img' b ≡ block_of s img b
  block_of-same b h = λ k i. at i k
    where
      at : (i : ℕ) → block_of s img' b i ≡ block_of s img b i
      at i = elim (Bool-cases (ltb i s.block_size)) [
        | inl inside ↦ unfold read_bytes in rw inside (h i (ltb→lt i s.block_size inside))
        | inr past ↦ unfold read_bytes in rw past refl
      ]

  module _ (f g : ℕ → ℕ → Option (List ℕ)) (keeps : KeepsListed f g) where
    pub visit-kept :
        (b : Bool) (num i : ℕ) (l : List ℕ)
        → (if b then f num i else some []) ≡ some l
        → Each (IsSameBlock s img img') l
        → (if b then g num i else some []) ≡ some l
    visit-kept true num i l e h = keeps num i l e h
    visit-kept false num i l e h = e

    pub entries_listed-kept :
        (rounds parent num offset count : ℕ) (m : Bytes) (l : List ℕ)
        → entries_listed f strict s.block_size rounds parent num offset count m ≡ some l
        → Each (IsSameBlock s img img') l
        → entries_listed g strict s.block_size rounds parent num offset count m ≡ some l
    unfolding entries_listed
    entries_listed-kept zero parent num offset count m l e h = absurd (none-ne-some l e)
    entries_listed-kept (suc rounds) parent num offset count m l e h =
        elim (Bool-cases (ltb offset s.block_size)) [
          | inr past ↦ rw (past, entries_listed) (rw (past, entries_listed) at e)
          | inl inside ↦ elim (Option-cases (read_dir_entry_in_block m offset)) [
            | inl free ↦ rw (inside, free, entries_listed) (rw (inside, free, entries_listed) at e)
            | inr (entry, used) ↦
                elim (Bool-cases (
                  fits_block s.block_size offset entry
                  && (not strict || names_right parent num count entry))) [
                    | inr bad ↦
                        absurd (none-ne-some l (rw (inside, used, bad, entries_listed) at e))
                    | inl good ↦
                        let parts =
                          both_lists-parts
                            (if entry.file_type == dir_type && leb 2 count
                              then f num entry.inode
                              else some [])
                            (entries_listed f strict s.block_size rounds parent num
                              (offset + entry.rec_len) (count + 1) m)
                            l (rw (inside, used, good, entries_listed) at e) in
                        let hs =
                          append-Each (IsSameBlock s img img') parts.0 parts.1
                            (subst (Each (IsSameBlock s img img')) (sym parts.4) h) in
                        rw
                          (
                            inside,
                            used,
                            entries_listed,
                            good,
                            visit-kept (entry.file_type == dir_type && leb 2 count) num entry.inode
                                parts.0 parts.2 hs.0,
                            entries_listed-kept rounds parent num (offset + entry.rec_len)
                                (count + 1) m parts.1 parts.3 hs.1,
                          )
                          (unfold both_lists in ap some parts.4)
                  ]
          ]
        ]

    pub blocks_listed-kept :
        (first : ℕ → ℕ) (parent num : ℕ) (blocks : List ℕ) (l : List ℕ)
        → blocks_listed s first img f strict parent num blocks ≡ some l
        → Each (IsSameBlock s img img') l
        → blocks_listed s first img' g strict parent num blocks ≡ some l
    unfolding blocks_listed
    blocks_listed-kept first parent num [] l e h = e
    blocks_listed-kept first parent num (b ∷ blocks) l e h = elim (Bool-cases (b == 0)) [
      | inl end ↦ rw (end, blocks_listed) (rw (end, blocks_listed) at e)
      | inr more ↦
          let parts = block_parts s first img f strict parent num b blocks l more e in
          let hs = subst (Each (IsSameBlock s img img')) (sym parts.4) h in
          let each = append-Each (IsSameBlock s img img') parts.0 parts.1 hs.1 in
          rw
            (
              more,
              blocks_listed,
              block_of-same b hs.0,
              parts.5,
              entries_listed-kept (s.block_size + 1) parent num 0 0 (block_of s img b) parts.0
                  parts.2 each.0,
              blocks_listed-kept first parent num blocks parts.1 parts.3 each.1,
            )
            (unfold both_lists in ap some parts.4)
    ]

  pub dirs_listed-kept :
      (first : ℕ → ℕ) (depth : ℕ)
      → KeepsListed (dirs_listed s first img strict depth) (dirs_listed s first img' strict depth)
  unfolding dirs_listed
  dirs_listed-kept first zero parent num l e h = absurd (none-ne-some l e)
  dirs_listed-kept first (suc depth) parent num l e h =
      elim (Bool-cases (leb 1 num && leb num s.super_block.s_inodes_count)) [
        | inr out ↦ absurd (none-ne-some l (rw (out, dirs_listed) at e))
        | inl range ↦
            rw (range, dirs_listed)
              (blocks_listed-kept (dirs_listed s first img strict depth)
                (dirs_listed s first img' strict depth) (dirs_listed-kept first depth) first parent
                num (inode_at s num).i_block l (rw (range, dirs_listed) at e) h)
      ]
