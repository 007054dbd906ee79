-- ===== src/Correct/Pass1/Right.antt =====
-- A directory tree whose first entries are right is left alone by pass 1.
use mathlib.Core.Bool.{false≢true}
use my_fsck.Base.{
  and-both, leb→le, ℕ, zero, suc, ◌+◌, ◌≤◌, ◌≡◌, refl, arith, List, [], ◌∷◌, Bool, true, false,
  ◌&&◌, none, some, Option-cases, Bool-cases, inl, inr, ltb, leb, ◌==◌, if◌then◌else◌,
}
use my_fsck.Machine.Memory.{Bytes}
use my_fsck.Machine.State.{Fsck, DirEntry, Inode}
use my_fsck.Machine.Run.{M, ok}
use my_fsck.Disk.{read_bytes}
use my_fsck.Disk.Blocks.{HasSectors, block_address, read_block-ok}
use my_fsck.Inode.Read.{InodeOnDisk, inode_at, read_inode-ok}
use my_fsck.Dir.{read_dir_entry_in_block}
use my_fsck.Correct.Pass1.{
  dir_type, inode_is_not_dir, check_entry, pass1_entry, pass1_entries, pass1_blocks, pass1,
}

-- The first entry of a block, if it is a directory, names the directory itself and the second one
-- its parent; `visit` says whether a further directory is right.
unfoldable pub entry_right : (ℕ → ℕ → Bool) → (parent inode_num count : ℕ) → DirEntry → Bool
entry_right visit parent inode_num count entry =
    if entry.file_type == dir_type
    then (if count == 0
        then entry.inode == inode_num
        else (if count == 1 then entry.inode == parent else visit inode_num entry.inode))
    else true

unfoldable pub entries_right :
    (ℕ → ℕ → Bool) → (block_size rounds parent inode_num offset count : ℕ) → Bytes → Bool
entries_right visit block_size zero parent inode_num offset count dir_block = false
entries_right visit block_size (suc rounds) parent inode_num offset count dir_block =
    elim (ltb offset block_size) [
      | false ↦ true
      | true ↦ elim (read_dir_entry_in_block dir_block offset) [
        | none ↦ true
        | some entry ↦
            entry_right visit parent inode_num count entry
            && entries_right visit block_size rounds parent inode_num (offset + entry.rec_len)
                (count + 1) dir_block
      ]
    ]

-- The blocks lie on the disk, and their entries are right.
unfoldable pub blocks_right : Fsck → (ℕ → ℕ → Bool) → (parent inode_num : ℕ) → List ℕ → Bool
blocks_right s visit parent inode_num [] = true
blocks_right s visit parent inode_num (block_id ∷ blocks) = elim (block_id == 0) [
  | true ↦ true
  | false ↦
      leb (block_address s block_id + s.block_size) s.image.size
      && (entries_right visit s.block_size (s.block_size + 1) parent inode_num 0 0
            (read_bytes s.image (block_address s block_id) s.block_size s.stray)
          && blocks_right s visit parent inode_num blocks)
]

unfoldable pub dots_right : Fsck → (depth parent inode_num : ℕ) → Bool
dots_right s zero parent inode_num = false
dots_right s (suc depth) parent inode_num =
    (leb 1 inode_num && leb inode_num s.super_block.s_inodes_count)
    && blocks_right s (dots_right s depth) parent inode_num (inode_at s inode_num).i_block

-- As the macro is written, no inode is found not to be a directory.
pub not_dir-false : (inode : Inode) → inode_is_not_dir inode ≡ false
unfolding inode_is_not_dir
not_dir-false inode = ground arith

-- A visit that changes nothing where the test succeeds.
abbrev KeepsRight : Fsck → (ℕ → ℕ → Bool) → (ℕ → ℕ → M (Unit {0})) → Type 0
KeepsRight s test visit =
    (parent inode_num : ℕ) → test parent inode_num ≡ true → visit parent inode_num s ≡ ok tt s

module _ (s : Fsck) (test : ℕ → ℕ → Bool) (visit : ℕ → ℕ → M (Unit {0}))
    (keeps : KeepsRight s test visit) where
  check_entry-right :
      (m : Bytes) (b offset wanted : ℕ) (e : DirEntry)
      → (e.inode == wanted) ≡ true
      → check_entry m b offset e wanted s ≡ ok m s
  unfolding check_entry
  check_entry-right m b offset wanted e h = rw h refl

  pass1_entry-right :
      (parent num b offset count : ℕ) (e : DirEntry) (m : Bytes)
      → entry_right test parent num count e ≡ true
      → pass1_entry visit parent num b offset count e m s ≡ ok m s
  unfolding entry_right pass1_entry
  pass1_entry-right parent num b offset count e m h = elim (Bool-cases (e.file_type == dir_type)) [
    | inr other ↦ rw other refl
    | inl dir ↦ elim (Bool-cases (count == 0)) [
      | inl first ↦ rw (dir, first) (check_entry-right m b offset num e (rw (dir, first) at h))
      | inr later ↦ elim (Bool-cases (count == 1)) [
        | inl second ↦
            rw (dir, later, second)
              (check_entry-right m b offset parent e (rw (dir, later, second) at h))
        | inr third ↦ rw (dir, later, third, keeps num e.inode (rw (dir, later, third) at h)) refl
      ]
    ]
  ]

  pass1_entries-right :
      (rounds parent num b offset count : ℕ) (m : Bytes)
      → entries_right test s.block_size rounds parent num offset count m ≡ true
      → pass1_entries visit rounds parent num b offset count m s ≡ ok tt s
  unfolding entries_right pass1_entries
  pass1_entries-right zero parent num b offset count m h = absurd (false≢true h)
  pass1_entries-right (suc rounds) parent num b offset count m h =
      elim (Bool-cases (ltb offset s.block_size)) [
        | inr past ↦ rw past refl
        | inl inside ↦ elim (Option-cases (read_dir_entry_in_block m offset)) [
          | inl missing ↦ rw (inside, missing) refl
          | inr (e, found) ↦
              let both = and-both _ _ (rw (inside, found, entries_right) at h) in
              rw (inside, found, pass1_entry-right parent num b offset count e m both.0)
                (pass1_entries-right rounds parent num b (offset + e.rec_len) (count + 1) m both.1)
        ]
      ]

  pass1_blocks-right :
      (parent num : ℕ) (blocks : List ℕ)
      → HasSectors s
      → blocks_right s test parent num blocks ≡ true
      → pass1_blocks visit parent num blocks s ≡ ok tt s
  unfolding blocks_right pass1_blocks
  pass1_blocks-right parent num [] sectors h = refl
  pass1_blocks-right parent num (b ∷ blocks) sectors h = elim (Bool-cases (b == 0)) [
    | inl none_left ↦ rw none_left refl
    | inr more ↦
        let both = and-both _ _ (rw (more, blocks_right) at h) in
        let rest = and-both _ _ both.1 in
        rw
          (
            more,
            read_block-ok s b s.stray sectors (leb→le _ _ both.0),
            pass1_entries-right (s.block_size + 1) parent num b 0 0 _ rest.0,
          )
          (pass1_blocks-right parent num blocks sectors rest.1)
  ]

pub pass1-right :
    (s : Fsck)
    → HasSectors s
    → ((j : ℕ) → 1 ≤ j → j ≤ s.super_block.s_inodes_count → InodeOnDisk s j)
    → (depth parent num : ℕ) → dots_right s depth parent num ≡ true
    → pass1 depth parent num s ≡ ok tt s
unfolding dots_right pass1
pass1-right s sectors inodes zero parent num h = absurd (false≢true h)
pass1-right s sectors inodes (suc depth) parent num h =
    let both = and-both _ _ h in
    let range = and-both _ _ both.0 in
    rw
      (
        read_inode-ok s num
            (inodes num (leb→le 1 num range.0) (leb→le num s.super_block.s_inodes_count range.1)),
        not_dir-false (inode_at s num),
      )
      (pass1_blocks-right s (dots_right s depth) (pass1 depth) (pass1-right s sectors inodes depth)
        parent num (inode_at s num).i_block sectors both.1)
