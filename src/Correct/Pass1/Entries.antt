-- ===== src/Correct/Pass1/Entries.antt =====
-- Pass 1 makes the entries of a directory block right.
use mathlib.Core.Path.{subst}
use mathlib.Core.Option.{some-injective}
use my_fsck.Base.{
  ℕ, ◌+◌, ◌^◌, ◌≤◌, ◌<◌, ◌≡◌, ◌⊎◌, refl, arith, ◌∙◌, if◌then◌else◌, List, Bool, true, false, ◌==◌,
  ◌&&◌, eq→==, ==→eq, [], ◌∷◌, leb, Bool-cases, inl, inr, Option, some,
}
use my_fsck.Machine.Memory.{Bytes}
use my_fsck.Machine.State.{Fsck, Image, DirEntry, Message}
use my_fsck.Machine.Run.{M, ok}
use my_fsck.Disk.Blocks.{HasSectors}
use my_fsck.Inode.Read.{InodeOnDisk}
use my_fsck.Inode.Update.{with_image}
use my_fsck.Dir.{read_dir_entry_in_block}
use my_fsck.Correct.FileBlocks.Kept.{Each}
use my_fsck.Correct.Pass1.{dir_type, pass1_entry}
use my_fsck.Correct.Pass1.Listed.{first_len, names_right}
use my_fsck.Correct.Pass1.Moves.{
  BlocksApart, AllApart, OnlyDots, IsPlaced, IsIntact, outside-same, OnlyDots-IsIntact,
}
use my_fsck.Correct.Pass1.Buffer.{HoldsIn, NumberSet, check_entry-NumberSet}

-- The image has changed in the first two inode numbers of the listed blocks only, and not in size.
pub record Moved (s : Fsck) (first : ℕ → ℕ) (l : List ℕ) (img img' : Image) : Type 0 where
  pub intact : IsIntact s img'
  pub only : OnlyDots s first l img img'

-- Entry `e` at `offset` has become an entry that is right, and what it leads to as well.
pub record EntryFixed (s : Fsck) (first : ℕ → ℕ) (list : Image → Bool → ℕ → ℕ → Option (List ℕ))
    (b offset parent num count : ℕ) (e : DirEntry) (xs : List ℕ) (m m' : Bytes) (img img' : Image)
    : Type 0 where
  pub moved : Moved s first (b ∷ xs) img img'
  pub held : HoldsIn s img' b m'
  pub others : (j : ℕ) → (j < offset) ⊎ (offset + 4 ≤ j) → m' j ≡ m j
  pub entry : DirEntry
  pub read : read_dir_entry_in_block m' offset ≡ some entry
  pub same_len : entry.rec_len ≡ e.rec_len
  pub names : names_right parent num count entry ≡ true
  pub listed :
      (if entry.file_type == dir_type && leb 2 count
        then list img' true num entry.inode
        else some [])
      ≡ some xs

-- The entry with number `count` of a block stands at `offset`, as far as `first` tells.
abbrev pub AtEntry : (ℕ → ℕ) → (b offset count : ℕ) → Bytes → Type 0
AtEntry first b offset count m =
    (count ≡ 0 → (offset ≡ 0) × (first_len m ≡ first b)) × (count ≡ 1 → offset ≡ first b)

-- A visit makes the directories right that are listed.
abbrev pub FixesDirs :
    Fsck → (ℕ → ℕ) → (Image → Bool → ℕ → ℕ → Option (List ℕ)) → (ℕ → ℕ → M (Unit {0})) → Type 0
FixesDirs s first list visit =
    (img : Image) (out : List Message) (parent num : ℕ) (l : List ℕ)
    → IsIntact s img
    → 1 ≤ parent
    → parent < 2 ^ 32
    → list img false parent num ≡ some l
    → Each (IsPlaced s) l
    → AllApart s l
    → (img' : Image) × (out' : List Message) × (visit parent num (with_image s img out)
        ≡ ok tt (with_image s img' out'))
      × Moved s first l img img'
      × (list img' true parent num ≡ some l)

module _ (s : Fsck) (first : ℕ → ℕ) (sectors : HasSectors s)
    (inodes : (j : ℕ) → 1 ≤ j → j ≤ s.super_block.s_inodes_count → InodeOnDisk s j)
    (list : Image → Bool → ℕ → ℕ → Option (List ℕ)) (visit : ℕ → ℕ → M (Unit {0}))
    (fixes : FixesDirs s first list visit) (parent num b : ℕ) (parent_lo : 1 ≤ parent)
    (parent_hi : parent < 2 ^ 32) (num_lo : 1 ≤ num) (num_hi : num < 2 ^ 32)
    (placed : IsPlaced s b) where
  abbrev Step : (offset count : ℕ) → DirEntry → List ℕ → Bytes → Image → List Message → Type 0
  Step offset count e xs m img out =
      (img' : Image) × (out' : List Message) × (m' : Bytes) × (pass1_entry visit parent num b offset
          count e m (with_image s img out)
        ≡ ok m' (with_image s img' out'))
      × EntryFixed s first list b offset parent num count e xs m m' img img'

  number_fixed :
      (offset count wanted : ℕ) (e : DirEntry) (m m' : Bytes) (img img' : Image)
      → IsIntact s img
      → NumberSet s b offset wanted e m m' img img'
      → offset + 4 ≤ s.block_size
      → (offset ≡ 0) ⊎ (offset ≡ first b)
      → names_right parent num count (record e { inode = wanted }) ≡ true
      → leb 2 count ≡ false
      → EntryFixed s first list b offset parent num count e [] m m' img img'
  number_fixed offset count wanted e m m' img img' h set room at_dot names few =
      let size : img'.size ≡ s.image.size = set.size ∙ h.size in
      let only : OnlyDots s first (b ∷ []) img img' = λ x lt outside.
        set.only x lt (elim outside.0 [
          | inl beside ↦ omega (arith, beside)
          | inr dots ↦ omega (arith, dots.0, dots.1, at_dot)
        ]) in
      let no_visit : (e.file_type == dir_type && leb 2 count) ≡ false = ground arith in
      record {
        moved = record {
          intact = OnlyDots-IsIntact s first (b ∷ []) img img' inodes (placed, tt) size only h;
          only = only;
        };
        held = set.held;
        others = set.others;
        entry = record e { inode = wanted };
        read = set.entry;
        same_len = refl;
        names = names;
        listed = rw no_visit refl;
      }

  -- An entry that is left as it is.
  left_alone :
      (offset count : ℕ) (e : DirEntry) (m : Bytes) (img : Image)
      → IsIntact s img
      → HoldsIn s img b m
      → read_dir_entry_in_block m offset ≡ some e
      → (e.file_type == dir_type) ≡ false
      → EntryFixed s first list b offset parent num count e [] m m img img
  unfolding names_right
  left_alone offset count e m img h held read other = record {
    moved = record { intact = h; only = λ x lt outside. refl };
    held = held;
    others = λ j out. refl;
    entry = e;
    read = read;
    same_len = refl;
    names = rw other refl;
    listed = rw other refl;
  }

  visited :
      (offset count : ℕ) (e : DirEntry) (m : Bytes) (xs : List ℕ) (img img' : Image)
      → HoldsIn s img b m
      → read_dir_entry_in_block m offset ≡ some e
      → (e.file_type == dir_type) ≡ true
      → (count == 0) ≡ false
      → (count == 1) ≡ false
      → Each (BlocksApart s b) xs
      → Moved s first xs img img'
      → list img' true num e.inode ≡ some xs
      → EntryFixed s first list b offset parent num count e xs m m img img'
  unfolding names_right
  visited offset count e m xs img img' held read dir later third apart moved listed =
      let same = outside-same s first b xs img img' placed.1 apart moved.only in
      let many : leb 2 count ≡ true = ground arith in
      record {
        moved = record { intact = moved.intact; only = λ x lt outside. moved.only x lt outside.1 };
        held = λ i lt. same i lt ∙ held i lt;
        others = λ j out. refl;
        entry = e;
        read = read;
        same_len = refl;
        names = rw (dir, later, third) refl;
        listed = rw (dir, many) listed;
      }

  pub entry-fixed :
      (offset count : ℕ) (e : DirEntry) (xs : List ℕ) (m : Bytes) (img : Image) (out : List Message)
      → IsIntact s img
      → HoldsIn s img b m
      → read_dir_entry_in_block m offset ≡ some e
      → offset + 4 ≤ s.block_size
      → AtEntry first b offset count m
      → (if e.file_type == dir_type && leb 2 count then list img false num e.inode else some [])
        ≡ some xs
      → Each (IsPlaced s) xs
      → AllApart s xs
      → Each (BlocksApart s b) xs
      → Step offset count e xs m img out
  unfolding pass1_entry names_right
  entry-fixed offset count e xs m img out h held read fits at_entry listed places aparts apart =
      elim (Bool-cases (e.file_type == dir_type)) [
        | inr other ↦
            let none_listed : [] ≡ xs = some-injective [] xs (rw other at listed) in
            subst (λ (ys : List ℕ). Step offset count e ys m img out) none_listed
              (
                img,
                out,
                m,
                rw (other, pass1_entry) refl,
                left_alone offset count e m img h held read other,
              )
        | inl dir ↦ elim (Bool-cases (count == 0)) [
          | inl one ↦
              let few : leb 2 count ≡ false = ground arith in
              let none_listed : [] ≡ xs = some-injective [] xs (rw (dir, few) at listed) in
              let set =
                check_entry-NumberSet s sectors img h.size b placed.1 out m offset num e held read
                  fits num_lo num_hi in
              subst (λ (ys : List ℕ). Step offset count e ys m img out) none_listed
                (
                  set.0,
                  set.1,
                  set.2,
                  rw (dir, one, pass1_entry) set.3,
                  number_fixed offset count num e m set.2 img set.0 h set.4 fits
                      (inl (at_entry.0 (==→eq count 0 one)).0)
                      (rw (dir, one, names_right, eq→== num num refl) refl) few,
                )
          | inr later ↦ elim (Bool-cases (count == 1)) [
            | inl second ↦
                let few : leb 2 count ≡ false = ground arith in
                let none_listed : [] ≡ xs = some-injective [] xs (rw (dir, few) at listed) in
                let set =
                  check_entry-NumberSet s sectors img h.size b placed.1 out m offset parent e held
                    read fits parent_lo parent_hi in
                subst (λ (ys : List ℕ). Step offset count e ys m img out) none_listed
                  (
                    set.0,
                    set.1,
                    set.2,
                    rw (dir, later, second, pass1_entry) set.3,
                    number_fixed offset count parent e m set.2 img set.0 h set.4 fits
                        (inr (at_entry.1 (==→eq count 1 second)))
                        (rw (dir, later, second, names_right, eq→== parent parent refl) refl) few,
                  )
            | inr third ↦
                let many : leb 2 count ≡ true = ground arith in
                let r =
                  fixes img out num e.inode xs h num_lo num_hi (rw (dir, many) at listed) places
                    aparts in
                (
                  r.0,
                  r.1,
                  m,
                  rw (dir, later, third, pass1_entry, r.2) refl,
                  visited offset count e m xs img r.0 held read dir later third apart r.3 r.4,
                )
          ]
        ]
      ]
