-- ===== src/Correct/Pass1/Round.antt =====
-- One entry and the entries behind it, as pass 1 leaves them.
use mathlib.Core.Path.{subst}
use my_fsck.Base.{
  ℕ, suc, ◌+◌, ◌≤◌, ◌<◌, ◌≡◌, ◌⊎◌, refl, arith, ap, ◌∙◌, sym, List, Bool, true, false, ◌==◌, ◌&&◌,
  ◌∷◌, ◌++◌, leb, leb→le, lt→ltb, inl, inr, Option, some, and-both,
}
use my_fsck.Machine.Memory.{Bytes}
use my_fsck.Machine.State.{Fsck, Image, DirEntry}
use my_fsck.Dir.{read_dir_entry_in_block}
use my_fsck.Dir.Codec.{entry_bytes, entry_bytes-read}
use my_fsck.Correct.FileBlocks.Kept.{Each, append-Each}
use my_fsck.Correct.FileBlocks.Tree.{both_lists}
use my_fsck.Correct.Pass1.{dir_type}
use my_fsck.Correct.Pass1.Listed.{first_len, names_right, fits_block, entries_listed}
use my_fsck.Correct.Pass1.Kept.{entries_listed-same, entries_listed-kept, visit-kept, KeepsListed}
use my_fsck.Correct.Pass1.Moves.{BlocksApart, IsOutside, IsPlaced, all-same}
use my_fsck.Correct.Pass1.Buffer.{HoldsIn, header-same}
use my_fsck.Correct.Pass1.Entries.{AtEntry, Moved, EntryFixed}

read_len :
    (m : Bytes) (e : DirEntry) → read_dir_entry_in_block m 0 ≡ some e → e.rec_len ≡ first_len m
unfolding first_len entry_bytes
read_len m e read = sym (ap (λ (x : DirEntry). x.rec_len) (entry_bytes-read m 0 e read))

-- The loop has made the entries from `offset` on right, and what they lead to.
pub record EntriesFixed (s : Fsck) (first : ℕ → ℕ) (list : Image → Bool → ℕ → ℕ → Option (List ℕ))
    (rounds parent num b offset count : ℕ) (l : List ℕ) (m m' : Bytes) (img img' : Image)
    : Type 0 where
  pub moved : Moved s first (b ∷ l) img img'
  pub held : HoldsIn s img' b m'
  pub others : (j : ℕ) → (j < offset) ⊎ (s.block_size ≤ j) → m' j ≡ m j
  pub listed :
      entries_listed (list img' true) true s.block_size rounds parent num offset count m' ≡ some l

module _ (s : Fsck) (first : ℕ → ℕ) (list : Image → Bool → ℕ → ℕ → Option (List ℕ))
    (keeps : (img img' : Image) (strict : Bool)
      → KeepsListed s img img' strict (list img strict) (list img' strict))
    (parent num b : ℕ) where
  -- The rest of the entries as the entry before them leaves it.
  pub rest_listed :
      (rounds offset count : ℕ) (e : DirEntry) (xs ys : List ℕ) (m m' : Bytes) (img img' : Image)
      → EntryFixed s first list b offset parent num count e xs m m' img img'
      → 8 ≤ e.rec_len
      → Each (IsPlaced s) ys
      → Each (λ y. Each (BlocksApart s y) (b ∷ xs)) ys
      → entries_listed
          (list img false)
          false
          s.block_size
          rounds
          parent
          num
          (offset + e.rec_len)
          (count + 1)
          m
        ≡ some ys
      → entries_listed
          (list img' false)
          false
          s.block_size
          rounds
          parent
          num
          (offset + e.rec_len)
          (count + 1)
          m'
        ≡ some ys
  rest_listed rounds offset count e xs ys m m' img img' f len places apart listed =
      entries_listed-same (list img' false) false s.block_size rounds parent num
        (offset + e.rec_len) (count + 1) m' m (λ j lo. f.others j (inr (omega arith)))
      ∙ entries_listed-kept s img img' false (list img false) (list img' false)
          (keeps img img' false) rounds parent num (offset + e.rec_len) (count + 1) m ys listed
          (all-same s first ys (b ∷ xs) img img' places apart f.moved.only)

  -- The entry and the rest, as the rest leaves them.
  pub both_listed :
      (rounds offset count : ℕ) (e : DirEntry) (xs ys : List ℕ) (m m1 m' : Bytes)
      (img img1 img' : Image)
      → EntryFixed s first list b offset parent num count e xs m m1 img img1
      → EntriesFixed s first list rounds parent num b
          (offset + e.rec_len)
          (count + 1)
          ys
          m1
          m'
          img1
          img'
      → offset < s.block_size
      → fits_block s.block_size offset e ≡ true
      → Each (IsPlaced s) xs
      → Each (λ x. Each (BlocksApart s x) (b ∷ ys)) xs
      → entries_listed (list img' true) true s.block_size (suc rounds) parent num offset count m'
        ≡ some (xs ++ ys)
  unfolding entries_listed fits_block names_right both_lists
  both_listed rounds offset count e xs ys m m1 m' img img1 img' f g inside fits places apart =
      let long = and-both (leb 8 e.rec_len) (leb (offset + 4) s.block_size) fits in
      let head =
        header-same m1 m' offset f.entry
          (λ j lo hi. g.others j (inl (omega (arith, leb→le 8 e.rec_len long.0)))) f.read in
      let fits' : (leb 8 f.entry.rec_len && leb (offset + 4) s.block_size) ≡ true =
        rw f.same_len fits in
      let same = all-same s first xs (b ∷ ys) img1 img' places apart g.moved.only in
      let seen =
        visit-kept s img1 img' true (list img1 true) (list img' true) (keeps img1 img' true)
          (f.entry.file_type == dir_type && leb 2 count) num f.entry.inode xs f.listed same in
      let rest =
        subst
          (λ (r : ℕ).
            entries_listed (list img' true) true s.block_size rounds parent num (offset + r)
              (count + 1) m'
            ≡ some ys)
          (sym f.same_len) g.listed in
      rw (lt→ltb offset s.block_size inside, head.1, entries_listed, fits', f.names, seen, rest)
        refl

  pub joined :
      (rounds offset count : ℕ) (e : DirEntry) (xs ys : List ℕ) (m m1 m' : Bytes)
      (img img1 img' : Image)
      → EntryFixed s first list b offset parent num count e xs m m1 img img1
      → EntriesFixed s first list rounds parent num b
          (offset + e.rec_len)
          (count + 1)
          ys
          m1
          m'
          img1
          img'
      → offset < s.block_size
      → offset + 4 ≤ s.block_size
      → entries_listed (list img' true) true s.block_size (suc rounds) parent num offset count m'
        ≡ some (xs ++ ys)
      → EntriesFixed s first list (suc rounds) parent num b offset count (xs ++ ys) m m' img img'
  joined rounds offset count e xs ys m m1 m' img img1 img' f g inside room listed = record {
    moved = record {
      intact = g.moved.intact;
      only = λ x lt outside.
          let parts = append-Each (IsOutside s first x) xs ys outside.1 in
          g.moved.only x lt (outside.0, parts.1) ∙ f.moved.only x lt (outside.0, parts.0);
    };
    held = g.held;
    others = λ j out. g.others j (omega (arith, out)) ∙ f.others j (omega (arith, out));
    listed = listed;
  }

  pub at_next :
      (offset count : ℕ) (e : DirEntry) (m m' : Bytes)
      → AtEntry first b offset count m
      → read_dir_entry_in_block m offset ≡ some e
      → AtEntry first b (offset + e.rec_len) (count + 1) m'
  at_next offset count e m m' at_entry read = (
    λ none_left. absurd (omega arith),
    λ one.
        let start = at_entry.0 (omega arith) in
        let len =
          read_len m e (subst (λ (o : ℕ). read_dir_entry_in_block m o ≡ some e) start.0 read) in
        omega (arith, start.0, start.1, len),
  )
