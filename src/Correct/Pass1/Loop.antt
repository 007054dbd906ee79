-- ===== src/Correct/Pass1/Loop.antt =====
-- The loop over the entries of a directory block makes them right.
use mathlib.Core.Path.{subst}
use mathlib.Core.Option.{none-ne-some, some-injective}
use my_fsck.Base.{
  ℕ, zero, suc, ◌+◌, ◌^◌, ◌≤◌, ◌<◌, ◌≡◌, refl, sym, if◌then◌else◌, List, Bool, true, false, not,
  ◌==◌, ◌&&◌, ◌||◌, [], ◌∷◌, ◌++◌, leb, ltb, leb→le, ltb→lt, lt→ltb, Bool-cases, Option-cases, inl,
  inr, Option, some, and-both,
}
use my_fsck.Machine.Memory.{Bytes}
use my_fsck.Machine.State.{Fsck, Image, DirEntry, Message}
use my_fsck.Machine.Run.{M, ok}
use my_fsck.Disk.Blocks.{HasSectors}
use my_fsck.Inode.Read.{InodeOnDisk}
use my_fsck.Inode.Update.{with_image}
use my_fsck.Dir.{read_dir_entry_in_block}
use my_fsck.Correct.FileBlocks.Kept.{Each, append-Each}
use my_fsck.Correct.FileBlocks.Tree.{both_lists-parts}
use my_fsck.Correct.Pass1.{dir_type, pass1_entries}
use my_fsck.Correct.Pass1.Listed.{names_right, fits_block, entries_listed}
use my_fsck.Correct.Pass1.Kept.{KeepsListed}
use my_fsck.Correct.Pass1.Moves.{
  BlocksApart, AllApart, append-AllApart, IsPlaced, IsIntact, apart-flip, cross-flip, with_one,
}
use my_fsck.Correct.Pass1.Buffer.{HoldsIn}
use my_fsck.Correct.Pass1.Entries.{AtEntry, FixesDirs, entry-fixed}
use my_fsck.Correct.Pass1.Round.{EntriesFixed, rest_listed, both_listed, joined, at_next}

module _ (s : Fsck) (first : ℕ → ℕ) (sectors : HasSectors s)
    (inodes : (j : ℕ) → 1 ≤ j → j ≤ s.super_block.s_inodes_count → InodeOnDisk s j)
    (list : Image → Bool → ℕ → ℕ → Option (List ℕ)) (visit : ℕ → ℕ → M (Unit {0}))
    (fixes : FixesDirs s first list visit)
    (keeps : (img img' : Image) (strict : Bool)
      → KeepsListed s img img' strict (list img strict) (list img' strict))
    (parent num b : ℕ) (parent_lo : 1 ≤ parent) (parent_hi : parent < 2 ^ 32) (num_lo : 1 ≤ num)
    (num_hi : num < 2 ^ 32) (placed : IsPlaced s b) where
  abbrev Done : (rounds offset count : ℕ) → List ℕ → Bytes → Image → List Message → Type 0
  Done rounds offset count l m img out =
      (img' : Image) × (out' : List Message) × (m' : Bytes) × (pass1_entries visit rounds parent num
          b offset count m (with_image s img out)
        ≡ ok tt (with_image s img' out'))
      × EntriesFixed s first list rounds parent num b offset count l m m' img img'

  -- One round, with the blocks `xs` of the entry and `ys` of the rest.
  round-fixed :
      (rounds offset count : ℕ) (e : DirEntry) (xs ys : List ℕ) (m : Bytes) (img : Image)
      (out : List Message)
      → ((m1 : Bytes) (img1 : Image) (out1 : List Message)
          → IsIntact s img1
          → HoldsIn s img1 b m1
          → AtEntry first b (offset + e.rec_len) (count + 1) m1
          → entries_listed
              (list img1 false)
              false
              s.block_size
              rounds
              parent
              num
              (offset + e.rec_len)
              (count + 1)
              m1
            ≡ some ys
          → Each (IsPlaced s) ys
          → AllApart s (b ∷ ys)
          → Done rounds (offset + e.rec_len) (count + 1) ys m1 img1 out1)
      → IsIntact s img
      → HoldsIn s img b m
      → AtEntry first b offset count m
      → offset < s.block_size
      → read_dir_entry_in_block m offset ≡ some e
      → fits_block s.block_size offset e ≡ true
      → (if e.file_type == dir_type && leb 2 count then list img false num e.inode else some [])
        ≡ some xs
      → entries_listed
          (list img false)
          false
          s.block_size
          rounds
          parent
          num
          (offset + e.rec_len)
          (count + 1)
          m
        ≡ some ys
      → Each (IsPlaced s) (xs ++ ys)
      → AllApart s (b ∷ (xs ++ ys))
      → Done (suc rounds) offset count (xs ++ ys) m img out
  unfolding pass1_entries fits_block
  round-fixed rounds offset count e xs ys m img out next h held at_entry inside used fits visits
        rest places aparts =
      let fit = and-both (leb 8 e.rec_len) (leb (offset + 4) s.block_size) fits in
      let room = leb→le (offset + 4) s.block_size fit.1 in
      let place = append-Each (IsPlaced s) xs ys places in
      let apart = append-AllApart s xs ys aparts.1 in
      let from_b = append-Each (BlocksApart s b) xs ys aparts.0 in
      let step =
        entry-fixed s first sectors inodes list visit fixes parent num b parent_lo parent_hi num_lo
          num_hi placed offset count e xs m img out h held used room at_entry visits place.0 apart.0
          from_b.0 in
      let f = step.4 in
      let r =
        next step.2 step.0 step.1 f.moved.intact f.held
          (at_next s first list keeps parent num b offset count e m step.2 at_entry used)
          (rest_listed s first list keeps parent num b rounds offset count e xs ys m step.2 img
            step.0 f (leb→le 8 e.rec_len fit.0) place.1
            (with_one s first b xs ys (apart-flip s first b ys from_b.1)
              (cross-flip s first xs ys apart.2))
            rest)
          place.1 (from_b.1, apart.1) in
      (
        r.0,
        r.1,
        r.2,
        rw (lt→ltb offset s.block_size inside, used, pass1_entries, step.3) r.3,
        joined s first list keeps parent num b rounds offset count e xs ys m step.2 r.2 img step.0
            r.0 f r.4 inside room
            (both_listed s first list keeps parent num b rounds offset count e xs ys m step.2 r.2
              img step.0 r.0 f r.4 inside fits place.0
              (with_one s first b ys xs (apart-flip s first b xs from_b.0) apart.2)),
      )

  ended :
      (rounds offset count : ℕ) (m : Bytes) (img : Image)
      → IsIntact s img
      → HoldsIn s img b m
      → entries_listed (list img true) true s.block_size rounds parent num offset count m ≡ some []
      → EntriesFixed s first list rounds parent num b offset count [] m m img img
  ended rounds offset count m img h held listed = record {
    moved = record { intact = h; only = λ x lt outside. refl };
    held = held;
    others = λ j out. refl;
    listed = listed;
  }

  pub entries-fixed :
      (rounds offset count : ℕ) (l : List ℕ) (m : Bytes) (img : Image) (out : List Message)
      → IsIntact s img
      → HoldsIn s img b m
      → AtEntry first b offset count m
      → entries_listed (list img false) false s.block_size rounds parent num offset count m ≡ some l
      → Each (IsPlaced s) l
      → AllApart s (b ∷ l)
      → Done rounds offset count l m img out
  unfolding entries_listed pass1_entries
  entries-fixed zero offset count l m img out h held at_entry e places aparts =
      absurd (none-ne-some l e)
  entries-fixed (suc rounds) offset count l m img out h held at_entry e places aparts =
      elim (Bool-cases (ltb offset s.block_size)) [
        | inr past ↦
            subst (λ (ys : List ℕ). Done (suc rounds) offset count ys m img out)
              (some-injective [] l (rw (past, entries_listed) at e))
              (
                img,
                out,
                m,
                rw (past, pass1_entries) refl,
                ended (suc rounds) offset count m img h held (rw (past, entries_listed) refl),
              )
        | inl inside ↦ elim (Option-cases (read_dir_entry_in_block m offset)) [
          | inl free ↦
              subst (λ (ys : List ℕ). Done (suc rounds) offset count ys m img out)
                (some-injective [] l (rw (inside, free, entries_listed) at e))
                (
                  img,
                  out,
                  m,
                  rw (inside, free, pass1_entries) refl,
                  ended (suc rounds) offset count m img h held
                      (rw (inside, free, entries_listed) refl),
                )
          | inr (entry, used) ↦
              elim (Bool-cases (
                fits_block s.block_size offset entry
                && (not false || names_right parent num count entry))) [
                  | inr bad ↦ absurd (none-ne-some l (rw (inside, used, bad, entries_listed) at e))
                  | inl good ↦
                      let parts =
                        both_lists-parts
                          (if entry.file_type == dir_type && leb 2 count
                            then list img false num entry.inode
                            else some [])
                          (entries_listed (list img false) false s.block_size rounds parent num
                            (offset + entry.rec_len) (count + 1) m)
                          l (rw (inside, used, good, entries_listed) at e) in
                      subst (λ (ys : List ℕ). Done (suc rounds) offset count ys m img out) parts.4
                        (round-fixed rounds offset count entry parts.0 parts.1 m img out
                          (entries-fixed rounds (offset + entry.rec_len) (count + 1) parts.1) h held
                          at_entry (ltb→lt offset s.block_size inside) used
                          (and-both (fits_block s.block_size offset entry)
                            (not false || names_right parent num count entry) good).0
                          parts.2 parts.3 (subst (Each (IsPlaced s)) (sym parts.4) places)
                          (subst (λ (ys : List ℕ). AllApart s (b ∷ ys)) (sym parts.4) aparts))
                ]
        ]
      ]
