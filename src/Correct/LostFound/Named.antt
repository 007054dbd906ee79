-- ===== src/Correct/LostFound/Named.antt =====
-- The entry of lost+found for an inode is named by its number in decimal.
use mathlib.Core.Path.{subst}
use mathlib.Core.List.{reverse, reverse-cons, reverse-reverse}
use my_fsck.Base.{
  ℕ, ◌^◌, ◌≤◌, ◌<◌, ◌≡◌, refl, arith, List, [], ◌∷◌, ◌++◌, some, length, length-append, u16, sub32,
  ap, ◌∙◌, sym,
}
use my_fsck.Machine.Memory.{Bytes}
use my_fsck.Machine.State.{DirEntry, Inode}
use my_fsck.Dir.{read_dir_entry_in_block}
use my_fsck.Dir.Codec.{IsName}
use my_fsck.Correct.LostFound.{digits, new_entry, put_entry}
use my_fsck.Correct.LostFound.Digits.{
  from_digits, AllDigits, digits-value, digits-AllDigits, length-digits,
}
use my_fsck.Correct.LostFound.Entry.{IsEntry, read_dir_entry-put_entry}

AllDigits-IsName : (cs : List ℕ) → AllDigits cs → IsName cs
AllDigits-IsName [] h = tt
AllDigits-IsName (c ∷ cs) h = (omega (arith, h.0), omega (arith, h.1), AllDigits-IsName cs h.2)

append-IsName : (xs ys : List ℕ) → IsName xs → IsName ys → IsName (xs ++ ys)
append-IsName [] ys h h' = h'
append-IsName (x ∷ xs) ys h h' = (h.0, h.1, append-IsName xs ys h.2 h')

reverse-IsName : (xs : List ℕ) → IsName xs → IsName (reverse xs)
reverse-IsName [] h = tt
reverse-IsName (x ∷ xs) h =
    subst IsName (sym (reverse-cons x xs))
      (append-IsName (reverse xs) (x ∷ []) (reverse-IsName xs h.2) (h.0, h.1, tt))

length-reverse : (xs : List ℕ) → length (reverse xs) ≡ length xs
length-reverse [] = refl
length-reverse (x ∷ xs) =
    ap length (reverse-cons x xs)
    ∙ length-append (reverse xs) (x ∷ [])
    ∙ omega (arith, length-reverse xs)

new_entry-IsEntry : (n : ℕ) (inode : Inode) → 1 ≤ n → n < 2 ^ 32 → IsEntry (new_entry n inode)
unfolding new_entry
new_entry-IsEntry n inode lo hi =
    let short = length-digits 10 n in
    record {
      used = omega arith;
      inode_fits = hi;
      type_fits = ground arith;
      name_fits = omega arith;
      length_name = length-reverse (digits 10 n) ∙ omega arith;
      name = reverse-IsName (digits 10 n) (AllDigits-IsName (digits 10 n) (digits-AllDigits 10 n));
    }

-- At any offset of any block, for an inode number from 1 to 2^32 - 1, the entry that is put there
-- for lost+found is read back; it names the inode, its length is the rest of the block, cut to 16
-- bits, and its name is the inode number in decimal.
pub new_entry-put_entry :
    (bs o n : ℕ) (inode : Inode) (block : Bytes)
    → 1 ≤ n
    → n < 2 ^ 32
    → (e : DirEntry) × (read_dir_entry_in_block (put_entry bs (new_entry n inode) block o) o
        ≡ some e)
      × (e.inode ≡ n)
      × (e.rec_len ≡ u16 (sub32 bs o))
      × (from_digits (reverse e.name) ≡ n)
      × AllDigits (reverse e.name)
unfolding new_entry
new_entry-put_entry bs o n inode block lo hi =
    let same = reverse-reverse (digits 10 n) in
    (
      record (new_entry n inode) { rec_len = u16 (sub32 bs o) },
      read_dir_entry-put_entry bs o (new_entry n inode) block (new_entry-IsEntry n inode lo hi),
      refl,
      refl,
      ap from_digits same ∙ digits-value 10 n (omega arith),
      subst AllDigits (sym same) (digits-AllDigits 10 n),
    )
