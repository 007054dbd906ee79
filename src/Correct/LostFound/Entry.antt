-- ===== src/Correct/LostFound/Entry.antt =====
-- The entry that `write_new_entry` puts into a block is read back.
use mathlib.Core.Path.{subst}
use native.Mathlib.Nat.{mod-eq_of_lt}
use my_fsck.Base.{
  ℕ, suc, ◌+◌, ◌^◌, ◌<◌, ◌≡◌, ◌≢◌, arith, List, some, length, u8, u16, sub32, ap, ◌∙◌, inl,
}
use my_fsck.Machine.Memory.{Bytes, set_byte, set_byte_self, set_byte_ne, strncpy, c_string}
use my_fsck.Machine.State.{DirEntry}
use my_fsck.Util.{parse_bytes_to_decimal_u, write_number_into_block}
use my_fsck.Util.Number.{parse-same, parse-write_number, write_number_outside}
use my_fsck.Dir.{read_dir_entry_in_block}
use my_fsck.Dir.Codec.{IsName, c_string-strncpy, strncpy_below, read_dir_entry-fields}
use my_fsck.Correct.LostFound.{put_entry}

-- What an entry can hold: an inode number that is not 0, and a name of the given length.
pub record IsEntry (e : DirEntry) : Type 0 where
  pub used : e.inode ≢ 0
  pub inode_fits : e.inode < 2 ^ 32
  pub type_fits : e.file_type < 256
  pub name_fits : e.name_len < 256
  pub length_name : length e.name ≡ e.name_len
  pub name : IsName e.name

one_byte : (m : Bytes) (o : ℕ) → u8 (parse_bytes_to_decimal_u m o 1) ≡ u8 (m o)
unfolding parse_bytes_to_decimal_u
one_byte m o = omega (arith, ap m {x = o + 0} {y = o} (omega arith))

copied :
    (m : Bytes) (start : ℕ) (name : List ℕ) (n : ℕ)
    → length name ≡ n
    → IsName name
    → c_string (strncpy m start name (n + 1)) start n ≡ name
copied m start name n e h =
    ap (λ (k : ℕ). c_string (strncpy m start name k) start n) {x = n + 1} {y = suc n} (omega arith)
    ∙ subst (λ (k : ℕ). c_string (strncpy m start name (suc k)) start k ≡ name) e
        (c_string-strncpy m start name h)

module _ (bs o : ℕ) (e : DirEntry) (block : Bytes) where
  abbrev rec_len : ℕ
  rec_len = u16 (sub32 bs o)

  abbrev with_inode : Bytes
  with_inode = write_number_into_block block o e.inode 4

  abbrev with_len : Bytes
  with_len = write_number_into_block with_inode (o + 4) rec_len 2

  abbrev with_name_len : Bytes
  with_name_len = set_byte with_len (o + 6) e.name_len

  abbrev with_type : Bytes
  with_type = set_byte with_name_len (o + 7) e.file_type

  abbrev new_block : Bytes
  new_block = put_entry bs e block o

  new_block_below : (i : ℕ) → i < o + 8 → new_block i ≡ with_type i
  unfolding put_entry
  new_block_below i lt = strncpy_below with_type (o + 8) e.name (e.name_len + 1) i lt

  new_block_front : (i : ℕ) → i < o + 6 → new_block i ≡ with_len i
  new_block_front i lt =
      new_block_below i (omega arith)
      ∙ set_byte_ne with_name_len (o + 7) e.file_type i (omega arith)
      ∙ set_byte_ne with_len (o + 6) e.name_len i (omega arith)

  pub read_dir_entry-put_entry :
      IsEntry e → read_dir_entry_in_block new_block o ≡ some (record e { rec_len = rec_len })
  read_dir_entry-put_entry h =
      read_dir_entry-fields new_block o e.inode rec_len e.name_len e.file_type e.name inode h.used
        len name_len type name
    where
      inode : parse_bytes_to_decimal_u new_block o 4 ≡ e.inode
      inode =
          parse-same new_block with_inode o 4 (λ i p q.
            new_block_front i (omega arith)
            ∙ write_number_outside with_inode (o + 4) rec_len 2 i (inl (omega arith)))
          ∙ (parse-write_number block o e.inode 4 (omega arith)).0
          ∙ mod-eq_of_lt h.inode_fits

      len : u16 (parse_bytes_to_decimal_u new_block (o + 4) 2) ≡ rec_len
      len =
          ap u16 (
            parse-same new_block with_len (o + 4) 2 (λ i p q. new_block_front i (omega arith))
            ∙ (parse-write_number with_inode (o + 4) rec_len 2 (omega arith)).0)
          ∙ omega arith

      name_len : u8 (parse_bytes_to_decimal_u new_block (o + 6) 1) ≡ e.name_len
      name_len =
          one_byte new_block (o + 6)
          ∙ ap u8 (
              new_block_below (o + 6) (omega arith)
              ∙ set_byte_ne with_name_len (o + 7) e.file_type (o + 6) (omega arith)
              ∙ set_byte_self with_len (o + 6) e.name_len)
          ∙ mod-eq_of_lt h.name_fits

      type : u8 (parse_bytes_to_decimal_u new_block (o + 7) 1) ≡ e.file_type
      type =
          one_byte new_block (o + 7)
          ∙ ap u8 (
              new_block_below (o + 7) (omega arith)
              ∙ set_byte_self with_name_len (o + 7) e.file_type)
          ∙ mod-eq_of_lt h.type_fits

      name : c_string new_block (o + 8) e.name_len ≡ e.name
      name = unfold put_entry in copied with_type (o + 8) e.name e.name_len h.length_name h.name
