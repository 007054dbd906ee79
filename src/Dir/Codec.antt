-- ===== src/Dir/Codec.antt =====
-- Directory entries as bytes: what a change of some bytes means for the entry that is read.
use mathlib.Core.Option.{some-injective}
use native.Mathlib.Nat.{mod-eq_of_lt}
use my_fsck.Base.{
  ℕ, zero, suc, ◌+◌, ◌^◌, ◌≤◌, ◌<◌, ◌≡◌, ◌≢◌, refl, arith, List, [], ◌∷◌, Option, some, none,
  length, u8, u16, ap, ◌∙◌, ◌==◌, if◌then◌else◌, ne→==, Bool-cases, inl, inr,
}
use my_fsck.Machine.Memory.{Bytes, SameOn, c_string, strncpy, set_byte, set_byte_self, set_byte_ne}
use my_fsck.Machine.State.{DirEntry}
use my_fsck.Util.{parse_bytes_to_decimal_u, write_number_into_block}
use my_fsck.Util.Number.{
  parse-same, parse-write_number, parse-write_number_apart, write_number_outside,
}
use my_fsck.Dir.{read_dir_entry_in_block}

-- No byte of the name ends it early.
abbrev pub IsName : List ℕ → Type 0
IsName [] = Unit
IsName (c ∷ cs) = (1 ≤ c) × (c < 256) × IsName cs

-- The bytes of a name of the given length, from the start of its entry.
pub c_string-same :
    (m m' : Bytes) (start n : ℕ)
    → SameOn start (start + n) m m'
    → c_string m start n ≡ c_string m' start n
unfolding c_string
c_string-same m m' start zero h = refl
c_string-same m m' start (suc n) h =
    let first = h start (omega arith) (omega arith) in
    let rest = c_string-same m m' (start + 1) n (λ i p q. h i (omega arith) (omega arith)) in
    λ i. if first i == 0 then [] else first i ∷ rest i

pub strncpy_below :
    (m : Bytes) (start : ℕ) (name : List ℕ) (n i : ℕ) → i < start → strncpy m start name n i ≡ m i
unfolding strncpy
strncpy_below m start name zero i h = refl
strncpy_below m start [] (suc n) i h =
    strncpy_below (set_byte m start 0) (start + 1) [] n i (omega arith)
    ∙ set_byte_ne m start 0 i (omega arith)
strncpy_below m start (c ∷ name) (suc n) i h =
    strncpy_below (set_byte m start c) (start + 1) name n i (omega arith)
    ∙ set_byte_ne m start c i (omega arith)

-- A name that was copied is read back.
pub c_string-strncpy :
    (m : Bytes) (start : ℕ) (name : List ℕ)
    → IsName name
    → c_string (strncpy m start name (suc (length name))) start (length name) ≡ name
unfolding c_string strncpy
c_string-strncpy m start [] h = refl
c_string-strncpy m start (c ∷ name) h =
    let m' = strncpy (set_byte m start c) (start + 1) name (suc (length name)) in
    let first : m' start ≡ c =
      strncpy_below (set_byte m start c) (start + 1) name (suc (length name)) start (omega arith)
      ∙ set_byte_self m start c in
    let rest = c_string-strncpy (set_byte m start c) (start + 1) name h.2 in
    (λ i. if first i == 0 then [] else first i ∷ rest i) ∙ rw (ne→== c 0 (omega arith))

-- An entry depends on its eight bytes and its name only.
pub read_dir_entry-same :
    (m m' : Bytes) (o : ℕ)
    → SameOn o (o + 8 + 255) m m'
    → read_dir_entry_in_block m o ≡ read_dir_entry_in_block m' o
unfolding read_dir_entry_in_block
read_dir_entry-same m m' o h = λ i.
    if inode i == 0
    then none
    else some (record {
      inode = inode i;
      rec_len = u16 (rec_len i);
      name_len = u8 (name_len i);
      file_type = u8 (file_type i);
      name = name i;
    })
  where
    inode : parse_bytes_to_decimal_u m o 4 ≡ parse_bytes_to_decimal_u m' o 4
    inode = parse-same m m' o 4 (λ j p q. h j p (omega arith))

    rec_len : parse_bytes_to_decimal_u m (o + 4) 2 ≡ parse_bytes_to_decimal_u m' (o + 4) 2
    rec_len = parse-same m m' (o + 4) 2 (λ j p q. h j (omega arith) (omega arith))

    name_len : parse_bytes_to_decimal_u m (o + 6) 1 ≡ parse_bytes_to_decimal_u m' (o + 6) 1
    name_len = parse-same m m' (o + 6) 1 (λ j p q. h j (omega arith) (omega arith))

    file_type : parse_bytes_to_decimal_u m (o + 7) 1 ≡ parse_bytes_to_decimal_u m' (o + 7) 1
    file_type = parse-same m m' (o + 7) 1 (λ j p q. h j (omega arith) (omega arith))

    name :
        c_string m (o + 8) (u8 (parse_bytes_to_decimal_u m (o + 6) 1))
        ≡ c_string m' (o + 8) (u8 (parse_bytes_to_decimal_u m' (o + 6) 1))
    name =
        c_string-same m m' (o + 8) (u8 (parse_bytes_to_decimal_u m (o + 6) 1))
          (λ j p q. h j (omega arith) (omega arith))
        ∙ ap (λ (k : ℕ). c_string m' (o + 8) (u8 k)) name_len

-- The fields of an entry whose inode number is not 0, one by one.
pub read_dir_entry-fields :
    (m : Bytes) (o inode rec_len name_len file_type : ℕ) (name : List ℕ)
    → parse_bytes_to_decimal_u m o 4 ≡ inode
    → inode ≢ 0
    → u16 (parse_bytes_to_decimal_u m (o + 4) 2) ≡ rec_len
    → u8 (parse_bytes_to_decimal_u m (o + 6) 1) ≡ name_len
    → u8 (parse_bytes_to_decimal_u m (o + 7) 1) ≡ file_type
    → c_string m (o + 8) name_len ≡ name
    → read_dir_entry_in_block m o
      ≡ some (record {
        inode = inode;
        rec_len = rec_len;
        name_len = name_len;
        file_type = file_type;
        name = name;
      })
unfolding read_dir_entry_in_block
read_dir_entry-fields m o inode rec_len name_len file_type name i ne r n f s =
    let text : c_string m (o + 8) (u8 (parse_bytes_to_decimal_u m (o + 6) 1)) ≡ name =
      ap (c_string m (o + 8)) n ∙ s in
    rw (ne→== (parse_bytes_to_decimal_u m o 4) 0 (omega arith)) (λ k.
      some (record { inode = i k; rec_len = r k; name_len = n k; file_type = f k; name = text k }))

none_some : (e : DirEntry) → ◌≢◌ {A = Option DirEntry} none (some e)
none_some e h = cc

-- The entry that the bytes at `o` spell, whatever its inode number.
unfoldable pub entry_bytes : Bytes → ℕ → DirEntry
entry_bytes m o = record {
  inode = parse_bytes_to_decimal_u m o 4;
  rec_len = u16 (parse_bytes_to_decimal_u m (o + 4) 2);
  name_len = u8 (parse_bytes_to_decimal_u m (o + 6) 1);
  file_type = u8 (parse_bytes_to_decimal_u m (o + 7) 1);
  name = c_string m (o + 8) (u8 (parse_bytes_to_decimal_u m (o + 6) 1));
}

pub entry_bytes-read :
    (m : Bytes) (o : ℕ) (e : DirEntry) → read_dir_entry_in_block m o ≡ some e → entry_bytes m o ≡ e
unfolding read_dir_entry_in_block entry_bytes
entry_bytes-read m o e read = elim (Bool-cases (parse_bytes_to_decimal_u m o 4 == 0)) [
  | inl zero_inode ↦ absurd (none_some e (rw zero_inode at read))
  | inr used ↦ some-injective (entry_bytes m o) e (rw used at read)
]

entry_bytes-write_inode :
    (m : Bytes) (o n : ℕ)
    → 1 ≤ n
    → n < 2 ^ 32
    → read_dir_entry_in_block (write_number_into_block m o n 4) o
      ≡ some (record (entry_bytes m o) { inode = n })
unfolding entry_bytes
entry_bytes-write_inode m o n lo hi =
    let m' = write_number_into_block m o n 4 in
    let same : (k len : ℕ)
        → 4 ≤ k
        → parse_bytes_to_decimal_u m' (o + k) len ≡ parse_bytes_to_decimal_u m (o + k) len =
      λ k len le. parse-write_number_apart m o n 4 (o + k) len (inr (omega arith)) in
    read_dir_entry-fields m' o n _ _ _ _
      ((parse-write_number m o n 4 (omega arith)).0 ∙ mod-eq_of_lt hi) (omega arith)
      (ap u16 (same 4 2 (omega arith))) (ap u8 (same 6 1 (omega arith)))
      (ap u8 (same 7 1 (omega arith)))
      (c_string-same m' m (o + 8) _ (λ i p q. write_number_outside m o n 4 i (inr (omega arith))))

-- If an entry is read at `o`, then with an inode number from 1 to 2^32 - 1 written into its first
-- four bytes, the same entry with that inode number is read there.
pub read_dir_entry-write_inode :
    (m : Bytes) (o n : ℕ) (e : DirEntry)
    → read_dir_entry_in_block m o ≡ some e
    → 1 ≤ n
    → n < 2 ^ 32
    → read_dir_entry_in_block (write_number_into_block m o n 4) o ≡ some (record e { inode = n })
read_dir_entry-write_inode m o n e read lo hi =
    entry_bytes-write_inode m o n lo hi
    ∙ ap (λ (x : DirEntry). some (record x { inode = n })) (entry_bytes-read m o e read)
