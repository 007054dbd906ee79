-- ===== src/Correct/Pass1/Buffer.antt =====
-- What `check_entry` makes of an entry, in the buffer and on the disk.
use mathlib.Core.Option.{none-ne-some}
use my_fsck.Base.{
  and-both, leb, ltb, leb→le, ◌&&◌, ℕ, ◌+◌, ◌-◌, ◌^◌, ◌≤◌, ◌<◌, ◌≡◌, ◌≢◌, ◌⊎◌, refl, arith, ap, ◌∙◌,
  sym, List, true, ◌==◌, ==→eq, eq→==, [], ◌∷◌, ◌++◌, ltb, le→leb, ltb→lt, ltb→le, Bool-cases, inl,
  inr, some, u8, u16,
}
use my_fsck.Machine.Memory.{Bytes, SameOn}
use my_fsck.Machine.State.{Fsck, Image, DirEntry, Message, dir_entry_error}
use my_fsck.Machine.Run.{ok}
use my_fsck.Util.{write_number_into_block, parse_bytes_to_decimal_u}
use my_fsck.Util.Number.{write_number_outside, parse-same}
use my_fsck.Disk.{read_bytes, write_bytes}
use my_fsck.Disk.Blocks.{HasSectors, IsOnDisk, block_address, written, write_block-ok}
use my_fsck.Inode.Update.{with_image}
use my_fsck.Dir.{read_dir_entry_in_block}
use my_fsck.Dir.Codec.{
  read_dir_entry-write_inode, read_dir_entry-fields, entry_bytes, entry_bytes-read,
}
use my_fsck.Correct.Pass1.{check_entry, pass1_corrector}
use my_fsck.Correct.Pass1.Listed.{block_of}

used_entry : (m : Bytes) (o : ℕ) (e : DirEntry) → read_dir_entry_in_block m o ≡ some e → e.inode ≢ 0
unfolding entry_bytes read_dir_entry_in_block
used_entry m o e read z =
    let zero_inode : (parse_bytes_to_decimal_u m o 4 == 0) ≡ true =
      eq→== (parse_bytes_to_decimal_u m o 4) 0
        (ap (λ (x : DirEntry). x.inode) (entry_bytes-read m o e read) ∙ z) in
    none-ne-some e (rw zero_inode at read)

-- Where the eight bytes of an entry's header are the same, the entries differ in the name only.
pub header-same :
    (m m' : Bytes) (o : ℕ) (e : DirEntry)
    → SameOn o (o + 8) m' m
    → read_dir_entry_in_block m o ≡ some e
    → (name : List ℕ) × (read_dir_entry_in_block m' o ≡ some (record e { name = name }))
unfolding entry_bytes
header-same m m' o e same read =
    let known = entry_bytes-read m o e read in
    (
      _,
      read_dir_entry-fields m' o e.inode e.rec_len e.name_len e.file_type _
          (parse-same m' m o 4 (λ j p q. same j p (omega arith))
            ∙ ap (λ (x : DirEntry). x.inode) known)
          (used_entry m o e read)
          (ap (λ (n : ℕ). u16 n)
              (parse-same m' m (o + 4) 2 (λ j p q. same j (omega arith) (omega arith)))
            ∙ ap (λ (x : DirEntry). x.rec_len) known)
          (ap (λ (n : ℕ). u8 n)
              (parse-same m' m (o + 6) 1 (λ j p q. same j (omega arith) (omega arith)))
            ∙ ap (λ (x : DirEntry). x.name_len) known)
          (ap (λ (n : ℕ). u8 n)
              (parse-same m' m (o + 7) 1 (λ j p q. same j (omega arith) (omega arith)))
            ∙ ap (λ (x : DirEntry). x.file_type) known)
          refl,
    )

-- A buffer is what the image holds of the block.
abbrev pub HoldsIn : Fsck → Image → ℕ → Bytes → Type 0
HoldsIn s img b m = (i : ℕ) → i < s.block_size → img.byte (block_address s b + i) ≡ m i

pub block_of-held :
    (s : Fsck) (img : Image) (b : ℕ) (m : Bytes)
    → HoldsIn s img b m
    → ((j : ℕ) → s.block_size ≤ j → m j ≡ s.stray j)
    → block_of s img b ≡ m
block_of-held s img b m held behind = λ k i. at i k
  where
    at : (i : ℕ) → block_of s img b i ≡ m i
    at i = elim (Bool-cases (ltb i s.block_size)) [
      | inl inside ↦ unfold read_bytes in rw inside (held i (ltb→lt i s.block_size inside))
      | inr past ↦ unfold read_bytes in rw past (sym (behind i (ltb→le i s.block_size past)))
    ]

-- What `check_entry` makes of an image and of the buffer that it holds.
pub record NumberSet (s : Fsck) (b offset wanted : ℕ) (e : DirEntry) (m m' : Bytes)
    (img img' : Image) : Type 0 where
  pub size : img'.size ≡ img.size
  pub only :
      (x : ℕ)
      → x < s.image.size
      → (x < block_address s b + offset) ⊎ (block_address s b + offset + 4 ≤ x)
      → img'.byte x ≡ img.byte x
  pub held : HoldsIn s img' b m'
  pub others : (j : ℕ) → (j < offset) ⊎ (offset + 4 ≤ j) → m' j ≡ m j
  pub entry : read_dir_entry_in_block m' offset ≡ some (record e { inode = wanted })

module _ (s : Fsck) (sectors : HasSectors s) (img : Image) (size : img.size ≡ s.image.size) (b : ℕ)
    (on_disk : IsOnDisk s b) where
  abbrev new_image : Bytes → Image
  new_image m = write_bytes img (block_address s b) s.block_size m

  new_image-size : (m : Bytes) → (new_image m).size ≡ img.size
  unfolding write_bytes
  new_image-size m = ground arith

  new_image-only :
      (m m' : Bytes) (offset : ℕ)
      → HoldsIn s img b m
      → ((j : ℕ) → (j < offset) ⊎ (offset + 4 ≤ j) → m' j ≡ m j)
      → (x : ℕ) → x < s.image.size
      → (x < block_address s b + offset) ⊎ (block_address s b + offset + 4 ≤ x)
      → (new_image m').byte x ≡ img.byte x
  unfolding write_bytes
  new_image-only m m' offset held others x lt outside =
      let a = block_address s b in
      elim (Bool-cases (leb a x && ltb x (a + s.block_size))) [
        | inr out ↦ rw out (ground arith)
        | inl in_block ↦
            let range = and-both (leb a x) (ltb x (a + s.block_size)) in_block in
            let lo = leb→le a x range.0 in
            let hi = ltb→lt x (a + s.block_size) range.1 in
            rw in_block (
              others (x - a) (omega arith)
              ∙ sym (held (x - a) (omega arith))
              ∙ ap img.byte (omega arith))
      ]

  new_image-held : (m : Bytes) → HoldsIn s (new_image m) b m
  unfolding write_bytes
  new_image-held m i lt =
      ground (arith, ap m {x = block_address s b + i - block_address s b} {y = i})

  pub check_entry-NumberSet :
      (out : List Message) (m : Bytes) (offset wanted : ℕ) (e : DirEntry)
      → HoldsIn s img b m
      → read_dir_entry_in_block m offset ≡ some e
      → offset + 4 ≤ s.block_size
      → 1 ≤ wanted
      → wanted < 2 ^ 32
      → (img' : Image) × (out' : List Message) × (m' : Bytes) × (check_entry m b offset e wanted
            (with_image s img out)
          ≡ ok m' (with_image s img' out'))
        × NumberSet s b offset wanted e m m' img img'
  unfolding check_entry pass1_corrector written block_address
  check_entry-NumberSet out m offset wanted e held read fits lo hi =
      elim (Bool-cases (e.inode == wanted)) [
        | inl same ↦ (
          img,
          out,
          m,
          rw same refl,
          record {
            size = refl;
            only = λ x lt outside. refl;
            held = held;
            others = λ j out. refl;
            entry =
                read ∙ ap (λ (n : ℕ). some (record e { inode = n })) (==→eq e.inode wanted same);
          },
        )
        | inr differs ↦
            let m' = write_number_into_block m offset wanted 4 in
            let s1 = with_image s img (out ++ (dir_entry_error wanted e.name e.inode ∷ [])) in
            (
              new_image m',
              (written s1 b m').output,
              m',
              rw (differs, le→leb (offset + 4) s.block_size fits, write_block-ok s1 b m' sectors)
                  refl,
              record {
                size = new_image-size m';
                only = new_image-only m m' offset held (write_number_outside m offset wanted 4);
                held = new_image-held m';
                others = write_number_outside m offset wanted 4;
                entry = read_dir_entry-write_inode m offset wanted e read lo hi;
              },
            )
      ]
