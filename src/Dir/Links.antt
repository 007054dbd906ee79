-- ===== src/Dir/Links.antt =====
-- `extract_entry_name` and `parse_name` of dir.c: the parts of a path, and the target of a symbolic
-- link that its inode holds in the place of the block pointers.
use my_fsck.Base.{
  ℕ, zero, suc, ◌+◌, ◌*◌, ◌/◌, ◌%◌, ◌^◌, ◌<◌, ◌≡◌, refl, arith, ap, ◌∙◌, List, [], ◌∷◌, ◌++◌, Bool,
  true, false, length, ◌==◌, if◌then◌else◌, ◌>>>◌, Bool-cases, inl, inr,
}
use my_fsck.Machine.Memory.{Bytes, set_byte, set_byte_self, set_byte_ne, c_string}
use my_fsck.Machine.State.{Inode}

-- The length of the first part of the path, which ends at a slash.
unfoldable pub extract_entry_name : List ℕ → ℕ
extract_entry_name [] = 0
extract_entry_name (c ∷ path) =
    let rest = extract_entry_name path in if c == b'/' then 0 else suc rest

-- The inner loop, with `left` bytes to go: the name, and whether it has ended.
unfoldable pub parse_name_bytes : (left j i pointer : ℕ) → Bytes → Bytes × Bool
parse_name_bytes zero j i pointer name = (name, false)
parse_name_bytes (suc left) j i pointer name =
    let c = (pointer >>> (8 * j)) % 2 ^ 8 in
    let name' = set_byte name (i * 4 + j) c in
    let rest = parse_name_bytes left (j + 1) i pointer name' in
    if c == 0 then (name', true) else rest

unfoldable pub parse_name_loop : List ℕ → ℕ → Bytes → Bytes
parse_name_loop [] i name = name
parse_name_loop (pointer ∷ pointers) i name =
    let r = parse_name_bytes 4 0 i pointer name in
    let rest = parse_name_loop pointers (i + 1) r.0 in if r.1 then r.0 else rest

unfoldable pub parse_name : Inode → Bytes → Bytes
parse_name inode name = parse_name_loop inode.i_block 0 name

-- The bytes of a pointer from byte `j` on, the lowest first.
abbrev pub bytes_of : (left j pointer : ℕ) → List ℕ
bytes_of zero j pointer = []
bytes_of (suc left) j pointer = (pointer / 2 ^ (8 * j)) % 256 ∷ bytes_of left (j + 1) pointer

abbrev pub pointer_bytes : List ℕ → List ℕ
pointer_bytes [] = []
pointer_bytes (p ∷ ps) = bytes_of 4 0 p ++ pointer_bytes ps

-- The bytes up to the first zero.
unfoldable pub text : List ℕ → List ℕ
text [] = []
text (c ∷ cs) = let rest = text cs in if c == 0 then [] else c ∷ rest

-- The same in one loop: bytes are written one behind the other up to the first zero.
unfoldable pub put_text : List ℕ → ℕ → Bytes → Bytes
put_text [] o name = name
put_text (c ∷ cs) o name =
    let name' = set_byte name o c in
    let rest = put_text cs (o + 1) name' in if c == 0 then name' else rest

put_text_below :
    (cs : List ℕ) (o : ℕ) (name : Bytes) (x : ℕ) → x < o → put_text cs o name x ≡ name x
unfolding put_text
put_text_below [] o name x h = refl
put_text_below (c ∷ cs) o name x h =
    ground (arith, put_text_below cs (o + 1) (set_byte name o c) x, set_byte_ne name o c x)

c_string-put_text :
    (cs : List ℕ) (o : ℕ) (name : Bytes) → c_string (put_text cs o name) o (length cs) ≡ text cs
unfolding c_string put_text text
c_string-put_text [] o name = refl
c_string-put_text (c ∷ cs) o name =
    let name' = set_byte name o c in
    let first : put_text cs (o + 1) name' o ≡ c =
      put_text_below cs (o + 1) name' o (omega arith) ∙ set_byte_self name o c in
    let rest = c_string-put_text cs (o + 1) name' in
    elim (Bool-cases (c == 0)) [
      | inl e ↦ rw e (rw (ap (λ (t : ℕ). t == 0) (set_byte_self name o c) ∙ e) refl)
      | inr e ↦
          ap {B = List ℕ} (λ (m : Bytes). c_string m o (suc (length cs)))
            {x = put_text (c ∷ cs) o name} {y = put_text cs (o + 1) name'} (rw e refl)
          ∙ (λ i. if first i == 0 then [] else first i ∷ rest i)
    ]

parse_name_bytes-put_text :
    (left j i p : ℕ) (tail : List ℕ) (k : Bytes → Bytes) (o : ℕ) (name : Bytes)
    → i * 4 + j ≡ o
    → ((m : Bytes) → k m ≡ put_text tail (o + left) m)
    → (let r = parse_name_bytes left j i p name in if r.1 then r.0 else k r.0)
      ≡ put_text (bytes_of left j p ++ tail) o name
unfolding parse_name_bytes put_text
parse_name_bytes-put_text zero j i p tail k o name e h =
    h name ∙ ap (λ (a : ℕ). put_text tail a name) (omega arith)
parse_name_bytes-put_text (suc left) j i p tail k o name e h =
    let c = (p / 2 ^ (8 * j)) % 256 in
    let place = ap (λ (a : ℕ). set_byte name a c) e in
    elim (Bool-cases (c == 0)) [
      | inl z ↦ rw z place
      | inr z ↦ rw z (
          parse_name_bytes-put_text left (j + 1) i p tail k (o + 1) (set_byte name (i * 4 + j) c)
            (omega arith) (λ m. h m ∙ ap (λ (a : ℕ). put_text tail a m) (omega arith))
          ∙ ap (put_text (bytes_of left (j + 1) p ++ tail) (o + 1)) place)
    ]

parse_name_loop-put_text :
    (ps : List ℕ) (i : ℕ) (name : Bytes)
    → parse_name_loop ps i name ≡ put_text (pointer_bytes ps) (i * 4) name
unfolding parse_name_loop put_text
parse_name_loop-put_text [] i name = refl
parse_name_loop-put_text (p ∷ ps) i name =
    parse_name_bytes-put_text 4 0 i p (pointer_bytes ps) (parse_name_loop ps (i + 1)) (i * 4) name
      (omega arith)
      (λ m.
        parse_name_loop-put_text ps (i + 1) m
        ∙ ap (λ (a : ℕ). put_text (pointer_bytes ps) a m) (omega arith))

-- The C string that `parse_name` leaves in the array is the text that the bytes of the inode's
-- block pointers spell, the lowest byte of each first, up to the first zero.
pub parse_name-text :
    (inode : Inode) (name : Bytes)
    → c_string (parse_name inode name) 0 (length (pointer_bytes inode.i_block))
      ≡ text (pointer_bytes inode.i_block)
unfolding parse_name
parse_name-text inode name =
    ap (λ (m : Bytes). c_string m 0 (length (pointer_bytes inode.i_block)))
      (parse_name_loop-put_text inode.i_block 0 name
        ∙ ap (λ (a : ℕ). put_text (pointer_bytes inode.i_block) a name) (omega arith))
    ∙ c_string-put_text (pointer_bytes inode.i_block) 0 name
