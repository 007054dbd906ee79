-- ===== src/Machine/Memory.antt =====
-- A `char*` is the memory that it points into, a function from the offset to the byte that stands
-- there. Behind the end of an array a read gives what the memory holds, which is not known.
use my_fsck.Base.{
  ℕ, zero, suc, ◌+◌, ◌-◌, ◌≤◌, ◌<◌, ◌≡◌, ◌≢◌, List, [], ◌∷◌, ltb, ◌==◌, if◌then◌else◌, arith,
}

abbrev pub Bytes : Type 0
Bytes = ℕ → ℕ

-- `p + off`.
abbrev pub shift : Bytes → ℕ → Bytes
shift m off i = m (off + i)

-- The array after a callee was handed `m + off` and left `sub` there.
unfoldable pub splice : Bytes → ℕ → Bytes → Bytes
splice m off sub i = if ltb i off then m i else sub (i - off)

-- `m[i] = v`.
unfoldable pub set_byte : Bytes → ℕ → ℕ → Bytes
set_byte m i v j = if i == j then v else m j

-- The C string at `m + start`, of which at most `n` bytes are looked at.
unfoldable pub c_string : Bytes → ℕ → ℕ → List ℕ
c_string m start zero = []
c_string m start (suc n) =
    let rest = c_string m (start + 1) n in if m start == 0 then [] else m start ∷ rest

-- `strncpy(m + start, name, n)`: the name, then zeros up to `n` bytes.
unfoldable pub strncpy : Bytes → ℕ → List ℕ → ℕ → Bytes
strncpy m start name zero = m
strncpy m start [] (suc n) = strncpy (set_byte m start 0) (start + 1) [] n
strncpy m start (c ∷ name) (suc n) = strncpy (set_byte m start c) (start + 1) name n

-- Every byte is one.
abbrev pub IsBytes : Bytes → Type 0
IsBytes m = (i : ℕ) → m i < 256

-- Two memories agree on the offsets from `lo` up to `hi`.
abbrev pub SameOn : ℕ → ℕ → Bytes → Bytes → Type 0
SameOn lo hi m m' = (i : ℕ) → lo ≤ i → i < hi → m i ≡ m' i

pub set_byte_self : (m : Bytes) (i v : ℕ) → set_byte m i v i ≡ v
unfolding set_byte
set_byte_self m i v = ground arith

pub set_byte_ne : (m : Bytes) (i v j : ℕ) → i ≢ j → set_byte m i v j ≡ m j
unfolding set_byte
set_byte_ne m i v j h = ground arith

pub splice_below : (m : Bytes) (off : ℕ) (sub : Bytes) (i : ℕ) → i < off → splice m off sub i ≡ m i
unfolding splice
splice_below m off sub i h = ground arith

pub splice_above :
    (m : Bytes) (off : ℕ) (sub : Bytes) (i : ℕ) → off ≤ i → splice m off sub i ≡ sub (i - off)
unfolding splice
splice_above m off sub i h = ground arith
