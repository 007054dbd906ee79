-- ===== src/Disk/Dump.antt =====
-- `print_sector` of readwrite.c and `print_block` of util.c: bytes in hexadecimal digits.
use mathlib.Core.List.{List, [], ◌∷◌, ◌++◌}
use my_fsck.Base.{
  ℕ, zero, suc, ◌+◌, ◌-◌, ◌*◌, ◌/◌, ◌%◌, ◌<◌, ◌≡◌, refl, ◌∙◌, arith, Bool-cases, inl, inr, true,
  false, u32, ltb, ◌==◌, ◌||◌, if◌then◌else◌,
}
use my_fsck.Machine.Memory.{Bytes, IsBytes, shift}
use my_fsck.Machine.State.{characters}
use my_fsck.Machine.Run.{M, pure, gets, print, ◌>>=◌, ◌>>◌}

-- A digit of `%02x`.
unfoldable pub hex_digit : ℕ → ℕ
hex_digit d = if ltb d 10 then b'0' + d else b'a' + d - 10

-- A line break after 32 bytes, a space after 4.
unfoldable pub separator : ℕ → List ℕ
separator i = if (i + 1) % 32 == 0 then b'\n' ∷ [] else if (i + 1) % 4 == 0 then b' ' ∷ [] else []

-- The loop of `print_sector` from byte `i` on, with `left` bytes to go.
unfoldable pub sector_loop : (left i : ℕ) → Bytes → List ℕ
sector_loop zero i buf = []
sector_loop (suc left) i buf =
    hex_digit (buf i / 16) ∷ hex_digit (buf i % 16) ∷ (separator i ++ sector_loop left (i + 1) buf)

unfoldable pub print_sector : Bytes → M (Unit {0})
print_sector buf = print (characters (sector_loop 512 0 buf))

unfoldable pub print_sectors : (left i : ℕ) → Bytes → M (Unit {0})
print_sectors zero i contents = pure tt
print_sectors (suc left) i contents = do
  print_sector (shift contents (u32 (512 * i)))
  print_sectors left (i + 1) contents

unfoldable pub print_block : Bytes → M (Unit {0})
print_block contents = do
  block_size ← gets (λ s. s.block_size)
  print_sectors (block_size / 512) 0 contents

-- The value of a hexadecimal digit, and the bytes that a text of such digits spells: spaces and line
-- breaks are passed over.
unfoldable pub digit_value : ℕ → ℕ
digit_value c = if ltb c b'a' then c - b'0' else c + 10 - b'a'

unfoldable pub read_dump : List ℕ → List ℕ
read_dump [] = []
read_dump (c ∷ []) = []
read_dump (c ∷ d ∷ text) =
    let blank = read_dump (d ∷ text) in
    let rest = read_dump text in
    if c == b' ' || c == b'\n' then blank else (16 * digit_value c + digit_value d) ∷ rest

unfoldable pub bytes_from : (left i : ℕ) → Bytes → List ℕ
bytes_from zero i buf = []
bytes_from (suc left) i buf = buf i ∷ bytes_from left (i + 1) buf

digit_value-hex_digit : (d : ℕ) → d < 16 → digit_value (hex_digit d) ≡ d
unfolding digit_value hex_digit
digit_value-hex_digit d h = ground arith

hex_digit-not_blank : (d : ℕ) → (hex_digit d == b' ' || hex_digit d == b'\n') ≡ false
unfolding hex_digit
hex_digit-not_blank d = ground arith

read_dump-blank :
    (c : ℕ) (text : List ℕ)
    → (c == b' ' || c == b'\n') ≡ true
    → read_dump (c ∷ text) ≡ read_dump text
unfolding read_dump
read_dump-blank c [] h = refl
read_dump-blank c (d ∷ text) h = rw h refl

read_dump-separator : (i : ℕ) (text : List ℕ) → read_dump (separator i ++ text) ≡ read_dump text
unfolding separator
read_dump-separator i text = elim (Bool-cases ((i + 1) % 32 == 0)) [
  | inl line ↦ rw line (read_dump-blank b'\n' text refl)
  | inr inside ↦ rw inside (elim (Bool-cases ((i + 1) % 4 == 0)) [
    | inl four ↦ rw four (read_dump-blank b' ' text refl)
    | inr other ↦ rw other refl
  ])
]

-- If a buffer holds bytes, reading pairs of hexadecimal digits and passing over spaces and line
-- breaks in the text that `print_sector` prints gives the bytes of the buffer, in order.
pub read_dump-sector_loop :
    (left i : ℕ) (buf : Bytes)
    → IsBytes buf
    → read_dump (sector_loop left i buf) ≡ bytes_from left i buf
unfolding read_dump sector_loop bytes_from
read_dump-sector_loop zero i buf h = refl
read_dump-sector_loop (suc left) i buf h =
    let byte : 16 * digit_value (hex_digit (buf i / 16)) + digit_value (hex_digit (buf i % 16))
        ≡ buf i =
      omega (arith, h i, digit_value-hex_digit (buf i / 16), digit_value-hex_digit (buf i % 16)) in
    rw (hex_digit-not_blank (buf i / 16)) (λ k.
      byte k
      ∷ (read_dump-separator i (sector_loop left (i + 1) buf)
            ∙ read_dump-sector_loop left (i + 1) buf h)
          k)
