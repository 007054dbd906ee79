-- ===== src/Util/Numbers.antt =====
-- The little-endian numbers that stand one behind the other in a structure.
use my_fsck.Base.{ℕ, zero, suc, ◌+◌, ◌≤◌, ◌<◌, ◌≡◌, refl, arith, u16, ap, ◌∙◌, sym, List, [], ◌∷◌}
use my_fsck.Machine.Memory.{Bytes, IsBytes, shift}
use my_fsck.Util.{parse_bytes_to_decimal_u}
use my_fsck.Util.Little.{little, little-lt, little-same, little-shift, parse-little}

-- The numbers of the given widths from byte `off` of the structure at `start` on.
unfoldable pub numbers : Bytes → (start off : ℕ) → List ℕ → List ℕ
numbers m start off [] = []
numbers m start off (w ∷ ws) = little m (start + off) w ∷ numbers m start (off + w) ws

-- `n` widths of four bytes.
abbrev pub fours : ℕ → List ℕ
fours zero = []
fours (suc n) = 4 ∷ fours n

pub numbers-shift :
    (m : Bytes) (a start off : ℕ) (ws : List ℕ)
    → numbers (shift m a) start off ws ≡ numbers m (a + start) off ws
unfolding numbers
numbers-shift m a start off [] = refl
numbers-shift m a start off (w ∷ ws) = λ i. here i ∷ numbers-shift m a start (off + w) ws i
  where
    here : little (shift m a) (start + off) w ≡ little m (a + start + off) w
    here = little-shift m a (start + off) w ∙ ap (λ (t : ℕ). little m t w) (omega arith)

-- As the program reads a number of four bytes, and of two.
pub parse-four : (m : Bytes) (i : ℕ) → IsBytes m → parse_bytes_to_decimal_u m i 4 ≡ little m i 4
parse-four m i h = omega (arith, parse-little m i 4, little-lt m i 4 h)

pub parse-two :
    (m : Bytes) (i : ℕ) → IsBytes m → u16 (parse_bytes_to_decimal_u m i 2) ≡ little m i 2
parse-two m i h = omega (arith, parse-little m i 2, little-lt m i 2 h)

-- The bytes that numbers of the given widths take.
unfoldable pub total : List ℕ → ℕ
total [] = 0
total (w ∷ ws) = w + total ws

pub numbers-same :
    (m m' : Bytes) (start start' off : ℕ) (ws : List ℕ)
    → ((j : ℕ) → off ≤ j → j < off + total ws → m (start + j) ≡ m' (start' + j))
    → numbers m start off ws ≡ numbers m' start' off ws
unfolding numbers total
numbers-same m m' start start' off [] h = refl
numbers-same m m' start start' off (w ∷ ws) h = λ i.
    here i
    ∷ numbers-same m m' start start' (off + w) ws (λ j p q. h j (omega arith) (omega arith)) i
  where
    here : little m (start + off) w ≡ little m' (start' + off) w
    here =
        sym (little-shift m start off w)
        ∙ little-same (shift m start) (shift m' start') off w (λ j p q. h j p (omega arith))
        ∙ little-shift m' start' off w
