-- ===== src/Correct/LostFound/Digits.antt =====
-- The name of an entry in lost+found is the inode number in decimal.
use my_fsck.Base.{
  ℕ, zero, suc, ◌+◌, ◌-◌, ◌*◌, ◌/◌, ◌^◌, ◌≤◌, ◌<◌, ◌≡◌, List, [], ◌∷◌, length, arith, ◌==◌,
  Bool-cases, inl, inr,
}
use my_fsck.Correct.LostFound.{digits}

-- The number that decimal digits spell, the last digit first.
abbrev pub from_digits : List ℕ → ℕ
from_digits [] = 0
from_digits (c ∷ cs) = c - b'0' + 10 * from_digits cs

abbrev pub AllDigits : List ℕ → Type 0
AllDigits [] = Unit
AllDigits (c ∷ cs) = (b'0' ≤ c) × (c ≤ b'9') × AllDigits cs

-- If the number is below 10^rounds, the characters that `digits` gives spell the number in
-- decimal, the last digit first.
pub digits-value : (rounds n : ℕ) → n < 10 ^ rounds → from_digits (digits rounds n) ≡ n
unfolding digits
digits-value zero n h = omega arith
digits-value (suc r) n h = ground (arith, digits-value r (n / 10))

pub digits-AllDigits : (rounds n : ℕ) → AllDigits (digits rounds n)
unfolding digits
digits-AllDigits zero n = tt
digits-AllDigits (suc r) n = elim (Bool-cases (n == 0)) [
  | inl e ↦ rw e tt
  | inr e ↦ rw e (omega arith, omega arith, digits-AllDigits r (n / 10))
]

pub length-digits : (rounds n : ℕ) → length (digits rounds n) ≤ rounds
unfolding digits
length-digits zero n = omega arith
length-digits (suc r) n = ground (arith, length-digits r (n / 10))
