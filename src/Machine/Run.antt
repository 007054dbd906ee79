-- ===== src/Machine/Run.antt =====
-- Runs: a value with the state after it, or an early end.
use my_fsck.Base.{Bool, true, false, [], ◌∷◌, ◌++◌}
use my_fsck.Machine.State.{Fsck, Message}

-- `exited` is `exit(-1)`. `fault` is undefined behaviour that stops the model: a write outside an
-- array, a division by zero, the use of a value that no `return` gave. `out_of_fuel` means that
-- the rounds given to a loop or a recursion did not suffice.
pub data Stop : Type 0 where
  exited fault out_of_fuel : Stop

pub data Run (A : Type 0) : Type 0 where
  ok : A → Fsck → Run A
  stop : Stop → Fsck → Run A

abbrev pub M : Type 0 → Type 0
M A = Fsck → Run A

abbrev pub pure : {A : Type 0} → A → M A
pure a s = ok a s

abbrev pub halt : {A : Type 0} → Stop → M A
halt e s = stop e s

module _ {A B : Type 0} where
  abbrev pub and_then : Run A → (A → M B) → Run B
  and_then (ok a s) k = k a s
  and_then (stop e s) k = stop e s

  infixl 5 ◌>>=◌ ◌>>◌
  abbrev pub ◌>>=◌ : M A → (A → M B) → M B
  m >>= k = λ s. and_then (m s) k

  abbrev pub ◌>>◌ : M A → M B → M B
  m >> n = m >>= λ _. n

-- The value of a global.
abbrev pub gets : {A : Type 0} → (Fsck → A) → M A
gets f s = ok (f s) s

abbrev pub modify : (Fsck → Fsck) → M (Unit {0})
modify f s = ok tt (f s)

abbrev pub print : Message → M (Unit {0})
print m s = ok tt (record s { output = s.output ++ (m ∷ []) })

-- Undefined behaviour unless the condition holds.
abbrev pub require : Bool → M (Unit {0})
require true = λ s. ok tt s
require false = λ s. stop fault s

abbrev pub when : Bool → M (Unit {0}) → M (Unit {0})
when true m = m
when false m = λ s. ok tt s

-- A run that changes nothing in the state.
pub data Keeps {A : Type 0} (s : Fsck) : Run A → Type 0 where
  kept : {a : A} → Keeps s (ok a s)
  ended : {e : Stop} → Keeps s (stop e s)

module _ {A B : Type 0} {s : Fsck} where
  pub Keeps-bind :
      {r : Run A} (k : A → M B) → Keeps s r → ((a : A) → Keeps s (k a s)) → Keeps s (and_then r k)
  Keeps-bind k kept next = next _
  Keeps-bind k ended next = ended

pub Keeps-require : (b : Bool) (s : Fsck) → Keeps s (require b s)
Keeps-require true s = kept
Keeps-require false s = ended
