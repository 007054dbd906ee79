-- ===== src/Machine/Frame.antt =====
-- What a run that writes blocks of the partition can change: the image behind the start of the
-- partition, and the output.
use mathlib.Core.List.{append_assoc, append-nil}
use my_fsck.Base.{
  ℕ, ◌*◌, ◌≤◌, ◌<◌, ◌≡◌, refl, sym, ap, ◌∙◌, arith, List, [], ◌∷◌, ◌++◌, Bool, true, false,
  if◌then◌else◌,
}
use my_fsck.Machine.State.{Fsck, Message}
use my_fsck.Machine.Run.{
  M, Run, ok, stop, Stop, and_then, pure, halt, print, require, ◌>>=◌, Keeps, kept, ended,
}

-- Only the image and the output differ; nothing before the partition has changed, the image has
-- not become shorter, and what had been printed stays printed.
pub record Framed (s s' : Fsck) : Type 0 where
  pub printed : List Message
  pub only_image : s' ≡ record s { image = s'.image; output = s.output ++ printed }
  pub size_le : s.image.size ≤ s'.image.size
  pub before :
      (x : ℕ)
      → x < s.image.size
      → x < s.partition_entry.start * 512
      → s'.image.byte x ≡ s.image.byte x

pub Framed-refl : (s : Fsck) → Framed s s
Framed-refl s = record {
  printed = [];
  only_image = ap (λ (out : List Message). record s { output = out }) (sym (append-nil s.output));
  size_le = omega arith;
  before = λ x lt lt'. refl;
}

pub Framed-trans : {s t u : Fsck} → Framed s t → Framed t u → Framed s u
Framed-trans {s} {t} {u} f g =
    let start : t.partition_entry.start ≡ s.partition_entry.start =
      ap (λ (x : Fsck). x.partition_entry.start) f.only_image in
    let output : t.output ≡ s.output ++ f.printed = ap (λ (x : Fsck). x.output) f.only_image in
    record {
      printed = f.printed ++ g.printed;
      only_image =
          g.only_image
          ∙ ap (λ (x : Fsck). record x { image = u.image; output = t.output ++ g.printed })
              f.only_image
          ∙ ap (λ (out : List Message). record s { image = u.image; output = out })
              (ap (λ (out : List Message). out ++ g.printed) output
                ∙ append_assoc s.output f.printed g.printed);
      size_le = omega (arith, f.size_le, g.size_le);
      before = λ x lt lt'.
          g.before x (omega (arith, f.size_le)) (omega (arith, start)) ∙ f.before x lt lt';
    }

-- A run that ends, in whichever way, in a state with only such changes.
pub data Frames {A : Type 0} (s : Fsck) : Run A → Type 0 where
  returned : {a : A} {s' : Fsck} → Framed s s' → Frames s (ok a s')
  stopped : {e : Stop} {s' : Fsck} → Framed s s' → Frames s (stop e s')

-- A computation that makes only such changes, from whichever state.
abbrev pub IsFramed : {A : Type 0} → M A → Type 0
IsFramed m = (s : Fsck) → Frames s (m s)

module _ {A : Type 0} where
  Frames-trans : {s t : Fsck} {r : Run A} → Framed s t → Frames t r → Frames s r
  Frames-trans f (returned g) = returned (Framed-trans f g)
  Frames-trans f (stopped g) = stopped (Framed-trans f g)

  pub pure-IsFramed : (a : A) → IsFramed (pure a)
  pure-IsFramed a s = returned (Framed-refl s)

  pub halt-IsFramed : (e : Stop) → IsFramed (halt {A = A} e)
  halt-IsFramed e s = stopped (Framed-refl s)

  pub Keeps-IsFramed : (m : M A) → ((s : Fsck) → Keeps s (m s)) → IsFramed m
  Keeps-IsFramed m keeps s = framed (keeps s)
    where
      framed : {r : Run A} → Keeps s r → Frames s r
      framed kept = returned (Framed-refl s)
      framed ended = stopped (Framed-refl s)

  pub if-IsFramed : {m n : M A} (b : Bool) → IsFramed m → IsFramed n → IsFramed (if b then m else n)
  if-IsFramed true f g = f
  if-IsFramed false f g = g

module _ {A B : Type 0} where
  pub Frames-bind :
      {s : Fsck} {r : Run A} (k : A → M B)
      → Frames s r
      → ((a : A) → IsFramed (k a))
      → Frames s (and_then r k)
  Frames-bind k (returned f) next = Frames-trans f (next _ _)
  Frames-bind k (stopped f) next = stopped f

  pub bind-IsFramed :
      {m : M A} {k : A → M B} → IsFramed m → ((a : A) → IsFramed (k a)) → IsFramed (m >>= k)
  bind-IsFramed {k} f next s = Frames-bind k (f s) next

pub print-IsFramed : (m : Message) → IsFramed (print m)
print-IsFramed m s = returned (record {
  printed = m ∷ [];
  only_image = refl;
  size_le = omega arith;
  before = λ x lt lt'. refl;
})

pub require-IsFramed : (b : Bool) → IsFramed (require b)
require-IsFramed true s = returned (Framed-refl s)
require-IsFramed false s = stopped (Framed-refl s)
