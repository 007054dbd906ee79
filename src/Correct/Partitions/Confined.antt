-- ===== src/Correct/Partitions/Confined.antt =====
-- Correcting a partition leaves all that stands before it on the disk alone.
use my_fsck.Base.{ℕ, ◌*◌, ◌≤◌, ◌<◌, ◌≡◌, refl, ap, ◌∙◌, arith, List, ◌++◌, Bool-cases, inl, inr}
use my_fsck.Machine.State.{Fsck, Image, Message}
use my_fsck.Machine.Run.{M, Run, Stop, ok, stop, and_then, gets, ◌>>◌}
use my_fsck.Machine.Frame.{Framed, Framed-refl, Frames, returned, stopped, IsFramed, bind-IsFramed}
use my_fsck.Disk.Reads.{read_block-Keeps}
use my_fsck.SuperBlock.{super_block_size, read_super_block, read_group_desc_block}
use my_fsck.Partition.{is_null_entry, is_ext2_fs}
use my_fsck.Partition.Keeps.{
  Globals, assigned, cut, Globals-bind, Keeps-bind-Globals, read_partition_info-Globals,
}
use my_fsck.Correct.LostFound.{root_inode_num}
use my_fsck.Correct.Pass1.Frame.{pass1-IsFramed}
use my_fsck.Correct.Pass2.Frame.{pass2-IsFramed}
use my_fsck.Correct.Pass3.Frame.{pass3-IsFramed}
use my_fsck.Correct.Pass4.Frame.{pass4-IsFramed}
use my_fsck.Correct.Pass1.{pass1}
use my_fsck.Correct.Pass2.{pass2}
use my_fsck.Correct.Pass3.{pass3}
use my_fsck.Correct.Pass4.{pass4}
use my_fsck.Correct.Partitions.{load_partition, correct_one_partition}

-- The bytes before the partition that the global entry names at the end are as at the beginning,
-- the image has not become shorter, and what had been printed stays printed.
pub record Confined (s s' : Fsck) : Type 0 where
  pub printed : List Message
  pub output : s'.output ≡ s.output ++ printed
  pub size_le : s.image.size ≤ s'.image.size
  pub before :
      (x : ℕ)
      → x < s.image.size
      → x < s'.partition_entry.start * 512
      → s'.image.byte x ≡ s.image.byte x

-- A run that ends, in whichever way, in such a state.
pub data Confines {A : Type 0} (s : Fsck) : Run A → Type 0 where
  confined : {a : A} {s' : Fsck} → Confined s s' → Confines s (ok a s')
  cut_off : {e : Stop} {s' : Fsck} → Confined s s' → Confines s (stop e s')

Framed-Confined :
    {s t s' : Fsck} → t.image ≡ s.image → t.output ≡ s.output → Framed t s' → Confined s s'
Framed-Confined {s} {t} {s'} img out f =
    let start : s'.partition_entry.start ≡ t.partition_entry.start =
      ap (λ (x : Fsck). x.partition_entry.start) f.only_image in
    let size : t.image.size ≡ s.image.size = ap (λ (i : Image). i.size) img in
    record {
      printed = f.printed;
      output =
          ap (λ (x : Fsck). x.output) f.only_image ∙ ap (λ (o : List Message). o ++ f.printed) out;
      size_le = omega (arith, size, f.size_le);
      before = λ x lt lt'.
          f.before x (omega (arith, size)) (omega (arith, start))
          ∙ ap (λ (i : Image). i.byte x) img;
    }

module _ {A : Type 0} where
  Frames-Confines :
      {s t : Fsck} {r : Run A} → t.image ≡ s.image → t.output ≡ s.output → Frames t r → Confines s r
  Frames-Confines img out (returned f) = confined (Framed-Confined img out f)
  Frames-Confines img out (stopped f) = cut_off (Framed-Confined img out f)

module _ {A B : Type 0} where
  Globals-Confines :
      {s t : Fsck} {r : Run A} (k : A → M B)
      → t.image ≡ s.image
      → t.output ≡ s.output
      → Globals t r
      → ((a : A) (u : Fsck) → u.image ≡ s.image → u.output ≡ s.output → Confines s (k a u))
      → Confines s (and_then r k)
  Globals-Confines k img out (assigned i o) next = next _ _ (i ∙ img) (o ∙ out)
  Globals-Confines k img out (cut {s' = u} i o) next =
      cut_off (Framed-Confined (i ∙ img) (o ∙ out) (Framed-refl u))

pub load_partition-Globals : (s : Fsck) → Globals s (load_partition s)
unfolding load_partition read_super_block read_group_desc_block
load_partition-Globals s =
    Globals-bind _
      (Keeps-bind-Globals _ (read_block-Keeps 1 super_block_size s.stray s)
        (λ m. assigned refl refl))
      (λ _ t.
        Keeps-bind-Globals _ (read_block-Keeps 2 t.block_size t.stray t) (λ m. assigned refl refl))

passes-IsFramed :
    (depth : ℕ)
    → IsFramed (do
      pass1 depth root_inode_num root_inode_num
      pass2 depth
      pass3 depth
      pass4 depth
      gets (λ s. s.stray_minus_one))
passes-IsFramed depth = bind-IsFramed (pass1-IsFramed depth root_inode_num root_inode_num) (λ _.
    bind-IsFramed (pass2-IsFramed depth) (λ _.
      bind-IsFramed (pass3-IsFramed depth)
        (λ _. bind-IsFramed (pass4-IsFramed depth) (λ _ s. returned (Framed-refl s)))))

-- However `correct_one_partition` ends, by a return, an exit, a fault or for want of fuel, in the
-- state that it leaves no byte of the image before the start of the partition that the global
-- entry then names has changed, the image has not become shorter, and the output before is the
-- beginning of the output after.
pub correct_one_partition-Confined :
    (rounds depth n : ℕ) (s : Fsck) → Confines s (correct_one_partition rounds depth n s)
unfolding correct_one_partition
correct_one_partition-Confined rounds depth n s =
    Globals-Confines _ refl refl
      (Globals-bind _ (read_partition_info-Globals rounds n s) (λ _ t. assigned refl refl))
      (λ _ t img out.
        let same = Framed-Confined img out (Framed-refl t) in
        elim (Bool-cases (is_null_entry t.partition_entry)) [
          | inl missing ↦ rw missing (confined same)
          | inr present ↦ rw present (elim (Bool-cases (is_ext2_fs t.partition_entry)) [
            | inr other ↦ rw other (confined same)
            | inl ext2 ↦ rw ext2 (
                Globals-Confines _ img out (load_partition-Globals t)
                  (λ _ u img' out'. Frames-Confines img' out' (passes-IsFramed depth u)))
          ])
        ])
