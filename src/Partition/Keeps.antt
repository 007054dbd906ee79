-- ===== src/Partition/Keeps.antt =====
-- Reading the partition tables changes the global entry only.
use my_fsck.Base.{
  ℕ, zero, suc, ◌+◌, ◌-◌, ◌≡◌, refl, ◌∙◌, leb, ltb, ◌==◌, u32, Option-cases, Bool-cases, inl, inr,
}
use my_fsck.Machine.State.{Fsck, PartitionEntry}
use my_fsck.Machine.Run.{M, Run, Stop, ok, stop, and_then, Keeps, kept, ended, Keeps-bind}
use my_fsck.Disk.Reads.{read_sectors-Keeps}
use my_fsck.Partition.{
  first_partition_offset, dos_extended_partition, read_partition_entry, unset_entry, ebr_loop,
  read_ebr, find_extended, read_partition_info,
}

ebr_loop-Keeps :
    (rounds start end n : ℕ) (e : PartitionEntry) (s : Fsck)
    → Keeps s (ebr_loop rounds start end n e s)
unfolding ebr_loop
ebr_loop-Keeps zero start end n e s = ended
ebr_loop-Keeps (suc rounds) start end n e s = elim (Bool-cases (n == 4)) [
  | inl last ↦ rw last kept
  | inr more ↦ rw more (elim (Bool-cases (leb end start)) [
    | inl past ↦ rw past kept
    | inr inside ↦ rw inside (
        Keeps-bind _ (read_sectors-Keeps start 1 s.stray s) (λ sector.
          let next = read_partition_entry sector start first_partition_offset in
          elim (Bool-cases (ltb end (u32 (next.start + next.length)))) [
            | inl beyond ↦ rw beyond kept
            | inr within ↦ rw within (elim (Bool-cases (next.type == dos_extended_partition)) [
              | inl inner ↦
                  rw inner (ebr_loop-Keeps rounds next.start (u32 (next.start + next.length)) n e s)
              | inr other ↦
                  rw other
                    (ebr_loop-Keeps rounds (u32 (next.start + next.length)) end (n - 1) next s)
            ])
          ]))
  ])
]

-- A run whose end state differs in globals only: image and output are as before.
pub data Globals {A : Type 0} (s : Fsck) : Run A → Type 0 where
  assigned : {a : A} {s' : Fsck} → s'.image ≡ s.image → s'.output ≡ s.output → Globals s (ok a s')
  cut : {e : Stop} {s' : Fsck} → s'.image ≡ s.image → s'.output ≡ s.output → Globals s (stop e s')

pub Keeps-bind-Globals :
    {A B : Type 0} {s : Fsck} {r : Run A} (k : A → M B)
    → Keeps s r
    → ((a : A) → Globals s (k a s))
    → Globals s (and_then r k)
Keeps-bind-Globals k kept next = next _
Keeps-bind-Globals k ended next = cut refl refl

pub Globals-bind :
    {A B : Type 0} {s : Fsck} {r : Run A} (k : A → M B)
    → Globals s r
    → ((a : A) (t : Fsck) → Globals t (k a t))
    → Globals s (and_then r k)
Globals-bind {B} {s} k (assigned {a} {s' = t} img out) next = from (next a t)
  where
    from : {r : Run B} → Globals t r → Globals s r
    from (assigned i o) = assigned (i ∙ img) (o ∙ out)
    from (cut i o) = cut (i ∙ img) (o ∙ out)
Globals-bind k (cut i o) next = cut i o

pub read_partition_info-Globals :
    (rounds n : ℕ) (s : Fsck) → Globals s (read_partition_info rounds n s)
unfolding read_partition_info read_ebr
read_partition_info-Globals rounds n s =
    Keeps-bind-Globals _ (read_sectors-Keeps 0 1 s.stray s) (λ mbr. elim (Bool-cases (leb n 4)) [
      | inl primary ↦ rw primary (assigned refl refl)
      | inr logical ↦ rw logical (elim (Option-cases (find_extended mbr 4 1)) [
        | inl none_extended ↦ rw none_extended (assigned refl refl)
        | inr (base, found) ↦ rw found (
            Keeps-bind-Globals _
              (ebr_loop-Keeps rounds base.start (u32 (base.start + base.length)) n (unset_entry s)
                s)
              (λ e. assigned refl refl))
      ])
    ])
