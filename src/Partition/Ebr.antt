-- ===== src/Partition/Ebr.antt =====
-- `read_ebr`: what the walk along an extended partition finds, and when it ends.
use mathlib.Core.Path.{subst}
use my_fsck.Base.{
  ℕ, zero, suc, ◌+◌, ◌-◌, ◌*◌, ◌^◌, ◌≤◌, ◌<◌, ◌≡◌, ◌≢◌, ◌⊎◌, inl, inr, refl, arith, u32, Bool, true,
  false, ◌==◌, leb, ltb, ◌||◌, le→leb, if◌then◌else◌, Bool-cases, ==→eq, ==→ne, ltb→le, ne→==, sym,
  ltb→lt,
}
use my_fsck.Machine.State.{PartitionEntry, Fsck}
use my_fsck.Machine.Run.{M, pure, Run, Stop, ok, stop, exited}
use my_fsck.Disk.{read_sectors, read_bytes}
use my_fsck.Partition.{read_partition_entry, ebr_loop, read_ebr, unset_entry, invalid_type}

-- The first entry of the table in sector `k`, as the walk reads it.
unfoldable pub entry_at : Fsck → ℕ → PartitionEntry
entry_at s k = read_partition_entry (read_bytes s.image (k * 512) 512 s.stray) k 446

-- The entry is marked as missing, or ends at or before sector `end`.
abbrev pub IsWithin : ℕ → PartitionEntry → Type 0
IsWithin end e = (e.type ≡ invalid_type) ⊎ (u32 (e.start + e.length) ≤ end)

-- An entry that lies within the partition, with nothing changed, or the end of the program on a
-- sector that cannot be read.
abbrev pub Found : Fsck → ℕ → Run PartitionEntry → Type 0
Found s end (ok e s') = (s' ≡ s) × IsWithin end e
Found s end (stop Stop.exited s') = s' ≡ s
Found s end (stop Stop.fault s') = ⊥
Found s end (stop Stop.out_of_fuel s') = ⊥

-- The links lead forward: below `end` an entry starts no earlier than its table, one of an inner
-- extended partition later, and no sum leaves 32 bits.
abbrev pub LeadsForward : Fsck → ℕ → Type 0
LeadsForward s end =
    (k : ℕ)
    → k < end
    → (k ≤ (entry_at s k).start)
      × ((entry_at s k).type ≡ 5 → k < (entry_at s k).start)
      × ((entry_at s k).start + (entry_at s k).length < 2 ^ 32)

lt→leb : (a b : ℕ) → b < a → leb a b ≡ false
lt→leb a b h = ground arith

read_sector :
    (s : Fsck) (k : ℕ)
    → (read_sectors k 1 s.stray s ≡ ok (read_bytes s.image (k * 512) 512 s.stray) s)
      ⊎ (read_sectors k 1 s.stray s ≡ stop exited s)
unfolding read_sectors
read_sector s k = elim (Bool-cases (leb (k * 512 + 512) s.image.size || false)) [
  | inl e ↦ inl (rw e)
  | inr e ↦ inr (rw e)
]

-- One round of the loop, by what the sector holds.
ebr_loop-done :
    (r start end : ℕ) (e : PartitionEntry) (s : Fsck) → ebr_loop (suc r) start end 4 e s ≡ ok e s
unfolding ebr_loop
ebr_loop-done r start end e s = refl

round_shape :
    (b t : Bool) (x : PartitionEntry) (m n : M PartitionEntry) (s : Fsck)
    → (if b then pure x else (elim t [ true ↦ m | false ↦ n ])) s
      ≡ (if b then ok x s else (elim t [ true ↦ m s | false ↦ n s ]))
round_shape true t x m n s = refl
round_shape false true x m n s = refl
round_shape false false x m n s = refl

ebr_loop-step :
    (r start end n : ℕ) (e : PartitionEntry) (s : Fsck)
    → n ≢ 4
    → start < end
    → read_sectors start 1 s.stray s ≡ ok (read_bytes s.image (start * 512) 512 s.stray) s
    → ebr_loop (suc r) start end n e s ≡ (
        let next = entry_at s start in
        if ltb end (u32 (next.start + next.length))
        then ok (record next { type = invalid_type }) s
        else (elim (next.type == 5) [
          | true ↦ ebr_loop r next.start (u32 (next.start + next.length)) n e s
          | false ↦ ebr_loop r (u32 (next.start + next.length)) end (n - 1) next s
        ]))
unfolding ebr_loop entry_at
ebr_loop-step r start end n e s ne lt got =
    rw (ne→== n 4 ne, lt→leb end start lt, got)
      (round_shape (ltb end (u32 ((entry_at s start).start + (entry_at s start).length)))
        ((entry_at s start).type == 5) _ _ _ s)

ebr_loop-past :
    (r start end n : ℕ) (e : PartitionEntry) (s : Fsck)
    → n ≢ 4
    → end ≤ start
    → ebr_loop (suc r) start end n e s ≡ ok (record e { type = invalid_type }) s
unfolding ebr_loop
ebr_loop-past r start end n e s ne le = rw (ne→== n 4 ne, le→leb end start le)

ebr_loop-unread :
    (r start end n : ℕ) (e : PartitionEntry) (s : Fsck)
    → n ≢ 4
    → start < end
    → read_sectors start 1 s.stray s ≡ stop exited s
    → ebr_loop (suc r) start end n e s ≡ stop exited s
unfolding ebr_loop
ebr_loop-unread r start end n e s ne lt got = rw (ne→== n 4 ne, lt→leb end start lt, got)

Found-weaken :
    (s : Fsck) (end end' : ℕ) (r : Run PartitionEntry) → end' ≤ end → Found s end' r → Found s end r
Found-weaken s end end' (ok e s') le (same, inl no_entry) = (same, inl no_entry)
Found-weaken s end end' (ok e s') le (same, inr within) = (same, inr (omega arith))
Found-weaken s end end' (stop Stop.exited s') le f = f
Found-weaken s end end' (stop Stop.fault s') le f = f
Found-weaken s end end' (stop Stop.out_of_fuel s') le f = f

ebr_loop-Found :
    (r start end n : ℕ) (e : PartitionEntry) (s : Fsck)
    → LeadsForward s end
    → 4 ≤ n
    → (n ≡ 4 → IsWithin end e)
    → (end - start) + n < r
    → Found s end (ebr_loop r start end n e s)
ebr_loop-Found zero start end n e s fwd lo e_in fuel = absurd (omega arith)
ebr_loop-Found (suc r) start end n e s fwd lo e_in fuel =
    let next = entry_at s start in
    let past_next = u32 (next.start + next.length) in
    elim (Bool-cases (n == 4)) [
      | inl four ↦
          let q = ==→eq n 4 four in
          subst (λ (k : ℕ). Found s end (ebr_loop (suc r) start end k e s)) (sym q)
            (rw (ebr_loop-done r start end e s) (refl, e_in q))
      | inr more ↦
          let ne = ==→ne n 4 more in
          elim (Bool-cases (ltb start end)) [
            | inr past ↦
                rw (ebr_loop-past r start end n e s ne (ltb→le start end past)) (refl, inl refl)
            | inl inside ↦
                let lt = ltb→lt start end inside in
                elim (read_sector s start) [
                  | inr unread ↦ rw (ebr_loop-unread r start end n e s ne lt unread) refl
                  | inl got ↦ rw (ebr_loop-step r start end n e s ne lt got) (
                      let f = fwd start lt in
                      elim (Bool-cases (ltb end past_next)) [
                        | inl beyond ↦ rw beyond (refl, inl refl)
                        | inr within ↦
                            let le = ltb→le end past_next within in
                            elim (Bool-cases (next.type == 5)) [
                              | inl inner ↦
                                  let deeper = f.1 (==→eq next.type 5 inner) in
                                  rw (within, inner)
                                    (Found-weaken s end past_next _ le (
                                      ebr_loop-Found r next.start past_next n e s
                                        (λ k below. fwd k (omega arith)) lo (λ q. absurd (ne q))
                                        (omega arith)))
                              | inr other ↦
                                  rw (within, other)
                                    (ebr_loop-Found r past_next end (n - 1) next s fwd (omega arith)
                                      (λ q. inr le) (omega arith))
                            ]
                      ])
                ]
          ]
    ]

-- For a partition number above 4, if the entries in the sectors below the end of the extended
-- partition lead forward, then `read_ebr` ends within one round for each sector and each partition
-- number; it changes nothing, and either the program exits on a sector that cannot be read, or the
-- entry that is found is marked as missing or ends within the extended partition.
pub read_ebr-Found :
    (rounds n : ℕ) (base : PartitionEntry) (s : Fsck)
    → 4 < n
    → LeadsForward s (u32 (base.start + base.length))
    → u32 (base.start + base.length) - base.start + n < rounds
    → Found s (u32 (base.start + base.length)) (read_ebr rounds base n s)
unfolding read_ebr
read_ebr-Found rounds n base s more fwd fuel =
    ebr_loop-Found rounds base.start (u32 (base.start + base.length)) n (unset_entry s) s fwd
      (omega arith) (λ q. absurd (omega arith)) fuel
