-- ===== src/Tests/Commands.antt =====
-- The theorems on the command line at two options.
use my_fsck.Base.{
  ℕ, ◌-◌, ℤ, pos, zero, suc, ◌≡◌, refl, arith, List, [], ◌∷◌, Option, none, some, false,
}
use my_fsck.Machine.State.{Image, PartitionEntry, partition_info}
use my_fsck.Machine.Run.{ok}
use my_fsck.Util.Little.{little}
use my_fsck.Partition.{invalid_type}
use my_fsck.Correct.Partitions.All.{IsForeign}
use my_fsck.Main.{p, f, i, unset_settings, options_loop, main}
use my_fsck.Main.Options.{last_some, asks_help, given, options_loop-last}
use my_fsck.Main.Runs.{main-prints, main-corrects_none}
use my_fsck.Tests.Sample.{disk, chain}

-- A number of one digit, and the one file of the small disks.
abbrev digit : List ℕ → ℤ
digit [] = pos 0
digit (c ∷ text) = pos (c - b'0')

abbrev device : List ℕ → Option Image
device [] = none
device (c ∷ path) = some chain.image

abbrev other_device : List ℕ → Option Image
other_device [] = none
other_device (c ∷ path) = some disk.image

options_loop-last_example :
    options_loop digit device (p (b'1' ∷ []) ∷ i (b'd' ∷ []) ∷ p (b'2' ∷ []) ∷ []) unset_settings
    ≡ given digit (some (b'2' ∷ [])) none (some (b'd' ∷ [])) false
unfolding last_some asks_help
options_loop-last_example =
    options_loop-last digit device (p (b'1' ∷ []) ∷ i (b'd' ∷ []) ∷ p (b'2' ∷ []) ∷ [])

main-prints_example :
    main digit other_device 0 0 0 (p (b'1' ∷ []) ∷ i (b'd' ∷ []) ∷ []) 5 disk
    ≡ ok (pos 0) (record disk {
      partition_entry = record { type = 0x83; start = 1; length = 7 };
      output = partition_info 0x83 1 7 ∷ [];
    })
unfolding last_some asks_help little
main-prints_example =
    main-prints digit other_device 0 0 0 (p (b'1' ∷ []) ∷ i (b'd' ∷ []) ∷ []) 5 1 (b'1' ∷ [])
      (b'd' ∷ []) disk.image disk refl refl (omega arith) (omega arith) refl refl (omega arith)

-- The four slots of this disk are empty.
chain-IsForeign : IsForeign chain.image
chain-IsForeign zero lo hi = absurd (omega arith)
chain-IsForeign (suc zero) lo hi = (λ e. absurd (omega arith), λ e. absurd (omega arith))
chain-IsForeign (suc (suc zero)) lo hi = (λ e. absurd (omega arith), λ e. absurd (omega arith))
chain-IsForeign (suc (suc (suc zero))) lo hi =
    (λ e. absurd (omega arith), λ e. absurd (omega arith))
chain-IsForeign (suc (suc (suc (suc zero)))) lo hi =
    (λ e. absurd (omega arith), λ e. absurd (omega arith))
chain-IsForeign (suc (suc (suc (suc (suc n))))) lo hi = absurd (omega arith)

main-corrects_none_example :
    (e : PartitionEntry) × (e.type ≡ invalid_type)
    × (main digit device 5 0 0 (i (b'd' ∷ []) ∷ f (b'0' ∷ []) ∷ []) 5 chain
        ≡ ok (pos 0) (record chain { partition_entry = e }))
unfolding last_some asks_help
main-corrects_none_example =
    main-corrects_none digit device 5 0 0 (i (b'd' ∷ []) ∷ f (b'0' ∷ []) ∷ []) 5 (b'0' ∷ [])
      (b'd' ∷ []) chain.image chain refl refl refl refl refl chain-IsForeign (omega arith)
      (omega arith)
