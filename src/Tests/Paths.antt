-- ===== src/Tests/Paths.antt =====
-- The theorems on paths and on the text of sectors.
use my_fsck.Base.{ℕ, ◌+◌, ◌%◌, ◌≡◌, arith, List, [], ◌∷◌}
use my_fsck.Machine.Memory.{Bytes, IsBytes}
use my_fsck.Machine.State.{Fsck}
use my_fsck.Disk.Dump.{sector_loop, read_dump, bytes_from, read_dump-sector_loop}
use my_fsck.Tests.Sample.{disk}

-- Bytes that rise.
abbrev rising : Bytes
rising i = (i + 250) % 256

rising-IsBytes : IsBytes rising
rising-IsBytes i = omega arith

read_dump-sector_loop_example :
    read_dump (sector_loop 8 0 rising) ≡ 250 ∷ 251 ∷ 252 ∷ 253 ∷ 254 ∷ 255 ∷ 0 ∷ 1 ∷ []
unfolding bytes_from
read_dump-sector_loop_example = read_dump-sector_loop 8 0 rising rising-IsBytes

-- In memory that holds ones `end` is no longer 0 at the beginning.
abbrev ones : Fsck
ones = record disk { stray = λ i. 1 }

abbrev lost_part : List ℕ
lost_part = b'l' ∷ []

abbrev found_part : List ℕ
found_part = b'f' ∷ []
