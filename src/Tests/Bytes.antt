-- ===== src/Tests/Bytes.antt =====
-- The theorems on numbers, directory entries and digits at small inputs.
use mathlib.Core.List.{reverse}
use my_fsck.Base.{ℕ, ◌+◌, ◌%◌, ◌^◌, ◌≤◌, ◌<◌, ◌≡◌, refl, arith, [], ◌∷◌, some, ◌⊎◌}
use my_fsck.Machine.Memory.{Bytes, c_string}
use my_fsck.Machine.State.{DirEntry}
use my_fsck.Util.{parse_loop, parse_bytes_to_decimal_u, write_number_into_block}
use my_fsck.Util.Little.{little, parse-little, parse_over_read}
use my_fsck.Util.Number.{parse-write_number}
use my_fsck.Dir.{read_dir_entry_in_block}
use my_fsck.Dir.Codec.{read_dir_entry-write_inode}
use my_fsck.Inode.{parse_inode}
use my_fsck.Correct.LostFound.{digits, new_entry, put_entry}
use my_fsck.Correct.LostFound.Named.{new_entry-put_entry}
use my_fsck.Correct.LostFound.Digits.{from_digits, AllDigits, digits-value}
use my_fsck.Tests.Sample.{from_list, disk}

parse-little_example :
    parse_bytes_to_decimal_u (from_list ((0, 1) ∷ (1, 2) ∷ [])) 0 4
    ≡ little (from_list ((0, 1) ∷ (1, 2) ∷ [])) 0 4 % 2 ^ 32
parse-little_example = parse-little (from_list ((0, 1) ∷ (1, 2) ∷ [])) 0 4

-- Six bytes are read, of which four count.
parse_over_read_example :
    parse_bytes_to_decimal_u (from_list ((0, 1) ∷ (4, 2) ∷ [])) 0 6
    ≡ little (from_list ((0, 1) ∷ (4, 2) ∷ [])) 0 4 % 2 ^ 32
parse_over_read_example = parse_over_read (from_list ((0, 1) ∷ (4, 2) ∷ [])) 0 2

parse-write_number_example :
    (parse_bytes_to_decimal_u (write_number_into_block disk.stray 26 0x12345 2) 26 2 ≡ 0x2345)
    × ((j : ℕ) → (j < 26) ⊎ (28 ≤ j) → write_number_into_block disk.stray 26 0x12345 2 j ≡ 0)
parse-write_number_example = parse-write_number disk.stray 26 0x12345 2 (omega arith)

digits-value_example : from_digits (digits 10 1207) ≡ 1207
digits-value_example = digits-value 10 1207 (omega arith)

-- The entry ".." of the root directory.
abbrev parent_entry : DirEntry
parent_entry = record { inode = 2; rec_len = 500; name_len = 2; file_type = 2; name = 46 ∷ 46 ∷ [] }

-- The block that holds the root directory.
abbrev root_block : Bytes
root_block i = disk.image.byte (3072 + i)

parent_entry-read : read_dir_entry_in_block root_block 12 ≡ some parent_entry
unfolding read_dir_entry_in_block parse_bytes_to_decimal_u parse_loop c_string
parent_entry-read = refl

read_dir_entry-write_inode_example :
    read_dir_entry_in_block (write_number_into_block root_block 12 3 4) 12
    ≡ some (record parent_entry { inode = 3 })
read_dir_entry-write_inode_example =
    read_dir_entry-write_inode root_block 12 3 parent_entry parent_entry-read (omega arith)
      (omega arith)

new_entry-put_entry_example :
    (e : DirEntry) × (read_dir_entry_in_block
        (put_entry 512 (new_entry 1207 (parse_inode disk.stray 0)) root_block 24)
        24
      ≡ some e)
    × (e.inode ≡ 1207)
    × (e.rec_len ≡ 488)
    × (from_digits (reverse e.name) ≡ 1207)
    × AllDigits (reverse e.name)
new_entry-put_entry_example =
    new_entry-put_entry 512 24 1207 (parse_inode disk.stray 0) root_block (omega arith)
      (omega arith)
