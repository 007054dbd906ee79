-- ===== src/Util.antt =====
-- util.c: numbers in byte buffers, padding, and the block size.
pub mod Little
pub mod Number
pub mod Numbers
pub mod Sizes
use my_fsck.Base.{
  ℕ, zero, suc, ◌+◌, ◌-◌, ◌*◌, ◌/◌, ◌%◌, ◌^◌, u32, ◌<<<◌, ◌>>>◌, ◌==◌, if◌then◌else◌,
}
use my_fsck.Machine.Memory.{Bytes, set_byte}

-- The loop of `parse_bytes_to_decimal_u`, with `left` rounds to go and `i` = start + left - 1.
unfoldable pub parse_loop : Bytes → ℕ → ℕ → ℕ → ℕ
parse_loop entry_info start zero result = result
parse_loop entry_info start (suc left) result =
    parse_loop entry_info start left (u32 (u32 (result <<< 8) + entry_info (start + left)))

unfoldable pub parse_bytes_to_decimal_u : Bytes → ℕ → ℕ → ℕ
unfolding parse_loop
parse_bytes_to_decimal_u entry_info start len = parse_loop entry_info start len 0

-- On `int`; the result is kept as its bit pattern, on which the loop is the same.
unfoldable pub parse_bytes_to_decimal_s : Bytes → ℕ → ℕ → ℕ
unfolding parse_loop
parse_bytes_to_decimal_s entry_info start len = parse_loop entry_info start len 0

-- The loop of `write_number_into_block` at byte `i`, with `left` rounds to go.
unfoldable pub write_loop : Bytes → ℕ → ℕ → ℕ → ℕ → Bytes
write_loop dir_block offset_in_block num zero i = dir_block
write_loop dir_block offset_in_block num (suc left) i =
    write_loop (set_byte dir_block (offset_in_block + i) ((num >>> (8 * i)) % 2 ^ 8))
      offset_in_block num left (i + 1)

unfoldable pub write_number_into_block : Bytes → ℕ → ℕ → ℕ → Bytes
unfolding write_loop
write_number_into_block dir_block offset_in_block num byte_num =
    write_loop dir_block offset_in_block num byte_num 0

unfoldable pub pad_to_4_bytes : ℕ → ℕ
pad_to_4_bytes len = if len % 4 == 0 then len else u32 (4 * (len / 4 + 1))

-- `get_block_size`, from `super_block.s_log_block_size`. The shift is made on `int`.
unfoldable pub get_block_size : ℕ → ℕ
get_block_size exp = u32 (1024 * (if exp == 0 then 1 else 2 <<< (exp - 1)))
