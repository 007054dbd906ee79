-- ===== src/Correct/Pass3.antt =====
-- Pass 3 of correct.c: the link counts.
pub mod Change
pub mod Fixed
pub mod Right
pub mod Frame
pub mod Counts
use my_fsck.Base.{ℕ, zero, suc, ◌+◌, ◌-◌, ◌^◌, ltb, ◌==◌, if◌then◌else◌}
use my_fsck.Machine.Memory.{Bytes}
use my_fsck.Machine.State.{link_count}
use my_fsck.Machine.Run.{M, pure, gets, print, ◌>>=◌, ◌>>◌}
use my_fsck.Inode.{read_inode, write_inode}
use my_fsck.Correct.Links.{calloc, directory_traversor}
use my_fsck.Correct.LostFound.{root_inode_num}

-- A `char` as a `__u32`: it is signed, so a bit pattern of 128 or more is extended by ones.
unfoldable pub char_to_u32 : ℕ → ℕ
char_to_u32 c = if ltb c 128 then c else 2 ^ 32 - 256 + c

-- `inode.i_links_count != inode_links_count[i]` compares as `int`; below 2^16 the left side is not
-- negative.
unfoldable pub pass3_inode : Bytes → ℕ → M (Unit {0})
pass3_inode table i = do
  inode ← read_inode i
  if inode.i_links_count == char_to_u32 (table i) then pure tt else do
    print (link_count i inode.i_links_count (char_to_u32 (table i)))
    write_inode i (char_to_u32 (table i))

unfoldable pub pass3_loop : ℕ → ℕ → Bytes → M (Unit {0})
pass3_loop zero i table = pure tt
pass3_loop (suc left) i table = do pass3_inode table i; pass3_loop left (i + 1) table

unfoldable pub pass3 : ℕ → M (Unit {0})
pass3 depth = do
  inodes ← gets (λ s. s.super_block.s_inodes_count)
  stray ← gets (λ s. s.stray)
  table ← directory_traversor depth (calloc stray (inodes + 1)) root_inode_num
  pass3_loop inodes 1 table
