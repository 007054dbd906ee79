-- ===== src/Tests/Sample.antt =====
-- A small file system of one group with four inodes, blocks of 512 bytes and an empty root
-- directory whose link count is wrong, and a disk with a chain of logical partitions.
use mathlib.Core.Bool.{true≢false}
use my_fsck.Base.{
  ℕ, List, [], ◌∷◌, ◌≡◌, ◌∙◌, refl, sym, arith, ◌==◌, ◌&&◌, ltb, ltb→lt, Bool, true, Bool-cases,
  inl, inr, if◌then◌else◌, false,
}
use my_fsck.Machine.Memory.{Bytes, IsBytes}
use my_fsck.Machine.State.{Fsck, SuperBlock}

-- Memory that holds the listed bytes, and 0 elsewhere.
abbrev pub from_list : List (ℕ × ℕ) → Bytes
from_list [] i = 0
from_list (p ∷ ps) i = if i == p.0 then p.1 else from_list ps i

abbrev all_bytes : List (ℕ × ℕ) → Bool
all_bytes [] = true
all_bytes (p ∷ ps) = ltb p.1 256 && all_bytes ps

pub from_list-IsBytes : (ps : List (ℕ × ℕ)) → all_bytes ps ≡ true → IsBytes (from_list ps)
from_list-IsBytes [] h i = omega arith
from_list-IsBytes (p ∷ ps) h i = elim (Bool-cases (ltb p.1 256)) [
  | inl small ↦
      let lt = ltb→lt p.1 256 small in
      let rest = from_list-IsBytes ps (rw small at h) i in
      elim (Bool-cases (i == p.0)) [ inl e ↦ rw e lt | inr e ↦ rw e rest ]
  | inr large ↦ absurd (true≢false (sym h ∙ rw large refl))
]

abbrev pub sample_super_block : SuperBlock
sample_super_block = record {
  s_inodes_count = 4;
  s_blocks_count = 8;
  s_r_blocks_count = 0;
  s_free_blocks_count = 1;
  s_free_inodes_count = 2;
  s_first_data_block = 1;
  s_log_block_size = 0;
  s_log_frag_size = 0;
  s_blocks_per_group = 8;
  s_frags_per_group = 8;
  s_inodes_per_group = 4;
  s_mtime = 0;
  s_wtime = 0;
  s_mnt_count = 0;
  s_max_mnt_count = 20;
  s_magic = 0xEF53;
  s_state = 1;
  s_errors = 1;
  s_minor_rev_level = 0;
  s_lastcheck = 0;
  s_checkinterval = 0;
  s_creator_os = 0;
  s_rev_level = 0;
  s_def_resuid = 0;
  s_def_resgid = 0;
  s_first_ino = 11;
  s_inode_size = 128;
  s_block_group_nr = 0;
  s_feature_compat = 0;
  s_feature_incompat = 0;
  s_feature_ro_compat = 0;
}

abbrev pub disk_bytes : List (ℕ × ℕ)
disk_bytes =
    (450, 0x83)
    ∷ (454, 1)
    ∷ (458, 7)
    ∷ (2688, 0xED)
    ∷ (2689, 0x41)
    ∷ (2714, 7)
    ∷ (2728, 6)
    ∷ (3072, 2)
    ∷ (3076, 12)
    ∷ (3078, 1)
    ∷ (3079, 2)
    ∷ (3080, 46)
    ∷ (3084, 2)
    ∷ (3088, 0xF4)
    ∷ (3089, 1)
    ∷ (3090, 2)
    ∷ (3091, 2)
    ∷ (3092, 46)
    ∷ (3093, 46)
    ∷ []

-- Inode 2 stands at 2688, its directory in block 6.
abbrev pub disk : Fsck
disk = record {
  image = record { size = 4096; byte = from_list disk_bytes };
  partition_entry = record { type = 0x83; start = 0; length = 8 };
  super_block = sample_super_block;
  block_size = 512;
  group_desc_block = from_list ((0, 3) ∷ (4, 4) ∷ (8, 5) ∷ []);
  output = [];
  stray = λ i. 0;
  stray_minus_one = false;
}

-- In sector 2 the first table of an extended partition; its entry is sector 3.
abbrev pub chain : Fsck
chain = record disk {
  image = record { size = 4096; byte = from_list ((1474, 0x83) ∷ (1478, 1) ∷ (1482, 1) ∷ []) };
}
