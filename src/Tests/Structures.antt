-- ===== src/Tests/Structures.antt =====
-- The theorems on the structures that are read, at the super block and an inode of the small file systems.
use my_fsck.Base.{◌+◌, ◌*◌, ◌^◌, ◌≤◌, ◌≡◌, refl, arith, [], ◌∷◌}
use my_fsck.Machine.Memory.{IsBytes}
use my_fsck.Machine.Run.{ok}
use my_fsck.Inode.{read_inode}
use my_fsck.Inode.Stored.{inode_widths, inode_numbers, stored_address, read_inode-numbers}
use my_fsck.Util.Little.{little}
use my_fsck.Util.Numbers.{numbers}
use my_fsck.Machine.State.{Inode}
use my_fsck.SuperBlock.Stored.{
  super_block_address, super_block_widths, super_block_numbers, read_super_block-numbers,
}
use my_fsck.SuperBlock.{read_super_block}
use my_fsck.Machine.State.{SuperBlock}
use my_fsck.Tests.Sample.{from_list-IsBytes, disk_bytes}
use my_fsck.Tests.Loaded.{clean_bytes, chosen}
use my_fsck.Tests.Sample.{disk}
use my_fsck.Tests.FileSystem.{disk-InodeOnDisk}

disk-IsBytes : IsBytes disk.image.byte
disk-IsBytes = from_list-IsBytes disk_bytes refl

disk-descriptors : IsBytes disk.group_desc_block
disk-descriptors = from_list-IsBytes ((0, 3) ∷ (4, 4) ∷ (8, 5) ∷ []) refl

read_inode-numbers_example :
    (inode : Inode) × (read_inode 2 disk ≡ ok inode disk)
    × (inode_numbers (little disk.image.byte (stored_address disk 0 1 + 36) 4) inode
        ≡ numbers disk.image.byte (stored_address disk 0 1) 0 inode_widths)
read_inode-numbers_example =
    read_inode-numbers disk 0 1 (omega arith) (omega arith) (omega arith) disk-IsBytes
      disk-descriptors (disk-InodeOnDisk 2 (omega arith) (omega arith))

chosen-IsBytes : IsBytes chosen.image.byte
chosen-IsBytes = from_list-IsBytes clean_bytes refl

stray-IsBytes : IsBytes chosen.stray
stray-IsBytes i = omega arith

log_size_small : little chosen.image.byte (super_block_address chosen + 24) 4 ≤ 21
unfolding little
log_size_small = omega arith

read_super_block-numbers_example :
    (block : SuperBlock) × (read_super_block chosen
      ≡ ok tt (record chosen {
        super_block = block;
        block_size = 1024 * 2 ^ little chosen.image.byte (super_block_address chosen + 24) 4;
      }))
    × (super_block_numbers block
        ≡ numbers chosen.image.byte (super_block_address chosen) 0 super_block_widths)
read_super_block-numbers_example =
    read_super_block-numbers chosen (omega arith) chosen-IsBytes stray-IsBytes log_size_small
