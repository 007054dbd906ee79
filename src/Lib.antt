-- ===== src/Lib.antt =====
-- A model of myfsck, a checker for ext2 file systems in an image of a disk, and theorems about it.
--
-- The program reads a partition table, loads the super block and the group descriptors of a
-- partition, and runs four passes over it: directory pointers, unreferenced inodes, link counts,
-- and the block bitmap. Each pass reads and writes blocks of the image through the same few
-- functions. The files stand for its parts as follows; paths are those of the repository.
--
-- - Base (Tests, Lists, Word, Bits, Int): names of the library, Boolean tests, lists, 32-bit words,
--   bits of bytes and integers.
-- - Machine: memory as a function from offsets to bytes (Memory); the structures of ext2_fs.h and
--   common.h and the state `Fsck` (State): the globals `super_block`, `block_size`,
--   `partition_entry` and `group_desc_block` of common.h, the image behind `device`, and what was
--   printed; runs that give a value and a state or stop (Run), and what a run changes outside the
--   partition (Frame).
-- - Util: util.c, the numbers in byte arrays, and the sizes; Numbers is about the numbers of a
--   structure, one behind the other.
-- - Disk: readwrite.c and the block access of util.c. Blocks, Runs and Written say what reading and
--   writing blocks does, Reads that reading changes nothing; Dump is print_sector and print_block.
-- - SuperBlock: superBlock.c and groupDescriptor.c; Stored holds what is read against the structure
--   of ext2_fs.h.
-- - Inode: inode.c. Location says where an inode stands, Read and Write what `read_inode` and
--   `write_inode` do, Stored holds what is read against the structure of ext2_fs.h, Update and
--   Layout are about how reading and writing go together.
-- - DataBlock: dataBlock.c; Flip is about the bits of the bitmap, OnDisk, Contents, Stored and
--   RoundTrip about the bitmaps on the disk.
-- - Dir: dir.c; Codec is about an entry as bytes, Links about symbolic links, Path about the search
--   for a path.
-- - Partition: partitionEntry.c; Table is about the primary partitions, Ebr about the logical ones,
--   Keeps about the globals that are set.
-- - Correct: correct.c. Pass1, Pass2, Pass3 and Pass4 are the passes, Links the function
--   `directory_traversor` that passes 2 and 3 share, LostFound the function `add_to_lost_found`,
--   FileBlocks the table of blocks in use that pass 4 compares the bitmap with, and Partitions the
--   functions `correct_one_partition` and `correct_partition`. A module Frame is about what its
--   pass leaves alone, a module Right about a file system in which the pass finds no error; Clean
--   puts the latter together, and Confined the former. In FileBlocks, Owned and Tree list the
--   blocks that a file and the whole tree own, Marked and Double say what the loops mark, and Kept
--   and TreeKept when the lists stay the same. In Pass1, Listed and Strict list the blocks of the
--   directories, and Moves to Repaired follow the changes of an entry, a block and a tree. Change
--   is about what pass 3 changes on the disk, Used about the bitmap that pass 4 leaves, Again about
--   a second pass 4; Repairable and Repaired of Partitions put these together.
-- - Main: myfsck.c; Options is about the loop over the options, Runs about whole runs.
-- - Tests: small file systems, one without errors and others with errors that are repaired, a chain
--   of logical partitions and two command lines, and the theorems at them.
--
-- A function of the source is the definition of the same name; its loops are definitions of their
-- own that end in `_loop`, or are named for what they go through. The `__u32` and `unsigned int` of
-- the source are numbers below 2^32 with `u32` (`% 2 ^ 32`) where a sum or a product is formed, and
-- `sub32` where a difference is; `__u16` and bytes are cut by `u16` and `u8`. Offsets in a block
-- and file offsets, which are wider than the values that occur, are plain numbers.
--
-- Memory is not divided into objects. A buffer is a function on all offsets, so that a read behind
-- the end of an array gives what stands there, and what was never written is `stray`. A write
-- outside an array, a division by zero and the use of a value that no `return` gave stop the model
-- with `fault`; where only the last of these decides a comparison, the field `stray_minus_one`
-- answers for it. A read beyond the image stops with `exited`, as `exit(-1)` does. The failures of
-- lseek and write, of malloc and of the stack are left out.
--
-- Fuel: loops over a number of rounds that is known are recursive in it. The loop over the entries
-- of a block gets one round more than the block has bytes; an entry of length 0 keeps the source
-- in the loop for ever. `digits` gets ten rounds, and a `__u32` has at most ten digits. `read_ebr`
-- takes `rounds`; one for each sector and each partition number suffices where its entries lead
-- forward. `search_dir_entry_r` takes `rounds` too; one more than the path has parts suffices. The
-- functions that descend into directories take `depth`, the nesting of directories; a directory
-- that contains itself makes the source recurse without end, and the model stop with `out_of_fuel`
-- at any depth. `correct_partition` takes the number of partitions to try.
--
-- Not modelled: the scripts and the build. `getopt`, `atoi` and `open` of the C library are
-- parameters of Main: the list of options that the first gives, and functions from texts to numbers
-- and images. A partition number below -1 stops the model with `fault`. The text of a message is a
-- constructor of `Message`, but for the digits of a sector, which are the characters themselves.
pub mod Base
pub mod Machine
pub mod Util
pub mod Disk
pub mod SuperBlock
pub mod Inode
pub mod DataBlock
pub mod Dir
pub mod Partition
pub mod Correct
pub mod Main
mod Tests
