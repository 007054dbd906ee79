-- ===== src/Correct.antt =====
-- correct.c: the four passes, and the function that runs them on a partition.
pub mod Pass1
pub mod Links
pub mod LostFound
pub mod Pass2
pub mod Pass3
pub mod FileBlocks
pub mod Pass4
pub mod Partitions
