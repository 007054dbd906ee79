-- ===== src/Tests.antt =====
-- Small disks, and the theorems at them.
pub mod Sample
mod FileSystem
mod Structures
mod Bytes
mod Bitmap
mod Partitions
mod Files
mod Commands
mod Paths
mod Loaded
mod Clean
mod Damaged
mod Repair
mod Dots
