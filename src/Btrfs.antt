-- ===== src/Btrfs.antt =====
-- The Btrfs reader: src/fs/btrfs.rs.
pub mod Key
pub mod Layout
pub mod Decode
pub mod Volume
pub mod Reads
pub mod Mount
pub mod SysChunks
pub mod Search
pub mod Tree
pub mod SearchTree
pub mod Walk
pub mod WalkTree
pub mod File
pub mod Assemble
pub mod Extents
pub mod FileTree
pub mod Dir
pub mod RootFiles
pub mod ReadLength
pub mod DirTree
pub mod Lookup
mod Examples
mod TreeExamples
