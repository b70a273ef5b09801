-- ===== src/Write.antt =====
-- mp4tagwrite.c: the bytes of the tag list, and the numbers that a write changes in the file.
pub mod Bytes
pub mod Item
pub mod Build
pub mod Array
pub mod Full
pub mod Groups
pub mod Runs
pub mod Offsets
pub mod Relocate
pub mod Place
pub mod Copy
pub mod Inplace
pub mod Rewrite
pub mod Splice
pub mod Sizes
pub mod Fill
pub mod Stale
pub mod Whole
pub mod Data
pub mod Safe
mod Tests
mod FileTests
