-- ===== src/Parse.antt =====
-- mp4tagparse.c: the boxes of a file, and the tags in them.
pub mod Print
pub mod Item
pub mod Tag
pub mod Covr
pub mod Heads
pub mod Steps
pub mod RoundTrip
pub mod State
pub mod Stream
pub mod Boxes
pub mod Mdhd
pub mod File
pub mod Room
pub mod Later
pub mod Ends
pub mod Rounds
pub mod Ftyp
pub mod Endless
pub mod Number
pub mod Integers
pub mod Overlong
pub mod Reading
pub mod Contents
pub mod Groups
pub mod Listed
pub mod ListBox
pub mod Space
pub mod Placed
pub mod Updated
pub mod Written
mod Samples
mod Tests
