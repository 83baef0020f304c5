-- ===== src/Index.antt =====
-- p4: an inverted index in files.
pub mod Files
pub mod Create
pub mod Batches
pub mod Postings
pub mod Merge
pub mod Cursors
pub mod Gathering
pub mod Least
pub mod Pick
pub mod Sorting
pub mod Merging
pub mod Layout
pub mod Union
pub mod Growing
pub mod Sound
pub mod Ordered
pub mod Whole
pub mod Reading
pub mod Names
pub mod Examples
