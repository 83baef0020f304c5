-- ===== src/Sort.antt =====
-- p8/merge_sort.cpp: the parallel merge sort.
pub mod Merge
pub mod Ascending
pub mod Examples
