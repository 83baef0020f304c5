-- ===== src/Allocator.antt =====
-- p1: the ping-pong memory allocator, allocator.h and allocator.cpp.
pub mod Blocks
pub mod Ops
pub mod Layout
pub mod Content
pub mod Pack
pub mod Edit
pub mod Defrag
pub mod Fit
pub mod Alloc
pub mod Join
pub mod Free
pub mod Shrink
pub mod Split
pub mod Extend
pub mod Kept
pub mod Last
pub mod Objects
pub mod Clear
pub mod Move
pub mod Grow
pub mod Realloc
pub mod Store
pub mod Examples
