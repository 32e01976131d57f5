-- ===== src/KnvHt.antt =====
-- KnvHt of knv/knv_node.h and knv/knv_node.cc: the hash table in which a node of a knv tree finds
-- its children by tag and key.
pub mod Table
pub mod Filed
pub mod Filing
pub mod Moving
pub mod Growing
pub mod Increased
pub mod Putting
pub mod Removing
pub mod Unfiling
mod Tests
