-- ===== src/LinkTable.antt =====
-- ht/link_table.h and ht/link_table.cc: byte strings in chains of fixed-size blocks. Block memory is a
-- function of the position. A position or a length that the source converts to int is below 2 ^ 31.
-- The texts in `errmsg`, the counters of Attr_API and the printed reports are not kept.
pub mod Types
pub mod Free
pub mod Alloc
pub mod Data
pub mod Linked
pub mod Reading
pub mod Writing
pub mod Taking
pub mod Storing
pub mod Freeing
pub mod EmptyData
mod Tests
