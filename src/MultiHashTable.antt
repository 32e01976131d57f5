-- ===== src/MultiHashTable.antt =====
-- ht/multi_hash_table.h and ht/multi_hash_table.cc: a hash table of several rows over one array of
-- nodes, whose data stands in a link table. The hash function is a parameter, and the time is an
-- argument. The mutex is taken to be had, so an operation runs alone.
pub mod Types
pub mod Search
pub mod Entries
pub mod SetData
pub mod Iterate
pub mod Found
pub mod Rows
pub mod Visits
pub mod Written
pub mod Kept
pub mod Reading
pub mod Storing
pub mod RoundTrip
pub mod Frame
mod Layout
mod Tests
mod StoreTests
