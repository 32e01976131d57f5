-- ===== src/ObjPool.antt =====
-- knv/obj_pool.h and knv/obj_base.h: objects that are kept for reuse, and the linked lists of them.
-- An operation runs alone: the first compare-and-swap of a loop succeeds.
pub mod Objects
pub mod Linking
pub mod Without
pub mod Unlinking
pub mod Lists
pub mod Taking
pub mod Returning
pub mod Refines
pub mod Histories
mod Tests
