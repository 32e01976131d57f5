-- ===== src/MemPool.antt =====
-- knv/mem_pool.h and knv/mem_pool.cc: buffers of nine sizes in pools that keep what is released.
-- ObjPool of knv/obj_pool.h stands here as the list of the objects that it keeps, the one released
-- last in front. The calls of malloc and new are arguments, and an operation runs alone.
pub mod Magic
pub mod Pool
pub mod Accounting
pub mod Shrinking
pub mod Ending
pub mod Manager
pub mod Sized
pub mod Serving
pub mod History
mod Tests
