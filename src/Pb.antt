-- ===== src/Pb.antt =====
-- knv/pb.h and knv/pb.c: the low-level protobuf reader and writer. Types has the data of both,
-- Reader and Writer the functions of pb.c, Size and Zigzag the inline functions of pb.h. A pointer
-- into a buffer is the list of the bytes from it on, so `ptr += n` is `drop n`.
pub mod Types
pub mod Wire
pub mod Reader
pub mod Writer
pub mod Size
pub mod RoundTrip
pub mod Zigzag
mod Tests
