-- ===== src/Xorfuse.antt =====
-- comparisons/bloom_xorfuse.c: the buffer of keys around a binary fuse filter, which is built at the
-- first query after an insertion. The filter itself is third-party code and a parameter.
pub mod Fuse
pub mod Filter
pub mod Buffer
pub mod Growth
pub mod Push
pub mod Build
pub mod Operations
pub mod Membership
mod Tests
