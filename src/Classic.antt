-- ===== src/Classic.antt =====
-- comparisons/bloom_classic.c: the Bloom filter without blocks, with double hashing.
pub mod Hash
pub mod Filter
pub mod Valid
pub mod Loops
pub mod Membership
pub mod Collide
pub mod Lifecycle
pub mod Outcomes
pub mod NewLaws
pub mod Refines
mod Tests
