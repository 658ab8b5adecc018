-- ===== src/Impala.antt =====
-- comparisons/bloom_impala.c: the scalar filter of the Parquet specification, with XXH64, that the
-- benchmark compares against, and its agreement with quickbloom bit for bit.
pub mod Xxh64
pub mod Filter
pub mod Loops
pub mod Agree
pub mod Lifecycle
pub mod Refines
pub mod NewLaws
mod Tests
