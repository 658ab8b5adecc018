-- ===== src/Krassovsky.antt =====
-- comparisons/bloom_krassovsky.c: the filter of 64-bit blocks with a table of masks, and its path for
-- eight keys at a time.
pub mod Table
pub mod Lanes64
pub mod Filter
pub mod Batch
pub mod Mask
pub mod Insert
pub mod Membership
pub mod Answers
pub mod Count
pub mod Keys
pub mod TableLaws
pub mod Windows
pub mod Sliding
pub mod Masks
pub mod Lifecycle
pub mod Refines
pub mod NewLaws
mod Tests
