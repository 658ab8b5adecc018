-- ===== src/Quickbloom.antt =====
-- quickbloom.c: the split block Bloom filter. Hash, Filter, Probe, Bulk, Lifecycle, Serialize and
-- Estimate hold its functions and those of qb_util.c; the other children are about them.
pub mod Hash
pub mod Filter
pub mod Probe
pub mod Bulk
pub mod Mask
pub mod Valid
pub mod Insert
pub mod Query
pub mod Batch
pub mod Membership
pub mod BulkLaws
pub mod Count
pub mod HashLaws
pub mod Reads
pub mod HashWords
pub mod Lifecycle
pub mod Header
pub mod Build
pub mod NewLaws
pub mod Lifetime
pub mod NewSizes
pub mod Serialize
pub mod RoundTrip
pub mod Slots
pub mod Refines
pub mod Restore
pub mod Accepted
pub mod Estimate
mod Tests
mod LifetimeTests
