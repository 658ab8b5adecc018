-- ===== src/Spec.antt =====
-- The textbook Bloom filter, as the specification that the filters of the repository implement, and
-- the interface through which they are compared with it.
pub mod Textbook
pub mod Interface
pub mod Trace
mod Tests
