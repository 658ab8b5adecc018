-- ===== src/Fuzz.antt =====
-- tools/fuzz_*.c: the fuzz targets, with the input as a list of bytes.
pub mod Run
pub mod Insert
pub mod Fasthash
pub mod Deserialize
pub mod Checks
pub mod InsertReturns
pub mod FasthashReturns
pub mod Reread
pub mod DeserializeReturns
mod Tests
