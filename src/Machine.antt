-- ===== src/Machine.antt =====
-- What the C code takes from the machine: words of 32 and 64 bits with their wrap-around, bytes
-- read as little-endian words, the AVX2 registers, and aligned access to the bit array.
mod Word
mod Lanes
mod Memory
mod Alloc
mod Doubling
mod Bytes
mod Zeroed
pub mod Granting
unfoldable pub use Word.*
unfoldable pub use Lanes.*
unfoldable pub use Memory.*
unfoldable pub use Alloc.*
unfoldable pub use Doubling.*
unfoldable pub use Bytes.*
unfoldable pub use Zeroed.*
