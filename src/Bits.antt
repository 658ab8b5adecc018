-- ===== src/Bits.antt =====
-- The binary digits of a number, and the bit operations of C as operations on digits: `|`, `&`,
-- `^`, `~` and a shifted one, at every width.
mod Digit
mod Operations
mod Lattice
mod Single
mod Xor
mod Fields
mod PowerTest
mod Shifted
pub use Digit.*
pub use Operations.*
pub use Lattice.*
pub use Xor.*
pub use Fields.*
pub use PowerTest.*
pub use Shifted.*
pub use Single.*
