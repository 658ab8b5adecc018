-- ===== src/Bits/Lattice.antt =====
-- The laws of `|` and `&` that follow digit by digit, the range of their results, and when one
-- number's digits are among another's.
use quickbloom.Base.{ℕ, ◌^◌, ◌≤◌, ◌<◌, ◌≡◌, arith}
use quickbloom.Base.{bit_and, bit_or, ◌↔◌}
use quickbloom.Bits.Digit.{bit_at, bit_at_ext, bit_at_high, lt_of_bit_at, zero-bit_at}
use quickbloom.Bits.Operations.{bit_at-bit_or, bit_at-bit_and}

pub bit_or_comm : (a b : ℕ) → bit_or a b ≡ bit_or b a
bit_or_comm a b = bit_at_ext _ _ λ i. omega (arith, bit_at-bit_or a b i, bit_at-bit_or b a i)

pub bit_or_assoc : (a b c : ℕ) → bit_or (bit_or a b) c ≡ bit_or a (bit_or b c)
bit_or_assoc a b c = bit_at_ext _ _ λ i. omega (
  arith,
  bit_at-bit_or (bit_or a b) c i,
  bit_at-bit_or a b i,
  bit_at-bit_or a (bit_or b c) i,
  bit_at-bit_or b c i,
)

pub bit_or_self : (a : ℕ) → bit_or a a ≡ a
bit_or_self a = bit_at_ext _ _ λ i. omega (arith, bit_at-bit_or a a i)

pub bit_or-zero : (a : ℕ) → bit_or a 0 ≡ a
bit_or-zero a = bit_at_ext _ _ λ i. omega (arith, bit_at-bit_or a 0 i, zero-bit_at i)

pub bit_and_comm : (a b : ℕ) → bit_and a b ≡ bit_and b a
bit_and_comm a b = bit_at_ext _ _ λ i. omega (arith, bit_at-bit_and a b i, bit_at-bit_and b a i)

pub bit_or-lt : (w a b : ℕ) → a < 2 ^ w → b < 2 ^ w → bit_or a b < 2 ^ w
bit_or-lt w a b p q =
    lt_of_bit_at w _
      λ i h. omega (arith, bit_at-bit_or a b i, bit_at_high w a i p h, bit_at_high w b i q h)

-- `a & m == m`: the digits of `m` are among those of `a`.
pub bit_and-eq_iff : (a m : ℕ) → (bit_and a m ≡ m) ↔ ((i : ℕ) → bit_at m i ≤ bit_at a i)
bit_and-eq_iff a m = (
  λ e i. omega (arith, bit_at-bit_and a m i, same e i),
  λ h. bit_at_ext _ _ λ i. omega (arith, bit_at-bit_and a m i, h i),
)
  where
    same : bit_and a m ≡ m → (i : ℕ) → bit_at (bit_and a m) i ≡ bit_at m i
    same e i = rw e
