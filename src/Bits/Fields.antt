-- ===== src/Bits/Fields.antt =====
-- Fields of a word: `(q << k) | r` and `(q << k) ^ r` as sums, `x & (2^k - 1)` as a remainder.
use quickbloom.Base.{ℕ, zero, suc, ◌+◌, ◌-◌, ◌*◌, ◌/◌, ◌%◌, ◌^◌, ◌<◌, ◌≡◌, arith, max}
use quickbloom.Base.{bit_and, bit_or, bit_xor, pow-step, pow_pos, ap, dec_lt}
use quickbloom.Bits.Digit.{bit_at, bit_at-lt, bit_at_ext, bit_at_high, zero-bit_at}
use quickbloom.Bits.Operations.{bit_at-bit_or, bit_at-bit_and}
use quickbloom.Bits.Single.{bit_at-complement}
use quickbloom.Bits.Xor.{bit_at-bit_xor, differ-zero}
use native.Mathlib.Nat.{div-add-mod', mod-lt}

field_double : (q k : ℕ) → q * 2 ^ suc k ≡ 2 * (q * 2 ^ k)
field_double q k = omega (arith, ap (λ (t : ℕ). q * t) (pow-step k))

-- A field shifted by `k` has no digit below `k`.
bit_at_low : (k q i : ℕ) → i < k → bit_at (q * 2 ^ k) i ≡ 0
bit_at_low zero q i h = absurd (omega arith)
bit_at_low (suc k) q zero h = omega (arith, field_double q k)
bit_at_low (suc k) q (suc i) h = rw halved (bit_at_low k q i (omega arith))
  where
    halved : q * 2 ^ suc k / 2 ≡ q * 2 ^ k
    halved = omega (arith, field_double q k)

-- Digit `i` of a number of two fields.
bit_at_fields :
    (k q r i : ℕ) → r < 2 ^ k → bit_at (q * 2 ^ k + r) i ≡ max (bit_at (q * 2 ^ k) i) (bit_at r i)
bit_at_fields zero q r i h =
    rw no_rest (omega (arith, zero-bit_at i, ap (λ n. bit_at n i) plus_zero))
  where
    no_rest : r ≡ 0
    no_rest = omega arith

    plus_zero : q * 2 ^ 0 + 0 ≡ q * 2 ^ 0
    plus_zero = omega arith
bit_at_fields (suc k) q r zero h = omega (arith, field_double q k)
bit_at_fields (suc k) q r (suc i) h =
    rw (both, halved) (bit_at_fields k q (r / 2) i (omega (arith, pow-step k)))
  where
    both : (q * 2 ^ suc k + r) / 2 ≡ q * 2 ^ k + r / 2
    both = omega (arith, field_double q k)

    halved : q * 2 ^ suc k / 2 ≡ q * 2 ^ k
    halved = omega (arith, field_double q k)

-- `(q << k) ^ r` is a sum when `r` fits `k` bits.
pub bit_xor_fields : (k q r : ℕ) → r < 2 ^ k → bit_xor (q * 2 ^ k) r ≡ q * 2 ^ k + r
bit_xor_fields k q r h = bit_at_ext _ _ λ i. elim (dec_lt i k) [
  | yes p ↦
      rw (bit_at-bit_xor (q * 2 ^ k) r i, bit_at_fields k q r i h, bit_at_low k q i p) (omega arith)
  | no p ↦
      rw
        (
          bit_at-bit_xor (q * 2 ^ k) r i,
          bit_at_fields k q r i h,
          bit_at_high k r i h (omega arith),
          differ-zero (bit_at (q * 2 ^ k) i),
        )
        (omega arith)
]

-- So is `(q << k) | r`.
pub bit_or_fields : (k q r : ℕ) → r < 2 ^ k → bit_or (q * 2 ^ k) r ≡ q * 2 ^ k + r
bit_or_fields k q r h =
    bit_at_ext _ _ λ i. omega (arith, bit_at-bit_or (q * 2 ^ k) r i, bit_at_fields k q r i h)

-- Below `k` the digits of the remainder by `2 ^ k` are those of the number.
bit_at-mod : (k x i : ℕ) → i < k → bit_at (x % 2 ^ k) i ≡ bit_at x i
bit_at-mod k x i p = omega (
  arith,
  bit_at_fields k (x / 2 ^ k) (x % 2 ^ k) i (mod-lt x (pow_pos k)),
  bit_at_low k (x / 2 ^ k) i p,
  ap (λ n. bit_at n i) (div-add-mod' x (2 ^ k)),
)

bit_at_ones : (k i : ℕ) → i < k → bit_at (2 ^ k - 1) i ≡ 1
bit_at_ones k i p = omega (
  arith,
  bit_at-complement k 0 i (pow_pos k) p,
  zero-bit_at i,
  ap (λ n. bit_at n i) (sub_zero (2 ^ k - 1)),
)
  where
    sub_zero : (n : ℕ) → n - 0 ≡ n
    sub_zero n = omega arith

-- A mask of the `k` low bits is the remainder by `2 ^ k`.
pub bit_and_mask : (k x : ℕ) → bit_and x (2 ^ k - 1) ≡ x % 2 ^ k
bit_and_mask k x = bit_at_ext _ _ λ i. elim (dec_lt i k) [
  | yes p ↦
      omega (
        arith,
        bit_at-bit_and x (2 ^ k - 1) i,
        bit_at_ones k i p,
        bit_at-mod k x i p,
        bit_at-lt x i,
      )
  | no p ↦ omega (
    arith,
    bit_at-bit_and x (2 ^ k - 1) i,
    bit_at_high k (2 ^ k - 1) i (omega (arith, pow_pos k)) (omega arith),
    bit_at_high k (x % 2 ^ k) i (mod-lt x (pow_pos k)) (omega arith),
  )
]
