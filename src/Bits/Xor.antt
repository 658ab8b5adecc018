-- ===== src/Bits/Xor.antt =====
-- `^` digit by digit, and its range.
use Prim.Native.Nat.{bit_xor-bitwise, differ}
use quickbloom.Base.{ℕ, zero, suc, ◌^◌, ◌<◌, ◌≡◌, refl, arith}
use quickbloom.Base.{bit_xor}
use quickbloom.Bits.Digit.{bit_at, bit_at_ext, bit_at_high, lt_of_bit_at, zero-bit_at}
use quickbloom.Bits.Operations.{digits-bit_at}

differ-lt : (x y : ℕ) → x < 2 → y < 2 → differ x y < 2
differ-lt zero y p q = q
differ-lt (suc zero) zero p q = omega arith
differ-lt (suc zero) (suc y) p q = omega arith
differ-lt (suc (suc x)) y p q = absurd (omega arith)

differ_self : (x : ℕ) → differ x x ≡ 0
differ_self zero = refl
differ_self (suc x) = differ_self x

pub differ-zero : (x : ℕ) → differ x 0 ≡ x
differ-zero zero = refl
differ-zero (suc x) = refl

pub bit_at-bit_xor : (a b i : ℕ) → bit_at (bit_xor a b) i ≡ differ (bit_at a i) (bit_at b i)
bit_at-bit_xor a b i =
    simp bit_xor-bitwise
      (digits-bit_at (λ b. b) differ differ-lt (λ b i. refl) a a b i (omega arith))

pub bit_xor-lt : (w a b : ℕ) → a < 2 ^ w → b < 2 ^ w → bit_xor a b < 2 ^ w
bit_xor-lt w a b p q =
    lt_of_bit_at w _ λ i h. rw (bit_at-bit_xor a b i, bit_at_high w a i p h, bit_at_high w b i q h)

pub bit_xor_self : (a : ℕ) → bit_xor a a ≡ 0
bit_xor_self a =
    bit_at_ext _ _ λ i. rw (bit_at-bit_xor a a i, zero-bit_at i) (differ_self (bit_at a i))
