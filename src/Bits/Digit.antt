-- ===== src/Bits/Digit.antt =====
-- `bit_at x i` is digit `i` of `x`, and a number is determined by its digits.
use quickbloom.Base.{ℕ, zero, suc, ◌+◌, ◌/◌, ◌%◌, ◌^◌, ◌≤◌, ◌<◌, ◌≡◌, refl, arith}
use quickbloom.Base.{pow-step}

abbrev pub bit_at : ℕ → ℕ → ℕ
bit_at x zero = x % 2
bit_at x (suc i) = bit_at (x / 2) i

pub bit_at-lt : (x i : ℕ) → bit_at x i < 2
bit_at-lt x zero = omega arith
bit_at-lt x (suc i) = bit_at-lt (x / 2) i

pub zero-bit_at : (i : ℕ) → bit_at 0 i ≡ 0
zero-bit_at zero = refl
zero-bit_at (suc i) = zero-bit_at i

bit_at_ext_fuel : (n a b : ℕ) → a ≤ n → b ≤ n → ((i : ℕ) → bit_at a i ≡ bit_at b i) → a ≡ b
bit_at_ext_fuel zero a b p q h = omega arith
bit_at_ext_fuel (suc n) a b p q h =
    omega
      (arith, h 0, bit_at_ext_fuel n (a / 2) (b / 2) (omega arith) (omega arith) (λ i. h (suc i)))

-- Numbers with the same digits are equal.
pub bit_at_ext : (a b : ℕ) → ((i : ℕ) → bit_at a i ≡ bit_at b i) → a ≡ b
bit_at_ext a b h = bit_at_ext_fuel (a + b) a b (omega arith) (omega arith) h

-- A number below `2 ^ w` has no digit at `w` or above, and conversely.
pub bit_at_high : (w x i : ℕ) → x < 2 ^ w → w ≤ i → bit_at x i ≡ 0
bit_at_high zero zero i lt le = zero-bit_at i
bit_at_high zero (suc x) i lt le = absurd (omega arith)
bit_at_high (suc w) x zero lt le = absurd (omega arith)
bit_at_high (suc w) x (suc i) lt le =
    bit_at_high w (x / 2) i (omega (arith, pow-step w)) (omega arith)

pub lt_of_bit_at : (w x : ℕ) → ((i : ℕ) → w ≤ i → bit_at x i ≡ 0) → x < 2 ^ w
lt_of_bit_at zero x h = let none_set : x ≡ 0 = bit_at_ext x 0 (λ i. all_zero i) in omega arith
  where
    all_zero : (i : ℕ) → bit_at x i ≡ bit_at 0 i
    all_zero i = omega (arith, h i (omega arith), zero-bit_at i)
lt_of_bit_at (suc w) x h =
    omega (arith, pow-step w, lt_of_bit_at w (x / 2) (λ i p. h (suc i) (omega arith)))
