-- ===== src/Bits/Operations.antt =====
-- `|`, `&` and `^` digit by digit, from the recursion that the native operations stand for.
use Prim.Native.Nat.{digits, bit_and-bitwise, bit_or-bitwise}
use quickbloom.Base.{ℕ, zero, suc, ◌+◌, ◌*◌, ◌/◌, ◌%◌, ◌≤◌, ◌<◌, ◌≡◌, arith, min, max}
use quickbloom.Base.{bit_and, bit_or}
use quickbloom.Bits.Digit.{bit_at, zero-bit_at}

-- `f` combines two digits, `z` is what is left once the first number has run out.
module _ (z : ℕ → ℕ) (f : ℕ → ℕ → ℕ) (digit : (x y : ℕ) → x < 2 → y < 2 → f x y < 2)
    (rest : (b i : ℕ) → bit_at (z b) i ≡ f 0 (bit_at b i)) where
  pub digits-bit_at :
      (n a b i : ℕ) → a ≤ n → bit_at (digits z f n a b) i ≡ f (bit_at a i) (bit_at b i)
  digits-bit_at zero zero b i h = rw zero-bit_at (rest b i)
  digits-bit_at zero (suc a) b i h = absurd (omega arith)
  digits-bit_at (suc n) zero b i h = rw zero-bit_at (rest b i)
  digits-bit_at (suc n) (suc a) b zero h =
      omega (arith, digit (suc a % 2) (b % 2) (omega arith) (omega arith))
  digits-bit_at (suc n) (suc a) b (suc i) h =
      rw halved (digits-bit_at n (suc a / 2) (b / 2) i (omega arith))
    where
      halved :
          (digits z f n (suc a / 2) (b / 2) * 2 + f (suc a % 2) (b % 2)) / 2
          ≡ digits z f n (suc a / 2) (b / 2)
      halved = omega (arith, digit (suc a % 2) (b % 2) (omega arith) (omega arith))

pub bit_at-bit_or : (a b i : ℕ) → bit_at (bit_or a b) i ≡ max (bit_at a i) (bit_at b i)
bit_at-bit_or a b i =
    simp bit_or-bitwise (
      digits-bit_at (λ b. b) max (λ x y p q. omega arith) (λ b i. omega arith) a a b i
        (omega arith))

pub bit_at-bit_and : (a b i : ℕ) → bit_at (bit_and a b) i ≡ min (bit_at a i) (bit_at b i)
bit_at-bit_and a b i = simp bit_and-bitwise (
    digits-bit_at (λ b. zero) min (λ x y p q. omega arith) (λ b i. omega (arith, zero-bit_at i)) a a
      b i (omega arith))
