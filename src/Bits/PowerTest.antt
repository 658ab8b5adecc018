-- ===== src/Bits/PowerTest.antt =====
-- `n & (n - 1)` is 0, for a positive `n`, exactly at the powers of two.
use quickbloom.Base.{ℕ, zero, suc, ◌+◌, ◌-◌, ◌*◌, ◌/◌, ◌%◌, ◌^◌, ◌≤◌, ◌<◌, ◌≡◌, ◌∙◌, refl, arith}
use quickbloom.Base.{bit_and, pow-step, pow_pos, ◌↔◌, ap₂, ℕ_discrete}
use quickbloom.Bits.Digit.{bit_at_ext}
use quickbloom.Bits.Operations.{bit_at-bit_and}

-- The operation on the higher digits and on the lowest.
bit_and-half : (a b : ℕ) → bit_and a b / 2 ≡ bit_and (a / 2) (b / 2)
bit_and-half a b =
    bit_at_ext _ _ λ i. omega (arith, bit_at-bit_and a b (suc i), bit_at-bit_and (a / 2) (b / 2) i)

bit_and_self : (a : ℕ) → bit_and a a ≡ a
bit_and_self a = bit_at_ext _ _ λ i. omega (arith, bit_at-bit_and a a i)

-- One step down, for even and for odd `n`.
even_step : (m : ℕ) → 0 < m → bit_and (2 * m) (2 * m - 1) ≡ 2 * bit_and m (m - 1)
even_step m pos =
    omega
      (arith, bit_and-half (2 * m) (2 * m - 1), bit_at-bit_and (2 * m) (2 * m - 1) 0, halves m pos)
  where
    halves : (m : ℕ) → 0 < m → bit_and (2 * m / 2) ((2 * m - 1) / 2) ≡ bit_and m (m - 1)
    halves m pos = ap₂ bit_and (omega arith) (omega arith)

odd_step : (m : ℕ) → bit_and (2 * m + 1) (2 * m) ≡ 2 * m
odd_step m =
    omega (arith, bit_and-half (2 * m + 1) (2 * m), bit_at-bit_and (2 * m + 1) (2 * m) 0, halves m)
  where
    halves : (m : ℕ) → bit_and ((2 * m + 1) / 2) (2 * m / 2) ≡ m
    halves m =
        let upper : (2 * m + 1) / 2 ≡ m = omega arith in
        let lower : 2 * m / 2 ≡ m = omega arith in ap₂ bit_and upper lower ∙ bit_and_self m

power_of_clear : (fuel n : ℕ) → 0 < n → n ≤ fuel → bit_and n (n - 1) ≡ 0 → (k : ℕ) × (n ≡ 2 ^ k)
power_of_clear zero n pos le e = absurd (omega arith)
power_of_clear (suc fuel) n pos le e = elim (ℕ_discrete (n % 2) 0) [
  | yes even ↦
      let m = n / 2 in
      let twice : n ≡ 2 * m = omega arith in
      let e' : bit_and (2 * m) (2 * m - 1) ≡ 0 = rw twice at e in
      let (k, p) =
        power_of_clear fuel m (omega arith) (omega arith)
          (omega (arith, even_step m (omega arith), e')) in
      (suc k, omega (arith, pow-step k, p))
  | no odd ↦
      let m = n / 2 in
      let next : n ≡ 2 * m + 1 = omega arith in
      let before : n - 1 ≡ 2 * m = omega arith in
      let both : bit_and n (n - 1) ≡ bit_and (2 * m + 1) (2 * m) = ap₂ bit_and next before in
      (0, omega (arith, odd_step m, both))
]

clear_of_power : (k : ℕ) → bit_and (2 ^ k) (2 ^ k - 1) ≡ 0
clear_of_power zero = refl
clear_of_power (suc k) =
    rw (pow-step k) (omega (arith, even_step (2 ^ k) (pow_pos k), clear_of_power k))

pub power_test_iff : (n : ℕ) → 0 < n → (bit_and n (n - 1) ≡ 0) ↔ ((k : ℕ) × (n ≡ 2 ^ k))
power_test_iff n pos =
    (λ e. power_of_clear n n pos (omega arith) e, λ (k, e). rw e (clear_of_power k))
