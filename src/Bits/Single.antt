-- ===== src/Bits/Single.antt =====
-- A mask of one bit, `1 << k`, and the complement within a width, `~x`.
use quickbloom.Base.{ℕ, zero, suc, ◌-◌, ◌/◌, ◌^◌, ◌≤◌, ◌<◌, ◌≡◌, refl, arith}
use quickbloom.Base.{bit_and, ◌==◌, to_int, pow-step, pow_pos, ◌↔◌, dec_lt}
use quickbloom.Bits.Digit.{bit_at, bit_at-lt, bit_at_ext, bit_at_high, zero-bit_at}
use quickbloom.Bits.Operations.{bit_at-bit_and}

pub bit_at-pow : (k i : ℕ) → bit_at (2 ^ k) i ≡ to_int (k == i)
bit_at-pow zero zero = refl
bit_at-pow zero (suc i) = ground (arith, zero-bit_at i)
bit_at-pow (suc k) zero = ground (arith, pow-step k)
bit_at-pow (suc k) (suc i) = rw halved (ground (arith, bit_at-pow k i))
  where
    halved : 2 ^ suc k / 2 ≡ 2 ^ k
    halved = omega (arith, pow-step k)

-- `~x` at a width of `w` bits turns every digit below `w`.
pub bit_at-complement : (w x i : ℕ) → x < 2 ^ w → i < w → bit_at (2 ^ w - 1 - x) i ≡ 1 - bit_at x i
bit_at-complement zero x i p q = absurd (omega arith)
bit_at-complement (suc w) x zero p q = omega (arith, pow-step w)
bit_at-complement (suc w) x (suc i) p q =
    rw halved (bit_at-complement w (x / 2) i (omega (arith, pow-step w)) (omega arith))
  where
    halved : (2 ^ suc w - 1 - x) / 2 ≡ 2 ^ w - 1 - x / 2
    halved = omega (arith, pow-step w, pow_pos w)

-- The digits of `2 ^ k` are among those of `x` exactly when digit `k` of `x` is set.
pub pow-covered_iff : (k x : ℕ) → ((i : ℕ) → bit_at (2 ^ k) i ≤ bit_at x i) ↔ (bit_at x k ≡ 1)
pow-covered_iff k x =
    (λ h. ground (arith, h k, bit_at-pow k k, bit_at-lt x k), λ e i. ground (arith, bit_at-pow k i))

-- `~c & m == 0`: the digits of `m` are among those of `c`.
pub complement-bit_and-eq-zero_iff :
    (w c m : ℕ)
    → c < 2 ^ w
    → m < 2 ^ w
    → (bit_and (2 ^ w - 1 - c) m ≡ 0) ↔ ((i : ℕ) → bit_at m i ≤ bit_at c i)
complement-bit_and-eq-zero_iff w c m p q = (
  λ e i. elim (dec_lt i w) [
    | yes below ↦ omega (
      arith,
      bit_at-bit_and (2 ^ w - 1 - c) m i,
      none_set e i,
      bit_at-complement w c i p below,
      bit_at-lt m i,
      bit_at-lt c i,
    )
    | no above ↦ omega (arith, bit_at_high w m i q (omega arith))
  ],
  λ h. bit_at_ext _ _ λ i. elim (dec_lt i w) [
    | yes below ↦ omega (
      arith,
      bit_at-bit_and (2 ^ w - 1 - c) m i,
      bit_at-complement w c i p below,
      h i,
      bit_at-lt m i,
      bit_at-lt c i,
      zero-bit_at i,
    )
    | no above ↦ omega (
      arith,
      bit_at-bit_and (2 ^ w - 1 - c) m i,
      bit_at_high w m i q (omega arith),
      zero-bit_at i,
    )
  ],
)
  where
    none_set : bit_and (2 ^ w - 1 - c) m ≡ 0 → (i : ℕ) → bit_at (bit_and (2 ^ w - 1 - c) m) i ≡ 0
    none_set e i = rw e (zero-bit_at i)
