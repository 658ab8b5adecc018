-- ===== src/Base/Powers.antt =====
-- Powers of two, which the native numbers have few laws of.
use Prim.Native.Nat.{ℕ, zero, suc, ◌+◌, ◌-◌, ◌*◌, ◌/◌, ◌%◌, ◌^◌, ◌≤◌, ◌<◌}
use mathlib.Core.Path.{◌≡◌, ap, sym, ◌∙◌}
use native.Mathlib.Nat.{
  pow-suc, one-le-pow, mul-one, div-lt_iff_lt-mul, mod-mod_of_dvd, dvd-mul_right,
}
use native.Mathlib.Nat.{pow-le-pow_right, mul_comm}
use native.Mathlib.Omega.{arith}

pub pow_pos : (k : ℕ) → 0 < 2 ^ k
pow_pos k = one-le-pow k 2 (omega arith)

pub pow-step : (k : ℕ) → 2 ^ suc k ≡ 2 * 2 ^ k
pow-step k = omega (arith, pow-suc 2 k)

pub pow-add : (a b : ℕ) → 2 ^ (a + b) ≡ 2 ^ a * 2 ^ b
pow-add a zero = ap (λ k. 2 ^ k) (plus_zero a) ∙ sym (mul-one (2 ^ a))
  where
    plus_zero : (a : ℕ) → a + 0 ≡ a
    plus_zero a = omega arith
pow-add a (suc b) =
    ap (λ k. 2 ^ k) (plus_suc a b)
    ∙ omega (arith, pow-suc 2 (a + b), pow-add a b, ap (λ (t : ℕ). 2 ^ a * t) (pow-suc 2 b))
  where
    plus_suc : (a b : ℕ) → a + suc b ≡ suc (a + b)
    plus_suc a b = omega arith

pub pow_mono : (a b : ℕ) → a ≤ b → 2 ^ a ≤ 2 ^ b
pow_mono a b h = pow-le-pow_right {n = 2} (omega arith) h

pub pow_split : (a b : ℕ) → a ≤ b → 2 ^ a * 2 ^ (b - a) ≡ 2 ^ b
pow_split a b h = sym (pow-add a (b - a)) ∙ ap (λ k. 2 ^ k) (omega arith)

-- The quotient by a power of two fits the bits that are left.
pub div-pow-lt : (x a b : ℕ) → a ≤ b → x < 2 ^ b → x / 2 ^ a < 2 ^ (b - a)
div-pow-lt x a b h lt =
    (div-lt_iff_lt-mul {k = 2 ^ a} {x = x} {y = 2 ^ (b - a)} (pow_pos a)).1
      (omega (arith, pow_split a b h, mul_comm (2 ^ (b - a)) (2 ^ a)))

-- A wrap to more bits does not show in fewer.
pub mod-pow-pow : (x a b : ℕ) → a ≤ b → x % 2 ^ b % 2 ^ a ≡ x % 2 ^ a
mod-pow-pow x a b h =
    ap (λ n. x % n % 2 ^ a) (sym (pow_split a b h))
    ∙ mod-mod_of_dvd (2 ^ a) x (dvd-mul_right (2 ^ a) (2 ^ (b - a)))
