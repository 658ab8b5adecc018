-- ===== src/Bits/Shifted.antt =====
-- A digit read off by a shift: `(x >> k) & 1`.
use quickbloom.Base.{ℕ, zero, suc, ◌/◌, ◌%◌, ◌^◌, ◌≡◌, ◌∙◌, arith, ap, sym, bit_and}
use quickbloom.Base.{pow-step}
use quickbloom.Bits.Digit.{bit_at}
use quickbloom.Bits.Fields.{bit_and_mask}
use native.Mathlib.Nat.{div-div-eq-div-mul}

shifted : (k x : ℕ) → x / 2 ^ k % 2 ≡ bit_at x k
shifted zero x = omega arith
shifted (suc k) x =
    ap (λ n. x / n % 2) (pow-step k)
    ∙ ap (λ n. n % 2) (sym (div-div-eq-div-mul x 2 (2 ^ k)))
    ∙ shifted k (x / 2)

pub shift-bit_and-one : (k x : ℕ) → bit_and (x / 2 ^ k) 1 ≡ bit_at x k
shift-bit_and-one k x = bit_and_mask 1 (x / 2 ^ k) ∙ shifted k x
