-- ===== src/Machine/Doubling.antt =====
-- `size_t p = ...; while (p < n) p <<= 1;`, the loop by which the filters round a size up to a
-- power of two, and how it ends.
use quickbloom.Base.{ℕ, zero, suc, ◌+◌, ◌*◌, ◌^◌, ◌≤◌, ◌<◌, ◌≡◌, refl, arith, ◌⊎◌, inl}
use quickbloom.Base.{
  inr, Option, none, some, ltb, if◌then◌else◌, dec_lt, pow-step, pow_mono, lt→ltb,
}
use quickbloom.Base.{le→ltb}
use quickbloom.Machine.Word.{shl64}

-- On fuel; `none` means that it ran out.
unfoldable pub round_up_pow2 : ℕ → ℕ → ℕ → Option ℕ
round_up_pow2 zero n p = none
round_up_pow2 (suc fuel) n p =
    let rest = round_up_pow2 fuel n (shl64 p 1) in if ltb p n then rest else some p

-- The result is `2 ^ log`, at least `n`, and no smaller power from `2 ^ start` on is.
pub record IsRounded (n start : ℕ) (result : Option ℕ) : Type 0 where
  pub log : ℕ
  pub returns : result ≡ some (2 ^ log)
  pub enough : n ≤ 2 ^ log
  pub small : log ≤ 63
  pub least : (log ≡ start) ⊎ (2 ^ log < 2 * n)

doubled : (j : ℕ) → j < 63 → shl64 (2 ^ j) 1 ≡ 2 ^ suc j
doubled j h = omega (arith, pow-step j, pow_mono (suc j) 63 h)

IsRounded-step :
    (fuel n j start : ℕ)
    → n ≤ 2 ^ 63
    → j ≤ 63
    → 63 < fuel + j
    → (j ≡ start) ⊎ (2 ^ j < 2 * n)
    → IsRounded n start (round_up_pow2 fuel n (2 ^ j))
unfolding round_up_pow2
IsRounded-step zero n j start small le fuel least = absurd (omega arith)
IsRounded-step (suc fuel) n j start small le enough least = elim (dec_lt (2 ^ j) n) [
  | yes more ↦
      let room : j < 63 = below j n more small le in
      rw (lt→ltb (2 ^ j) n more, doubled j room)
        (IsRounded-step fuel n (suc j) start small room (omega arith)
          (inr (omega (arith, pow-step j))))
  | no done ↦ record {
    log = j;
    returns = rw (le→ltb (2 ^ j) n (omega arith));
    enough = omega arith;
    small = le;
    least = least;
  }
]
  where
    below : (j n : ℕ) → 2 ^ j < n → n ≤ 2 ^ 63 → j ≤ 63 → j < 63
    below j n more small le = elim (dec_lt j 63) [
      | yes p ↦ p
      | no p ↦ absurd (omega (arith, pow_mono 63 j (omega arith)))
    ]

-- 64 rounds are enough from any start, for every `n` that a `size_t` power of two can reach.
pub round_up_pow2_lem :
    (n start : ℕ) → n ≤ 2 ^ 63 → start ≤ 63 → IsRounded n start (round_up_pow2 64 n (2 ^ start))
round_up_pow2_lem n start small le =
    IsRounded-step 64 n start start small le (omega arith) (inl refl)

-- Past 2^63 the shift drops the only bit and the loop never ends: no fuel is enough.
zero-stuck : (fuel n : ℕ) → 0 < n → round_up_pow2 fuel n 0 ≡ none
unfolding round_up_pow2
zero-stuck zero n h = refl
zero-stuck (suc fuel) n h = rw (lt→ltb 0 n h) (zero-stuck fuel n h)

pub round_up_pow2_diverges :
    (fuel n j : ℕ) → 2 ^ 63 < n → j ≤ 63 → round_up_pow2 fuel n (2 ^ j) ≡ none
unfolding round_up_pow2
round_up_pow2_diverges zero n j big le = refl
round_up_pow2_diverges (suc fuel) n j big le = elim (dec_lt j 63) [
  | yes p ↦
      rw (lt→ltb (2 ^ j) n (omega (arith, pow_mono j 63 le)), doubled j p)
        (round_up_pow2_diverges fuel n (suc j) big p)
  | no p ↦
      rw (lt→ltb (2 ^ j) n (omega (arith, pow_mono j 63 le)), overflow j le p)
        (zero-stuck fuel n (omega arith))
]
  where
    overflow : (j : ℕ) → j ≤ 63 → ¬ (j < 63) → shl64 (2 ^ j) 1 ≡ 0
    overflow j le p = let last : j ≡ 63 = omega arith in rw last
