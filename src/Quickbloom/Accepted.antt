-- ===== src/Quickbloom/Accepted.antt =====
-- Whether `qb_deserialize` accepts a size is decided.
use quickbloom.Base.{ℕ, zero, suc, ◌*◌, ◌^◌, ◌≤◌, ◌<◌, ◌≡◌, arith}
use quickbloom.Base.{◌⊎◌, inl, inr, ℕ_discrete}
use quickbloom.Machine.{}
use quickbloom.Quickbloom.Serialize.{max_bytes}
use quickbloom.Quickbloom.RoundTrip.{IsAccepted, accepted-small}
use quickbloom.Quickbloom.Restore.{}

-- A size is that of a number of blocks below `2 ^ m`, or not.
size_search :
    (nbytes m : ℕ) → ((k : ℕ) × (nbytes ≡ 2 ^ k * 32)) ⊎ ((k : ℕ) → k < m → ¬ (nbytes ≡ 2 ^ k * 32))
size_search nbytes zero = inr (λ k lt. absurd (omega arith))
size_search nbytes (suc m) = elim (ℕ_discrete nbytes (2 ^ m * 32)) [
  | yes e ↦ inl (m, e)
  | no ne ↦ elim (size_search nbytes m) [
    | inl found ↦ inl found
    | inr none_below ↦ inr (λ k lt. last k none_below ne lt)
  ]
]
  where
    last :
        (k : ℕ)
        → ((k : ℕ) → k < m → ¬ (nbytes ≡ 2 ^ k * 32))
        → ¬ (nbytes ≡ 2 ^ m * 32)
        → k < suc m
        → ¬ (nbytes ≡ 2 ^ k * 32)
    last k below ne lt = elim (ℕ_discrete k m) [
      | yes e ↦ rw e ne
      | no other ↦ below k (omega arith)
    ]

-- A size up to QB_DESERIALIZE_MAX_BYTES is accepted or not.
pub IsAccepted-or_not :
    (nbytes : ℕ)
    → nbytes ≤ max_bytes
    → ((k : ℕ) × IsAccepted nbytes k) ⊎ ((k : ℕ) → ¬ IsAccepted nbytes k)
IsAccepted-or_not nbytes le = elim (size_search nbytes 32) [
  | inl (k, e) ↦ inl (k, record { blocks = e; capped = le })
  | inr none_below ↦ inr (λ k good. none_below k (small k good) good.blocks)
]
  where
    small : (k : ℕ) → IsAccepted nbytes k → k < 32
    small k good = omega (arith, accepted-small nbytes k good)
