-- ===== src/Quickbloom/NewSizes.antt =====
-- The outcomes of `qb_new` in terms of the number of bits that is asked for.
use quickbloom.Base.{
  ℕ, zero, suc, ◌-◌, ◌*◌, ◌^◌, ◌≤◌, ◌<◌, ◌≡◌, refl, arith, ◌∷◌, false, Option, none, some, ◌⊎◌, inl,
  inr, pow_pos, pow-step,
}
use quickbloom.Machine.{Heap, Allocator, allocate}
use quickbloom.Quickbloom.Lifecycle.{Handle, requested, new}
use quickbloom.Quickbloom.NewLaws.{
  empty_filter, IsSize, Outcome, too_large, no_memory, made, new-Outcome,
}
use quickbloom.Quickbloom.Lifetime.{requested_bounds}

-- `2 ^ k` blocks of 256 bits are the least power of two of blocks that holds `nbits` bits.
pub record IsLeast (nbits k : ℕ) : Type 0 where
  pub small : k ≤ 31
  pub enough : nbits ≤ 256 * 2 ^ k
  pub least : (k ≡ 0) ⊎ (256 * 2 ^ (k - 1) < nbits)

-- The outcomes of `qb_new`. NULL comes of more bits than 2^31 blocks hold, or of an allocation that
-- failed, and leaves the live allocations as they were. A filter has the least power of two of
-- blocks that holds the bits, no bit set, and two live allocations of its own.
pub data SizedOutcome (a : Allocator) (heap : Heap) (nbits : ℕ)
    : Option (Option Handle × Heap) → Type 0 where
  refused_size : 256 * 2 ^ 31 < nbits → SizedOutcome a heap nbits (some (none, heap))
  refused_memory :
      (k : ℕ) (heap' : Heap)
      → IsLeast nbits k
      → heap'.live ≡ heap.live
      → (a.grants heap 24 ≡ false) ⊎ (a.block (allocate heap) (2 ^ k * 32) ≡ none)
      → SizedOutcome a heap nbits (some (none, heap'))
  returned :
      (k : ℕ) (h : Handle) (heap' : Heap)
      → IsLeast nbits k
      → h.filter ≡ empty_filter k
      → heap'.live ≡ h.mem ∷ h.self ∷ heap.live
      → SizedOutcome a heap nbits (some (some h, heap'))

-- The blocks that the code asks for are those that the bits need.
of_size : (nbits k : ℕ) → nbits ≤ 2 ^ 64 - 256 → IsSize nbits k → IsLeast nbits k
of_size nbits k lt size = record {
  small = size.small;
  enough = omega (arith, (requested_bounds nbits lt).0, size.enough);
  least = below k size.least (requested_bounds nbits lt).1;
}
  where
    below :
        (k : ℕ)
        → (k ≡ 0) ⊎ (2 ^ k < 2 * requested nbits)
        → (requested nbits ≡ 1) ⊎ (256 * (requested nbits - 1) < nbits)
        → (k ≡ 0) ⊎ (256 * 2 ^ (k - 1) < nbits)
    below zero l s = inl refl
    below (suc k) (inl e) s = absurd (omega arith)
    below (suc k) (inr l) (inl one) = absurd (omega (arith, pow-step k, pow_pos k))
    below (suc k) (inr l) (inr m) =
        let back : suc k - 1 ≡ k = omega arith in
        inr (rw back (omega (arith, pow-step k, pow_pos k)))

of_Outcome :
    (a : Allocator) (heap : Heap) (nbits : ℕ) {r : Option (Option Handle × Heap)}
    → nbits ≤ 2 ^ 64 - 256
    → Outcome a heap nbits r
    → SizedOutcome a heap nbits r
of_Outcome a heap nbits lt (too_large big) =
    refused_size (omega (arith, (requested_bounds nbits lt).1))
of_Outcome a heap nbits lt (no_memory k heap' size same why) =
    refused_memory k heap' (of_size nbits k lt size) same why
of_Outcome a heap nbits lt (made k h heap' size e live) =
    returned k h heap' (of_size nbits k lt size) e live

-- Every outcome of `qb_new` for at most 2^64 - 256 bits: NULL because the bits need more than 2^31
-- blocks, NULL because an allocation failed with the live allocations as they were, or a filter with
-- no bit set whose number of blocks is the least power of two that holds the bits and whose two
-- allocations are live. It never faults and its loop ends.
pub new-SizedOutcome :
    (a : Allocator) (heap : Heap) (nbits : ℕ)
    → nbits ≤ 2 ^ 64 - 256
    → SizedOutcome a heap nbits (new a heap nbits)
new-SizedOutcome a heap nbits lt = of_Outcome a heap nbits lt (new-Outcome a heap nbits)
