-- ===== src/Machine/Zeroed.antt =====
-- The array of a comparison filter: `posix_memalign` and `memset`, or `calloc` when that fails.
use quickbloom.Base.{ℕ, ◌/◌, ◌≡◌, List, ◌∷◌, Option, none, some, length, arith, refl}
use quickbloom.Base.{replicate, drop_of_ge, append-nil, Bool-cases, Option-cases, inl, inr, ◌>>=◌}
use quickbloom.Machine.Alloc.{
  Heap, Allocator, allocate, posix_memalign, calloc, memset_zero, memalign_given, memalign_refused,
  calloc_granted, calloc_refused, free, free_top,
}

-- What follows the call of `posix_memalign`.
unfoldable pub or_else_calloc :
    Allocator → ℕ → Option (ℕ × List ℕ) × Heap → Option (ℕ × List ℕ) × Heap
or_else_calloc a nbytes (some (mem, words), heap) = (some (mem, memset_zero words nbytes), heap)
or_else_calloc a nbytes (none, heap) = calloc a heap nbytes

unfoldable pub zeroed_array : Allocator → Heap → ℕ → Option (ℕ × List ℕ) × Heap
unfolding or_else_calloc
zeroed_array a heap nbytes = or_else_calloc a nbytes (posix_memalign a heap nbytes)

-- Either both allocations fail, or there is one more allocation, of zeros.
pub data ArrayOutcome (heap : Heap) (nbytes : ℕ) : Option (ℕ × List ℕ) × Heap → Type 0 where
  array_refused : ArrayOutcome heap nbytes (none, heap)
  array_given : ArrayOutcome heap nbytes (some (heap.next, replicate (nbytes / 4) 0), allocate heap)

pub zeroed_array-ArrayOutcome :
    (a : Allocator) (heap : Heap) (nbytes : ℕ)
    → ArrayOutcome heap nbytes (zeroed_array a heap nbytes)
unfolding zeroed_array or_else_calloc
zeroed_array-ArrayOutcome a heap nbytes = elim (Option-cases (a.block heap nbytes)) [
  | inr (ws, e) ↦
      rw (memalign_given a heap nbytes ws e, cleared ws (a.length-block heap nbytes ws e))
        array_given
  | inl e ↦ rw (memalign_refused a heap nbytes e) (elim (Bool-cases (a.grants heap nbytes)) [
    | inl t ↦ rw (calloc_granted a heap nbytes t) array_given
    | inr f ↦ rw (calloc_refused a heap nbytes f) array_refused
  ])
]
  where
    cleared :
        (ws : List ℕ) → length ws ≡ nbytes / 4 → memset_zero ws nbytes ≡ replicate (nbytes / 4) 0
    cleared ws e =
        rw (drop_of_ge (nbytes / 4) ws (omega arith)) (append-nil (replicate (nbytes / 4) 0))

-- `free(b->bits); free(b);`, where the array may be a null pointer.
unfoldable pub free_both : Heap → Option ℕ → ℕ → Option Heap
free_both heap none self = free heap self
free_both heap (some mem) self = free heap mem >>= λ heap1. free heap1 self

-- The live allocations of a filter.
abbrev pub owned : Option ℕ → ℕ → List ℕ → List ℕ
owned none self rest = self ∷ rest
owned (some mem) self rest = mem ∷ self ∷ rest

-- A filter whose two allocations are the newest can be freed.
pub free_both_lem :
    (heap : Heap) (mem : Option ℕ) (self : ℕ) (rest : List ℕ)
    → heap.live ≡ owned mem self rest
    → free_both heap mem self ≡ some (record heap { live = rest })
unfolding free_both
free_both_lem heap none self rest e = free_top heap self rest e
free_both_lem heap (some mem) self rest e = rw (
  free_top heap mem (self ∷ rest) e,
  free_top (record heap { live = self ∷ rest }) self rest refl,
)
