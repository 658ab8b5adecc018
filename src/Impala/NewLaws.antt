-- ===== src/Impala/NewLaws.antt =====
-- `bloom_new` and `bloom_free` of bloom_impala.c: every outcome, and a client's calls on a new filter.
use quickbloom.Base.{ℕ, ◌+◌, ◌*◌, ◌/◌, ◌%◌, ◌^◌, ◌≤◌, ◌<◌, ◌≡◌, ◌∙◌, refl, arith, max}
use quickbloom.Base.{List, Option, none, some, false, replicate, length-replicate, get_or-replicate}
use quickbloom.Base.{Bool-cases, inl, inr, All, ◌⊎◌}
use quickbloom.Bits.{zero-bit_at}
use quickbloom.Machine.{u64, mul64, Heap, Allocator, allocate, malloc_granted, malloc_refused}
use quickbloom.Machine.{
  ArrayOutcome, array_refused, array_given, zeroed_array-ArrayOutcome, owned, free_both_lem,
}
use quickbloom.Impala.Filter.{Bloom}
use quickbloom.Impala.Lifecycle.{Handle, blocks, fill_header, with_header, new, destroy}
use quickbloom.Impala.Refines.{IsValid, bit, slots, filter, filter-IsLawful}
use quickbloom.Spec.Textbook.{nothing}
use quickbloom.Spec.Trace.{Call, Fits, run, spec_run, run-fresh}

-- A valid filter of the given number of blocks, without a bit.
pub record IsFresh (n : ℕ) (b : Bloom) : Type 0 where
  pub valid : IsValid b
  pub counted : b.nblocks ≡ n
  pub clear : (s : ℕ) → bit b s ≡ 0

-- The outcomes: a write through NULL if the header is refused, a header with a null array if both
-- allocations of the array fail, or a fresh filter.
pub data NewOutcome (a : Allocator) (heap : Heap) (nbits : ℕ)
    : Option (Handle × Heap) → Type 0 where
  crashed : a.grants heap 16 ≡ false → NewOutcome a heap nbits none
  made :
      (h : Handle) (heap' : Heap)
      → heap'.live ≡ owned h.mem h.self heap.live
      → (h.mem ≡ none) ⊎ IsFresh (blocks nbits) h.filter
      → NewOutcome a heap nbits (some (h, heap'))

blocks-le : (nbits : ℕ) → (1 ≤ blocks nbits) × (blocks nbits < 2 ^ 57)
unfolding blocks
blocks-le nbits = ground arith

fresh : (n : ℕ) → 1 ≤ n → IsFresh n (record { bits = replicate (8 * n) 0; nblocks = n })
fresh n le = record {
  valid = record { some_block = le; sized = length-replicate (8 * n) 0 };
  counted = refl;
  clear = λ s. rw (get_or-replicate {A = ℕ} 0 (8 * n) (s / 32)) (zero-bit_at (s % 32));
}

-- Every outcome of `bloom_new`.
pub new-NewOutcome_impala :
    (a : Allocator) (heap : Heap) (nbits : ℕ) → NewOutcome a heap nbits (new a heap nbits)
unfolding new with_header
new-NewOutcome_impala a heap nbits = elim (Bool-cases (a.grants heap 16)) [
  | inr off ↦ rw (malloc_refused a heap 16 off) (crashed off)
  | inl on ↦
      rw (malloc_granted a heap 16 on)
        (with_array (zeroed_array-ArrayOutcome a (allocate heap) (mul64 (blocks nbits) 32)))
]
  where
    nwords : (n : ℕ) → n < 2 ^ 57 → mul64 n 32 / 4 ≡ 8 * n
    nwords n lt = omega arith

    with_array :
        {r : Option (ℕ × List ℕ) × Heap}
        → ArrayOutcome (allocate heap) (mul64 (blocks nbits) 32) r
        → NewOutcome a heap nbits (some (fill_header heap.next (blocks nbits) r))
    with_array array_refused = unfold fill_header in made _ (allocate heap) refl (inl refl)
    with_array array_given =
        unfold fill_header in
        made
          (record {
            self = heap.next;
            mem = some (allocate heap).next;
            filter = record {
              bits = replicate (mul64 (blocks nbits) 32 / 4) 0;
              nblocks = blocks nbits;
            };
          })
          (allocate (allocate heap)) refl
          (inr (
            rw (nwords (blocks nbits) (blocks-le nbits).1)
              (fresh (blocks nbits) (blocks-le nbits).0)))

made_of :
    {a : Allocator} {heap : Heap} {nbits : ℕ} {r : Option (Handle × Heap)} (h : Handle)
    (heap' : Heap)
    → NewOutcome a heap nbits r
    → r ≡ some (h, heap')
    → (heap'.live ≡ owned h.mem h.self heap.live)
      × ((h.mem ≡ none) ⊎ IsFresh (blocks nbits) h.filter)
made_of h heap' (crashed off) e = cc
made_of h heap' (made g heap1 live is) e =
    let same : g ≡ h = cc in let heaps : heap1 ≡ heap' = cc in rw (← same, ← heaps) (live, is)

-- `bloom_free` on what `bloom_new` returned, whatever was done to the filter in between, frees
-- exactly what was allocated.
pub destroy-new_impala :
    (a : Allocator) (heap : Heap) (nbits : ℕ) (h : Handle) (heap' : Heap) (used : Bloom)
    → new a heap nbits ≡ some (h, heap')
    → destroy heap' (record h { filter = used }) ≡ some (record heap' { live = heap.live })
unfolding destroy
destroy-new_impala a heap nbits h heap' used e =
    free_both_lem heap' h.mem h.self heap.live
      (made_of h heap' (new-NewOutcome_impala a heap nbits) e).0

-- A filter that `bloom_new` returned with an array has `(nbits + 255) / 256` blocks, at least one,
-- with the sum taken modulo 2^64; every sequence of calls of the four prehash functions on it is
-- answered as the textbook filter with the same slots answers it, and no call faults, if no bulk
-- query has 2^64 hashes or more.
pub run-new_impala :
    (a : Allocator) (heap : Heap) (nbits : ℕ) (h : Handle) (heap' : Heap) (mem : ℕ) (cs : List Call)
    → new a heap nbits ≡ some (h, heap')
    → h.mem ≡ some mem
    → All Fits cs
    → (h.filter.nblocks ≡ max 1 (u64 (nbits + 255) / 256))
      × (run filter h.filter cs ≡ some (spec_run (slots h.filter) nothing cs))
run-new_impala a heap nbits h heap' mem cs e given ok =
    elim (made_of h heap' (new-NewOutcome_impala a heap nbits) e).1 [
      | inl null ↦ cc
      | inr is ↦ (
        is.counted ∙ counted nbits,
        run-fresh filter h.filter cs filter-IsLawful is.valid is.clear ok,
      )
    ]
  where
    counted : (nbits : ℕ) → blocks nbits ≡ max 1 (u64 (nbits + 255) / 256)
    counted nbits = unfold blocks in ground arith
