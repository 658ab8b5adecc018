-- ===== src/Quickbloom/Build.antt =====
-- The common part of `qb_new` and `qb_deserialize`: every outcome of allocating and filling in.
use quickbloom.Base.{ℕ, ◌*◌, ◌^◌, ◌≤◌, ◌≡◌, List, ◌∷◌, true, false, Option, none, some, inl, inr}
use quickbloom.Base.{Bool-cases, Option-cases, length, refl, ◌/◌}
use quickbloom.Machine.{Heap, Allocator, allocate}
use quickbloom.Machine.{malloc_granted, malloc_refused, memalign_given, memalign_refused, free_top}
use quickbloom.Quickbloom.Lifecycle.{Handle, build, with_header, with_array}
use quickbloom.Quickbloom.Header.{header_of, fill_header_lem}

-- The two outcomes: NULL with the live allocations as they were, or a handle to a filter of
-- `2 ^ k` blocks over the array `ws`, with two live allocations of its own.
pub data Built (a : Allocator) (heap : Heap) (k : ℕ) (Good : List ℕ → Type 0)
    : Option (Option Handle × Heap) → Type 0 where
  no_header : a.grants heap 24 ≡ false → Built a heap k Good (some (none, heap))
  no_array :
      (heap' : Heap)
      → heap'.live ≡ heap.live
      → a.block (allocate heap) (2 ^ k * 32) ≡ none
      → Built a heap k Good (some (none, heap'))
  built :
      (h : Handle) (heap' : Heap) (ws : List ℕ)
      → Good ws
      → h.filter ≡ header_of k ws
      → heap'.live ≡ h.mem ∷ h.self ∷ heap.live
      → a.grants heap 24 ≡ true
      → Built a heap k Good (some (some h, heap'))

module _ (a : Allocator) (heap : Heap) (k : ℕ) (Good : List ℕ → Type 0)
    (init : List ℕ → Option (List ℕ)) (le : k ≤ 31)
    (keeps : (ws : List ℕ)
      → length ws ≡ 2 ^ k * 32 / 4
      → (ws' : List ℕ) × (init ws ≡ some ws') × Good ws') where
  pub build-Built : Built a heap k Good (build a heap (2 ^ k) (2 ^ k * 32) init)
  unfolding build with_header with_array
  build-Built = elim (Bool-cases (a.grants heap 24)) [
    | inr refused ↦ rw (malloc_refused a heap 24 refused) (no_header refused)
    | inl granted ↦ elim (Option-cases (a.block (allocate heap) (2 ^ k * 32))) [
      | inl refused ↦
          rw
            (
              malloc_granted a heap 24 granted,
              memalign_refused a (allocate heap) (2 ^ k * 32) refused,
              free_top (allocate heap) heap.next heap.live refl,
            )
            (no_array _ refl refused)
      | inr (ws, given) ↦
          let (ws', e, good) = keeps ws (a.length-block (allocate heap) (2 ^ k * 32) ws given) in
          rw
            (
              malloc_granted a heap 24 granted,
              memalign_given a (allocate heap) (2 ^ k * 32) ws given,
              e,
              fill_header_lem heap.next (allocate heap).next k ws' le,
            )
            (built _ _ ws' good refl refl granted)
    ]
  ]
