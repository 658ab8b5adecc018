-- ===== src/Machine/Alloc.antt =====
-- `malloc`, `calloc`, `posix_memalign` and `free`: which allocations are live. What the allocator answers is
-- a parameter; a block that it hands out holds arbitrary words.
use quickbloom.Base.{
  ℕ, ◌+◌, ◌/◌, ◌≡◌, List, [], ◌∷◌, Bool, Option, none, some, ◌==◌, if◌then◌else◌, true, false, refl,
  ==_iff,
}
use quickbloom.Base.{length, ◌>>=◌, replicate, drop, ◌++◌}

pub record Heap : Type 0 where
  pub live : List ℕ
  pub next : ℕ

-- `grants` answers a `malloc` or a `calloc` of a number of bytes, `block` a `posix_memalign`, with the contents
-- of the block as 32-bit words.
pub record Allocator : Type 0 where
  pub grants : Heap → ℕ → Bool
  pub block : Heap → ℕ → Option (List ℕ)
  pub length-block :
      (heap : Heap) (nbytes : ℕ) (ws : List ℕ)
      → block heap nbytes ≡ some ws
      → length ws ≡ nbytes / 4

abbrev pub allocate : Heap → Heap
allocate heap = record heap { live = heap.next ∷ heap.live; next = heap.next + 1 }

-- The result is the allocation's number; `none` is NULL.
unfoldable pub malloc : Allocator → Heap → ℕ → Option ℕ × Heap
malloc a heap nbytes =
    if a.grants heap nbytes then (some heap.next, allocate heap) else (none, heap)

unfoldable pub posix_memalign : Allocator → Heap → ℕ → Option (ℕ × List ℕ) × Heap
posix_memalign a heap nbytes = elim (a.block heap nbytes) [
  | none ↦ (none, heap)
  | some ws ↦ (some (heap.next, ws), allocate heap)
]

-- `calloc`, for a number of bytes: zeroed words, or NULL.
unfoldable pub calloc : Allocator → Heap → ℕ → Option (ℕ × List ℕ) × Heap
calloc a heap nbytes =
    if a.grants heap nbytes
    then (some (heap.next, replicate (nbytes / 4) 0), allocate heap)
    else (none, heap)

abbrev pub remove : ℕ → List ℕ → Option (List ℕ)
remove p [] = none
remove p (x ∷ xs) = if x == p then some xs else remove p xs >>= λ ys. some (x ∷ ys)

-- Freeing what is not live is undefined, `none`.
unfoldable pub free : Heap → ℕ → Option Heap
free heap p = remove p heap.live >>= λ live. some (record heap { live = live })

-- `memset(mem, 0, nbytes)` on whole words.
abbrev pub memset_zero : List ℕ → ℕ → List ℕ
memset_zero mem nbytes = replicate (nbytes / 4) 0 ++ drop (nbytes / 4) mem

module _ (a : Allocator) (heap : Heap) (nbytes : ℕ) where
  pub malloc_granted :
      a.grants heap nbytes ≡ true → malloc a heap nbytes ≡ (some heap.next, allocate heap)
  unfolding malloc
  malloc_granted e = rw e

  pub malloc_refused : a.grants heap nbytes ≡ false → malloc a heap nbytes ≡ (none, heap)
  unfolding malloc
  malloc_refused e = rw e

  pub memalign_given :
      (ws : List ℕ)
      → a.block heap nbytes ≡ some ws
      → posix_memalign a heap nbytes ≡ (some (heap.next, ws), allocate heap)
  unfolding posix_memalign
  memalign_given ws e = rw (e, posix_memalign)

  pub memalign_refused : a.block heap nbytes ≡ none → posix_memalign a heap nbytes ≡ (none, heap)
  unfolding posix_memalign
  memalign_refused e = rw (e, posix_memalign)

  pub calloc_granted :
      a.grants heap nbytes ≡ true
      → calloc a heap nbytes ≡ (some (heap.next, replicate (nbytes / 4) 0), allocate heap)
  unfolding calloc
  calloc_granted e = rw e

  pub calloc_refused : a.grants heap nbytes ≡ false → calloc a heap nbytes ≡ (none, heap)
  unfolding calloc
  calloc_refused e = rw e

-- The newest allocation can be freed.
pub free_top :
    (heap : Heap) (p : ℕ) (rest : List ℕ)
    → heap.live ≡ p ∷ rest
    → free heap p ≡ some (record heap { live = rest })
unfolding free
free_top heap p rest e = rw (e, (==_iff p p).1 refl)
