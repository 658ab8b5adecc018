-- ===== src/Impala/Lifecycle.antt =====
-- `bloom_new` and `bloom_free` of bloom_impala.c.
use quickbloom.Base.{ℕ, ◌+◌, ◌/◌, ◌==◌, if◌then◌else◌, List, [], Option, none, some}
use quickbloom.Machine.{u64, mul64, Heap, Allocator, malloc, zeroed_array, free_both}
use quickbloom.Impala.Filter.{Bloom}

-- The allocations of the header and of the array, `none` for a null `bits`, and the header.
pub record Handle : Type 0 where
  pub self : ℕ
  pub mem : Option ℕ
  pub filter : Bloom

-- The number of blocks for `nbits` bits.
unfoldable pub blocks : ℕ → ℕ
blocks nbits = let nblocks = u64 (nbits + 255) / 256 in if nblocks == 0 then 1 else nblocks

unfoldable pub fill_header : ℕ → ℕ → Option (ℕ × List ℕ) × Heap → Handle × Heap
fill_header self nblocks (some (mem, words), heap) = (
  record { self = self; mem = some mem; filter = record { bits = words; nblocks = nblocks } },
  heap,
)
fill_header self nblocks (none, heap) =
    (record { self = self; mem = none; filter = record { bits = []; nblocks = nblocks } }, heap)

-- `malloc` is not checked: the header is written through a null pointer, `none`.
unfoldable pub with_header : Allocator → ℕ → Option ℕ × Heap → Option (Handle × Heap)
unfolding fill_header
with_header a nblocks (none, heap) = none
with_header a nblocks (some self, heap) =
    some (fill_header self nblocks (zeroed_array a heap (mul64 nblocks 32)))

-- `sizeof(bloom_t)` is 16.
unfoldable pub new : Allocator → Heap → ℕ → Option (Handle × Heap)
unfolding blocks with_header
new a heap nbits = with_header a (blocks nbits) (malloc a heap 16)

unfoldable pub destroy : Heap → Handle → Option Heap
destroy heap h = free_both heap h.mem h.self
