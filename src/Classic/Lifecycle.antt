-- ===== src/Classic/Lifecycle.antt =====
-- `bloom_new` and `bloom_free` of bloom_classic.c.
use quickbloom.Base.{ℕ, ◌*◌, ◌+◌, ◌-◌, ◌/◌, ◌^◌, List, [], ◌∷◌, Option, none, some, ◌>>=◌}
use quickbloom.Base.{◌==◌, if◌then◌else◌}
use quickbloom.Machine.{mul64, Heap, Allocator, malloc, calloc, posix_memalign, free, memset_zero}
use quickbloom.Machine.{round_up_pow2}
use quickbloom.Classic.Filter.{Bloom}

-- The allocations of the header and of the array, `none` for a null `bits`, and the header.
pub record Handle : Type 0 where
  pub self : ℕ
  pub mem : Option ℕ
  pub filter : Bloom

-- Two 32-bit words make one of the filter's.
abbrev pub to_words64 : List ℕ → List ℕ
to_words64 (lo ∷ hi ∷ ws) = (lo + 2 ^ 32 * hi) ∷ to_words64 ws
to_words64 ws = []

-- `nwords` and `nbits`.
pub record Sizes : Type 0 where
  pub nwords : ℕ
  pub nbits : ℕ

-- The sizes for a power of two of bits.
unfoldable pub sizes : ℕ → Sizes
sizes nbits =
    let nwords = nbits / 64 in
    if nwords == 0
    then record { nwords = 1; nbits = 64 }
    else record { nwords = nwords; nbits = nbits }

-- What follows the call of `posix_memalign`: `memset`, or `calloc` if it failed.
unfoldable pub or_calloc : Allocator → ℕ → Option (ℕ × List ℕ) × Heap → Option (ℕ × List ℕ) × Heap
or_calloc a nbytes (some (mem, words), heap) = (some (mem, memset_zero words nbytes), heap)
or_calloc a nbytes (none, heap) = calloc a heap nbytes

unfoldable pub fill_header : ℕ → ℕ → Option (ℕ × List ℕ) × Heap → Handle × Heap
fill_header self nbits (some (mem, words), heap) = (
  record {
    self = self;
    mem = some mem;
    filter = record { bits = to_words64 words; bit_mask = nbits - 1 };
  },
  heap,
)
fill_header self nbits (none, heap) =
    (record { self = self; mem = none; filter = record { bits = []; bit_mask = nbits - 1 } }, heap)

-- `malloc` is not checked: the header is written through a null pointer, `none`.
unfoldable pub with_header : Allocator → Sizes → Option ℕ × Heap → Option (Handle × Heap)
unfolding fill_header or_calloc
with_header a size (none, heap) = none
with_header a size (some self, heap) =
    let nbytes = mul64 size.nwords 8 in
    some (fill_header self size.nbits (or_calloc a nbytes (posix_memalign a heap nbytes)))

-- `sizeof(bloom_t)` is 16. `none` is undefined behaviour, or that the loop does not end.
unfoldable pub new : Allocator → Heap → ℕ → Option (Handle × Heap)
unfolding sizes with_header
new a heap nbits = do pow2 ← round_up_pow2 64 nbits 1; with_header a (sizes pow2) (malloc a heap 16)

-- `free` accepts a null pointer.
unfoldable pub free_array : Heap → Option ℕ → Option Heap
free_array heap none = some heap
free_array heap (some mem) = free heap mem

unfoldable pub destroy : Heap → Handle → Option Heap
unfolding free_array
destroy heap h = do heap1 ← free_array heap h.mem; free heap1 h.self
