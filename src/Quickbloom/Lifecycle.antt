-- ===== src/Quickbloom/Lifecycle.antt =====
-- `qb_new` and `qb_free`.
use quickbloom.Base.{ℕ, ◌+◌, ◌-◌, ◌*◌, ◌/◌, ◌^◌, List, Option, none, some, ◌>>=◌, ltb}
use quickbloom.Base.{◌==◌, if◌then◌else◌}
use quickbloom.Machine.{u32, u64, Heap, Allocator, malloc, posix_memalign, free, memset_zero}
use quickbloom.Machine.{round_up_pow2}
use quickbloom.Quickbloom.Filter.{Bloom, log2_pow2}

abbrev pub max_nblocks : ℕ
max_nblocks = 2 ^ 31

abbrev pub block_bytes : ℕ
block_bytes = 32

-- What a non-null `void*` of the API leads to: the allocations of the header and of the array, and
-- the header's contents.
pub record Handle : Type 0 where
  pub self : ℕ
  pub mem : ℕ
  pub filter : Bloom

-- The number of blocks that is asked for, before it is rounded up.
unfoldable pub requested : ℕ → ℕ
requested nbits = let nblocks = u64 (nbits + 255) / 256 in if nblocks == 0 then 1 else nblocks

-- The last lines of `qb_new` and `qb_deserialize`: the header's fields for `nblocks` blocks.
unfoldable pub fill_header : ℕ → ℕ → ℕ → List ℕ → Option Handle
fill_header self mem nblocks words = do
  log ← log2_pow2 nblocks
  some (record {
    self = self;
    mem = mem;
    filter = record {
      bits = words;
      nblocks_mask = nblocks - 1;
      idx_shift = u32 (32 + 2 ^ 32 - log);
    };
  })

-- What `qb_new` and `qb_deserialize` do once the number of blocks is known: allocate the header
-- and the array, initialise the array, and fill in the header. They differ in `init`, the `memset`
-- or the `memcpy`. The inner `none` of a result is NULL, the outer one undefined behaviour.
unfoldable pub with_array :
    ℕ → ℕ → (List ℕ → Option (List ℕ)) → Option (ℕ × List ℕ) × Heap → Option (Option Handle × Heap)
unfolding fill_header
with_array self nblocks init (none, heap) = do heap' ← free heap self; some (none, heap')
with_array self nblocks init (some (mem, words), heap) = do
  words' ← init words
  h ← fill_header self mem nblocks words'
  some (some h, heap)

unfoldable pub with_header :
    Allocator → ℕ → ℕ → (List ℕ → Option (List ℕ)) → Option ℕ × Heap → Option (Option Handle × Heap)
unfolding with_array
with_header a nblocks nbytes init (none, heap) = some (none, heap)
with_header a nblocks nbytes init (some self, heap) =
    with_array self nblocks init (posix_memalign a heap nbytes)

-- `sizeof(bloom_t)` is 24.
unfoldable pub build :
    Allocator → Heap → ℕ → ℕ → (List ℕ → Option (List ℕ)) → Option (Option Handle × Heap)
unfolding with_header
build a heap nblocks nbytes init = with_header a nblocks nbytes init (malloc a heap 24)

unfoldable pub new : Allocator → Heap → ℕ → Option (Option Handle × Heap)
unfolding requested build
new a heap nbits =
    let wanted = requested nbits in
    if ltb max_nblocks wanted then some (none, heap) else do
      nblocks ← round_up_pow2 64 wanted 1
      let nbytes = u64 (nblocks * block_bytes)
      build a heap nblocks nbytes (λ words. some (memset_zero words nbytes))

-- `qb_free` accepts NULL.
unfoldable pub destroy : Heap → Option Handle → Option Heap
destroy heap none = some heap
destroy heap (some h) = do heap1 ← free heap h.mem; free heap1 h.self
