-- ===== src/Krassovsky/Lifecycle.antt =====
-- `bloom_new` and `bloom_free` of bloom_krassovsky.c.
use quickbloom.Base.{ℕ, ◌-◌, ◌/◌, ◌==◌, if◌then◌else◌, List, [], Option, none, some, ◌>>=◌}
use quickbloom.Machine.{mul64, Heap, Allocator, malloc, zeroed_array, free_both, round_up_pow2}
use quickbloom.Classic.Lifecycle.{to_words64}
use quickbloom.Krassovsky.Table.{Statics, mask_table_init}
use quickbloom.Krassovsky.Filter.{Bloom}

-- The allocations of the header and of the array, `none` for a null `bv`, and the header.
pub record Handle : Type 0 where
  pub self : ℕ
  pub mem : Option ℕ
  pub filter : Bloom

-- `num_blocks` for a power of two of bits.
unfoldable pub blocks : ℕ → ℕ
blocks pow2_bits = let n = pow2_bits / 64 in if n == 0 then 1 else n

unfoldable pub fill_header : ℕ → ℕ → Option (ℕ × List ℕ) × Heap → Handle × Heap
fill_header self n (some (mem, words), heap) = (
  record {
    self = self;
    mem = some mem;
    filter = record { bv = to_words64 words; num_blocks = n; num_blocks_mask = n - 1 };
  },
  heap,
)
fill_header self n (none, heap) = (
  record {
    self = self;
    mem = none;
    filter = record { bv = []; num_blocks = n; num_blocks_mask = n - 1 };
  },
  heap,
)

-- `malloc` is not checked: the header is written through a null pointer, `none`.
unfoldable pub with_header : Allocator → ℕ → Option ℕ × Heap → Option (Handle × Heap)
unfolding fill_header
with_header a n (none, heap) = none
with_header a n (some self, heap) = some (fill_header self n (zeroed_array a heap (mul64 n 8)))

-- `sizeof(bloom_t)` is 24. `none` is undefined behaviour, or that a loop does not end.
unfoldable pub new : Allocator → Heap → Statics → ℕ → Option ((Handle × Heap) × Statics)
unfolding blocks with_header
new a heap s nbits = do
  s' ← mask_table_init s
  let header = malloc a heap 24
  pow2_bits ← round_up_pow2 64 nbits 64
  made ← with_header a (blocks pow2_bits) header
  some (made, s')

unfoldable pub destroy : Heap → Handle → Option Heap
destroy heap h = free_both heap h.mem h.self
