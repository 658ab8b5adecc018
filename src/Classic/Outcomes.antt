-- ===== src/Classic/Outcomes.antt =====
-- The outcomes of `bloom_new` of bloom_classic.c, and the filter that it makes.
use quickbloom.Base.{ℕ, ◌-◌, ◌*◌, ◌/◌, ◌%◌, ◌^◌, ◌≤◌, ◌<◌, ◌≡◌, ◌≢◌, ◌∙◌, arith, ap}
use quickbloom.Base.{[], ◌∷◌, Option, none, some, true, false, ◌⊎◌, replicate}
use quickbloom.Base.{length-replicate, All-replicate, pow_pos}
use quickbloom.Base.{get_or-replicate, pow_split}
use quickbloom.Bits.{zero-bit_at}
use quickbloom.Machine.{IsWord64, Heap, Allocator, allocate}
use quickbloom.Machine.{}
use quickbloom.Classic.Filter.{Bloom}
use quickbloom.Classic.Valid.{IsValid, nbits, bit}
use quickbloom.Classic.Lifecycle.{Handle}

-- `2 ^ k` bits are the power of two that `bloom_new` rounds its argument up to: at least one word,
-- enough, and otherwise less than twice what is asked for.
pub record IsSize (wanted k : ℕ) : Type 0 where
  pub word : 6 ≤ k
  pub small : k ≤ 63
  pub enough : wanted ≤ 2 ^ k
  pub least : (k ≡ 6) ⊎ (2 ^ k < 2 * wanted)

-- The outcomes of `bloom_new`: a write through NULL if the header is refused; a header with a null
-- array if the header is granted and both `posix_memalign` and `calloc` refuse the array; or, if
-- one of them has given it, a valid filter of `2 ^ k` bits, none of them set.
pub data NewOutcome (a : Allocator) (heap : Heap) (wanted : ℕ)
    : Option (Handle × Heap) → Type 0 where
  crashed : a.grants heap 16 ≡ false → NewOutcome a heap wanted none
  without_array :
      (k : ℕ) (h : Handle) (heap' : Heap)
      → IsSize wanted k
      → a.grants heap 16 ≡ true
      → a.block (allocate heap) (2 ^ k / 64 * 8) ≡ none
      → a.grants (allocate heap) (2 ^ k / 64 * 8) ≡ false
      → h.mem ≡ none
      → h.filter.bits ≡ []
      → heap'.live ≡ h.self ∷ heap.live
      → NewOutcome a heap wanted (some (h, heap'))
  made :
      (k : ℕ) (h : Handle) (heap' : Heap) (mem : ℕ)
      → IsSize wanted k
      → a.grants heap 16 ≡ true
      → a.block (allocate heap) (2 ^ k / 64 * 8) ≢ none
        ⊎ (a.grants (allocate heap) (2 ^ k / 64 * 8) ≡ true)
      → IsValid h.filter
      → nbits h.filter ≡ 2 ^ k
      → ((q : ℕ) → bit h.filter q ≡ 0)
      → h.mem ≡ some mem
      → heap'.live ≡ mem ∷ h.self ∷ heap.live
      → NewOutcome a heap wanted (some (h, heap'))

-- The filter of `2 ^ k` bits with none set.
unfoldable pub empty_filter : ℕ → Bloom
empty_filter k = record { bits = replicate (2 ^ k / 64) 0; bit_mask = 2 ^ k - 1 }

words_of_bits : (k : ℕ) → 6 ≤ k → 64 * (2 ^ k / 64) ≡ 2 ^ k
words_of_bits k le = omega (arith, pow_split 6 k le)

pub empty_filter-IsValid : (k : ℕ) → 6 ≤ k → k ≤ 63 → IsValid (empty_filter k)
unfolding empty_filter
empty_filter-IsValid k le small = record {
  log = k;
  log_large = le;
  log_small = small;
  masked = omega (arith, pow_pos k);
  sized = ap (λ n. 64 * n) (length-replicate (2 ^ k / 64) 0) ∙ words_of_bits k le;
  words = All-replicate IsWord64 (2 ^ k / 64) 0 (omega arith);
}

pub no_bit : (k q : ℕ) → bit (empty_filter k) q ≡ 0
unfolding empty_filter
no_bit k q = rw (get_or-replicate {A = ℕ} 0 (2 ^ k / 64) (q / 64)) (zero-bit_at (q % 64))
