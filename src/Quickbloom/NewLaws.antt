-- ===== src/Quickbloom/NewLaws.antt =====
-- `qb_new`: every outcome, the filter that it returns, and what `qb_free` gives back.
use quickbloom.Base.{ℕ, ◌*◌, ◌/◌, ◌^◌, ◌≤◌, ◌<◌, ◌≡◌, ◌∙◌, refl, arith, ap}
use quickbloom.Base.{List, ◌∷◌, false, Option, none, some, ◌⊎◌, inl, inr}
use quickbloom.Base.{length, replicate, All-replicate, length-replicate}
use quickbloom.Base.{pow_mono, le→ltb, lt→ltb}
use quickbloom.Base.{dec_lt, drop_of_ge, append-nil}
use quickbloom.Machine.{u64, Heap, Allocator, allocate, memset_zero}
use quickbloom.Machine.{round_up_pow2_lem, IsWord32}
use quickbloom.Quickbloom.Lifecycle.{Handle, max_nblocks, block_bytes, requested, new}
use quickbloom.Quickbloom.Filter.{Bloom}
use quickbloom.Quickbloom.Valid.{IsValid}
use quickbloom.Quickbloom.Header.{header_of, header_of-IsValid}
use quickbloom.Quickbloom.Build.{Built, no_header, no_array, built, build-Built}

-- The filter of `2 ^ k` blocks with no bit set.
unfoldable pub empty_filter : ℕ → Bloom
unfolding header_of
empty_filter k = header_of k (replicate (8 * 2 ^ k) 0)

pub empty_filter-IsValid : (k : ℕ) → k ≤ 31 → IsValid (empty_filter k)
unfolding empty_filter
empty_filter-IsValid k le =
    header_of-IsValid k (replicate (8 * 2 ^ k) 0) le (length-replicate (8 * 2 ^ k) 0)
      (All-replicate IsWord32 (8 * 2 ^ k) 0 (omega arith))

-- `2 ^ k` blocks are what `qb_new` rounds its argument up to.
pub record IsSize (nbits k : ℕ) : Type 0 where
  pub allowed : requested nbits ≤ max_nblocks
  pub enough : requested nbits ≤ 2 ^ k
  pub least : (k ≡ 0) ⊎ (2 ^ k < 2 * requested nbits)
  pub small : k ≤ 31

-- The outcomes of `qb_new`. NULL comes of too many blocks or of an allocation that failed, and
-- leaves the live allocations as they were. A filter has the least power of two of blocks that is
-- enough, no bit set, and two live allocations of its own.
pub data Outcome (a : Allocator) (heap : Heap) (nbits : ℕ)
    : Option (Option Handle × Heap) → Type 0 where
  too_large : max_nblocks < requested nbits → Outcome a heap nbits (some (none, heap))
  no_memory :
      (k : ℕ) (heap' : Heap)
      → IsSize nbits k
      → heap'.live ≡ heap.live
      → (a.grants heap 24 ≡ false) ⊎ (a.block (allocate heap) (2 ^ k * 32) ≡ none)
      → Outcome a heap nbits (some (none, heap'))
  made :
      (k : ℕ) (h : Handle) (heap' : Heap)
      → IsSize nbits k
      → h.filter ≡ empty_filter k
      → heap'.live ≡ h.mem ∷ h.self ∷ heap.live
      → Outcome a heap nbits (some (some h, heap'))

log-le : (n k : ℕ) → n ≤ max_nblocks → (k ≡ 0) ⊎ (2 ^ k < 2 * n) → k ≤ 31
log-le n k le least = elim (dec_lt 31 k) [
  | no p ↦ omega arith
  | yes p ↦ absurd (ground (arith, pow_mono 32 k p))
]

-- The array after `memset`: all of the block is cleared.
cleared :
    (ws : List ℕ) (k : ℕ)
    → length ws ≡ 8 * 2 ^ k
    → memset_zero ws (2 ^ k * 32) ≡ replicate (8 * 2 ^ k) 0
cleared ws k e =
    rw (words k, drop_of_ge (8 * 2 ^ k) ws (omega arith)) (append-nil (replicate (8 * 2 ^ k) 0))
  where
    words : (k : ℕ) → 2 ^ k * 32 / 4 ≡ 8 * 2 ^ k
    words k = omega arith

module _ (a : Allocator) (heap : Heap) (nbits : ℕ) where
  of_Built :
      (k : ℕ) {r : Option (Option Handle × Heap)}
      → IsSize nbits k
      → Built a heap k (λ ws. ws ≡ replicate (8 * 2 ^ k) 0) r
      → Outcome a heap nbits r
  of_Built k size (no_header e) = no_memory k heap size refl (inl e)
  of_Built k size (no_array heap' same e) = no_memory k heap' size same (inr e)
  of_Built k size (built h heap' ws good e live granted) =
      made k h heap' size (unfold empty_filter in e ∙ ap (header_of k) good) live

  -- Every outcome of `qb_new`: it always ends, and in one of the ways that `Outcome` lists.
  pub new-Outcome : Outcome a heap nbits (new a heap nbits)
  unfolding new
  new-Outcome = elim (dec_lt max_nblocks (requested nbits)) [
    | yes big ↦ rw (lt→ltb max_nblocks (requested nbits) big) (too_large big)
    | no small ↦
        let r = round_up_pow2_lem (requested nbits) 0 (omega arith) (omega arith) in
        let le = log-le (requested nbits) r.log (omega arith) r.least in
        rw (le→ltb max_nblocks (requested nbits) (omega arith), r.returns, no_wrap r.log le)
          (of_Built r.log
            (record { allowed = omega arith; enough = r.enough; least = r.least; small = le })
            (build-Built a heap r.log (λ ws. ws ≡ replicate (8 * 2 ^ r.log) 0) _ le
              (λ ws e. (memset_zero ws (2 ^ r.log * 32), refl, cleared ws r.log (omega arith)))))
  ]
    where
      no_wrap : (k : ℕ) → k ≤ 31 → u64 (2 ^ k * block_bytes) ≡ 2 ^ k * 32
      no_wrap k le = omega (arith, pow_mono k 31 le)
