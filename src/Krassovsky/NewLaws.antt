-- ===== src/Krassovsky/NewLaws.antt =====
-- `bloom_new` and `bloom_free` of bloom_krassovsky.c: every outcome, and a client's calls on a new
-- filter.
use quickbloom.Base.{ℕ, ◌-◌, ◌*◌, ◌/◌, ◌%◌, ◌^◌, ◌≤◌, ◌≡◌, refl, arith}
use quickbloom.Base.{
  List, Option, none, some, false, replicate, length-replicate, get_or-replicate, ◌>>=◌,
}
use quickbloom.Base.{Bool-cases, inl, inr, All, ◌⊎◌, dec_lt, pow_mono, pow_pos, pow_split}
use quickbloom.Bits.{zero-bit_at}
use quickbloom.Machine.{
  mul64, Heap, Allocator, allocate, malloc, malloc_granted, malloc_refused, round_up_pow2_lem,
}
use quickbloom.Machine.{
  ArrayOutcome, array_refused, array_given, zeroed_array-ArrayOutcome, owned, free_both_lem,
}
use quickbloom.Classic.NewLaws.{given_zero}
use quickbloom.Krassovsky.Table.{Statics, mask_table_init}
use quickbloom.Krassovsky.TableLaws.{mask_table_init-IsTable}
use quickbloom.Krassovsky.Filter.{Bloom}
use quickbloom.Krassovsky.Mask.{IsTable}
use quickbloom.Krassovsky.Insert.{IsValid}
use quickbloom.Krassovsky.Lifecycle.{Handle, blocks, fill_header, with_header, new, destroy}
use quickbloom.Krassovsky.Refines.{bit, slots, filter, filter-IsLawful}
use quickbloom.Spec.Textbook.{nothing}
use quickbloom.Spec.Trace.{Call, Fits, run, spec_run, run-fresh}

-- A valid filter of at least `nbits` bits, none of them set.
pub record IsFresh (nbits : ℕ) (b : Bloom) : Type 0 where
  pub valid : IsValid b
  pub enough : nbits ≤ 64 * b.num_blocks
  pub clear : (s : ℕ) → bit b s ≡ 0

-- The outcomes: a write through NULL if the header is refused, a header with a null array if both
-- allocations of the array fail, or a fresh filter; the statics are `s`.
pub data NewOutcome (a : Allocator) (heap : Heap) (nbits : ℕ) (s : Statics)
    : Option ((Handle × Heap) × Statics) → Type 0 where
  crashed : a.grants heap 24 ≡ false → NewOutcome a heap nbits s none
  made :
      (h : Handle) (heap' : Heap)
      → heap'.live ≡ owned h.mem h.self heap.live
      → (h.mem ≡ none) ⊎ IsFresh nbits h.filter
      → NewOutcome a heap nbits s (some ((h, heap'), s))

blocks_lem :
    (log : ℕ) → log ≤ 63 → (k : ℕ) × (k ≤ 57) × (blocks (2 ^ log) ≡ 2 ^ k) × (2 ^ log ≤ 64 * 2 ^ k)
unfolding blocks
blocks_lem log small = elim (dec_lt log 6) [
  | yes p ↦
      let few : 2 ^ log / 64 ≡ 0 = omega (arith, pow_mono log 5 (omega arith)) in
      (0, omega arith, rw few refl, omega (arith, pow_mono log 6 (omega arith)))
  | no p ↦
      let split = pow_split 6 log (omega arith) in
      (log - 6, omega arith, ground (arith, split, pow_pos (log - 6)), omega (arith, split))
]

fresh :
    (nbits k : ℕ)
    → nbits ≤ 64 * 2 ^ k
    → IsFresh nbits
        (record { bv = replicate (2 ^ k) 0; num_blocks = 2 ^ k; num_blocks_mask = 2 ^ k - 1 })
fresh nbits k room = record {
  valid = record {
    log = k;
    counted = refl;
    masked = omega (arith, pow_pos k);
    sized = length-replicate (2 ^ k) 0;
  };
  enough = room;
  clear = λ s. rw (get_or-replicate {A = ℕ} 0 (2 ^ k) (s / 64)) (zero-bit_at (s % 64));
}

module _ (a : Allocator) (heap : Heap) (nbits : ℕ) (s s' : Statics) where
  with_header-NewOutcome :
      (k : ℕ)
      → k ≤ 57
      → nbits ≤ 64 * 2 ^ k
      → NewOutcome a heap nbits s'
          (with_header a (2 ^ k) (malloc a heap 24) >>= λ made. some (made, s'))
  unfolding with_header
  with_header-NewOutcome k small room = elim (Bool-cases (a.grants heap 24)) [
    | inr off ↦ rw (malloc_refused a heap 24 off) (crashed off)
    | inl on ↦
        rw (malloc_granted a heap 24 on, wide)
          (with_array (zeroed_array-ArrayOutcome a (allocate heap) (2 ^ k * 8)))
  ]
    where
      wide : mul64 (2 ^ k) 8 ≡ 2 ^ k * 8
      wide = omega (arith, pow_mono k 57 small)

      with_array :
          {r : Option (ℕ × List ℕ) × Heap}
          → ArrayOutcome (allocate heap) (2 ^ k * 8) r
          → NewOutcome a heap nbits s' (some (fill_header heap.next (2 ^ k) r, s'))
      with_array array_refused = unfold fill_header in made _ (allocate heap) refl (inl refl)
      with_array array_given =
          unfold fill_header in
          rw (given_zero (2 ^ k)) (
            made
              (record {
                self = heap.next;
                mem = some (allocate heap).next;
                filter = record {
                  bv = replicate (2 ^ k) 0;
                  num_blocks = 2 ^ k;
                  num_blocks_mask = 2 ^ k - 1;
                };
              })
              (allocate (allocate heap)) refl (inr (fresh nbits k room)))

  new-NewOutcome_of :
      nbits ≤ 2 ^ 63 → mask_table_init s ≡ some s' → NewOutcome a heap nbits s' (new a heap s nbits)
  unfolding new
  new-NewOutcome_of small e =
      let r = round_up_pow2_lem nbits 6 small (omega arith) in
      let (k, le, count, room) = blocks_lem r.log r.small in
      rw (e, r.returns, count) (with_header-NewOutcome k le (omega (arith, r.enough)))

made_of :
    {a : Allocator} {heap : Heap} {nbits : ℕ} {s : Statics} {r : Option ((Handle × Heap) × Statics)}
    (h : Handle) (heap' : Heap) (s' : Statics)
    → NewOutcome a heap nbits s r
    → r ≡ some ((h, heap'), s')
    → (s ≡ s')
      × (heap'.live ≡ owned h.mem h.self heap.live)
      × ((h.mem ≡ none) ⊎ IsFresh nbits h.filter)
made_of h heap' s' (crashed off) e = cc
made_of h heap' s' (made g heap1 live is) e =
    let same : g ≡ h = cc in let heaps : heap1 ≡ heap' = cc in rw (← same, ← heaps) (cc, live, is)

-- Every outcome of `bloom_new` for at most 2^63 bits when the table was not yet built: the table is
-- built and has its size, and the rest is one of the outcomes that `NewOutcome` lists.
pub new-NewOutcome_krassovsky :
    (a : Allocator) (heap : Heap) (s : Statics) (nbits : ℕ)
    → s.mask_table_inited ≡ false
    → nbits ≤ 2 ^ 63
    → (s' : Statics) × IsTable s'.mask_table × NewOutcome a heap nbits s' (new a heap s nbits)
new-NewOutcome_krassovsky a heap s nbits off small =
    let (s', e, is, again) = mask_table_init-IsTable s off in
    (s', is, new-NewOutcome_of a heap nbits s s' small e)

-- `bloom_free` on what the first `bloom_new` returned, whatever was done to the filter in between,
-- frees exactly what was allocated.
pub destroy-new_krassovsky :
    (a : Allocator) (heap : Heap) (s : Statics) (nbits : ℕ) (h : Handle) (heap' : Heap)
    (s' : Statics) (used : Bloom)
    → s.mask_table_inited ≡ false
    → nbits ≤ 2 ^ 63
    → new a heap s nbits ≡ some ((h, heap'), s')
    → destroy heap' (record h { filter = used }) ≡ some (record heap' { live = heap.live })
unfolding destroy
destroy-new_krassovsky a heap s nbits h heap' s' used off small e =
    let (s1, is, outcome) = new-NewOutcome_krassovsky a heap s nbits off small in
    free_both_lem heap' h.mem h.self heap.live (made_of h heap' s' outcome e).1

-- A filter of at most 2^63 bits that the first `bloom_new` returned with an array holds `nbits`
-- bits, and every sequence of calls of the four prehash functions on it, with the table that the
-- call built, is answered as the textbook filter with the same slots answers it, and no call
-- faults, if no bulk query has 2^64 hashes or more.
pub run-new_krassovsky :
    (a : Allocator) (heap : Heap) (s : Statics) (nbits : ℕ) (h : Handle) (heap' : Heap)
    (s' : Statics) (mem : ℕ) (cs : List Call)
    → s.mask_table_inited ≡ false
    → nbits ≤ 2 ^ 63
    → new a heap s nbits ≡ some ((h, heap'), s')
    → h.mem ≡ some mem
    → All Fits cs
    → (nbits ≤ 64 * h.filter.num_blocks)
      × (run (filter s'.mask_table) h.filter cs
          ≡ some (spec_run (slots s'.mask_table h.filter) nothing cs))
run-new_krassovsky a heap s nbits h heap' s' mem cs off small e given ok =
    let (s1, is, outcome) = new-NewOutcome_krassovsky a heap s nbits off small in
    let (same, live, what) = made_of h heap' s' outcome e in
    elim what [
      | inl null ↦ cc
      | inr new_filter ↦ (
        new_filter.enough,
        run-fresh (filter s'.mask_table) h.filter cs
            (filter-IsLawful s'.mask_table (rw (← same) is)) new_filter.valid new_filter.clear ok,
      )
    ]
