-- ===== src/Classic/NewLaws.antt =====
-- Every outcome of `bloom_new` for up to 2^63 bits, and what `bloom_free` gives back.
use quickbloom.Base.{ℕ, zero, suc, ◌-◌, ◌*◌, ◌/◌, ◌^◌, ◌≤◌, ◌<◌, ◌≡◌, ◌≢◌, refl, arith, ap}
use quickbloom.Base.{List, ◌∷◌, Option, none, some, true, false, ◌⊎◌, inl, inr, length, replicate}
use quickbloom.Base.{drop_of_ge, append-nil, Bool-cases, Option-cases, pow_pos}
use quickbloom.Base.{dec_lt, pow_mono, ◌==◌}
use quickbloom.Machine.{mul64, Heap, Allocator, allocate, memset_zero, round_up_pow2_lem}
use quickbloom.Machine.{
  malloc, calloc, malloc_granted, malloc_refused, memalign_given, memalign_refused, calloc_granted,
}
use quickbloom.Machine.{calloc_refused, free_top}
use quickbloom.Classic.Filter.{Bloom}
use quickbloom.Classic.Lifecycle.{
  Handle, Sizes, to_words64, sizes, or_calloc, fill_header, with_header, new, destroy,
}
use quickbloom.Classic.Outcomes.{
  IsSize, NewOutcome, crashed, without_array, made, empty_filter, empty_filter-IsValid, no_bit,
}

abbrev of_log : ℕ → Sizes
of_log k = record { nwords = 2 ^ k / 64; nbits = 2 ^ k }

-- The power of two of bits that the filter gets, from the one that is asked for.
sizes_lem :
    (log : ℕ)
    → log ≤ 63
    → (k : ℕ) × (6 ≤ k)
      × (k ≤ 63)
      × (2 ^ log ≤ 2 ^ k)
      × ((k ≡ 6) ⊎ (k ≡ log))
      × (sizes (2 ^ log) ≡ of_log k)
unfolding sizes
sizes_lem log small = elim (dec_lt log 6) [
  | yes p ↦ (6, omega arith, omega arith, pow_mono log 6 (omega arith), inl refl, one_word log p)
  | no p ↦ (log, omega arith, small, omega arith, inr refl, many_words log (omega arith))
]
  where
    one_word : (log : ℕ) → log < 6 → sizes (2 ^ log) ≡ of_log 6
    one_word log p =
        let few : 2 ^ log / 64 ≡ 0 = omega (arith, pow_mono log 5 (omega arith)) in rw few

    many_words : (log : ℕ) → 6 ≤ log → sizes (2 ^ log) ≡ of_log log
    many_words log p =
        let many : (2 ^ log / 64 == 0) ≡ false = ground (arith, pow_mono 6 log p) in rw many

zero_words : (n : ℕ) → to_words64 (replicate (2 * n) 0) ≡ replicate n 0
zero_words zero = refl
zero_words (suc n) = rw (two_more n) (ap (λ ws. 0 ∷ ws) (zero_words n))
  where
    two_more : (n : ℕ) → 2 * suc n ≡ suc (suc (2 * n))
    two_more n = omega arith

cleared :
    (ws : List ℕ) (n : ℕ)
    → length ws ≡ n * 8 / 4
    → to_words64 (memset_zero ws (n * 8)) ≡ replicate n 0
cleared ws n e =
    rw (drop_of_ge (n * 8 / 4) ws (omega arith), append-nil {A = ℕ} (replicate (n * 8 / 4) 0))
      (words n)
  where
    words : (n : ℕ) → to_words64 (replicate (n * 8 / 4) 0) ≡ replicate n 0
    words n = let halves : n * 8 / 4 ≡ 2 * n = omega arith in rw halves (zero_words n)

pub given_zero : (n : ℕ) → to_words64 (replicate (n * 8 / 4) 0) ≡ replicate n 0
given_zero n = let halves : n * 8 / 4 ≡ 2 * n = omega arith in rw halves (zero_words n)

module _ (a : Allocator) (heap : Heap) (wanted k : ℕ) (size : IsSize wanted k) where
  nbytes : mul64 (2 ^ k / 64) 8 ≡ 2 ^ k / 64 * 8
  nbytes = omega (arith, pow_mono k 63 size.small)

  -- With the header and an array of zeros.
  with_both :
      (ws : List ℕ) (heap' : Heap) (mem : ℕ)
      → a.grants heap 16 ≡ true
      → a.block (allocate heap) (2 ^ k / 64 * 8) ≢ none
        ⊎ (a.grants (allocate heap) (2 ^ k / 64 * 8) ≡ true)
      → to_words64 ws ≡ replicate (2 ^ k / 64) 0
      → heap'.live ≡ mem ∷ heap.next ∷ heap.live
      → NewOutcome a heap wanted (some (fill_header heap.next (2 ^ k) (some (mem, ws), heap')))
  unfolding fill_header
  with_both ws heap' mem header array e live =
      made k
        (record {
          self = heap.next;
          mem = some mem;
          filter = record { bits = to_words64 ws; bit_mask = 2 ^ k - 1 };
        })
        heap' mem size header array
        (unfold empty_filter in rw e (empty_filter-IsValid k size.word size.small))
        (omega (arith, pow_pos k)) (λ q. unfold empty_filter in rw e (no_bit k q)) refl live

  with_header-NewOutcome : NewOutcome a heap wanted (with_header a (of_log k) (malloc a heap 16))
  unfolding with_header or_calloc fill_header
  with_header-NewOutcome = elim (Bool-cases (a.grants heap 16)) [
    | inr refused ↦ rw (malloc_refused a heap 16 refused) (crashed refused)
    | inl granted ↦
        rw (malloc_granted a heap 16 granted, nbytes)
          (elim (Option-cases (a.block (allocate heap) (2 ^ k / 64 * 8))) [
            | inr (ws, given) ↦ rw (memalign_given a (allocate heap) (2 ^ k / 64 * 8) ws given) (
                with_both (memset_zero ws (2 ^ k / 64 * 8)) (allocate (allocate heap))
                  (allocate heap).next granted (inl (λ e. cc))
                  (cleared ws (2 ^ k / 64)
                    (a.length-block (allocate heap) (2 ^ k / 64 * 8) ws given))
                  refl)
            | inl refused ↦
                rw (memalign_refused a (allocate heap) (2 ^ k / 64 * 8) refused)
                  (second_chance granted refused)
          ])
  ]
    where
      second_chance :
          a.grants heap 16 ≡ true
          → a.block (allocate heap) (2 ^ k / 64 * 8) ≡ none
          → NewOutcome a heap wanted
              (some (fill_header heap.next (2 ^ k) (calloc a (allocate heap) (2 ^ k / 64 * 8))))
      second_chance header no_block =
          elim (Bool-cases (a.grants (allocate heap) (2 ^ k / 64 * 8))) [
            | inl granted ↦ rw (calloc_granted a (allocate heap) (2 ^ k / 64 * 8) granted) (
                with_both (replicate (2 ^ k / 64 * 8 / 4) 0) (allocate (allocate heap))
                  (allocate heap).next header (inr granted) (given_zero (2 ^ k / 64)) refl)
            | inr refused ↦
                rw (calloc_refused a (allocate heap) (2 ^ k / 64 * 8) refused)
                  (without_array k _ (allocate heap) size header no_block refused refl refl refl)
          ]

-- The outcomes of `bloom_new` for at most 2^63 bits: a write through NULL if the header is refused;
-- a header with a null array if the header is granted and both `posix_memalign` and `calloc` refuse
-- the array; or, if one of them has given it, a valid filter with no bit set and two live
-- allocations, whose number of bits is the least power of two that is at least 64 and enough.
pub new-NewOutcome :
    (a : Allocator) (heap : Heap) (wanted : ℕ)
    → wanted ≤ 2 ^ 63
    → NewOutcome a heap wanted (new a heap wanted)
unfolding new
new-NewOutcome a heap wanted small =
    let r = round_up_pow2_lem wanted 0 small (omega arith) in
    let (k, le, k_small, room, which, size) = sizes_lem r.log r.small in
    rw (r.returns, size)
      (with_header-NewOutcome a heap wanted k (record {
        word = le;
        small = k_small;
        enough = omega (arith, r.enough);
        least = elim which [
          | inl six ↦ inl six
          | inr same ↦ elim r.least [
            | inl start ↦ absurd (omega arith)
            | inr close ↦ inr (rw same close)
          ]
        ];
      }))

-- `bloom_free` on what `bloom_new` returned, whatever was done to the filter in between, frees
-- exactly what was allocated.
pub live-destroy-new :
    (a : Allocator) (heap : Heap) (wanted : ℕ) (h : Handle) (heap' : Heap) (used : Bloom)
    → wanted ≤ 2 ^ 63
    → new a heap wanted ≡ some (h, heap')
    → (heap'' : Heap) × (destroy heap' (record h { filter = used }) ≡ some heap'')
      × (heap''.live ≡ heap.live)
unfolding destroy
live-destroy-new a heap wanted h heap' used small e =
    elim (freed a heap wanted h heap' (new-NewOutcome a heap wanted small) e) [
      | inl (null, live) ↦
          (record heap' { live = heap.live }, rw null (free_top heap' h.self heap.live live), refl)
      | inr (mem, given, live) ↦ (
        record heap' { live = heap.live },
        rw (
          given,
          free_top heap' mem (h.self ∷ heap.live) live,
          free_top (record heap' { live = h.self ∷ heap.live }) h.self heap.live refl,
        ),
        refl,
      )
    ]
  where
    freed :
        (a : Allocator) (heap : Heap) (wanted : ℕ) {r : Option (Handle × Heap)} (h : Handle)
        (heap' : Heap)
        → NewOutcome a heap wanted r
        → r ≡ some (h, heap')
        → ((h.mem ≡ none) × (heap'.live ≡ h.self ∷ heap.live))
          ⊎ ((mem : ℕ) × (h.mem ≡ some mem) × (heap'.live ≡ mem ∷ h.self ∷ heap.live))
    freed a heap wanted h heap' (crashed refused) e = cc
    freed a heap wanted h heap'
          (without_array k g heap1 size header no_block refused null bits live) e =
        inl (cc, cc)
    freed a heap wanted h heap' (made k g heap1 mem size header array v total clear given live) e =
        inr (mem, cc, cc)
