-- ===== src/Impala/Agree.antt =====
-- quickbloom and the scalar filter of the specification, on the same array and the same 64-bit
-- hashes: the same block, the same mask, the same bits after an insertion, the same answers.
use quickbloom.Base.{ℕ, zero, suc, ◌+◌, ◌-◌, ◌*◌, ◌/◌, ◌^◌, ◌≤◌, ◌<◌, ◌≡◌, ◌∙◌, refl, arith, ap}
use quickbloom.Base.{
  List, [], ◌∷◌, some, map, length, get_or, get_or_ext, sym, bit_and, pow_mono, ◌↔◌,
}
use native.Mathlib.Nat.{mod-eq_of_lt, mul-le-mul}
use quickbloom.Bits.{bit_at, bit_and-eq_iff, pow-covered_iff}
use quickbloom.Machine.{u32, shr}
use quickbloom.Quickbloom.Filter as Fast
use quickbloom.Quickbloom.Probe as Probe
use quickbloom.Quickbloom.Bulk as Bulk
use quickbloom.Quickbloom.Mask.{position}
use quickbloom.Quickbloom.Valid.{IsValid, nblocks, block_for-fastrange, block_for-fits}
use quickbloom.Quickbloom.Insert.{put, put-IsValid, updated, word-updated, length-updated}
use quickbloom.Quickbloom.Insert.{bit}
use quickbloom.Quickbloom.Query.{Covered, query, query_iff, query-le, contains_prehash_lem}
use quickbloom.Quickbloom.Batch.{put_all, put_all-IsValid, insert_prehash_bulk_lem}
use quickbloom.Impala.Filter.{
  Bloom, sbbf_salt, block_mask, block_for, insert_prehash, contains_prehash, insert_prehash_bulk,
}
use quickbloom.Impala.Loops.{IsOred, or_words_lem, has_words_lem, AllIn}

-- The scalar filter over the array of a filter of quickbloom.
abbrev pub view : Fast.Bloom → Bloom
view b = record { bits = b.bits; nblocks = nblocks b }

mask_word :
    (h : ℕ) (ss : List ℕ) (i : ℕ)
    → i < length ss
    → get_or (map (λ s. let bit = u32 (h * s) / 2 ^ 27 in u32 (1 * 2 ^ bit)) ss) i 0
      ≡ 2 ^ (u32 (h * get_or ss i 0) / 2 ^ 27)
mask_word h [] i p = absurd (omega arith)
mask_word h (s ∷ ss) zero p = omega (arith, pow_mono (u32 (h * s) / 2 ^ 27) 31 (omega arith))
mask_word h (s ∷ ss) (suc i) p = mask_word h ss i (omega arith)

-- Word `i` of the scalar mask is the one bit at the position that the AVX2 code computes.
pub block_mask-word : (h i : ℕ) → i < 8 → get_or (block_mask h) i 0 ≡ 2 ^ position h i
unfolding block_mask position
block_mask-word h i p = mask_word h sbbf_salt i p

pub length-block_mask : (h : ℕ) → length (block_mask h) ≡ 8
unfolding block_mask
length-block_mask h = refl

-- A word has the bits of word `i` of the mask when it has the bit at the position.
pub word_iff :
    (word h i : ℕ)
    → i < 8
    → (bit_and word (get_or (block_mask h) i 0) ≡ get_or (block_mask h) i 0)
      ↔ (bit_at word (position h i) ≡ 1)
word_iff word h i p =
    let here = bit_and-eq_iff word (2 ^ position h i) in
    let there = pow-covered_iff (position h i) word in
    rw (block_mask-word h i p) (λ e. there.0 (here.0 e), λ e. here.1 (there.1 e))

product : (hi n : ℕ) → hi < 2 ^ 32 → n ≤ 2 ^ 31 → hi * n < 2 ^ 64
product hi n p q =
    let wide : hi ≤ 2 ^ 32 = omega arith in let most = mul-le-mul wide q in omega arith

answers : (x y : ℕ) → x ≤ 1 → y ≤ 1 → (x ≡ 1 → y ≡ 1) → (y ≡ 1 → x ≡ 1) → x ≡ y
answers x y p q f g = grind arith

module _ (b : Fast.Bloom) (h : ℕ) (v : IsValid b) where
  no_wrap : (hi : ℕ) → hi < 2 ^ 32 → hi * nblocks b < 2 ^ 64
  unfolding nblocks
  no_wrap hi p = rw v.masked (product hi (2 ^ v.log) p (pow_mono v.log 31 v.log_small))

  same_block : block_for (view b) h ≡ Fast.block_for b h
  unfolding block_for
  same_block =
      ap (λ k. k / 2 ^ 32 * 8) (mod-eq_of_lt (no_wrap (u32 (shr h 32)) (omega arith)))
      ∙ sym (block_for-fastrange b h v)

  same_update :
      (out : List ℕ)
      → IsOred b.bits (Fast.block_for b h) (block_mask (u32 h)) out
      → out ≡ updated b h
  same_update out is =
      get_or_ext 0 out (updated b h) (is.same_length ∙ sym (length-updated b h v)) λ w p. ground (
        arith,
        is.word w,
        word-updated b h v w,
        length-block_mask (u32 h),
        block_mask-word (u32 h) (w - Fast.block_for b h),
      )

  pub insert_prehash-agrees : insert_prehash (view b) h ≡ some (view (put b h))
  unfolding insert_prehash put nblocks
  insert_prehash-agrees =
      let (out, e, is) =
        or_words_lem (block_mask (u32 h)) b.bits (Fast.block_for b h)
          (omega (arith, length-block_mask (u32 h), block_for-fits b h v)) in
      rw (same_block, e, same_update out is)

  lane_iff :
      (i : ℕ)
      → i < 8
      → (bit_and (get_or b.bits (Fast.block_for b h + i) 0) (get_or (block_mask (u32 h)) i 0)
          ≡ get_or (block_mask (u32 h)) i 0)
        ↔ (bit b (Fast.block_for b h + i) (position (u32 h) i) ≡ 1)
  lane_iff i p = word_iff (get_or b.bits (Fast.block_for b h + i) 0) (u32 h) i p

  AllIn-iff : AllIn b.bits (Fast.block_for b h) (block_mask (u32 h)) ↔ Covered b h
  AllIn-iff = (
    λ all i p. (lane_iff i p).0 (all i (rw (length-block_mask (u32 h)) p)),
    λ c i p. let small = rw (length-block_mask (u32 h)) at p in (lane_iff i small).1 (c i small),
  )

  -- A number up to 1 that is 1 for the same reason as the answer of `query`.
  same_answer :
      (c : ℕ)
      → c ≤ 1
      → (c ≡ 1) ↔ AllIn b.bits (Fast.block_for b h) (block_mask (u32 h))
      → c ≡ query b h
  same_answer c le iff =
      let q = query_iff b h v in
      answers c (query b h) le (query-le b h) (λ e. q.1 (AllIn-iff.0 (iff.0 e)))
        (λ e. iff.1 (AllIn-iff.1 (q.0 e)))

  pub contains_prehash-agrees : contains_prehash (view b) h ≡ some (query b h)
  unfolding contains_prehash
  contains_prehash-agrees =
      let (c, e, le, iff) =
        has_words_lem (block_mask (u32 h)) b.bits (Fast.block_for b h)
          (omega (arith, length-block_mask (u32 h), block_for-fits b h v)) in
      rw (same_block, e) (ap some (same_answer c le iff))

bulk_agrees :
    (hs : List ℕ) (b : Fast.Bloom)
    → IsValid b
    → insert_prehash_bulk (view b) hs ≡ some (view (put_all b hs))
unfolding insert_prehash_bulk
bulk_agrees [] b v = refl
bulk_agrees (h ∷ hs) b v =
    rw (insert_prehash-agrees b h v) (bulk_agrees hs (put b h) (put-IsValid b h v))

-- Start quickbloom and the scalar filter of `bloom_impala.c` from the same valid array with the
-- same number of blocks, and insert the same 64-bit hashes with the two bulk functions: neither
-- faults, the arrays are again the same, word for word, and for every hash the two queries give
-- the same answer.
pub prehash-agrees :
    (b : Fast.Bloom) (hs : List ℕ) (h : ℕ)
    → IsValid b
    → (b' : Fast.Bloom) × (Bulk.insert_prehash_bulk b hs ≡ some b')
      × (insert_prehash_bulk (view b) hs ≡ some (view b'))
      × (contains_prehash (view b') h ≡ Probe.contains_prehash b' h)
prehash-agrees b hs h v =
    let b' = put_all b hs in
    let v' = put_all-IsValid hs b v in
    (
      b',
      insert_prehash_bulk_lem hs b v,
      bulk_agrees hs b v,
      contains_prehash-agrees b' h v' ∙ sym (contains_prehash_lem b' h v'),
    )
