-- ===== src/Krassovsky/Count.antt =====
-- The number of hits: what the batched and the bulk queries add up.
use quickbloom.Base.{ℕ, zero, suc, ◌+◌, ◌^◌, ◌≤◌, ◌<◌, ◌≡◌, ◌∙◌, arith, ap}
use quickbloom.Base.{List, [], ◌∷◌, some, to_int, get_or, bit_and, ◌==◌, length, Bool, true, false}
use quickbloom.Bits.{bit_and_comm}
use quickbloom.Machine.{u64, add64}
use quickbloom.Krassovsky.Filter.{Bloom, block_idx_scalar}
use quickbloom.Krassovsky.Lanes64.{popcount}
use quickbloom.Krassovsky.Batch.{
  block_idx_avx2, answers, count_hit, contains_batch8, contains_each, contains_prehash_bulk,
}
use quickbloom.Krassovsky.Mask.{IsTable, mask_of, construct_mask_avx2_lem}
use quickbloom.Krassovsky.Insert.{IsValid}
use quickbloom.Krassovsky.Membership.{query, query-le, contains_prehash_lem, word_at_lem}
use quickbloom.Krassovsky.Answers.{four, moves, total, nested-popcount, answers_lem}

-- The number of hashes that are answered 1.
unfoldable pub hits_of : List ℕ → Bloom → List ℕ → ℕ
hits_of table b [] = 0
hits_of table b (h ∷ hs) = query table b h + hits_of table b hs

one-le : (t : Bool) → to_int t ≤ 1
one-le true = omega arith
one-le false = omega arith

pub count_one : (hits rest q : ℕ) → q ≤ 1 → u64 (count_hit hits q + rest) ≡ u64 (hits + (q + rest))
count_one hits rest zero le = omega arith
count_one hits rest (suc zero) le = omega arith
count_one hits rest (suc (suc q)) le = absurd (omega arith)

pub count_hit-lt : (hits q : ℕ) → hits < 2 ^ 64 → count_hit hits q < 2 ^ 64
count_hit-lt hits zero lt = lt
count_hit-lt hits (suc q) lt = omega arith

module _ (table : List ℕ) (b : Bloom) (is_table : IsTable table) (v : IsValid b) where
  -- The comparison in the lane of `h`.
  pub test : ℕ → Bool
  test h = bit_and (mask_of table h) (get_or b.bv (block_idx_scalar b h) 0) == mask_of table h

  test-query : (h : ℕ) → to_int (test h) ≡ query table b h
  unfolding test query
  test-query h =
      ap (λ x. to_int (x == mask_of table h))
        (bit_and_comm (mask_of table h) (get_or b.bv (block_idx_scalar b h) 0))

  pub batch_lem :
      (h0 h1 h2 h3 h4 h5 h6 h7 : ℕ)
      → contains_batch8 table b (h0 ∷ h1 ∷ h2 ∷ h3 ∷ []) (h4 ∷ h5 ∷ h6 ∷ h7 ∷ [])
        ≡ some (
            answers
              (four (test h0) (test h1) (test h2) (test h3))
              (four (test h4) (test h5) (test h6) (test h7)))
  unfolding contains_batch8 block_idx_avx2 block_idx_scalar test
  batch_lem h0 h1 h2 h3 h4 h5 h6 h7 = rw (
    construct_mask_avx2_lem table h0 h1 h2 h3 is_table,
    construct_mask_avx2_lem table h4 h5 h6 h7 is_table,
    word_at_lem b h0 v,
    word_at_lem b h1 v,
    word_at_lem b h2 v,
    word_at_lem b h3 v,
    word_at_lem b h4 v,
    word_at_lem b h5 v,
    word_at_lem b h6 v,
    word_at_lem b h7 v,
  )

  pub batch-popcount :
      (h0 h1 h2 h3 h4 h5 h6 h7 : ℕ)
      → popcount 8 (
          answers
            (four (test h0) (test h1) (test h2) (test h3))
            (four (test h4) (test h5) (test h6) (test h7)))
        ≡ hits_of table b (h0 ∷ h1 ∷ h2 ∷ h3 ∷ h4 ∷ h5 ∷ h6 ∷ h7 ∷ [])
  unfolding hits_of total
  batch-popcount h0 h1 h2 h3 h4 h5 h6 h7 =
      let (a0, a1, a2, a3) = moves (test h0) (test h1) (test h2) (test h3) in
      let (a4, a5, a6, a7) = moves (test h4) (test h5) (test h6) (test h7) in
      let l : (h : ℕ) → to_int (test h) ≤ 1 = λ h. one-le (test h) in
      let t : ℕ → ℕ = λ h. to_int (test h) in
      ap (popcount 8) (
        answers_lem (t h0) (t h1) (t h2) (t h3) (t h4) (t h5) (t h6) (t h7) (l h0) (l h1) (l h2)
          (l h3) (l h4) (l h5) (l h6) (l h7) _ _ a0 a1 a2 a3 a4 a5 a6 a7)
      ∙ nested-popcount (t h0) (t h1) (t h2) (t h3) (t h4) (t h5) (t h6) (t h7) (l h0) (l h1) (l h2)
          (l h3) (l h4) (l h5) (l h6) (l h7)
      ∙ rw (
        test-query h0,
        test-query h1,
        test-query h2,
        test-query h3,
        test-query h4,
        test-query h5,
        test-query h6,
        test-query h7,
      )

  contains_each_lem :
      (hs : List ℕ) (hits : ℕ)
      → hits < 2 ^ 64
      → contains_each table b hs hits ≡ some (u64 (hits + hits_of table b hs))
  unfolding contains_each hits_of
  contains_each_lem [] hits lt = ap some (omega arith)
  contains_each_lem (h ∷ hs) hits lt = rw (contains_prehash_lem table b h is_table v) (
      contains_each_lem hs (count_hit hits (query table b h))
        (count_hit-lt hits (query table b h) lt)
      ∙ ap some (count_one hits (hits_of table b hs) (query table b h) (query-le table b h)))

  loop_lem :
      (hs : List ℕ) (hits : ℕ)
      → hits < 2 ^ 64
      → contains_prehash_bulk table b hs hits ≡ some (u64 (hits + hits_of table b hs))
  unfolding contains_prehash_bulk hits_of
  loop_lem (h0 ∷ h1 ∷ h2 ∷ h3 ∷ h4 ∷ h5 ∷ h6 ∷ h7 ∷ hs) hits lt =
      rw (batch_lem h0 h1 h2 h3 h4 h5 h6 h7, batch-popcount h0 h1 h2 h3 h4 h5 h6 h7)
        (loop_lem hs (add64 hits (hits_of table b (h0 ∷ h1 ∷ h2 ∷ h3 ∷ h4 ∷ h5 ∷ h6 ∷ h7 ∷ [])))
            (omega arith)
          ∙ ap some (omega arith))
  loop_lem hs hits lt = contains_each_lem hs hits lt

  pub hits_of-le : (hs : List ℕ) → hits_of table b hs ≤ length hs
  unfolding hits_of
  hits_of-le [] = omega arith
  hits_of-le (h ∷ hs) = omega (arith, hits_of-le hs, query-le table b h)

-- With a table of the right size and a valid filter, `bloom_contains_prehash_bulk` of fewer than
-- 2^64 hashes does not fault and returns the number of hashes that the filter answers 1 for: the
-- bits of the eight answers of a batch are counted right.
pub contains_batched_lem :
    (table : List ℕ) (b : Bloom) (hs : List ℕ)
    → IsTable table
    → IsValid b
    → length hs < 2 ^ 64
    → contains_prehash_bulk table b hs 0 ≡ some (hits_of table b hs)
contains_batched_lem table b hs t v lt =
    loop_lem table b t v hs 0 (omega arith) ∙ ap some (omega (arith, hits_of-le table b t v hs))
