-- ===== src/Krassovsky/Answers.antt =====
-- The byte of `bloom_contains_batch8`: one bit for each lane that compared equal, and their number.
use quickbloom.Base.{
  ℕ, zero, suc, ◌+◌, ◌-◌, ◌*◌, ◌/◌, ◌%◌, ◌^◌, ◌≤◌, ◌<◌, ◌≡◌, ◌∙◌, refl, arith, ap,
}
use quickbloom.Base.{[], ◌∷◌, to_int, bit_and, bit_or, Bool, true, false}
use quickbloom.Base.{if◌then◌else◌, pow_mono}
use quickbloom.Bits.{bit_or_fields, bit_or_comm, bit_or-zero}
use quickbloom.Machine.{shr}
use quickbloom.Krassovsky.Lanes64.{movemask_epi8, popcount}
use quickbloom.Krassovsky.Batch.{answers, add_answer}

-- A lane of `_mm256_cmpeq_epi64`.
abbrev all_ones : Bool → ℕ
all_ones t = if t then 2 ^ 64 - 1 else 0

abbrev pub four : Bool → Bool → Bool → Bool → ℕ
four t0 t1 t2 t3 = movemask_epi8 (all_ones t0 ∷ all_ones t1 ∷ all_ones t2 ∷ all_ones t3 ∷ [])

-- Bits 0, 8, 16 and 24 of `_mm256_movemask_epi8` say which lanes were equal.
pub moves :
    (t0 t1 t2 t3 : Bool)
    → (bit_and (shr (four t0 t1 t2 t3) 0) 1 ≡ to_int t0)
      × (bit_and (shr (four t0 t1 t2 t3) 8) 1 ≡ to_int t1)
      × (bit_and (shr (four t0 t1 t2 t3) 16) 1 ≡ to_int t2)
      × (bit_and (shr (four t0 t1 t2 t3) 24) 1 ≡ to_int t3)
moves true true true true = (refl, refl, refl, refl)
moves true true true false = (refl, refl, refl, refl)
moves true true false true = (refl, refl, refl, refl)
moves true true false false = (refl, refl, refl, refl)
moves true false true true = (refl, refl, refl, refl)
moves true false true false = (refl, refl, refl, refl)
moves true false false true = (refl, refl, refl, refl)
moves true false false false = (refl, refl, refl, refl)
moves false true true true = (refl, refl, refl, refl)
moves false true true false = (refl, refl, refl, refl)
moves false true false true = (refl, refl, refl, refl)
moves false true false false = (refl, refl, refl, refl)
moves false false true true = (refl, refl, refl, refl)
moves false false true false = (refl, refl, refl, refl)
moves false false false true = (refl, refl, refl, refl)
moves false false false false = (refl, refl, refl, refl)

-- One more answer in the result.
next_answer : (r q k : ℕ) → r < 2 ^ k → q ≤ 1 → k ≤ 7 → bit_or r (q * 2 ^ k % 256) ≡ r + q * 2 ^ k
next_answer r zero k lt one small =
    let none_set : 0 * 2 ^ k ≡ 0 = omega arith in rw none_set (bit_or-zero r ∙ omega arith)
next_answer r (suc zero) k lt one small =
    let fits : 1 * 2 ^ k % 256 ≡ 1 * 2 ^ k = omega (arith, pow_mono k 7 small) in
    rw fits (bit_or_comm r (1 * 2 ^ k) ∙ bit_or_fields k 1 r lt ∙ omega arith)
next_answer r (suc (suc q)) k lt one small = absurd (omega arith)

add_answer_lem :
    (r m j k q : ℕ)
    → bit_and (shr m (8 * j)) 1 ≡ q
    → r < 2 ^ k
    → q ≤ 1
    → k ≤ 7
    → add_answer r m j k ≡ r + q * 2 ^ k
add_answer_lem r m j k q e lt one small = rw e (next_answer r q k lt one small)

popcount_step : (n q y : ℕ) → q ≤ 1 → popcount (suc n) (q + 2 * y) ≡ q + popcount n y
popcount_step n q y one =
    let low : (q + 2 * y) % 2 ≡ q = omega arith in
    let high : (q + 2 * y) / 2 ≡ y = omega arith in rw (low, high)

module _ (q0 q1 q2 q3 q4 q5 q6 q7 : ℕ) (p0 : q0 ≤ 1) (p1 : q1 ≤ 1) (p2 : q2 ≤ 1) (p3 : q3 ≤ 1)
    (p4 : q4 ≤ 1) (p5 : q5 ≤ 1) (p6 : q6 ≤ 1) (p7 : q7 ≤ 1) where
  unfoldable pub total : ℕ
  total = q0 + (q1 + (q2 + (q3 + (q4 + (q5 + (q6 + (q7 + 0)))))))

  unfoldable pub from5 : ℕ
  from5 = q5 + 2 * (q6 + 2 * (q7 + 2 * 0))

  unfoldable pub from2 : ℕ
  from2 = q2 + 2 * (q3 + 2 * (q4 + 2 * from5))

  pub nested-popcount : popcount 8 (q0 + 2 * (q1 + 2 * from2)) ≡ total
  unfolding total from2 from5
  nested-popcount =
      popcount_step 7 q0 (q1 + 2 * from2) p0
      ∙ ap (λ x. q0 + x)
          (popcount_step 6 q1 from2 p1
            ∙ ap (λ x. q1 + x)
                (popcount_step 5 q2 (q3 + 2 * (q4 + 2 * from5)) p2
                  ∙ ap (λ x. q2 + x)
                      (popcount_step 4 q3 (q4 + 2 * from5) p3
                        ∙ ap (λ x. q3 + x)
                            (popcount_step 3 q4 from5 p4
                              ∙ ap (λ x. q4 + x)
                                  (popcount_step 2 q5 (q6 + 2 * (q7 + 2 * 0)) p5
                                    ∙ ap (λ x. q5 + x)
                                        (popcount_step 1 q6 (q7 + 2 * 0) p6
                                          ∙ ap (λ x. q6 + x) (popcount_step 0 q7 0 p7)))))))

  pub answers_lem :
      (m_a m_b : ℕ)
      → bit_and (shr m_a 0) 1 ≡ q0
      → bit_and (shr m_a 8) 1 ≡ q1
      → bit_and (shr m_a 16) 1 ≡ q2
      → bit_and (shr m_a 24) 1 ≡ q3
      → bit_and (shr m_b 0) 1 ≡ q4
      → bit_and (shr m_b 8) 1 ≡ q5
      → bit_and (shr m_b 16) 1 ≡ q6
      → bit_and (shr m_b 24) 1 ≡ q7
      → answers m_a m_b ≡ q0 + 2 * (q1 + 2 * from2)
  unfolding answers from2 from5
  answers_lem m_a m_b e0 e1 e2 e3 e4 e5 e6 e7 =
      let r0 = add_answer_lem 0 m_a 0 0 q0 e0 (omega arith) p0 (omega arith) in
      let s0 = 0 + q0 * 2 ^ 0 in
      let r1 = add_answer_lem s0 m_a 1 1 q1 e1 (omega arith) p1 (omega arith) in
      let s1 = s0 + q1 * 2 ^ 1 in
      let r2 = add_answer_lem s1 m_a 2 2 q2 e2 (omega arith) p2 (omega arith) in
      let s2 = s1 + q2 * 2 ^ 2 in
      let r3 = add_answer_lem s2 m_a 3 3 q3 e3 (omega arith) p3 (omega arith) in
      let s3 = s2 + q3 * 2 ^ 3 in
      let r4 = add_answer_lem s3 m_b 0 4 q4 e4 (omega arith) p4 (omega arith) in
      let s4 = s3 + q4 * 2 ^ 4 in
      let r5 = add_answer_lem s4 m_b 1 5 q5 e5 (omega arith) p5 (omega arith) in
      let s5 = s4 + q5 * 2 ^ 5 in
      let r6 = add_answer_lem s5 m_b 2 6 q6 e6 (omega arith) p6 (omega arith) in
      let s6 = s5 + q6 * 2 ^ 6 in
      let r7 = add_answer_lem s6 m_b 3 7 q7 e7 (omega arith) p7 (omega arith) in
      rw (r0, r1, r2, r3, r4, r5, r6, r7) (omega arith)
