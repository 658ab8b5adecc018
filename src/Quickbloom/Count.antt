-- ===== src/Quickbloom/Count.antt =====
-- The bulk queries count exactly, on the unrolled path and off it.
use quickbloom.Base.{ℕ, zero, suc, ◌+◌, ◌*◌, ◌^◌, ◌≤◌, ◌<◌, ◌≡◌, ◌∙◌, refl, arith, List, [], ◌∷◌}
use quickbloom.Base.{some, drop, length, ap, ◌==◌, Bool-cases, inl, inr, ==_iff}
use quickbloom.Machine.{u64, load_si256_lem, add64}
use quickbloom.Quickbloom.Filter.{Bloom, block_for}
use quickbloom.Quickbloom.Hash.{hash16, bloom_hash}
use quickbloom.Quickbloom.Bulk.{
  count_hit, contains_four, contains_each, contains_unrolled, contains_bulk, contains_prehash_each,
  contains_prehash_loop, contains_prehash_bulk,
}
use quickbloom.Quickbloom.Valid.{IsValid, block_for-aligned, block_for-fits}
use quickbloom.Quickbloom.Query.{query, query-le, contains_prehash_lem}
use quickbloom.Quickbloom.BulkLaws.{key_hashes, next_four, contains-eq-prehash}

-- How many of the hashes the filter answers 1 for.
unfoldable pub hits_of : Bloom → List ℕ → ℕ
hits_of b [] = 0
hits_of b (h ∷ hs) = query b h + hits_of b hs

hits_of-le : (b : Bloom) (hs : List ℕ) → hits_of b hs ≤ length hs
unfolding hits_of
hits_of-le b [] = omega arith
hits_of-le b (h ∷ hs) = omega (arith, hits_of-le b hs, query-le b h)

count_hit_lem : (hits c : ℕ) → hits < 2 ^ 64 → c ≤ 1 → count_hit hits c ≡ u64 (hits + c)
count_hit_lem hits zero lt h = omega arith
count_hit_lem hits (suc c) lt h = omega arith

-- A counter that goes on from `u64 (hits + c)`.
count_on : (hits c more : ℕ) → u64 (u64 (hits + c) + more) ≡ u64 (hits + (c + more))
count_on hits c more = omega arith

contains_each_lem :
    (keys : List ℕ) (klen i n : ℕ) (b : Bloom) (hits : ℕ)
    → IsValid b
    → hits < 2 ^ 64
    → contains_each keys klen i n b hits ≡ some (u64 (hits + hits_of b (key_hashes keys klen i n)))
unfolding contains_each key_hashes hits_of
contains_each_lem keys klen i zero b hits v lt = ap some (omega arith)
contains_each_lem keys klen i (suc n) b hits v lt =
    let key = drop (i * klen) keys in
    let h = bloom_hash key klen in
    rw
      (
        contains-eq-prehash b key klen,
        contains_prehash_lem b h v,
        count_hit_lem hits (query b h) lt (query-le b h),
        ← count_on hits (query b h) (hits_of b (key_hashes keys klen (i + 1) n)),
      )
      (contains_each_lem keys klen (i + 1) n b (u64 (hits + query b h)) v (omega arith))

four_adds :
    (hits a b c d : ℕ)
    → add64 (add64 (add64 (add64 hits a) b) c) d ≡ u64 (hits + (a + (b + (c + d))))
four_adds hits a b c d = omega arith

contains_four_lem :
    (b : Bloom) (hits h0 h1 h2 h3 : ℕ)
    → IsValid b
    → contains_four b hits h0 h1 h2 h3
      ≡ some (u64 (hits + (query b h0 + (query b h1 + (query b h2 + query b h3)))))
unfolding contains_four query
contains_four_lem b hits h0 h1 h2 h3 v =
    rw
      (
        load_si256_lem b.bits (block_for b h0) (block_for-aligned b h0) (block_for-fits b h0 v),
        load_si256_lem b.bits (block_for b h1) (block_for-aligned b h1) (block_for-fits b h1 v),
        load_si256_lem b.bits (block_for b h2) (block_for-aligned b h2) (block_for-fits b h2 v),
        load_si256_lem b.bits (block_for b h3) (block_for-aligned b h3) (block_for-fits b h3 v),
      )
      (ap some (four_adds hits (query b h0) (query b h1) (query b h2) (query b h3)))

-- A counter over four answers and those that follow.
count_four :
    (hits a b c d more : ℕ)
    → u64 (u64 (hits + (a + (b + (c + d)))) + more) ≡ u64 (hits + (a + (b + (c + (d + more)))))
count_four hits a b c d more = omega arith

contains_unrolled_lem :
    (keys : List ℕ) (i n : ℕ) (b : Bloom) (hits : ℕ)
    → IsValid b
    → hits < 2 ^ 64
    → contains_unrolled keys i n b hits ≡ some (u64 (hits + hits_of b (key_hashes keys 16 i n)))
unfolding contains_unrolled hits_of
contains_unrolled_lem keys i (suc (suc (suc (suc n)))) b hits v lt =
    let h0 = hash16 (drop ((i + 0) * 16) keys) in
    let h1 = hash16 (drop ((i + 1) * 16) keys) in
    let h2 = hash16 (drop ((i + 2) * 16) keys) in
    let h3 = hash16 (drop ((i + 3) * 16) keys) in
    rw (contains_four_lem b hits h0 h1 h2 h3 v, next_four keys i n)
      (contains_unrolled_lem keys (i + 4) n b
          (u64 (hits + (query b h0 + (query b h1 + (query b h2 + query b h3))))) v (omega arith)
        ∙ ap some (
            count_four hits (query b h0) (query b h1) (query b h2) (query b h3)
              (hits_of b (key_hashes keys 16 (i + 4) n))))
contains_unrolled_lem keys i zero b hits v lt = contains_each_lem keys 16 i zero b hits v lt
contains_unrolled_lem keys i n b hits v lt = contains_each_lem keys 16 i n b hits v lt

pub length-key_hashes : (keys : List ℕ) (klen i n : ℕ) → length (key_hashes keys klen i n) ≡ n
unfolding key_hashes
length-key_hashes keys klen i zero = refl
length-key_hashes keys klen i (suc n) = ap suc (length-key_hashes keys klen (i + 1) n)

-- `qb_contains_bulk` does not fault and returns how many of the `n` keys the filter answers 1 for.
pub contains_bulk_lem :
    (b : Bloom) (keys : List ℕ) (klen n : ℕ)
    → IsValid b
    → n < 2 ^ 64
    → contains_bulk b keys klen n ≡ some (hits_of b (key_hashes keys klen 0 n))
unfolding contains_bulk
contains_bulk_lem b keys klen n v lt = elim (Bool-cases (klen == 16)) [
  | inl e ↦
      rw e
        (rw ((==_iff klen 16).0 e) (contains_unrolled_lem keys 0 n b 0 v (omega arith) ∙ exact 16))
  | inr e ↦ rw e (contains_each_lem keys klen 0 n b 0 v (omega arith) ∙ exact klen)
]
  where
    exact :
        (klen : ℕ)
        → some (u64 (0 + hits_of b (key_hashes keys klen 0 n)))
          ≡ some (hits_of b (key_hashes keys klen 0 n))
    exact klen =
        ap some
          (omega (arith, hits_of-le b (key_hashes keys klen 0 n), length-key_hashes keys klen 0 n))

contains_prehash_each_lem :
    (hs : List ℕ) (b : Bloom) (hits : ℕ)
    → IsValid b
    → hits < 2 ^ 64
    → contains_prehash_each b hs hits ≡ some (u64 (hits + hits_of b hs))
unfolding contains_prehash_each hits_of
contains_prehash_each_lem [] b hits v lt = ap some (omega arith)
contains_prehash_each_lem (h ∷ hs) b hits v lt =
    rw
      (
        contains_prehash_lem b h v,
        count_hit_lem hits (query b h) lt (query-le b h),
        ← count_on hits (query b h) (hits_of b hs),
      )
      (contains_prehash_each_lem hs b (u64 (hits + query b h)) v (omega arith))

contains_prehash_loop_lem :
    (hs : List ℕ) (b : Bloom) (hits : ℕ)
    → IsValid b
    → hits < 2 ^ 64
    → contains_prehash_loop b hs hits ≡ some (u64 (hits + hits_of b hs))
unfolding contains_prehash_loop hits_of
contains_prehash_loop_lem (h0 ∷ h1 ∷ h2 ∷ h3 ∷ hs) b hits v lt =
    rw (contains_four_lem b hits h0 h1 h2 h3 v) (
      contains_prehash_loop_lem hs b
        (u64 (hits + (query b h0 + (query b h1 + (query b h2 + query b h3))))) v (omega arith)
      ∙ ap some
          (count_four hits (query b h0) (query b h1) (query b h2) (query b h3) (hits_of b hs)))
contains_prehash_loop_lem [] b hits v lt = contains_prehash_each_lem [] b hits v lt
contains_prehash_loop_lem hs b hits v lt = contains_prehash_each_lem hs b hits v lt

-- `qb_contains_prehash_bulk` does not fault and returns how many of the hashes the filter answers
-- 1 for.
pub contains_prehash_bulk_lem :
    (b : Bloom) (hs : List ℕ)
    → IsValid b
    → length hs < 2 ^ 64
    → contains_prehash_bulk b hs ≡ some (hits_of b hs)
unfolding contains_prehash_bulk
contains_prehash_bulk_lem b hs v lt =
    contains_prehash_loop_lem hs b 0 v (omega arith) ∙ ap some (omega (arith, hits_of-le b hs))
