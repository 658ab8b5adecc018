-- ===== src/Krassovsky/Keys.antt =====
-- bloom_insert_bulk and bloom_contains_bulk of bloom_krassovsky.c on a buffer of keys, eight at a
-- time for keys of 16 bytes and one at a time for the rest.
use quickbloom.Base.{ℕ, zero, suc, ◌+◌, ◌*◌, ◌^◌, ◌<◌, ◌≡◌, ◌∙◌, refl, arith, ap}
use quickbloom.Base.{
  List, [], ◌∷◌, some, drop, length, ◌==◌, leb, Bool-cases, inl, inr, ==_iff, IsIn,
}
use quickbloom.Machine.{u64, add64}
use quickbloom.Krassovsky.Filter.{Bloom, hash16, bloom_hash, insert, contains}
use quickbloom.Krassovsky.Batch.{
  count_hit, insert_rest, contains_rest, insert_eights, contains_eights, insert_bulk, contains_bulk,
}
use quickbloom.Krassovsky.Mask.{IsTable}
use quickbloom.Krassovsky.Insert.{
  IsValid, put, put-IsValid, put_all, put_all-IsValid, insert_prehash_lem, insert_batch8_lem,
}
use quickbloom.Krassovsky.Membership.{query, query-le, query-put_all, contains_prehash_lem}
use quickbloom.Krassovsky.Count.{
  hits_of, hits_of-le, batch_lem, batch-popcount, count_one, count_hit-lt,
}

-- The hashes of keys `i` to `i + n - 1` of a buffer of keys of `klen` bytes.
unfoldable pub key_hashes : List ℕ → ℕ → ℕ → ℕ → List ℕ
key_hashes keys klen i zero = []
key_hashes keys klen i (suc n) =
    bloom_hash (drop (i * klen) keys) klen ∷ key_hashes keys klen (i + 1) n

length-key_hashes : (keys : List ℕ) (klen i n : ℕ) → length (key_hashes keys klen i n) ≡ n
unfolding key_hashes
length-key_hashes keys klen i zero = refl
length-key_hashes keys klen i (suc n) = ap suc (length-key_hashes keys klen (i + 1) n)

bloom_hash_sixteen : (key : List ℕ) → bloom_hash key 16 ≡ hash16 key
unfolding bloom_hash
bloom_hash_sixteen key = refl

-- Four hashes of 16-byte keys, at the indices that `bloom_insert_bulk` writes.
next_four :
    (keys : List ℕ) (i n : ℕ)
    → key_hashes keys 16 i (suc (suc (suc (suc n))))
      ≡ hash16 (drop ((i + 0) * 16) keys)
        ∷ hash16 (drop ((i + 1) * 16) keys)
        ∷ hash16 (drop ((i + 2) * 16) keys)
        ∷ hash16 (drop ((i + 3) * 16) keys)
        ∷ key_hashes keys 16 (i + 4) n
unfolding key_hashes
next_four keys i n =
    simp bloom_hash_sixteen (cc (plus_zero i, plus_two i, plus_three i, plus_four i))
  where
    plus_zero : (i : ℕ) → i + 0 ≡ i
    plus_zero i = omega arith

    plus_two : (i : ℕ) → i + 1 + 1 ≡ i + 2
    plus_two i = omega arith

    plus_three : (i : ℕ) → i + 1 + 1 + 1 ≡ i + 3
    plus_three i = omega arith

    plus_four : (i : ℕ) → i + 1 + 1 + 1 + 1 ≡ i + 4
    plus_four i = omega arith

-- The hash that the batch of keys `i` to `i + 7` takes for key `i + j` of its half.
abbrev hash_at : List ℕ → ℕ → ℕ → ℕ
hash_at keys i j = hash16 (drop ((i + j) * 16) keys)

next_eight :
    (keys : List ℕ) (i n : ℕ)
    → key_hashes keys 16 i (suc (suc (suc (suc (suc (suc (suc (suc n))))))))
      ≡ hash_at keys i 0
        ∷ hash_at keys i 1
        ∷ hash_at keys i 2
        ∷ hash_at keys i 3
        ∷ hash_at keys (i + 4) 0
        ∷ hash_at keys (i + 4) 1
        ∷ hash_at keys (i + 4) 2
        ∷ hash_at keys (i + 4) 3
        ∷ key_hashes keys 16 (i + 8) n
next_eight keys i n =
    let far : i + 4 + 4 ≡ i + 8 = omega arith in
    rw (next_four keys i (suc (suc (suc (suc n)))), next_four keys (i + 4) n, far)

module _ (table : List ℕ) (is_table : IsTable table) (keys : List ℕ) where
  insert_rest_lem :
      (klen i n : ℕ) (b : Bloom)
      → IsValid b
      → insert_rest table keys klen i n b ≡ some (put_all table b (key_hashes keys klen i n))
  unfolding insert_rest key_hashes insert
  insert_rest_lem klen i zero b v = refl
  insert_rest_lem klen i (suc n) b v =
      let h = bloom_hash (drop (i * klen) keys) klen in
      rw (insert_prehash_lem table is_table b h v)
        (insert_rest_lem klen (i + 1) n (put table b h) (put-IsValid table b h v))

  insert_eights_lem :
      (i n : ℕ) (b : Bloom)
      → IsValid b
      → insert_eights table keys i n b ≡ some (put_all table b (key_hashes keys 16 i n))
  unfolding insert_eights
  insert_eights_lem i (suc (suc (suc (suc (suc (suc (suc (suc n)))))))) b v =
      let at : ℕ → ℕ = hash_at keys i in
      let on : ℕ → ℕ = hash_at keys (i + 4) in
      let eight = at 0 ∷ at 1 ∷ at 2 ∷ at 3 ∷ on 0 ∷ on 1 ∷ on 2 ∷ on 3 ∷ [] in
      rw
        (
          insert_batch8_lem table is_table b (at 0) (at 1) (at 2) (at 3) (on 0) (on 1) (on 2) (on 3)
              v,
          next_eight keys i n,
        )
        (insert_eights_lem (i + 8) n (put_all table b eight) (put_all-IsValid table eight b v))
  insert_eights_lem i n b v = insert_rest_lem 16 i n b v

  -- `bloom_insert_bulk` inserts the hash of each key, on the batched path and off it.
  pub insert_bulk_lem :
      (klen n : ℕ) (b : Bloom)
      → IsValid b
      → insert_bulk table b keys klen n ≡ some (put_all table b (key_hashes keys klen 0 n))
  unfolding insert_bulk
  insert_bulk_lem klen n b v = elim (Bool-cases (klen == 16)) [
    | inl e ↦ elim (Bool-cases (leb 8 n)) [
      | inl f ↦ rw (e, f) (rw ((==_iff klen 16).0 e) (insert_eights_lem 0 n b v))
      | inr f ↦ rw (e, f) (insert_rest_lem klen 0 n b v)
    ]
    | inr e ↦ rw e (insert_rest_lem klen 0 n b v)
  ]

  contains_rest_lem :
      (klen i n : ℕ) (b : Bloom) (hits : ℕ)
      → IsValid b
      → hits < 2 ^ 64
      → contains_rest table keys klen i n b hits
        ≡ some (u64 (hits + hits_of table b (key_hashes keys klen i n)))
  unfolding contains_rest key_hashes hits_of contains
  contains_rest_lem klen i zero b hits v lt = ap some (omega arith)
  contains_rest_lem klen i (suc n) b hits v lt =
      let h = bloom_hash (drop (i * klen) keys) klen in
      let q = query table b h in
      let more = hits_of table b (key_hashes keys klen (i + 1) n) in
      rw (contains_prehash_lem table b h is_table v) (
        contains_rest_lem klen (i + 1) n b (count_hit hits q) v (count_hit-lt hits q lt)
        ∙ ap some (count_one hits more q (query-le table b h)))

  contains_eights_lem :
      (i n : ℕ) (b : Bloom) (hits : ℕ)
      → IsValid b
      → hits < 2 ^ 64
      → contains_eights table keys i n b hits
        ≡ some (u64 (hits + hits_of table b (key_hashes keys 16 i n)))
  unfolding contains_eights hits_of
  contains_eights_lem i (suc (suc (suc (suc (suc (suc (suc (suc n)))))))) b hits v lt =
      let at : ℕ → ℕ = hash_at keys i in
      let on : ℕ → ℕ = hash_at keys (i + 4) in
      let eight = at 0 ∷ at 1 ∷ at 2 ∷ at 3 ∷ on 0 ∷ on 1 ∷ on 2 ∷ on 3 ∷ [] in
      rw
        (
          batch_lem table b is_table v (at 0) (at 1) (at 2) (at 3) (on 0) (on 1) (on 2) (on 3),
          batch-popcount table b is_table v (at 0) (at 1) (at 2) (at 3) (on 0) (on 1) (on 2) (on 3),
          next_eight keys i n,
        )
        (contains_eights_lem (i + 8) n b (add64 hits (hits_of table b eight)) v (omega arith)
          ∙ ap some (omega arith))
  contains_eights_lem i n b hits v lt = contains_rest_lem 16 i n b hits v lt

  -- `bloom_contains_bulk` counts the keys that the filter answers 1 for.
  pub contains_bulk_lem :
      (klen n : ℕ) (b : Bloom)
      → IsValid b
      → n < 2 ^ 64
      → contains_bulk table b keys klen n ≡ some (hits_of table b (key_hashes keys klen 0 n))
  unfolding contains_bulk
  contains_bulk_lem klen n b v lt = elim (Bool-cases (klen == 16)) [
    | inl e ↦ elim (Bool-cases (leb 8 n)) [
      | inl f ↦
          rw (e, f)
            (rw ((==_iff klen 16).0 e) (contains_eights_lem 0 n b 0 v (omega arith) ∙ exact 16))
      | inr f ↦ rw (e, f) (contains_rest_lem klen 0 n b 0 v (omega arith) ∙ exact klen)
    ]
    | inr e ↦ rw e (contains_rest_lem klen 0 n b 0 v (omega arith) ∙ exact klen)
  ]
    where
      exact :
          (klen : ℕ)
          → some (u64 (0 + hits_of table b (key_hashes keys klen 0 n)))
            ≡ some (hits_of table b (key_hashes keys klen 0 n))
      exact klen = ap some (
          omega (
            arith,
            hits_of-le table b is_table v (key_hashes keys klen 0 n),
            length-key_hashes keys klen 0 n,
          ))

all_hit :
    (table : List ℕ) (b : Bloom) (hs : List ℕ)
    → ((h : ℕ) → IsIn h hs → query table b h ≡ 1)
    → hits_of table b hs ≡ length hs
unfolding hits_of
all_hit table b [] one = refl
all_hit table b (h ∷ hs) one =
    omega (arith, one h (inl refl), all_hit table b hs (λ g m. one g (inr m)))

-- No false negatives for keys: with a table of the right size and from a valid filter,
-- `bloom_insert_bulk` of `n` keys, `n` below 2^64, does not fault and leaves a valid filter, for
-- which `bloom_contains_bulk` of the same keys returns `n`, and of any `m` keys, `m` below 2^64,
-- returns the number of keys whose hash is answered 1; all this for 16-byte keys, which both take
-- eight at a time, and for keys of any other length.
pub contains_bulk-insert_bulk :
    (table : List ℕ) (b : Bloom) (keys : List ℕ) (klen n : ℕ)
    → IsTable table
    → IsValid b
    → n < 2 ^ 64
    → (b' : Bloom) × (insert_bulk table b keys klen n ≡ some b')
      × IsValid b'
      × (contains_bulk table b' keys klen n ≡ some n)
      × ((other : List ℕ) (olen m : ℕ)
          → m < 2 ^ 64
          → contains_bulk table b' other olen m
            ≡ some (hits_of table b' (key_hashes other olen 0 m)))
contains_bulk-insert_bulk table b keys klen n t v lt =
    let hs = key_hashes keys klen 0 n in
    let b' = put_all table b hs in
    let v' = put_all-IsValid table hs b v in
    let count : hits_of table b' hs ≡ length hs =
      all_hit table b' hs (λ h m. query-put_all table b hs h v m) in
    (
      b',
      insert_bulk_lem table t keys klen n b v,
      v',
      contains_bulk_lem table t keys klen n b' v' lt
          ∙ ap some (count ∙ length-key_hashes keys klen 0 n),
      λ other olen m small. contains_bulk_lem table t other olen m b' v' small,
    )
