-- ===== src/Quickbloom/BulkLaws.antt =====
-- The unrolled bulk operations do what their one-at-a-time loops do, and count exactly.
use quickbloom.Base.{ℕ, zero, suc, ◌+◌, ◌*◌, ◌≡◌, refl, arith, List, [], ◌∷◌}
use quickbloom.Base.{some, drop, ◌==◌, Bool-cases, inl, inr, ==_iff}
use quickbloom.Quickbloom.Filter.{Bloom}
use quickbloom.Quickbloom.Hash.{hash16, bloom_hash}
use quickbloom.Quickbloom.Probe.{insert, contains, insert_prehash, contains_prehash}
use quickbloom.Quickbloom.Bulk.{insert_each, insert_unrolled, insert_bulk}
use quickbloom.Quickbloom.Valid.{IsValid}
use quickbloom.Quickbloom.Insert.{put, put-IsValid, insert_prehash_lem}
use quickbloom.Quickbloom.Batch.{put_all, put_all-IsValid, insert_four_lem}

-- The hashes of keys `i` to `i + n - 1` of a buffer of keys of `klen` bytes.
unfoldable pub key_hashes : List ℕ → ℕ → ℕ → ℕ → List ℕ
key_hashes keys klen i zero = []
key_hashes keys klen i (suc n) =
    bloom_hash (drop (i * klen) keys) klen ∷ key_hashes keys klen (i + 1) n

-- The key operations are the prehash operations at the key's hash.
pub insert-eq-prehash :
    (b : Bloom) (key : List ℕ) (len : ℕ) → insert b key len ≡ insert_prehash b (bloom_hash key len)
unfolding insert insert_prehash
insert-eq-prehash b key len = refl

pub contains-eq-prehash :
    (b : Bloom) (key : List ℕ) (len : ℕ)
    → contains b key len ≡ contains_prehash b (bloom_hash key len)
unfolding contains contains_prehash
contains-eq-prehash b key len = refl

bloom_hash_sixteen : (key : List ℕ) → bloom_hash key 16 ≡ hash16 key
unfolding bloom_hash
bloom_hash_sixteen key = refl

pub insert_each_lem :
    (keys : List ℕ) (klen i n : ℕ) (b : Bloom)
    → IsValid b
    → insert_each keys klen i n b ≡ some (put_all b (key_hashes keys klen i n))
unfolding insert_each key_hashes
insert_each_lem keys klen i zero b v = refl
insert_each_lem keys klen i (suc n) b v =
    let h = bloom_hash (drop (i * klen) keys) klen in
    rw (insert-eq-prehash b (drop (i * klen) keys) klen, insert_prehash_lem b h v)
      (insert_each_lem keys klen (i + 1) n (put b h) (put-IsValid b h v))

-- Four hashes of 16-byte keys, at the indices that the unrolled loop writes.
pub next_four :
    (keys : List ℕ) (i n : ℕ)
    → key_hashes keys 16 i (suc (suc (suc (suc n))))
      ≡ hash16 (drop ((i + 0) * 16) keys)
        ∷ hash16 (drop ((i + 1) * 16) keys)
        ∷ hash16 (drop ((i + 2) * 16) keys)
        ∷ hash16 (drop ((i + 3) * 16) keys)
        ∷ key_hashes keys 16 (i + 4) n
unfolding key_hashes
next_four keys i n =
    simp bloom_hash_sixteen (cc (plus_zero i, plus_two i, plus_three i, plus_four i))
  where
    plus_zero : (i : ℕ) → i + 0 ≡ i
    plus_zero i = omega arith

    plus_two : (i : ℕ) → i + 1 + 1 ≡ i + 2
    plus_two i = omega arith

    plus_three : (i : ℕ) → i + 1 + 1 + 1 ≡ i + 3
    plus_three i = omega arith

    plus_four : (i : ℕ) → i + 1 + 1 + 1 + 1 ≡ i + 4
    plus_four i = omega arith

insert_unrolled_lem :
    (keys : List ℕ) (i n : ℕ) (b : Bloom)
    → IsValid b
    → insert_unrolled keys i n b ≡ some (put_all b (key_hashes keys 16 i n))
unfolding insert_unrolled
insert_unrolled_lem keys i (suc (suc (suc (suc n)))) b v =
    let h0 = hash16 (drop ((i + 0) * 16) keys) in
    let h1 = hash16 (drop ((i + 1) * 16) keys) in
    let h2 = hash16 (drop ((i + 2) * 16) keys) in
    let h3 = hash16 (drop ((i + 3) * 16) keys) in
    rw (insert_four_lem b h0 h1 h2 h3 v, next_four keys i n)
      (insert_unrolled_lem keys (i + 4) n (put_all b (h0 ∷ h1 ∷ h2 ∷ h3 ∷ []))
        (put_all-IsValid (h0 ∷ h1 ∷ h2 ∷ h3 ∷ []) b v))
insert_unrolled_lem keys i zero b v = insert_each_lem keys 16 i zero b v
insert_unrolled_lem keys i n b v = insert_each_lem keys 16 i n b v

-- `qb_insert_bulk` inserts the hash of each key, on the unrolled path and off it.
pub insert_bulk_lem :
    (b : Bloom) (keys : List ℕ) (klen n : ℕ)
    → IsValid b
    → insert_bulk b keys klen n ≡ some (put_all b (key_hashes keys klen 0 n))
unfolding insert_bulk
insert_bulk_lem b keys klen n v = elim (Bool-cases (klen == 16)) [
  | inl e ↦ rw e (rw ((==_iff klen 16).0 e) (insert_unrolled_lem keys 0 n b v))
  | inr e ↦ rw e (insert_each_lem keys klen 0 n b v)
]
