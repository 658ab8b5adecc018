-- ===== src/Krassovsky/Membership.antt =====
-- What a client may rely on: the answers for prehashed keys, one at a time and eight at a time.
use quickbloom.Base.{ℕ, ◌≤◌, ◌<◌, ◌≡◌, ◌∙◌, arith, ap}
use quickbloom.Base.{List, some, to_int, get_or, bit_and, ◌==◌, ==_iff, lt→ltb, length}
use quickbloom.Base.{◌⊎◌, inr, ◌↔◌, Any, Any-map, IsIn, ℕ_discrete}
use quickbloom.Bits.{bit_at, bit_at-lt, bit_and-eq_iff}
use quickbloom.Krassovsky.Filter.{Bloom, block_idx_scalar, contains_prehash}
use quickbloom.Krassovsky.Lanes64.{word_at}
use quickbloom.Krassovsky.Batch.{insert_prehash_bulk}
use quickbloom.Krassovsky.Mask.{IsTable, mask_of, construct_mask_scalar_lem}
use quickbloom.Krassovsky.Insert.{
  IsValid, bit, block_idx-lt, put_all, put_all-IsValid, block_idx-put_all, Sets, bit-put_all_iff,
  insert_prehash_bulk_lem,
}

-- The answer for a hash.
unfoldable pub query : List ℕ → Bloom → ℕ → ℕ
query table b h =
    to_int (bit_and (get_or b.bv (block_idx_scalar b h) 0) (mask_of table h) == mask_of table h)

pub query-le : (table : List ℕ) (b : Bloom) (h : ℕ) → query table b h ≤ 1
unfolding query
query-le table b h = ground arith

pub word_at_lem :
    (b : Bloom) (h : ℕ)
    → IsValid b
    → word_at b.bv (block_idx_scalar b h) ≡ some (get_or b.bv (block_idx_scalar b h) 0)
unfolding word_at
word_at_lem b h v = rw (lt→ltb (block_idx_scalar b h) (length b.bv) (block_idx-lt b h v))

pub contains_prehash_lem :
    (table : List ℕ) (b : Bloom) (h : ℕ)
    → IsTable table
    → IsValid b
    → contains_prehash table b h ≡ some (query table b h)
unfolding contains_prehash query
contains_prehash_lem table b h t v = rw (construct_mask_scalar_lem table h t, word_at_lem b h v)

-- Bit `j` of the block that `h` selects was set, or one of the hashes `hs` sets it.
abbrev pub Explained : List ℕ → Bloom → List ℕ → ℕ → ℕ → Type 0
Explained table b hs h j =
    (bit b (block_idx_scalar b h) j ≡ 1) ⊎ Any (Sets table b (block_idx_scalar b h) j) hs

pub query_iff :
    (table : List ℕ) (b : Bloom) (h : ℕ)
    → (query table b h ≡ 1)
      ↔ ((j : ℕ) → bit_at (mask_of table h) j ≡ 1 → bit b (block_idx_scalar b h) j ≡ 1)
unfolding query
query_iff table b h =
    let word : ℕ = get_or b.bv (block_idx_scalar b h) 0 in
    let mask : ℕ = mask_of table h in
    let all = bit_and-eq_iff word mask in
    let test = ==_iff (bit_and word mask) mask in
    (
      λ e j one. omega (arith, all.0 (test.0 (ground arith)) j, bit_at-lt word j),
      λ covers. ap to_int (
          test.1
            (all.1 (λ j. le_of (bit_at mask j) (bit_at word j) (bit_at-lt mask j) (covers j)))),
    )
  where
    le_of : (x y : ℕ) → x < 2 → (x ≡ 1 → y ≡ 1) → x ≤ y
    le_of x y lt f = elim (ℕ_discrete x 1) [
      | yes e ↦ let one = f e in omega arith
      | no ne ↦ omega arith
    ]

-- With a table of the right size and from a valid filter, `bloom_insert_prehash_bulk` does not
-- fault and leaves a valid filter; a following `bloom_contains_prehash` does not fault, answers 0
-- or 1, and answers 1 exactly when each bit of the hash's mask was set in its block before or is
-- set there by the mask of an inserted hash of the same block.
pub contains-insert_batched :
    (table : List ℕ) (b : Bloom) (hs : List ℕ) (h : ℕ)
    → IsTable table
    → IsValid b
    → (b' : Bloom) × (c : ℕ) × (insert_prehash_bulk table b hs ≡ some b')
      × IsValid b'
      × (contains_prehash table b' h ≡ some c)
      × (c ≤ 1)
      × ((c ≡ 1) ↔ ((j : ℕ) → bit_at (mask_of table h) j ≡ 1 → Explained table b hs h j))
contains-insert_batched table b hs h t v =
    let b' = put_all table b hs in
    let v' = put_all-IsValid table hs b v in
    let q = query_iff table b' h in
    let same = block_idx-put_all table hs b h in
    let bits = λ (j : ℕ). bit-put_all_iff table hs b (block_idx_scalar b h) j v in
    (
      b',
      query table b' h,
      insert_prehash_bulk_lem table t hs b v,
      v',
      contains_prehash_lem table b' h t v',
      query-le table b' h,
      (
        λ one j set. (bits j).0 (rw same at (q.0 one j set)),
        λ all. q.1 (λ j set. rw same ((bits j).1 (all j set))),
      ),
    )

-- A hash among the inserted ones is answered 1.
pub query-put_all :
    (table : List ℕ) (b : Bloom) (hs : List ℕ) (h : ℕ)
    → IsValid b
    → IsIn h hs
    → query table (put_all table b hs) h ≡ 1
query-put_all table b hs h v m = (query_iff table (put_all table b hs) h).1 (λ j set.
    rw (block_idx-put_all table hs b h)
      ((bit-put_all_iff table hs b (block_idx_scalar b h) j v).1 (inr (own j set))))
  where
    own : (j : ℕ) → bit_at (mask_of table h) j ≡ 1 → Any (Sets table b (block_idx_scalar b h) j) hs
    own j set =
        Any-map (λ g. g ≡ h) (Sets table b (block_idx_scalar b h) j)
          (λ g e. (ap (λ k. block_idx_scalar b k) e, ap (λ k. bit_at (mask_of table k) j) e ∙ set))
          hs m
