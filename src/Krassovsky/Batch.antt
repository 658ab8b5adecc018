-- ===== src/Krassovsky/Batch.antt =====
-- Eight keys at a time: the AVX2 construction of the masks, the batched operations, and the bulk
-- functions, which the number of keys left, `n - i`, is matched on in.
use quickbloom.Base.{ℕ, zero, suc, ◌+◌, ◌-◌, ◌*◌, ◌%◌, ◌^◌, List, [], ◌∷◌, Option, some, ◌>>=◌}
use quickbloom.Base.{bit_and, bit_or, drop, get_or, leb, ◌==◌, ◌&&◌, if◌then◌else◌}
use quickbloom.Machine.{add64, shr}
use quickbloom.Krassovsky.Table.{log_num_masks, bits_per_mask, rotate_bits}
use quickbloom.Krassovsky.Lanes64.{
  set1_epi64x, and_si256, or_si256_64, srli_epi64, srlv_epi64, sllv_epi64, sub_epi64, cmpeq_epi64,
  load64, word_at, i64gather, movemask_epi8, popcount,
}
use quickbloom.Krassovsky.Filter.{
  Bloom, hash16, or_word, insert_prehash, contains_prehash, insert, contains,
}

unfoldable pub construct_mask_avx2 : List ℕ → List ℕ → Option (List ℕ)
construct_mask_avx2 table hash = do
  let mask_idx_mask = set1_epi64x (2 ^ log_num_masks - 1)
  let mask_57 = set1_epi64x (2 ^ bits_per_mask - 1)
  let v64 = set1_epi64x 64
  let rot_mask = set1_epi64x (2 ^ rotate_bits - 1)
  let seven = set1_epi64x 7
  let idx = and_si256 hash mask_idx_mask
  let byte_idx = srli_epi64 idx 3
  let bit_idx = and_si256 idx seven
  raw ← i64gather (load64 table) byte_idx
  let unrot = and_si256 (srlv_epi64 raw bit_idx) mask_57
  let rot = and_si256 (srli_epi64 hash log_num_masks) rot_mask
  let up = sllv_epi64 unrot rot
  let down = srlv_epi64 unrot (sub_epi64 v64 rot)
  some (or_si256_64 up down)

unfoldable pub block_idx_avx2 : Bloom → List ℕ → List ℕ
block_idx_avx2 b hash =
    let nbm = set1_epi64x b.num_blocks_mask in
    let idx = srli_epi64 hash (log_num_masks + rotate_bits) in and_si256 idx nbm

-- The four updates of a register: `bv[extract(is, j)] |= extract(ms, j)`, in order.
unfoldable pub or_lanes : List ℕ → List ℕ → List ℕ → Option (List ℕ)
or_lanes bv is ms = do
  bv0 ← or_word bv (get_or is 0 0) (get_or ms 0 0)
  bv1 ← or_word bv0 (get_or is 1 0) (get_or ms 1 0)
  bv2 ← or_word bv1 (get_or is 2 0) (get_or ms 2 0)
  or_word bv2 (get_or is 3 0) (get_or ms 3 0)

-- The two registers hold the eight hashes.
unfoldable pub insert_batch8 : List ℕ → Bloom → List ℕ → List ℕ → Option Bloom
unfolding construct_mask_avx2 block_idx_avx2
insert_batch8 table b h_a h_b = do
  m_a ← construct_mask_avx2 table h_a
  m_b ← construct_mask_avx2 table h_b
  let i_a = block_idx_avx2 b h_a
  let i_b = block_idx_avx2 b h_b
  bv ← or_lanes b.bv i_a m_a
  bv' ← or_lanes bv i_b m_b
  some (record b { bv = bv' })

-- `r |= (uint8_t)(((m >> 8 * j) & 1) << k)`
abbrev pub add_answer : ℕ → ℕ → ℕ → ℕ → ℕ
add_answer r m j k = bit_or r (bit_and (shr m (8 * j)) 1 * 2 ^ k % 256)

-- The eight bits of the result. The source shifts the masks as signed numbers; a single bit is
-- the same in the bit pattern.
unfoldable pub answers : ℕ → ℕ → ℕ
answers m_a m_b =
    let r0 = add_answer 0 m_a 0 0 in
    let r1 = add_answer r0 m_a 1 1 in
    let r2 = add_answer r1 m_a 2 2 in
    let r3 = add_answer r2 m_a 3 3 in
    let r4 = add_answer r3 m_b 0 4 in
    let r5 = add_answer r4 m_b 1 5 in let r6 = add_answer r5 m_b 2 6 in add_answer r6 m_b 3 7

unfoldable pub contains_batch8 : List ℕ → Bloom → List ℕ → List ℕ → Option ℕ
unfolding answers
contains_batch8 table b h_a h_b = do
  m_a ← construct_mask_avx2 table h_a
  m_b ← construct_mask_avx2 table h_b
  let i_a = block_idx_avx2 b h_a
  let i_b = block_idx_avx2 b h_b
  b_a ← i64gather (word_at b.bv) i_a
  b_b ← i64gather (word_at b.bv) i_b
  let c_a = cmpeq_epi64 (and_si256 m_a b_a) m_a
  let c_b = cmpeq_epi64 (and_si256 m_b b_b) m_b
  some (answers (movemask_epi8 c_a) (movemask_epi8 c_b))

-- `if (...) hits++`.
abbrev pub count_hit : ℕ → ℕ → ℕ
count_hit hits zero = hits
count_hit hits (suc c) = add64 hits 1

module _ (table : List ℕ) where
  unfoldable pub insert_each : Bloom → List ℕ → Option Bloom
  insert_each b [] = some b
  insert_each b (h ∷ hs) = insert_prehash table b h >>= λ b'. insert_each b' hs

  -- `bloom_insert_batch8_bulk`, which `bloom_insert_prehash_bulk` forwards to.
  unfoldable pub insert_prehash_bulk : Bloom → List ℕ → Option Bloom
  insert_prehash_bulk b (h0 ∷ h1 ∷ h2 ∷ h3 ∷ h4 ∷ h5 ∷ h6 ∷ h7 ∷ hs) = do
    b' ← insert_batch8 table b (h0 ∷ h1 ∷ h2 ∷ h3 ∷ []) (h4 ∷ h5 ∷ h6 ∷ h7 ∷ [])
    insert_prehash_bulk b' hs
  insert_prehash_bulk b hs = insert_each b hs

  unfoldable pub contains_each : Bloom → List ℕ → ℕ → Option ℕ
  contains_each b [] hits = some hits
  contains_each b (h ∷ hs) hits =
      contains_prehash table b h >>= λ c. contains_each b hs (count_hit hits c)

  -- `bloom_contains_batch8_bulk`, from `hits` on.
  unfoldable pub contains_prehash_bulk : Bloom → List ℕ → ℕ → Option ℕ
  contains_prehash_bulk b (h0 ∷ h1 ∷ h2 ∷ h3 ∷ h4 ∷ h5 ∷ h6 ∷ h7 ∷ hs) hits = do
    r ← contains_batch8 table b (h0 ∷ h1 ∷ h2 ∷ h3 ∷ []) (h4 ∷ h5 ∷ h6 ∷ h7 ∷ [])
    contains_prehash_bulk b hs (add64 hits (popcount 8 r))
  contains_prehash_bulk b hs hits = contains_each b hs hits

-- `bloom_insert` and `bloom_contains` on key `i` and on, with the number of keys left.
module _ (table keys : List ℕ) (klen : ℕ) where
  unfoldable pub insert_rest : ℕ → ℕ → Bloom → Option Bloom
  insert_rest i zero b = some b
  insert_rest i (suc left) b =
      insert table b (drop (i * klen) keys) klen >>= insert_rest (i + 1) left

  unfoldable pub contains_rest : ℕ → ℕ → Bloom → ℕ → Option ℕ
  contains_rest i zero b hits = some hits
  contains_rest i (suc left) b hits = contains table b (drop (i * klen) keys) klen >>= λ c.
      contains_rest (i + 1) left b (count_hit hits c)

-- `hash16(keys + (i + j) * 16)` for four values of `j`.
abbrev pub four_hashes : List ℕ → ℕ → List ℕ
four_hashes keys i =
    hash16 (drop ((i + 0) * 16) keys)
    ∷ hash16 (drop ((i + 1) * 16) keys)
    ∷ hash16 (drop ((i + 2) * 16) keys)
    ∷ hash16 (drop ((i + 3) * 16) keys)
    ∷ []

-- The batched loop over 16-byte keys, which goes on to the last loop.
unfoldable pub insert_eights : List ℕ → List ℕ → ℕ → ℕ → Bloom → Option Bloom
insert_eights table keys i (suc (suc (suc (suc (suc (suc (suc (suc left)))))))) b =
    insert_batch8 table b (four_hashes keys i) (four_hashes keys (i + 4))
    >>= insert_eights table keys (i + 8) left
insert_eights table keys i left b = insert_rest table keys 16 i left b

unfoldable pub contains_eights : List ℕ → List ℕ → ℕ → ℕ → Bloom → ℕ → Option ℕ
contains_eights table keys i (suc (suc (suc (suc (suc (suc (suc (suc left)))))))) b hits =
    contains_batch8 table b (four_hashes keys i) (four_hashes keys (i + 4)) >>= λ r.
    contains_eights table keys (i + 8) left b (add64 hits (popcount 8 r))
contains_eights table keys i left b hits = contains_rest table keys 16 i left b hits

unfoldable pub insert_bulk : List ℕ → Bloom → List ℕ → ℕ → ℕ → Option Bloom
insert_bulk table b keys klen n =
    if klen == 16 && leb 8 n
    then insert_eights table keys 0 n b
    else insert_rest table keys klen 0 n b

unfoldable pub contains_bulk : List ℕ → Bloom → List ℕ → ℕ → ℕ → Option ℕ
contains_bulk table b keys klen n =
    if klen == 16 && leb 8 n
    then contains_eights table keys 0 n b 0
    else contains_rest table keys klen 0 n b 0
