-- ===== src/Impala/Filter.antt =====
-- The filter of comparisons/bloom_impala.c. An access out of bounds is `none`.
use quickbloom.Base.{ℕ, zero, suc, ◌+◌, ◌*◌, ◌/◌, ◌^◌, List, [], ◌∷◌, Option, none, some}
use quickbloom.Base.{
  ◌>>=◌, ltb, ◌==◌, if◌then◌else◌, map, length, get_or, set, drop, bit_or, bit_and,
}
use quickbloom.Machine.{u32, mul64, shr}
use quickbloom.Machine.{add64}
use quickbloom.Impala.Xxh64.{xxh64}

-- `bits` is the array that the pointer leads to, as words; a null pointer leads to none.
pub record Bloom : Type 0 where
  pub bits : List ℕ
  pub nblocks : ℕ

abbrev pub sbbf_salt : List ℕ
sbbf_salt =
    0x47b6137b ∷ 0x44974d91 ∷ 0x8824ad5b ∷ 0xa2b7289d ∷ 0x705495c7 ∷ 0x2df1424b ∷ 0x9efc4947
    ∷ 0x5c6bfb31 ∷ []

unfoldable pub block_mask : ℕ → List ℕ
block_mask h32 = map (λ s. let bit = u32 (h32 * s) / 2 ^ 27 in u32 (1 * 2 ^ bit)) sbbf_salt

unfoldable pub block_for : Bloom → ℕ → ℕ
block_for b h64 = let hi = u32 (shr h64 32) in let idx = shr (mul64 hi b.nblocks) 32 in idx * 8

-- `for (i = 0; i < 8; i++) blk[i] |= mask[i];`, over what is left of the mask.
unfoldable pub or_words : List ℕ → ℕ → List ℕ → Option (List ℕ)
or_words mem p [] = some mem
or_words mem p (m ∷ ms) =
    let rest = or_words (set mem p (bit_or (get_or mem p 0) m)) (p + 1) ms in
    if ltb p (length mem) then rest else none

-- `for (i = 0; i < 8; i++) if ((blk[i] & mask[i]) != mask[i]) return 0;`
unfoldable pub has_words : List ℕ → ℕ → List ℕ → Option ℕ
has_words mem p [] = some 1
has_words mem p (m ∷ ms) =
    let rest = has_words mem (p + 1) ms in
    if ltb p (length mem) then if bit_and (get_or mem p 0) m == m then rest else some 0 else none

unfoldable pub insert_prehash : Bloom → ℕ → Option Bloom
unfolding or_words block_for block_mask
insert_prehash b h = do
  let blk = block_for b h
  mem ← or_words b.bits blk (block_mask (u32 h))
  some (record b { bits = mem })

unfoldable pub contains_prehash : Bloom → ℕ → Option ℕ
unfolding has_words block_for block_mask
contains_prehash b h = do let blk = block_for b h; has_words b.bits blk (block_mask (u32 h))

unfoldable pub insert : Bloom → List ℕ → ℕ → Option Bloom
unfolding or_words block_for block_mask
insert b key len = do
  let h = xxh64 key len 0
  let blk = block_for b h
  mem ← or_words b.bits blk (block_mask (u32 h))
  some (record b { bits = mem })

unfoldable pub contains : Bloom → List ℕ → ℕ → Option ℕ
unfolding has_words block_for block_mask
contains b key len = do
  let h = xxh64 key len 0
  let blk = block_for b h
  has_words b.bits blk (block_mask (u32 h))

-- `if (c) hits++`.
abbrev pub count_hit : ℕ → ℕ → ℕ
count_hit hits zero = hits
count_hit hits (suc c) = add64 hits 1

module _ (keys : List ℕ) (klen : ℕ) where
  -- From key `i`, with the number of keys left.
  unfoldable pub insert_bulk : ℕ → ℕ → Bloom → Option Bloom
  insert_bulk i zero b = some b
  insert_bulk i (suc left) b = insert b (drop (i * klen) keys) klen >>= insert_bulk (i + 1) left

  unfoldable pub contains_bulk : ℕ → ℕ → Bloom → ℕ → Option ℕ
  contains_bulk i zero b hits = some hits
  contains_bulk i (suc left) b hits = do
    c ← contains b (drop (i * klen) keys) klen
    contains_bulk (i + 1) left b (count_hit hits c)

unfoldable pub insert_prehash_bulk : Bloom → List ℕ → Option Bloom
insert_prehash_bulk b [] = some b
insert_prehash_bulk b (h ∷ hs) = insert_prehash b h >>= λ b'. insert_prehash_bulk b' hs

unfoldable pub contains_prehash_bulk : Bloom → List ℕ → ℕ → Option ℕ
contains_prehash_bulk b [] hits = some hits
contains_prehash_bulk b (h ∷ hs) hits =
    contains_prehash b h >>= λ c. contains_prehash_bulk b hs (count_hit hits c)
