-- ===== src/Classic/Filter.antt =====
-- The filter of bloom_classic.c: one bit array of 64-bit words, eight probes for each key. An access
-- out of bounds is `none`.
use quickbloom.Base.{ℕ, zero, suc, ◌+◌, ◌*◌, List, [], ◌∷◌, Option, none, some, ◌>>=◌}
use quickbloom.Base.{ltb, ◌==◌, if◌then◌else◌, length, get_or, set, drop, bit_and, bit_or}
use quickbloom.Machine.{add64, shl64, shr}
use quickbloom.Classic.Hash.{HashPair, bloom_hash_pair, prehash_split}

-- `bits` is the array that the pointer leads to, as words; a null pointer leads to none.
pub record Bloom : Type 0 where
  pub bits : List ℕ
  pub bit_mask : ℕ

abbrev pub k_hashes : ℕ
k_hashes = 8

unfoldable pub set_bit : Bloom → ℕ → Option Bloom
set_bit b p =
    let pos = bit_and p b.bit_mask in
    let w = shr pos 6 in
    if ltb w (length b.bits)
    then some
        (record b { bits = set b.bits w (bit_or (get_or b.bits w 0) (shl64 1 (bit_and pos 63))) })
    else none

unfoldable pub get_bit : Bloom → ℕ → Option ℕ
get_bit b p =
    let pos = bit_and p b.bit_mask in
    let w = shr pos 6 in
    if ltb w (length b.bits)
    then some (bit_and (shr (get_or b.bits w 0) (bit_and pos 63)) 1)
    else none

-- The loop of `insert_with_pair`, with the number of rounds left.
unfoldable pub insert_loop : ℕ → ℕ → ℕ → Bloom → Option Bloom
insert_loop zero pos h2 b = some b
insert_loop (suc n) pos h2 b = set_bit b pos >>= insert_loop n (add64 pos h2) h2

unfoldable pub insert_with_pair : Bloom → HashPair → Option Bloom
insert_with_pair b h = insert_loop k_hashes h.h1 h.h2 b

-- The loop of `contains_with_pair`, with the number of rounds left.
unfoldable pub contains_loop : ℕ → ℕ → ℕ → Bloom → Option ℕ
contains_loop zero pos h2 b = some 1
contains_loop (suc n) pos h2 b =
    let rest = contains_loop n (add64 pos h2) h2 b in
    get_bit b pos >>= λ c. if c == 0 then some 0 else rest

unfoldable pub contains_with_pair : Bloom → HashPair → Option ℕ
contains_with_pair b h = contains_loop k_hashes h.h1 h.h2 b

unfoldable pub insert : Bloom → List ℕ → ℕ → Option Bloom
insert b key len = insert_with_pair b (bloom_hash_pair key len)

unfoldable pub contains : Bloom → List ℕ → ℕ → Option ℕ
contains b key len = contains_with_pair b (bloom_hash_pair key len)

unfoldable pub insert_prehash : Bloom → ℕ → Option Bloom
insert_prehash b h = insert_with_pair b (prehash_split h)

unfoldable pub contains_prehash : Bloom → ℕ → Option ℕ
contains_prehash b h = contains_with_pair b (prehash_split h)

-- `if (...) hits++`.
abbrev pub count_hit : ℕ → ℕ → ℕ
count_hit hits zero = hits
count_hit hits (suc c) = add64 hits 1

module _ (keys : List ℕ) (klen : ℕ) where
  -- From key `i`, with the number of keys left.
  unfoldable pub insert_bulk : ℕ → ℕ → Bloom → Option Bloom
  insert_bulk i zero b = some b
  insert_bulk i (suc left) b = insert b (drop (i * klen) keys) klen >>= insert_bulk (i + 1) left

  unfoldable pub contains_bulk : ℕ → ℕ → Bloom → ℕ → Option ℕ
  contains_bulk i zero b hits = some hits
  contains_bulk i (suc left) b hits = do
    c ← contains b (drop (i * klen) keys) klen
    contains_bulk (i + 1) left b (count_hit hits c)

unfoldable pub insert_prehash_bulk : Bloom → List ℕ → Option Bloom
insert_prehash_bulk b [] = some b
insert_prehash_bulk b (h ∷ hs) = insert_prehash b h >>= λ b'. insert_prehash_bulk b' hs

unfoldable pub contains_prehash_bulk : Bloom → List ℕ → ℕ → Option ℕ
contains_prehash_bulk b [] hits = some hits
contains_prehash_bulk b (h ∷ hs) hits =
    contains_prehash b h >>= λ c. contains_prehash_bulk b hs (count_hit hits c)
