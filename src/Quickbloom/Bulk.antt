-- ===== src/Quickbloom/Bulk.antt =====
-- The bulk operations: four keys at a time where the fast path applies, then one at a time. The
-- number matched on is the number of keys left, `n - i`.
use quickbloom.Base.{ℕ, zero, suc, ◌+◌, ◌*◌, ◌>>=◌, List, [], ◌∷◌, Option, some, drop}
use quickbloom.Base.{◌==◌, if◌then◌else◌}
use quickbloom.Machine.{u32, load_si256, testc_si256, add64}
use quickbloom.Quickbloom.Filter.{Bloom, mask_for, block_for}
use quickbloom.Quickbloom.Hash.{hash16}
use quickbloom.Quickbloom.Probe.{apply, insert, contains, insert_prehash, contains_prehash}

-- `if (c) hits++`, on a `size_t`.
abbrev pub count_hit : ℕ → ℕ → ℕ
count_hit hits zero = hits
count_hit hits (suc c) = add64 hits 1

-- One round of the unrolled loops: all addresses and masks first, then the four updates in order.
unfoldable pub insert_four : Bloom → ℕ → ℕ → ℕ → ℕ → Option Bloom
insert_four b h0 h1 h2 h3 = do
  let p0 = block_for b h0
  let p1 = block_for b h1
  let p2 = block_for b h2
  let p3 = block_for b h3
  let m0 = mask_for (u32 h0)
  let m1 = mask_for (u32 h1)
  let m2 = mask_for (u32 h2)
  let m3 = mask_for (u32 h3)
  mem0 ← apply b.bits p0 m0
  mem1 ← apply mem0 p1 m1
  mem2 ← apply mem1 p2 m2
  mem3 ← apply mem2 p3 m3
  some (record b { bits = mem3 })

-- All four loads come before the tests.
unfoldable pub contains_four : Bloom → ℕ → ℕ → ℕ → ℕ → ℕ → Option ℕ
contains_four b hits h0 h1 h2 h3 = do
  let p0 = block_for b h0
  let p1 = block_for b h1
  let p2 = block_for b h2
  let p3 = block_for b h3
  let m0 = mask_for (u32 h0)
  let m1 = mask_for (u32 h1)
  let m2 = mask_for (u32 h2)
  let m3 = mask_for (u32 h3)
  c0 ← load_si256 b.bits p0
  c1 ← load_si256 b.bits p1
  c2 ← load_si256 b.bits p2
  c3 ← load_si256 b.bits p3
  let hits0 = add64 hits (testc_si256 c0 m0)
  let hits1 = add64 hits0 (testc_si256 c1 m1)
  let hits2 = add64 hits1 (testc_si256 c2 m2)
  some (add64 hits2 (testc_si256 c3 m3))

module _ (keys : List ℕ) (klen : ℕ) where
  -- The last loop of `qb_insert_bulk`, from key `i` with the given number of keys left.
  unfoldable pub insert_each : ℕ → ℕ → Bloom → Option Bloom
  insert_each i zero b = some b
  insert_each i (suc left) b = insert b (drop (i * klen) keys) klen >>= insert_each (i + 1) left

  unfoldable pub contains_each : ℕ → ℕ → Bloom → ℕ → Option ℕ
  contains_each i zero b hits = some hits
  contains_each i (suc left) b hits = do
    c ← contains b (drop (i * klen) keys) klen
    contains_each (i + 1) left b (count_hit hits c)

-- The unrolled loop over 16-byte keys, which goes on to the last loop.
unfoldable pub insert_unrolled : List ℕ → ℕ → ℕ → Bloom → Option Bloom
insert_unrolled keys i (suc (suc (suc (suc left)))) b = do
  b' ←
      insert_four b (hash16 (drop ((i + 0) * 16) keys)) (hash16 (drop ((i + 1) * 16) keys))
        (hash16 (drop ((i + 2) * 16) keys)) (hash16 (drop ((i + 3) * 16) keys))
  insert_unrolled keys (i + 4) left b'
insert_unrolled keys i left b = insert_each keys 16 i left b

unfoldable pub contains_unrolled : List ℕ → ℕ → ℕ → Bloom → ℕ → Option ℕ
contains_unrolled keys i (suc (suc (suc (suc left)))) b hits = do
  hits' ←
      contains_four b hits (hash16 (drop ((i + 0) * 16) keys)) (hash16 (drop ((i + 1) * 16) keys))
        (hash16 (drop ((i + 2) * 16) keys)) (hash16 (drop ((i + 3) * 16) keys))
  contains_unrolled keys (i + 4) left b hits'
contains_unrolled keys i left b hits = contains_each keys 16 i left b hits

unfoldable pub insert_bulk : Bloom → List ℕ → ℕ → ℕ → Option Bloom
insert_bulk b keys klen n =
    if klen == 16 then insert_unrolled keys 0 n b else insert_each keys klen 0 n b

unfoldable pub contains_bulk : Bloom → List ℕ → ℕ → ℕ → Option ℕ
contains_bulk b keys klen n =
    if klen == 16 then contains_unrolled keys 0 n b 0 else contains_each keys klen 0 n b 0

-- The list holds `hashes[i..n)`.
unfoldable pub insert_prehash_each : Bloom → List ℕ → Option Bloom
insert_prehash_each b [] = some b
insert_prehash_each b (h ∷ hs) = do b' ← insert_prehash b h; insert_prehash_each b' hs

unfoldable pub insert_prehash_bulk : Bloom → List ℕ → Option Bloom
insert_prehash_bulk b (h0 ∷ h1 ∷ h2 ∷ h3 ∷ hs) = do
  b' ← insert_four b h0 h1 h2 h3
  insert_prehash_bulk b' hs
insert_prehash_bulk b hs = insert_prehash_each b hs

unfoldable pub contains_prehash_each : Bloom → List ℕ → ℕ → Option ℕ
contains_prehash_each b [] hits = some hits
contains_prehash_each b (h ∷ hs) hits = do
  c ← contains_prehash b h
  contains_prehash_each b hs (count_hit hits c)

unfoldable pub contains_prehash_loop : Bloom → List ℕ → ℕ → Option ℕ
contains_prehash_loop b (h0 ∷ h1 ∷ h2 ∷ h3 ∷ hs) hits = do
  hits' ← contains_four b hits h0 h1 h2 h3
  contains_prehash_loop b hs hits'
contains_prehash_loop b hs hits = contains_prehash_each b hs hits

unfoldable pub contains_prehash_bulk : Bloom → List ℕ → Option ℕ
contains_prehash_bulk b hashes = contains_prehash_loop b hashes 0
