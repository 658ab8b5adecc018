-- ===== src/Quickbloom/Probe.antt =====
-- The single-key and prehash operations. `none` is a fault of the access to memory.
use quickbloom.Base.{ℕ, ◌>>=◌, List, Option, some}
use quickbloom.Machine.{u32, load_si256, store_si256, or_si256, testc_si256}
use quickbloom.Quickbloom.Filter.{Bloom, mask_for, block_for}
use quickbloom.Quickbloom.Hash.{bloom_hash}

-- The macro `APPLY(P, M)`.
unfoldable pub apply : List ℕ → ℕ → List ℕ → Option (List ℕ)
apply mem p m = do c ← load_si256 mem p; store_si256 mem p (or_si256 c m)

unfoldable pub insert : Bloom → List ℕ → ℕ → Option Bloom
insert b key len = do
  let h = bloom_hash key len
  let blk = block_for b h
  let m = mask_for (u32 h)
  cur ← load_si256 b.bits blk
  mem ← store_si256 b.bits blk (or_si256 cur m)
  some (record b { bits = mem })

unfoldable pub contains : Bloom → List ℕ → ℕ → Option ℕ
contains b key len = do
  let h = bloom_hash key len
  let blk = block_for b h
  let m = mask_for (u32 h)
  cur ← load_si256 b.bits blk
  some (testc_si256 cur m)

unfoldable pub insert_prehash : Bloom → ℕ → Option Bloom
insert_prehash b h = do
  let blk = block_for b h
  let m = mask_for (u32 h)
  cur ← load_si256 b.bits blk
  mem ← store_si256 b.bits blk (or_si256 cur m)
  some (record b { bits = mem })

unfoldable pub contains_prehash : Bloom → ℕ → Option ℕ
contains_prehash b h = do
  let blk = block_for b h
  let m = mask_for (u32 h)
  cur ← load_si256 b.bits blk
  some (testc_si256 cur m)
