-- ===== src/Krassovsky/Filter.antt =====
-- The filter of bloom_krassovsky.c, one key at a time. `none` is an access out of bounds.
use quickbloom.Base.{ℕ, ◌+◌, ◌-◌, ◌*◌, ◌%◌, ◌^◌, List, Option, none, some, ◌>>=◌, to_int}
use quickbloom.Base.{bit_and, bit_or, bit_xor, drop, get_or, set, length, ltb, ◌==◌, if◌then◌else◌}
use quickbloom.Machine.{u32, u64, shl64, shr, load_le}
use quickbloom.Quickbloom.Hash as Wymum
use quickbloom.Krassovsky.Table.{log_num_masks, bits_per_mask, rotate_bits}
use quickbloom.Krassovsky.Lanes64.{load64, word_at}

-- `bv` is the array that the pointer leads to, as 64-bit words.
pub record Bloom : Type 0 where
  pub bv : List ℕ
  pub num_blocks : ℕ
  pub num_blocks_mask : ℕ

unfoldable pub hash16 : List ℕ → ℕ
hash16 key =
    let a = load_le 8 key in
    let b = load_le 8 (drop 8 key) in let r = a * b % 2 ^ 128 in bit_xor (u64 r) (u64 (shr r 64))

-- The function is, line for line, the one of quickbloom.c.
abbrev pub fasthash64_var : List ℕ → ℕ → ℕ
fasthash64_var = Wymum.fasthash64_var

unfoldable pub bloom_hash : List ℕ → ℕ → ℕ
bloom_hash key len = if len == 16 then hash16 key else fasthash64_var key len

-- From the eight bytes of the table.
unfoldable pub rotated_mask : ℕ → ℕ → ℕ → ℕ
rotated_mask raw idx h =
    let unrot = bit_and (shr raw (bit_and idx 7)) (2 ^ bits_per_mask - 1) in
    let rot = u32 (bit_and (shr h log_num_masks) (2 ^ rotate_bits - 1)) in
    let up = shl64 unrot rot in
    let down = if rot == 0 then 0 else shr unrot (64 - rot) in bit_or up down

unfoldable pub construct_mask_scalar : List ℕ → ℕ → Option ℕ
unfolding rotated_mask
construct_mask_scalar table h = do
  let idx = u32 (bit_and h (2 ^ log_num_masks - 1))
  raw ← load64 table (shr idx 3)
  some (rotated_mask raw idx h)

unfoldable pub block_idx_scalar : Bloom → ℕ → ℕ
block_idx_scalar b h = bit_and (shr h (log_num_masks + rotate_bits)) b.num_blocks_mask

-- `bv[i] |= mask`
unfoldable pub or_word : List ℕ → ℕ → ℕ → Option (List ℕ)
or_word bv i mask =
    if ltb i (length bv) then some (set bv i (bit_or (get_or bv i 0) mask)) else none

unfoldable pub insert_prehash : List ℕ → Bloom → ℕ → Option Bloom
insert_prehash table b h = do
  mask ← construct_mask_scalar table h
  bv ← or_word b.bv (block_idx_scalar b h) mask
  some (record b { bv = bv })

unfoldable pub contains_prehash : List ℕ → Bloom → ℕ → Option ℕ
contains_prehash table b h = do
  mask ← construct_mask_scalar table h
  word ← word_at b.bv (block_idx_scalar b h)
  some (to_int (bit_and word mask == mask))

unfoldable pub insert : List ℕ → Bloom → List ℕ → ℕ → Option Bloom
insert table b key len = insert_prehash table b (bloom_hash key len)

unfoldable pub contains : List ℕ → Bloom → List ℕ → ℕ → Option ℕ
contains table b key len = contains_prehash table b (bloom_hash key len)
