-- ===== src/Quickbloom/Filter.antt =====
-- `bloom_t`, the mask of a hash, the block of a hash, and `log2_pow2`.
use quickbloom.Base.{ℕ, zero, suc, ◌+◌, ◌*◌, ◌^◌, List, ltb, if◌then◌else◌, Option, none, some}
use quickbloom.Machine.{u32, shr, set_epi32, set1_epi32, mullo_epi32, srli_epi32, sllv_epi32}

-- `bits` is the array that the pointer leads to, as 32-bit words.
pub record Bloom : Type 0 where
  pub bits : List ℕ
  pub nblocks_mask : ℕ
  pub idx_shift : ℕ

abbrev pub salt : List ℕ
salt =
    set_epi32 0x5c6bfb31 0x9efc4947 0x2df1424b 0x705495c7 0xa2b7289d 0x8824ad5b 0x44974d91
      0x47b6137b

unfoldable pub mask_for : ℕ → List ℕ
mask_for h32 =
    let hbcast = set1_epi32 h32 in
    let prod = mullo_epi32 hbcast salt in
    let shift = srli_epi32 prod 27 in let ones = set1_epi32 1 in sllv_epi32 ones shift

-- The block's first word, counted from `bits`.
unfoldable pub block_for : Bloom → ℕ → ℕ
block_for b h64 = let h32 = u32 (shr h64 32) in let idx = shr h32 b.idx_shift in idx * 8

-- The loop of `log2_pow2`, on fuel: `none` means that it ran out.
unfoldable pub log2_loop : ℕ → ℕ → ℕ → Option ℕ
log2_loop zero n k = none
log2_loop (suc fuel) n k =
    let rest = log2_loop fuel n (k + 1) in if ltb (2 ^ k) n then rest else some k

-- 64 rounds are enough for every `n` up to 2^63; past that the shift itself is undefined.
unfoldable pub log2_pow2 : ℕ → Option ℕ
unfolding log2_loop
log2_pow2 n = log2_loop 64 n 0
