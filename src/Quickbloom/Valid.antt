-- ===== src/Quickbloom/Valid.antt =====
-- The representation invariant of `bloom_t`, and the block of a hash under it.
use quickbloom.Base.{ℕ, ◌+◌, ◌-◌, ◌*◌, ◌/◌, ◌%◌, ◌^◌, ◌≤◌, ◌<◌, ◌≡◌, arith, ap}
use quickbloom.Base.{length, All, pow_pos, div-pow-lt, pow-add, ◌∙◌, sym}
use quickbloom.Machine.{u32, shr, IsWord32}
use quickbloom.Quickbloom.Filter.{Bloom, block_for}
use native.Mathlib.Nat.{mul-div-mul_right}

-- The number of blocks is `2 ^ log`, at most 2^31; the mask, the shift and the array's length
-- agree with it, and the array holds 32-bit words.
pub record IsValid (b : Bloom) : Type 0 where
  pub log : ℕ
  pub log_small : log ≤ 31
  pub masked : b.nblocks_mask + 1 ≡ 2 ^ log
  pub shifted : b.idx_shift + log ≡ 32
  pub sized : length b.bits ≡ 8 * 2 ^ log
  pub words : All IsWord32 b.bits

unfoldable pub nblocks : Bloom → ℕ
nblocks b = b.nblocks_mask + 1

module _ (b : Bloom) (h : ℕ) where
  pub block_for-aligned : block_for b h % 8 ≡ 0
  unfolding block_for
  block_for-aligned = omega arith

  index_in : (v : IsValid b) → u32 (shr h 32) / 2 ^ b.idx_shift < 2 ^ v.log
  index_in v =
      rw (width v)
        (div-pow-lt (u32 (shr h 32)) b.idx_shift 32 (omega (arith, v.shifted)) (omega arith))
    where
      width : (v : IsValid b) → v.log ≡ 32 - b.idx_shift
      width v = omega (arith, v.shifted)

  -- The block of any hash lies inside the array of a valid filter.
  pub block_for-fits : IsValid b → block_for b h + 8 ≤ length b.bits
  unfolding block_for
  block_for-fits v = omega (arith, index_in v, v.sized)

  -- The shift computes the `fastrange` index of the specification, `((h >> 32) * nblocks) >> 32`.
  pub block_for-fastrange : IsValid b → block_for b h ≡ u32 (shr h 32) * nblocks b / 2 ^ 32 * 8
  unfolding block_for nblocks
  block_for-fastrange v =
      ap (λ k. k * 8)
        (sym (mul-div-mul_right (u32 (shr h 32)) (2 ^ b.idx_shift) (pow_pos v.log))
          ∙ rw v.masked (ap (λ d. u32 (shr h 32) * 2 ^ v.log / d) whole))
    where
      whole : 2 ^ b.idx_shift * 2 ^ v.log ≡ 2 ^ 32
      whole = sym (pow-add b.idx_shift v.log) ∙ ap (λ k. 2 ^ k) v.shifted
