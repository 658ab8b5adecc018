-- ===== src/Quickbloom/Header.antt =====
-- The header that `qb_new` and `qb_deserialize` fill in.
use quickbloom.Base.{ℕ, zero, suc, ◌+◌, ◌-◌, ◌*◌, ◌^◌, ◌≤◌, ◌<◌, ◌≡◌, arith, ap, List, some}
use quickbloom.Base.{length, All, dec_lt, pow_mono, pow_pos, pow-step, lt→ltb, le→ltb}
use quickbloom.Machine.{u32, IsWord32}
use quickbloom.Quickbloom.Filter.{Bloom, log2_loop, log2_pow2}
use quickbloom.Quickbloom.Lifecycle.{fill_header}
use quickbloom.Quickbloom.Valid.{IsValid}

log2_loop_lem : (fuel k j : ℕ) → k ≤ 63 → j ≤ k → k < fuel + j → log2_loop fuel (2 ^ k) j ≡ some k
unfolding log2_loop
log2_loop_lem zero k j le p q = absurd (omega arith)
log2_loop_lem (suc fuel) k j le p q = elim (dec_lt j k) [
  | yes more ↦
      rw (lt→ltb (2 ^ j) (2 ^ k) (omega (arith, pow-step j, pow_pos j, pow_mono (suc j) k more)))
        (log2_loop_lem fuel k (j + 1) le (omega arith) (omega arith))
  | no done ↦ let same : j ≡ k = omega arith in rw (same, le→ltb (2 ^ k) (2 ^ k) (omega arith))
]

-- `log2_pow2` ends on every power of two that a `size_t` holds, with its logarithm.
pub log2_pow2_lem : (k : ℕ) → k ≤ 63 → log2_pow2 (2 ^ k) ≡ some k
unfolding log2_pow2
log2_pow2_lem k le = log2_loop_lem 64 k 0 le (omega arith) (omega arith)

-- The filter that the header describes.
unfoldable pub header_of : ℕ → List ℕ → Bloom
header_of k words = record { bits = words; nblocks_mask = 2 ^ k - 1; idx_shift = 32 - k }

pub fill_header_lem :
    (self mem k : ℕ) (words : List ℕ)
    → k ≤ 31
    → fill_header self mem (2 ^ k) words
      ≡ some (record { self = self; mem = mem; filter = header_of k words })
unfolding fill_header header_of
fill_header_lem self mem k words le = rw (log2_pow2_lem k (omega arith)) (
    ap
      (λ i. some (record {
        self = self;
        mem = mem;
        filter = record { bits = words; nblocks_mask = 2 ^ k - 1; idx_shift = i };
      }))
      (shift_back k le))
  where
    shift_back : (k : ℕ) → k ≤ 31 → u32 (32 + 2 ^ 32 - k) ≡ 32 - k
    shift_back k le = omega arith

pub header_of-IsValid :
    (k : ℕ) (words : List ℕ)
    → k ≤ 31
    → length words ≡ 8 * 2 ^ k
    → All IsWord32 words
    → IsValid (header_of k words)
unfolding header_of
header_of-IsValid k words le sized ws = record {
  log = k;
  log_small = le;
  masked = omega (arith, pow_pos k);
  shifted = omega arith;
  sized = sized;
  words = ws;
}
