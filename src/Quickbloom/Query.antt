-- ===== src/Quickbloom/Query.antt =====
-- What a query reads: it answers 1 exactly when the eight bits of the hash are set.
use quickbloom.Base.{ℕ, ◌+◌, ◌^◌, ◌≤◌, ◌<◌, ◌≡◌, ◌∙◌, arith, List, some, to_int}
use quickbloom.Base.{get_or, take, drop, dec_lt, All-get_or, get_or-out, ap, ◌↔◌, pow_mono, sym}
use quickbloom.Base.{length, All, All-take, All-drop}
use quickbloom.Bits.{bit_at, pow-covered_iff, complement-bit_and-eq-zero_iff}
use quickbloom.Machine.{u32, IsWord32, testc_si256, andnot32, zip_with, all_zero_iff}
use quickbloom.Machine.{load_si256_lem, lane-load, length-load, get_or-zip_with, length-zip_with}
use quickbloom.Quickbloom.Filter.{Bloom, mask_for, block_for}
use quickbloom.Quickbloom.Probe.{contains_prehash}
use quickbloom.Quickbloom.Mask.{position, position-lt, get_or-mask_for, length-mask_for}
use quickbloom.Quickbloom.Valid.{IsValid, block_for-aligned, block_for-fits}
use quickbloom.Quickbloom.Insert.{bit}

-- All eight bits of `h` are set.
abbrev pub Covered : Bloom → ℕ → Type 0
Covered b h = (i : ℕ) → i < 8 → bit b (block_for b h + i) (position (u32 h) i) ≡ 1

-- The answer of a query that does not fault.
unfoldable pub query : Bloom → ℕ → ℕ
query b h = testc_si256 (take 8 (drop (block_for b h) b.bits)) (mask_for (u32 h))

pub query-le : (b : Bloom) (h : ℕ) → query b h ≤ 1
unfolding query
query-le b h = ground arith

-- A word has the bit at a position when the complement of the word does not meet it.
lane_iff : (word k : ℕ) → word < 2 ^ 32 → k < 32 → (andnot32 word (2 ^ k) ≡ 0) ↔ (bit_at word k ≡ 1)
lane_iff word k lt small =
    let here =
      complement-bit_and-eq-zero_iff 32 word (2 ^ k) lt
        (omega (arith, pow_mono k 31 (omega arith))) in
    let there = pow-covered_iff k word in (λ e. there.0 (here.0 e), λ e. here.1 (there.1 e))

module _ (reg : List ℕ) (h32 : ℕ) (sized : length reg ≡ 8) (words : All IsWord32 reg) where
  lane-andnot :
      (i : ℕ)
      → i < 8
      → get_or (zip_with andnot32 reg (mask_for h32)) i 0
        ≡ andnot32 (get_or reg i 0) (2 ^ position h32 i)
  lane-andnot i p = rw (
    get_or-zip_with andnot32 reg (mask_for h32) i (rw sized p) (rw (length-mask_for h32) p),
    get_or-mask_for h32 i p,
  )

  no_lane : (i : ℕ) → 8 ≤ i → get_or (zip_with andnot32 reg (mask_for h32)) i 0 ≡ 0
  no_lane i p =
      get_or-out 0 (zip_with andnot32 reg (mask_for h32)) i
        (omega (arith, length-zip_with andnot32 reg (mask_for h32), length-mask_for h32))

  all_lanes_iff :
      ((i : ℕ) → get_or (zip_with andnot32 reg (mask_for h32)) i 0 ≡ 0)
      ↔ ((i : ℕ) → i < 8 → bit_at (get_or reg i 0) (position h32 i) ≡ 1)
  all_lanes_iff = (
    λ zero i p. (lane i).0 (sym (lane-andnot i p) ∙ zero i),
    λ c i. elim (dec_lt i 8) [
      | yes p ↦ lane-andnot i p ∙ (lane i).1 (c i p)
      | no p ↦ no_lane i (omega arith)
    ],
  )
    where
      lane :
          (i : ℕ)
          → (andnot32 (get_or reg i 0) (2 ^ position h32 i) ≡ 0)
            ↔ (bit_at (get_or reg i 0) (position h32 i) ≡ 1)
      lane i =
          lane_iff (get_or reg i 0) (position h32 i)
            (All-get_or IsWord32 reg i 0 words (omega arith)) (position-lt h32 i)

  -- The test of a register against a mask answers 1 exactly when each lane has its bit.
  pub testc_si256-mask_for :
      (testc_si256 reg (mask_for h32) ≡ 1)
      ↔ ((i : ℕ) → i < 8 → bit_at (get_or reg i 0) (position h32 i) ≡ 1)
  testc_si256-mask_for = (
    λ e. all_lanes_iff.0 ((all_zero_iff (zip_with andnot32 reg (mask_for h32))).0 (ground arith)),
    λ c. ap to_int ((all_zero_iff (zip_with andnot32 reg (mask_for h32))).1 (all_lanes_iff.1 c)),
  )

module _ (b : Bloom) (h : ℕ) (v : IsValid b) where
  pub contains_prehash_lem : contains_prehash b h ≡ some (query b h)
  unfolding contains_prehash query
  contains_prehash_lem =
      rw (load_si256_lem b.bits (block_for b h) (block_for-aligned b h) (block_for-fits b h v))

  -- A query answers 1 exactly when the eight bits of the hash are set.
  pub query_iff : (query b h ≡ 1) ↔ Covered b h
  unfolding query
  query_iff =
      let load = lane-load b.bits (block_for b h) (block_for-aligned b h) (block_for-fits b h v) in
      let test =
        testc_si256-mask_for (take 8 (drop (block_for b h) b.bits)) (u32 h)
          (length-load b.bits (block_for b h) (block_for-aligned b h) (block_for-fits b h v))
          (All-take IsWord32 8 (drop (block_for b h) b.bits)
            (All-drop IsWord32 (block_for b h) b.bits v.words)) in
      (λ e i p. rw (load i p) at (test.0 e i p), λ c. test.1 (λ i p. rw (load i p) (c i p)))
