-- ===== src/Quickbloom/Insert.antt =====
-- What an insertion does to the array, bit by bit.
use quickbloom.Base.{ℕ, ◌+◌, ◌-◌, ◌^◌, ◌<◌, ◌≡◌, arith, List, some, max}
use quickbloom.Base.{Bool, ◌&&◌, ◌==◌, ltb, leb, if◌then◌else◌, to_int, length, get_or, All}
use quickbloom.Base.{take, drop, All-take, All-drop, bit_or, ap}
use quickbloom.Bits.{bit_at, bit_at-lt, bit_at-bit_or, bit_at-pow, bit_or-lt}
use quickbloom.Machine.{u32, IsWord32, or_si256, splice, load_si256_lem, store_si256_lem, lane-load}
use quickbloom.Machine.{length-load, length-splice, get_or-splice, All-splice, get_or-zip_with}
use quickbloom.Machine.{length-zip_with, All-zip_with}
use quickbloom.Quickbloom.Filter.{Bloom, mask_for, block_for}
use quickbloom.Quickbloom.Probe.{apply, insert_prehash}
use quickbloom.Quickbloom.Mask.{position, get_or-mask_for, length-mask_for, mask_for-words}
use quickbloom.Quickbloom.Valid.{IsValid, block_for-aligned, block_for-fits}

-- Bit `j` of word `w` of the array.
abbrev pub bit : Bloom → ℕ → ℕ → ℕ
bit b w j = bit_at (get_or b.bits w 0) j

-- The hash `h` sets bit `j` of word `w`.
unfoldable pub touches : Bloom → ℕ → ℕ → ℕ → Bool
touches b h w j =
    let blk = block_for b h in leb blk w && ltb w (blk + 8) && (position (u32 h) (w - blk) == j)

-- The array after an insertion, in one formula.
pub updated : Bloom → ℕ → List ℕ
updated b h =
    let p = block_for b h in splice b.bits p (or_si256 (take 8 (drop p b.bits)) (mask_for (u32 h)))

unfoldable pub put : Bloom → ℕ → Bloom
unfolding updated
put b h = record b { bits = updated b h }

module _ (b : Bloom) (h : ℕ) (v : IsValid b) where
  length-or : length (or_si256 (take 8 (drop (block_for b h) b.bits)) (mask_for (u32 h))) ≡ 8
  length-or = omega (
    arith,
    length-zip_with bit_or (take 8 (drop (block_for b h) b.bits)) (mask_for (u32 h)),
    length-mask_for (u32 h),
    length-load b.bits (block_for b h) (block_for-aligned b h) (block_for-fits b h v),
  )

  pub length-updated : length (updated b h) ≡ length b.bits
  unfolding updated
  length-updated =
      length-splice b.bits (block_for b h) (block_for-aligned b h) (block_for-fits b h v) _
        length-or

  pub or-words : All IsWord32 (or_si256 (take 8 (drop (block_for b h) b.bits)) (mask_for (u32 h)))
  or-words =
      All-zip_with IsWord32 bit_or (λ x y p q. bit_or-lt 32 x y p q) _ _
        (All-take IsWord32 8 (drop (block_for b h) b.bits)
          (All-drop IsWord32 (block_for b h) b.bits v.words))
        (mask_for-words (u32 h))

  updated-words : All IsWord32 (updated b h)
  unfolding updated
  updated-words =
      All-splice b.bits (block_for b h) (block_for-aligned b h) (block_for-fits b h v) IsWord32 _
        v.words or-words

  -- `APPLY` at the block of a hash does not fault.
  pub apply_lem : apply b.bits (block_for b h) (mask_for (u32 h)) ≡ some (updated b h)
  unfolding apply updated
  apply_lem = rw (
    load_si256_lem b.bits (block_for b h) (block_for-aligned b h) (block_for-fits b h v),
    store_si256_lem b.bits (block_for b h) (block_for-aligned b h) (block_for-fits b h v),
  )

  pub insert_prehash_lem : insert_prehash b h ≡ some (put b h)
  unfolding insert_prehash put
  insert_prehash_lem = rw (
    load_si256_lem b.bits (block_for b h) (block_for-aligned b h) (block_for-fits b h v),
    store_si256_lem b.bits (block_for b h) (block_for-aligned b h) (block_for-fits b h v),
  )

  pub put-IsValid : IsValid (put b h)
  unfolding put
  put-IsValid = record {
    log = v.log;
    log_small = v.log_small;
    masked = v.masked;
    shifted = v.shifted;
    sized = omega (arith, length-updated, v.sized);
    words = updated-words;
  }

  -- Lane `i` of the stored register.
  pub lane-or :
      (i : ℕ)
      → i < 8
      → get_or (or_si256 (take 8 (drop (block_for b h) b.bits)) (mask_for (u32 h))) i 0
        ≡ bit_or (get_or b.bits (block_for b h + i) 0) (2 ^ position (u32 h) i)
  lane-or i p = rw (
    get_or-zip_with bit_or (take 8 (drop (block_for b h) b.bits)) (mask_for (u32 h)) i
        (rw (length-load b.bits (block_for b h) (block_for-aligned b h) (block_for-fits b h v)) p)
        (rw (length-mask_for (u32 h)) p),
    lane-load b.bits (block_for b h) (block_for-aligned b h) (block_for-fits b h v) i p,
    get_or-mask_for (u32 h) i p,
  )

  pub word-updated :
      (w : ℕ)
      → get_or (updated b h) w 0 ≡ (
          if leb (block_for b h) w && ltb w (block_for b h + 8)
          then bit_or (get_or b.bits w 0) (2 ^ position (u32 h) (w - block_for b h))
          else get_or b.bits w 0)
  unfolding updated
  word-updated w = ground (
    arith,
    get_or-splice b.bits (block_for b h) (block_for-aligned b h) (block_for-fits b h v)
        (or_si256 (take 8 (drop (block_for b h) b.bits)) (mask_for (u32 h))) w length-or,
    lane-or (w - block_for b h),
    ap (λ k. get_or b.bits k 0) (back w),
  )
    where
      back : (w : ℕ) → block_for b h + (w - block_for b h) ≡ max (block_for b h) w
      back w = omega arith

  -- After an insertion a bit is set if it was, or if the hash sets it.
  pub bit-put : (w j : ℕ) → bit (put b h) w j ≡ max (bit b w j) (to_int (touches b h w j))
  unfolding put touches
  bit-put w j = ground (
    arith,
    word-updated w,
    bit_at-bit_or (get_or b.bits w 0) (2 ^ position (u32 h) (w - block_for b h)) j,
    bit_at-pow (position (u32 h) (w - block_for b h)) j,
    bit_at-lt (get_or b.bits w 0) j,
  )
