-- ===== src/Krassovsky/Mask.antt =====
-- The mask of a hash: that the table is never read out of bounds, and that the AVX2 construction
-- gives the mask of the scalar one in each lane.
use quickbloom.Base.{ℕ, ◌+◌, ◌-◌, ◌%◌, ◌^◌, ◌<◌, ◌≡◌, arith, ap}
use quickbloom.Base.{List, [], ◌∷◌, some, length, drop, bit_and, bit_or, le→leb, lt→ltb, ◌==◌}
use quickbloom.Base.{if◌then◌else◌, ℕ_discrete}
use quickbloom.Bits.{bit_and_mask}
use quickbloom.Machine.{u32, sub64, shl64, shr, load_le}
use quickbloom.Krassovsky.Table.{log_num_masks, bits_per_mask, rotate_bits, mask_bytes}
use quickbloom.Krassovsky.Lanes64.{load64, srlv64, sllv64}
use quickbloom.Krassovsky.Filter.{rotated_mask, construct_mask_scalar}
use quickbloom.Krassovsky.Batch.{construct_mask_avx2}

-- The table has its size.
abbrev pub IsTable : List ℕ → Type 0
IsTable table = length table ≡ mask_bytes

-- The eight bytes that the low ten bits of a hash select.
abbrev pub raw_bytes : List ℕ → ℕ → ℕ
raw_bytes table h = load_le 8 (drop (shr (bit_and h 1023) 3) table)

-- The mask of a hash.
unfoldable pub mask_of : List ℕ → ℕ → ℕ
mask_of table h = rotated_mask (raw_bytes table h) (bit_and h 1023) h

low_ten : (h : ℕ) → bit_and h 1023 ≡ h % 1024
low_ten h = bit_and_mask 10 h

low_six : (x : ℕ) → bit_and x 63 ≡ x % 64
low_six x = bit_and_mask 6 x

low_three : (x : ℕ) → bit_and x 7 ≡ x % 8
low_three x = bit_and_mask 3 x

load64_lem :
    (table : List ℕ) (h : ℕ)
    → IsTable table
    → load64 table (shr (bit_and h 1023) 3) ≡ some (raw_bytes table h)
unfolding load64
load64_lem table h sized =
    rw (le→leb (shr (bit_and h 1023) 3 + 8) (length table) (omega (arith, low_ten h, sized)))

-- The scalar construction stays inside the table.
pub construct_mask_scalar_lem :
    (table : List ℕ) (h : ℕ)
    → IsTable table
    → construct_mask_scalar table h ≡ some (mask_of table h)
unfolding construct_mask_scalar mask_of
construct_mask_scalar_lem table h sized =
    let small : u32 (bit_and h 1023) ≡ bit_and h 1023 = omega (arith, low_ten h) in
    rw (small, load64_lem table h sized)

-- One lane of the AVX2 construction, from the eight bytes.
abbrev lane : ℕ → ℕ → ℕ → ℕ
lane raw idx h =
    let unrot = bit_and (srlv64 raw (bit_and idx 7)) (2 ^ bits_per_mask - 1) in
    let rot = bit_and (shr h log_num_masks) (2 ^ rotate_bits - 1) in
    bit_or (sllv64 unrot rot) (srlv64 unrot (sub64 64 rot))

turned :
    (x rot : ℕ) → rot < 64 → srlv64 x (sub64 64 rot) ≡ (if rot == 0 then 0 else shr x (64 - rot))
turned x rot lt = elim (ℕ_discrete rot 0) [
  | yes e ↦ rw e
  | no ne ↦
      let back : sub64 64 rot ≡ 64 - rot = omega arith in
      rw (back, lt→ltb (64 - rot) 64 (omega arith)) (ground arith)
]

lane_lem : (raw idx h : ℕ) → lane raw idx h ≡ rotated_mask raw idx h
unfolding rotated_mask
lane_lem raw idx h =
    let seven : bit_and idx 7 < 64 = omega (arith, low_three idx) in
    let six : bit_and (shr h 10) 63 < 64 = omega (arith, low_six (shr h 10)) in
    let wide : u32 (bit_and (shr h 10) 63) ≡ bit_and (shr h 10) 63 = omega arith in
    rw (wide, lt→ltb (bit_and idx 7) 64 seven, lt→ltb (bit_and (shr h 10) 63) 64 six)
      (ap
        (λ d.
          bit_or (shl64 (bit_and (shr raw (bit_and idx 7)) (2 ^ 57 - 1)) (bit_and (shr h 10) 63)) d)
        (turned (bit_and (shr raw (bit_and idx 7)) (2 ^ 57 - 1)) (bit_and (shr h 10) 63) six))

-- The AVX2 construction stays inside the table too, and gives the four masks.
pub construct_mask_avx2_lem :
    (table : List ℕ) (h0 h1 h2 h3 : ℕ)
    → IsTable table
    → construct_mask_avx2 table (h0 ∷ h1 ∷ h2 ∷ h3 ∷ [])
      ≡ some (mask_of table h0 ∷ mask_of table h1 ∷ mask_of table h2 ∷ mask_of table h3 ∷ [])
unfolding construct_mask_avx2 mask_of
construct_mask_avx2_lem table h0 h1 h2 h3 sized = rw (
  load64_lem table h0 sized,
  load64_lem table h1 sized,
  load64_lem table h2 sized,
  load64_lem table h3 sized,
  ← lane_lem (raw_bytes table h0) (bit_and h0 1023) h0,
  ← lane_lem (raw_bytes table h1) (bit_and h1 1023) h1,
  ← lane_lem (raw_bytes table h2) (bit_and h2 1023) h2,
  ← lane_lem (raw_bytes table h3) (bit_and h3 1023) h3,
)

-- With a table of the right size neither `construct_mask_scalar` nor `construct_mask_avx2` reads
-- out of bounds, and the four lanes of `construct_mask_avx2` are what `construct_mask_scalar`
-- returns for the four hashes.
pub construct_mask_avx2-scalar :
    (table : List ℕ) (h0 h1 h2 h3 : ℕ)
    → IsTable table
    → (m0 : ℕ) × (m1 : ℕ) × (m2 : ℕ) × (m3 : ℕ) × (construct_mask_scalar table h0 ≡ some m0)
      × (construct_mask_scalar table h1 ≡ some m1)
      × (construct_mask_scalar table h2 ≡ some m2)
      × (construct_mask_scalar table h3 ≡ some m3)
      × (construct_mask_avx2 table (h0 ∷ h1 ∷ h2 ∷ h3 ∷ []) ≡ some (m0 ∷ m1 ∷ m2 ∷ m3 ∷ []))
construct_mask_avx2-scalar table h0 h1 h2 h3 sized = (
  mask_of table h0,
  mask_of table h1,
  mask_of table h2,
  mask_of table h3,
  construct_mask_scalar_lem table h0 sized,
  construct_mask_scalar_lem table h1 sized,
  construct_mask_scalar_lem table h2 sized,
  construct_mask_scalar_lem table h3 sized,
  construct_mask_avx2_lem table h0 h1 h2 h3 sized,
)
