-- ===== src/Quickbloom/Mask.antt =====
-- `mask_for`: one bit in each of the eight words, at the position that the salt gives.
use quickbloom.Base.{ℕ, zero, suc, ◌*◌, ◌/◌, ◌^◌, ◌<◌, ◌≡◌, refl, arith, List, []}
use quickbloom.Base.{◌∷◌, length, get_or, ltb, if◌then◌else◌, lt→ltb, All, pow_mono, map}
use quickbloom.Machine.{u32, IsWord32}
use quickbloom.Quickbloom.Filter.{salt, mask_for}

-- The bit that a 32-bit half of a hash sets in word `i` of its block.
unfoldable pub position : ℕ → ℕ → ℕ
position h32 i = u32 (h32 * get_or salt i 0) / 2 ^ 27

pub position-lt : (h32 i : ℕ) → position h32 i < 32
unfolding position
position-lt h32 i = omega arith

-- Lane `i` of the mask, as the instructions compute it.
lane : ℕ → ℕ
lane x = let n = (if ltb 27 32 then x / 2 ^ 27 else 0) in if ltb n 32 then u32 (1 * 2 ^ n) else 0

lane_lem : (x : ℕ) → x < 2 ^ 32 → lane x ≡ 2 ^ (x / 2 ^ 27)
unfolding lane
lane_lem x h =
    rw (lt→ltb (x / 2 ^ 27) 32 (omega arith))
      (omega (arith, pow_mono (x / 2 ^ 27) 31 (omega arith)))

mask_for-lanes : (h : ℕ) → mask_for h ≡ map (λ s. lane (u32 (h * s))) salt
unfolding mask_for lane
mask_for-lanes h = refl

pub length-mask_for : (h : ℕ) → length (mask_for h) ≡ 8
unfolding mask_for
length-mask_for h = refl

map-lane :
    (h : ℕ) (ss : List ℕ) (i : ℕ)
    → i < length ss
    → get_or (map (λ s. lane (u32 (h * s))) ss) i 0 ≡ 2 ^ (u32 (h * get_or ss i 0) / 2 ^ 27)
map-lane h [] i p = absurd (omega arith)
map-lane h (s ∷ ss) zero p = lane_lem (u32 (h * s)) (omega arith)
map-lane h (s ∷ ss) (suc i) p = map-lane h ss i (omega arith)

-- Lane `i` of the mask is the one bit at `position h i`.
pub get_or-mask_for : (h i : ℕ) → i < 8 → get_or (mask_for h) i 0 ≡ 2 ^ position h i
unfolding position
get_or-mask_for h i p = rw (mask_for-lanes h) (map-lane h salt i p)

map_words : (h : ℕ) (ss : List ℕ) → All IsWord32 (map (λ s. lane (u32 (h * s))) ss)
map_words h [] = tt
map_words h (s ∷ ss) = (
  rw (lane_lem (u32 (h * s)) (omega arith))
      (omega (arith, pow_mono (u32 (h * s) / 2 ^ 27) 31 (omega arith))),
  map_words h ss,
)

pub mask_for-words : (h : ℕ) → All IsWord32 (mask_for h)
mask_for-words h = rw (mask_for-lanes h) (map_words h salt)
