-- ===== src/Quickbloom/Slots.antt =====
-- The eight bits that a hash selects in its block, as slots: slot `32 * w + j` is bit `j` of word `w`.
use quickbloom.Base.{
  ℕ, ◌+◌, ◌-◌, ◌*◌, ◌/◌, ◌%◌, ◌≤◌, ◌<◌, ◌≡◌, arith, true, Bool, ◌&&◌, ◌==◌, ==_iff, leb, ltb, ◌↔◌,
}
use quickbloom.Base.{IsIn, values, values-IsIn}
use quickbloom.Quickbloom.Mask.{position, position-lt}

-- The bit in lane `i` of the block whose first word is `p`.
abbrev pub lane_slot : ℕ → ℕ → ℕ → ℕ
lane_slot p h32 i = (p + i) * 32 + position h32 i

-- Bit `j` of word `w` is one of the eight.
abbrev pub selects : ℕ → ℕ → ℕ → ℕ → Bool
selects p h32 w j = leb p w && ltb w (p + 8) && (position h32 (w - p) == j)

pub word_of : (w j : ℕ) → j < 32 → (w * 32 + j) / 32 ≡ w
word_of w j lt = omega arith

pub place_of : (w j : ℕ) → j < 32 → (w * 32 + j) % 32 ≡ j
place_of w j lt = omega arith

slot_from : (p s k : ℕ) → p ≤ s / 32 → k ≡ s % 32 → (p + (s / 32 - p)) * 32 + k ≡ s
slot_from p s k le e = omega arith

module _ (p h32 s : ℕ) where
  lane_from : selects p h32 (s / 32) (s % 32) ≡ true → (i : ℕ) × (i < 8) × (lane_slot p h32 i ≡ s)
  lane_from t = (
    s / 32 - p,
    ground arith,
    slot_from p s (position h32 (s / 32 - p)) (ground arith)
        (ground (arith, ==_iff (position h32 (s / 32 - p)) (s % 32))),
  )

  pub selects_iff : (selects p h32 (s / 32) (s % 32) ≡ true) ↔ IsIn s (values (lane_slot p h32) 8)
  selects_iff = (
    λ t. (values-IsIn (lane_slot p h32) 8 s).1 (lane_from t),
    λ m.
        let (i, lt, e) = (values-IsIn (lane_slot p h32) 8 s).0 m in
        let small = position-lt h32 i in
        rw (← e, word_of (p + i) (position h32 i) small, place_of (p + i) (position h32 i) small)
          (own i lt),
  )
    where
      lane_index : (p i : ℕ) → p + i - p ≡ i
      lane_index p i = omega arith

      own : (i : ℕ) → i < 8 → selects p h32 (p + i) (position h32 i) ≡ true
      own i lt = let back = lane_index p i in rw back (ground arith)
