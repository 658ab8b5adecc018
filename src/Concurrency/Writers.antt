-- ===== src/Concurrency/Writers.antt =====
-- One insertion while its lanes are stored: each word of the array is the one before or the one after
-- the insertion.
use quickbloom.Base.{
  ℕ, ◌+◌, ◌-◌, ◌≤◌, ◌<◌, ◌≡◌, ◌∙◌, refl, sym, arith, List, [], ◌∷◌, leb, ltb, ◌&&◌, if◌then◌else◌,
}
use quickbloom.Base.{
  ◌⊎◌, inl, inr, IsIn, length, get_or, set, length-set, get_or-set_self, get_or-set_ne, get_or_ext,
  ℕ_discrete, dec_lt, bit_or, ◌^◌,
}
use quickbloom.Machine.{u32}
use quickbloom.Quickbloom.Filter.{Bloom, block_for}
use quickbloom.Quickbloom.Mask.{position}
use quickbloom.Quickbloom.Valid.{IsValid, block_for-fits}
use quickbloom.Quickbloom.Insert.{put, word-updated, length-updated, lane-or}
use quickbloom.Concurrency.{register, AllLanes}

module _ (f : Bloom) (h : ℕ) (v : IsValid f) where
  pub length-put : length (put f h).bits ≡ length f.bits
  unfolding put
  length-put = length-updated f h v

  put-outside :
      (w : ℕ)
      → (w < block_for f h) ⊎ (block_for f h + 8 ≤ w)
      → get_or (put f h).bits w 0 ≡ get_or f.bits w 0
  unfolding put
  put-outside w (inl lt) = ground (arith, word-updated f h v w)
  put-outside w (inr le) = ground (arith, word-updated f h v w)

  register-lane :
      (i : ℕ)
      → i < 8
      → get_or (register f f.bits h) i 0 ≡ get_or (put f h).bits (block_for f h + i) 0
  unfolding put register
  register-lane i lt =
      lane-or f h v i lt
      ∙ sym (word-updated f h v (block_for f h + i) ∙ inside (block_for f h) i lt)
    where
      inside :
          (p i : ℕ)
          → i < 8
          → (if leb p (p + i) && ltb (p + i) (p + 8)
              then bit_or (get_or f.bits (p + i) 0) (2 ^ position (u32 h) (p + i - p))
              else get_or f.bits (p + i) 0)
            ≡ bit_or (get_or f.bits (p + i) 0) (2 ^ position (u32 h) i)
      inside p i lt = let back : p + i - p ≡ i = omega arith in rw back (ground arith)

-- The insertion of `h` into `f` is under way: `mem` is the array, `reg` the register, and the given
-- lanes are stored.
pub record IsMid (f : Bloom) (h : ℕ) (mem reg stored : List ℕ) : Type 0 where
  pub same_length : length mem ≡ length f.bits
  pub lanes : (i : ℕ) → i < 8 → get_or reg i 0 ≡ get_or (put f h).bits (block_for f h + i) 0
  pub word :
      (w : ℕ) → (get_or mem w 0 ≡ get_or f.bits w 0) ⊎ (get_or mem w 0 ≡ get_or (put f h).bits w 0)
  pub finished :
      (i : ℕ)
      → i < 8
      → IsIn i stored
      → get_or mem (block_for f h + i) 0 ≡ get_or (put f h).bits (block_for f h + i) 0

pub load-IsMid : (f : Bloom) (h : ℕ) → IsValid f → IsMid f h f.bits (register f f.bits h) []
load-IsMid f h v = record {
  same_length = refl;
  lanes = register-lane f h v;
  word = λ w. inl refl;
  finished = λ i lt n. absurd n;
}

pub store-IsMid :
    (f : Bloom) (h : ℕ) (mem reg stored : List ℕ) (lane : ℕ)
    → IsValid f
    → lane < 8
    → IsMid f h mem reg stored
    → IsMid f h (set mem (block_for f h + lane) (get_or reg lane 0)) reg (lane ∷ stored)
store-IsMid f h mem reg stored lane v lt m =
    let at : ℕ = block_for f h + lane in
    let value : ℕ = get_or reg lane 0 in
    let here : get_or (set mem at value) at 0 ≡ get_or (put f h).bits at 0 =
      get_or-set_self 0 mem at value (omega (arith, m.same_length, block_for-fits f h v))
      ∙ m.lanes lane lt in
    record {
      same_length = length-set mem at value ∙ m.same_length;
      lanes = m.lanes;
      word = λ w. elim (ℕ_discrete at w) [
        | yes e ↦ inr (rw (← e) here)
        | no ne ↦ rw (get_or-set_ne 0 mem at w value ne) (m.word w)
      ];
      finished = λ i small is. elim (ℕ_discrete lane i) [
        | yes e ↦ rw (← e) here
        | no ne ↦
            get_or-set_ne 0 mem at (block_for f h + i) value (λ e. ne (omega arith))
            ∙ m.finished i small (later lane i ne is)
      ];
    }
  where
    later : (lane i : ℕ) → ¬ (lane ≡ i) → IsIn i (lane ∷ stored) → IsIn i stored
    later lane i ne (inl e) = absurd (ne e)
    later lane i ne (inr r) = r

-- When all lanes are stored, the array is that of the filter after the insertion.
pub full-IsMid :
    (f : Bloom) (h : ℕ) (mem reg stored : List ℕ)
    → IsValid f
    → AllLanes stored
    → IsMid f h mem reg stored
    → mem ≡ (put f h).bits
full-IsMid f h mem reg stored v all m =
    get_or_ext 0 mem (put f h).bits (m.same_length ∙ sym (length-put f h v)) λ w p.
      elim (dec_lt w (block_for f h)) [
        | yes lt ↦ outside w (inl lt)
        | no ge ↦ elim (dec_lt w (block_for f h + 8)) [
          | yes inside ↦
              let lane : block_for f h + (w - block_for f h) ≡ w = omega arith in
              rw lane at (
                m.finished (w - block_for f h) (omega arith)
                  (all (w - block_for f h) (omega arith)))
          | no past ↦ outside w (inr (omega arith))
        ]
      ]
  where
    outside :
        (w : ℕ)
        → (w < block_for f h) ⊎ (block_for f h + 8 ≤ w)
        → get_or mem w 0 ≡ get_or (put f h).bits w 0
    outside w out = elim (m.word w) [
      | inl old ↦ old ∙ sym (put-outside f h v w out)
      | inr new ↦ new
    ]
