-- ===== src/Xorfuse/Buffer.antt =====
-- Prefixes of the buffer under writes, and the hashes that a copy writes.
use quickbloom.Base.{ℕ, zero, suc, ◌+◌, ◌≤◌, ◌<◌, ◌≡◌, ◌∙◌, refl, arith, List, [], ◌∷◌, ◌++◌}
use quickbloom.Base.{some, inl, inr, IsIn, take, set, length, length-set}
use quickbloom.Base.{lt→ltb}
use quickbloom.Xorfuse.Filter.{write, write_all}

-- Words of a list stay in a longer prefix.
pub take-later : (g n k : ℕ) (xs : List ℕ) → n ≤ k → IsIn g (take n xs) → IsIn g (take k xs)
take-later g zero k xs le is = absurd is
take-later g (suc n) zero xs le is = absurd (omega arith)
take-later g (suc n) (suc k) [] le is = is
take-later g (suc n) (suc k) (x ∷ xs) le (inl e) = inl e
take-later g (suc n) (suc k) (x ∷ xs) le (inr r) = inr (take-later g n k xs (omega arith) r)

pub set-after :
    (g n i v : ℕ) (xs : List ℕ) → n ≤ i → IsIn g (take n xs) → IsIn g (take n (set xs i v))
set-after g zero i v xs le is = absurd is
set-after g (suc n) i v [] le is = is
set-after g (suc n) zero v (x ∷ xs) le is = absurd (omega arith)
set-after g (suc n) (suc i) v (x ∷ xs) le (inl e) = inl e
set-after g (suc n) (suc i) v (x ∷ xs) le (inr r) = inr (set-after g n i v xs (omega arith) r)

pub set-new : (i v : ℕ) (xs : List ℕ) → i < length xs → IsIn v (take (suc i) (set xs i v))
set-new i v [] lt = absurd (omega arith)
set-new zero v (x ∷ xs) lt = inl refl
set-new (suc i) v (x ∷ xs) lt = inr (set-new i v xs (omega arith))

pub take-kept :
    (g n k : ℕ) (xs ys : List ℕ)
    → n ≤ k
    → n ≤ length xs
    → IsIn g (take n xs)
    → IsIn g (take n (take k xs ++ ys))
take-kept g zero k xs ys le room is = absurd is
take-kept g (suc n) zero xs ys le room is = absurd (omega arith)
take-kept g (suc n) (suc k) [] ys le room is = absurd (omega arith)
take-kept g (suc n) (suc k) (x ∷ xs) ys le room (inl e) = inl e
take-kept g (suc n) (suc k) (x ∷ xs) ys le room (inr r) =
    inr (take-kept g n k xs ys (omega arith) (omega arith) r)

-- The hashes written from `i` on.
pub write_all_lem :
    (hs buf : List ℕ) (i : ℕ)
    → i + length hs ≤ length buf
    → (out : List ℕ) × (write_all buf i hs ≡ some out)
      × (length out ≡ length buf)
      × ((g : ℕ) → IsIn g (take i buf) → IsIn g (take (i + length hs) out))
      × ((g : ℕ) → IsIn g hs → IsIn g (take (i + length hs) out))
unfolding write_all write
write_all_lem [] buf i le =
    (buf, refl, refl, λ g is. take-later g i (i + 0) buf (omega arith) is, λ g n. absurd n)
write_all_lem (h ∷ hs) buf i le =
    let next = set buf i h in
    let len = length-set buf i h in
    let (out, e, same, keeps, has) = write_all_lem hs next (i + 1) (omega (arith, len)) in
    let one : i + 1 ≡ suc i = omega arith in
    let shift : i + 1 + length hs ≡ i + suc (length hs) = omega arith in
    (
      out,
      rw (lt→ltb i (length buf) (omega arith)) e,
      same ∙ len,
      λ g is. rw shift at (
          keeps g
            (take-later g i (i + 1) next (omega arith) (set-after g i i h buf (omega arith) is))),
      λ g is. elim is [
        | inl e ↦ rw shift at (keeps g (rw (one, ← e) (set-new i h buf (omega arith))))
        | inr r ↦ rw shift at (has g r)
      ],
    )
