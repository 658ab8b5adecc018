-- ===== src/Base/Members.antt =====
-- Elements of a list that satisfy a predicate.
use Prim.Native.Nat.{ℕ, zero, suc, ◌<◌}
use mathlib.Core.Path.{◌≡◌, refl}
use mathlib.Core.List.{List, [], ◌∷◌}
use mathlib.Core.Logic.{◌⊎◌, inl, inr, ◌↔◌}
use native.Mathlib.Omega.{arith}
use native.Mathlib.Decide.{ℕ_discrete}
use quickbloom.Base.Lists.{All}

module _ {A : Type 0} where
  -- Some element satisfies `P`.
  abbrev pub Any : (A → Type 0) → List A → Type 0
  Any P [] = ⊥
  Any P (x ∷ xs) = P x ⊎ Any P xs

  -- `h` is one of `hs`.
  abbrev pub IsIn : A → List A → Type 0
  IsIn h hs = Any (λ x. x ≡ h) hs

  pub Any-map : (P Q : A → Type 0) → ((g : A) → P g → Q g) → (hs : List A) → Any P hs → Any Q hs
  Any-map P Q f [] a = absurd a
  Any-map P Q f (h ∷ hs) (inl p) = inl (f h p)
  Any-map P Q f (h ∷ hs) (inr p) = inr (Any-map P Q f hs p)

  pub Any-find : (P : A → Type 0) (hs : List A) → Any P hs → (g : A) × P g × IsIn g hs
  Any-find P [] a = absurd a
  Any-find P (h ∷ hs) (inl p) = (h, p, inl refl)
  Any-find P (h ∷ hs) (inr p) = let (g, q, m) = Any-find P hs p in (g, q, inr m)

-- The values of a function at the numbers below `n`, the last one first.
abbrev pub values : (ℕ → ℕ) → ℕ → List ℕ
values f zero = []
values f (suc n) = f n ∷ values f n

pub values-IsIn : (f : ℕ → ℕ) (n s : ℕ) → IsIn s (values f n) ↔ ((i : ℕ) × (i < n) × (f i ≡ s))
values-IsIn f zero s = (λ m. absurd m, λ (i, p, e). absurd (omega arith))
values-IsIn f (suc n) s = (
  λ m. elim m [
    | inl e ↦ (n, omega arith, e)
    | inr r ↦ let (i, p, e) = (values-IsIn f n s).0 r in (i, omega arith, e)
  ],
  λ (i, p, e). elim (ℕ_discrete i n) [
    | yes here ↦ inl (rw here at e)
    | no ne ↦ inr ((values-IsIn f n s).1 (i, omega arith, e))
  ],
)

pub values-All :
    (P : ℕ → Type 0) (f : ℕ → ℕ) (n : ℕ) → All P (values f n) ↔ ((i : ℕ) → i < n → P (f i))
values-All P f zero = (λ a i p. absurd (omega arith), λ h. tt)
values-All P f (suc n) = (
  λ a i p. elim (ℕ_discrete i n) [
    | yes here ↦ rw here a.0
    | no ne ↦ (values-All P f n).0 a.1 i (omega arith)
  ],
  λ h. (h n (omega arith), (values-All P f n).1 (λ i p. h i (omega arith))),
)
