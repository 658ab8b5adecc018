-- ===== src/Spec/Interface.antt =====
-- What a filter of the repository offers for prehashed keys, and the laws that make it a Bloom
-- filter. The states of a client are those of the filter; `none` is a fault.
use quickbloom.Base.{
  arith, ℕ, ◌+◌, ◌^◌, ◌≤◌, ◌<◌, ◌≡◌, List, [], ◌∷◌, Option, some, ◌↔◌, ◌⊎◌, All, IsIn, length,
}

-- The operations; `slots` are the bits that a hash selects, `bit` is a bit of the array, and `put`
-- and `answer` are the effect of an insertion and the answer of a query, which do not fault.
pub record Implementation : Type 1 where
  pub State : Type 0
  pub IsValid : State → Type 0
  pub slots : State → ℕ → List ℕ
  pub bit : State → ℕ → ℕ
  pub put : State → ℕ → State
  pub answer : State → ℕ → ℕ
  pub insert_prehash : State → ℕ → Option State
  pub contains_prehash : State → ℕ → Option ℕ
  pub insert_prehash_bulk : State → List ℕ → Option State
  pub contains_prehash_bulk : State → List ℕ → Option ℕ

module _ (f : Implementation) where
  abbrev pub put_each : f.State → List ℕ → f.State
  put_each b [] = b
  put_each b (h ∷ hs) = put_each (f.put b h) hs

  abbrev pub count_each : f.State → List ℕ → ℕ
  count_each b [] = 0
  count_each b (h ∷ hs) = f.answer b h + count_each b hs

  pub count_each-le :
      {b : f.State} → ((h : ℕ) → f.answer b h ≤ 1) → (hs : List ℕ) → count_each b hs ≤ length hs
  count_each-le le [] = omega arith
  count_each-le le (h ∷ hs) = omega (arith, le h, count_each-le le hs)

pub record IsLawful (f : Implementation) : Type 0 where
  pub put-IsValid : (b : f.State) (h : ℕ) → f.IsValid b → f.IsValid (f.put b h)
  pub slots-put : (b : f.State) (g h : ℕ) → f.IsValid b → f.slots (f.put b g) h ≡ f.slots b h
  pub bit-put :
      (b : f.State) (h s : ℕ)
      → f.IsValid b
      → (f.bit (f.put b h) s ≡ 1) ↔ ((f.bit b s ≡ 1) ⊎ IsIn s (f.slots b h))
  pub answer_iff :
      (b : f.State) (h : ℕ)
      → f.IsValid b
      → (f.answer b h ≡ 1) ↔ All (λ s. f.bit b s ≡ 1) (f.slots b h)
  pub answer-le : (b : f.State) (h : ℕ) → f.IsValid b → f.answer b h ≤ 1
  pub inserts : (b : f.State) (h : ℕ) → f.IsValid b → f.insert_prehash b h ≡ some (f.put b h)
  pub contains : (b : f.State) (h : ℕ) → f.IsValid b → f.contains_prehash b h ≡ some (f.answer b h)
  pub inserts_bulk :
      (b : f.State) (hs : List ℕ)
      → f.IsValid b
      → f.insert_prehash_bulk b hs ≡ some (put_each f b hs)
  pub contains_bulk :
      (b : f.State) (hs : List ℕ)
      → f.IsValid b
      → length hs < 2 ^ 64
      → f.contains_prehash_bulk b hs ≡ some (count_each f b hs)
