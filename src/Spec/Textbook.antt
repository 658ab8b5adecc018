-- ===== src/Spec/Textbook.antt =====
-- A Bloom filter as the literature has it: each hash selects some slots, a filter is the set of the
-- inserted hashes, and a hash is answered 1 when each slot that it selects is selected by some
-- inserted hash. The set is a list up to order and repetition.
use quickbloom.Base.{ℕ, ◌+◌, ◌≡◌, refl, ◌∙◌, sym, ap, arith, List, [], ◌∷◌, Bool, true, false}
use quickbloom.Base.{
  ◌&&◌, ◌||◌, ◌==◌, ==_iff, to_int, ◌↔◌, inl, inr, All, Any, Any-map, Any-find, IsIn,
}
use quickbloom.Base.{Bool-cases}
use mathlib.Core.Quot
use mathlib.Core.Quot.{Quot, Quot-set}
use native.Mathlib.Nat.{ℕ_set}

abbrev pub SameHashes : List ℕ → List ℕ → Type 0
SameHashes gs hs = (h : ℕ) → IsIn h gs ↔ IsIn h hs

abbrev pub Inserted : Type 0
Inserted = Quot SameHashes

unfoldable pub nothing : Inserted
nothing = Quot.mk []

-- `s` is one of `ss`.
abbrev pub member : ℕ → List ℕ → Bool
member s [] = false
member s (x ∷ xs) = x == s || member s xs

pub member_iff : (s : ℕ) (ss : List ℕ) → (member s ss ≡ true) ↔ IsIn s ss
member_iff s [] = (λ e. cc, λ n. absurd n)
member_iff s (x ∷ xs) =
    let here = ==_iff x s in
    let rest = member_iff s xs in
    (
      λ e. elim (Bool-cases (x == s)) [
        | inl t ↦ inl (here.0 t)
        | inr f ↦ inr (rest.0 (ground arith))
      ],
      λ m. elim m [
        | inl p ↦ let t = here.1 p in ground arith
        | inr p ↦ let t = rest.1 p in ground arith
      ],
    )

module _ (slots : ℕ → List ℕ) where
  -- Some hash of `gs` selects the slot.
  abbrev pub is_set : List ℕ → ℕ → Bool
  is_set [] s = false
  is_set (g ∷ gs) s = member s (slots g) || is_set gs s

  abbrev pub are_set : List ℕ → List ℕ → Bool
  are_set gs [] = true
  are_set gs (s ∷ ss) = is_set gs s && are_set gs ss

  pub is_set_iff : (gs : List ℕ) (s : ℕ) → (is_set gs s ≡ true) ↔ Any (λ g. IsIn s (slots g)) gs
  is_set_iff [] s = (λ e. cc, λ n. absurd n)
  is_set_iff (g ∷ gs) s =
      let here = member_iff s (slots g) in
      let rest = is_set_iff gs s in
      (
        λ e. elim (Bool-cases (member s (slots g))) [
          | inl t ↦ inl (here.0 t)
          | inr f ↦ inr (rest.0 (ground arith))
        ],
        λ m. elim m [
          | inl p ↦ let t = here.1 p in ground arith
          | inr p ↦ let t = rest.1 p in ground arith
        ],
      )

  pub are_set_iff :
      (gs ss : List ℕ) → (are_set gs ss ≡ true) ↔ All (λ s. Any (λ g. IsIn s (slots g)) gs) ss
  are_set_iff gs [] = (λ e. tt, λ a. refl)
  are_set_iff gs (s ∷ ss) =
      let here = is_set_iff gs s in
      let rest = are_set_iff gs ss in
      (
        λ e. (here.0 (ground arith), rest.0 (ground arith)),
        λ a. let t = here.1 a.0 in let u = rest.1 a.1 in ground arith,
      )

  -- The answer for a hash.
  abbrev pub list_answer : List ℕ → ℕ → ℕ
  list_answer gs h = to_int (are_set gs (slots h))

  select_more :
      (gs hs : List ℕ) (s : ℕ) → SameHashes gs hs → is_set gs s ≡ true → is_set hs s ≡ true
  select_more gs hs s same e =
      let (g, p, m) = Any-find (λ g. IsIn s (slots g)) gs ((is_set_iff gs s).0 e) in
      (is_set_iff hs s).1
        (Any-map (λ x. x ≡ g) (λ x. IsIn s (slots x)) (λ x q. rw q p) hs ((same g).0 m))

  is_set-same : (gs hs : List ℕ) (s : ℕ) → SameHashes gs hs → is_set gs s ≡ is_set hs s
  is_set-same gs hs s same = elim (Bool-cases (is_set gs s)) [
    | inl t ↦ t ∙ sym (select_more gs hs s same t)
    | inr f ↦ elim (Bool-cases (is_set hs s)) [
      | inl t ↦ let back = select_more hs gs s (λ h. ((same h).1, (same h).0)) t in cc
      | inr g ↦ f ∙ sym g
    ]
  ]

  pub list_answer-same :
      (h : ℕ) (gs hs : List ℕ) → SameHashes gs hs → list_answer gs h ≡ list_answer hs h
  list_answer-same h gs hs same = ap to_int (all_same (slots h))
    where
      all_same : (ss : List ℕ) → are_set gs ss ≡ are_set hs ss
      all_same [] = refl
      all_same (s ∷ ss) = ground (arith, is_set-same gs hs s same, all_same ss)

  unfoldable pub spec_contains : Inserted → ℕ → ℕ
  spec_contains q h =
      Quot.lift ℕ_set (λ gs. list_answer gs h) (λ gs hs same. list_answer-same h gs hs same) q

  -- How many hashes of a list are answered 1.
  unfoldable pub spec_count : Inserted → List ℕ → ℕ
  spec_count q [] = 0
  spec_count q (h ∷ hs) = spec_contains q h + spec_count q hs

pub SameHashes-cons : (h : ℕ) (gs hs : List ℕ) → SameHashes gs hs → SameHashes (h ∷ gs) (h ∷ hs)
SameHashes-cons h gs hs same x = (
  λ m. elim m [ inl e ↦ inl e | inr p ↦ inr ((same x).0 p) ],
  λ m. elim m [ inl e ↦ inl e | inr p ↦ inr ((same x).1 p) ],
)

unfoldable pub spec_insert : ℕ → Inserted → Inserted
spec_insert h =
    Quot.lift Quot-set (λ gs. Quot.mk (h ∷ gs))
      (λ gs hs same. Quot.sound (SameHashes-cons h gs hs same))

unfoldable pub spec_insert_all : List ℕ → Inserted → Inserted
spec_insert_all [] q = q
spec_insert_all (h ∷ hs) q = spec_insert_all hs (spec_insert h q)

-- The order of two insertions does not show in the specification's state.
pub spec_insert_comm :
    (g h : ℕ) (q : Inserted) → spec_insert g (spec_insert h q) ≡ spec_insert h (spec_insert g q)
unfolding spec_insert
spec_insert_comm g h = Quot.ind (λ q. Quot-set _ _) (λ gs. Quot.sound (swapped gs))
  where
    swapped : (gs : List ℕ) → SameHashes (g ∷ h ∷ gs) (h ∷ g ∷ gs)
    swapped gs x = (
      λ m. elim m [ inl e ↦ inr (inl e) | inr (inl e) ↦ inl e | inr (inr p) ↦ inr (inr p) ],
      λ m. elim m [ inl e ↦ inr (inl e) | inr (inl e) ↦ inl e | inr (inr p) ↦ inr (inr p) ],
    )
