-- ===== src/Impala/Loops.antt =====
-- The scalar loops over the eight words of a block, when the block lies inside the array.
use quickbloom.Base.{ℕ, zero, suc, ◌+◌, ◌-◌, ◌≤◌, ◌<◌, ◌≡◌, ◌∙◌, refl, arith}
use quickbloom.Base.{List, [], ◌∷◌, some, ltb, leb, ◌&&◌, if◌then◌else◌, length, get_or, set}
use quickbloom.Base.{
  bit_or, bit_and, lt→ltb, length-set, get_or-set_self, get_or-set_ne, ℕ_discrete,
}
use quickbloom.Base.{==_iff, ne→==, ◌↔◌}
use quickbloom.Impala.Filter.{or_words, has_words}

-- `out` is `mem` with the words of `ms` ored in from `p` on.
pub record IsOred (mem : List ℕ) (p : ℕ) (ms : List ℕ) (out : List ℕ) : Type 0 where
  pub same_length : length out ≡ length mem
  pub word :
      (w : ℕ)
      → get_or out w 0 ≡ (
          if leb p w && ltb w (p + length ms)
          then bit_or (get_or mem w 0) (get_or ms (w - p) 0)
          else get_or mem w 0)

first_word : (m : ℕ) (ms : List ℕ) (p : ℕ) → get_or (m ∷ ms) (p - p) 0 ≡ m
first_word m ms p = let none_left : p - p ≡ 0 = omega arith in rw none_left

later_word :
    (m : ℕ) (ms : List ℕ) (p w : ℕ) → p < w → get_or (m ∷ ms) (w - p) 0 ≡ get_or ms (w - (p + 1)) 0
later_word m ms p w h = let one_more : w - p ≡ suc (w - (p + 1)) = omega arith in rw one_more

pub or_words_lem :
    (ms mem : List ℕ) (p : ℕ)
    → p + length ms ≤ length mem
    → (out : List ℕ) × (or_words mem p ms ≡ some out) × IsOred mem p ms out
unfolding or_words
or_words_lem [] mem p h = (mem, refl, record { same_length = refl; word = λ w. ground arith })
or_words_lem (m ∷ ms) mem p h =
    let mem' = set mem p (bit_or (get_or mem p 0) m) in
    let len = length-set mem p (bit_or (get_or mem p 0) m) in
    let (out, e, is) = or_words_lem ms mem' (p + 1) (omega (arith, len)) in
    (
      out,
      rw (lt→ltb p (length mem) (omega arith)) e,
      record {
        same_length = is.same_length ∙ len;
        word = λ w. elim (ℕ_discrete w p) [
          | yes here ↦ rw here (
              ground (
                arith,
                is.word p,
                get_or-set_self 0 mem p (bit_or (get_or mem p 0) m),
                first_word m ms p,
              ))
          | no other ↦ ground (
            arith,
            is.word w,
            get_or-set_ne 0 mem p w (bit_or (get_or mem p 0) m),
            later_word m ms p w,
          )
        ];
      },
    )

-- Every word of the mask is among the bits of its word.
abbrev pub AllIn : List ℕ → ℕ → List ℕ → Type 0
AllIn mem p ms =
    (i : ℕ) → i < length ms → bit_and (get_or mem (p + i) 0) (get_or ms i 0) ≡ get_or ms i 0

join_all :
    (mem : List ℕ) (p m : ℕ) (ms : List ℕ)
    → bit_and (get_or mem p 0) m ≡ m
    → AllIn mem (p + 1) ms
    → AllIn mem p (m ∷ ms)
join_all mem p m ms e rest zero q = let same : p + 0 ≡ p = omega arith in rw same e
join_all mem p m ms e rest (suc i) q =
    let same : p + suc i ≡ p + 1 + i = omega arith in rw same (rest i (omega arith))

next_all : (mem : List ℕ) (p m : ℕ) (ms : List ℕ) → AllIn mem p (m ∷ ms) → AllIn mem (p + 1) ms
next_all mem p m ms all i q =
    let same : p + 1 + i ≡ p + suc i = omega arith in rw same (all (suc i) (omega arith))

first_of_all :
    (mem : List ℕ) (p m : ℕ) (ms : List ℕ) → AllIn mem p (m ∷ ms) → bit_and (get_or mem p 0) m ≡ m
first_of_all mem p m ms all = let same : p + 0 ≡ p = omega arith in rw same at (all 0 (omega arith))

pub has_words_lem :
    (ms mem : List ℕ) (p : ℕ)
    → p + length ms ≤ length mem
    → (c : ℕ) × (has_words mem p ms ≡ some c) × (c ≤ 1) × ((c ≡ 1) ↔ AllIn mem p ms)
unfolding has_words
has_words_lem [] mem p h = (1, refl, omega arith, (λ e i q. absurd (omega arith), λ a. refl))
has_words_lem (m ∷ ms) mem p h = elim (ℕ_discrete (bit_and (get_or mem p 0) m) m) [
  | yes e ↦
      let (c, r, le, iff) = has_words_lem ms mem (p + 1) (omega arith) in
      (
        c,
        rw (lt→ltb p (length mem) (omega arith), (==_iff (bit_and (get_or mem p 0) m) m).1 e) r,
        le,
        (
          λ one. join_all mem p m ms e (iff.0 one),
          λ all. iff.1 (λ i q. next_all mem p m ms all i q),
        ),
      )
  | no ne ↦ (
    0,
    rw (lt→ltb p (length mem) (omega arith), ne→== (bit_and (get_or mem p 0) m) m ne),
    omega arith,
    (λ z. absurd (omega arith), λ all. absurd (ne (first_of_all mem p m ms all))),
  )
]
