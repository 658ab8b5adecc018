-- ===== src/Krassovsky/Refines.antt =====
-- bloom_krassovsky.c as an implementation of the textbook filter, with a given mask table. Slot
-- `64 * q + j` is bit `j` of block `q`.
use quickbloom.Base.{
  ℕ, zero, suc, ◌+◌, ◌-◌, ◌*◌, ◌/◌, ◌%◌, ◌^◌, ◌<◌, ◌≡◌, ◌∙◌, refl, sym, ap, ap₂, arith, List, [],
  ◌∷◌, some,
}
use quickbloom.Base.{
  ◌↔◌, ◌⊎◌, inl, inr, All, IsIn, ◌==◌, ==_iff, ne→==, if◌then◌else◌, ℕ_discrete, dec_lt,
}
use quickbloom.Base.{bit_and}
use native.Mathlib.Nat.{div-le_self}
use quickbloom.Bits.{bit_and_mask, bit_at, bit_or-lt, bit_at_high}
use quickbloom.Machine.{shr}
use quickbloom.Krassovsky.Filter.{
  Bloom, block_idx_scalar, rotated_mask, insert_prehash, contains_prehash,
}
use quickbloom.Krassovsky.Batch.{insert_prehash_bulk, contains_prehash_bulk}
use quickbloom.Krassovsky.Mask.{IsTable, mask_of}
use quickbloom.Krassovsky.Insert.{
  IsValid, put, put_all, put-IsValid, block_idx-put, bit-put_iff, insert_prehash_lem,
  insert_prehash_bulk_lem,
}
use quickbloom.Krassovsky.Insert as Insert
use quickbloom.Krassovsky.Membership.{query, query-le, query_iff, contains_prehash_lem}
use quickbloom.Krassovsky.Count.{hits_of, contains_batched_lem}
use quickbloom.Spec.Interface.{Implementation, IsLawful, put_each, count_each}

-- The bits below `n` of a mask, in block `p`.
abbrev pub mask_slots : ℕ → ℕ → ℕ → List ℕ
mask_slots p m zero = []
mask_slots p m (suc j) =
    let rest = mask_slots p m j in if bit_at m j == 1 then (p * 64 + j) ∷ rest else rest

abbrev pub slots : List ℕ → Bloom → ℕ → List ℕ
slots table b h = mask_slots (block_idx_scalar b h) (mask_of table h) 64

abbrev pub bit : Bloom → ℕ → ℕ
bit b s = Insert.bit b (s / 64) (s % 64)

abbrev pub filter : List ℕ → Implementation
filter table = record {
  State = Bloom;
  IsValid = IsValid;
  slots = slots table;
  bit = bit;
  put = put table;
  answer = query table;
  insert_prehash = insert_prehash table;
  contains_prehash = contains_prehash table;
  insert_prehash_bulk = insert_prehash_bulk table;
  contains_prehash_bulk = λ b hs. contains_prehash_bulk table b hs 0;
}

mask_slots-IsIn :
    (p m n s : ℕ)
    → IsIn s (mask_slots p m n) ↔ ((j : ℕ) × (j < n) × (bit_at m j ≡ 1) × (p * 64 + j ≡ s))
mask_slots-IsIn p m zero s = (λ i. absurd i, λ (j, lt, o, e). absurd (omega arith))
mask_slots-IsIn p m (suc n) s = elim (ℕ_discrete (bit_at m n) 1) [
  | yes on ↦ rw ((==_iff (bit_at m n) 1).1 on) (
    λ i. elim i [
      | inl e ↦ (n, omega arith, on, e)
      | inr r ↦ let (j, lt, o, e) = (mask_slots-IsIn p m n s).0 r in (j, omega arith, o, e)
    ],
    λ (j, lt, o, e). elim (ℕ_discrete j n) [
      | yes here ↦ inl (rw here at e)
      | no ne ↦ inr ((mask_slots-IsIn p m n s).1 (j, omega arith, o, e))
    ],
  )
  | no off ↦ rw (ne→== (bit_at m n) 1 off) (
    λ r. let (j, lt, o, e) = (mask_slots-IsIn p m n s).0 r in (j, omega arith, o, e),
    λ (j, lt, o, e). elim (ℕ_discrete j n) [
      | yes here ↦ absurd (off (rw here at o))
      | no ne ↦ (mask_slots-IsIn p m n s).1 (j, omega arith, o, e)
    ],
  )
]

mask_slots-All :
    (P : ℕ → Type 0) (p m n : ℕ)
    → All P (mask_slots p m n) ↔ ((j : ℕ) → j < n → bit_at m j ≡ 1 → P (p * 64 + j))
mask_slots-All P p m zero = (λ a j lt. absurd (omega arith), λ h. tt)
mask_slots-All P p m (suc n) = elim (ℕ_discrete (bit_at m n) 1) [
  | yes on ↦ rw ((==_iff (bit_at m n) 1).1 on) (
    λ a j lt o. elim (ℕ_discrete j n) [
      | yes here ↦ rw here a.0
      | no ne ↦ (mask_slots-All P p m n).0 a.1 j (omega arith) o
    ],
    λ h. (h n (omega arith) on, (mask_slots-All P p m n).1 (λ j lt o. h j (omega arith) o)),
  )
  | no off ↦ rw (ne→== (bit_at m n) 1 off) (
    λ a j lt o. elim (ℕ_discrete j n) [
      | yes here ↦ absurd (off (rw here at o))
      | no ne ↦ (mask_slots-All P p m n).0 a j (omega arith) o
    ],
    λ h. (mask_slots-All P p m n).1 (λ j lt o. h j (omega arith) o),
  )
]

-- A mask is a 64-bit word.
mask_of-lt : (table : List ℕ) (h : ℕ) → mask_of table h < 2 ^ 64
unfolding mask_of rotated_mask
mask_of-lt table h = bit_or-lt 64 _ _ (omega arith) (down_lt _ _ _ (masked _))
  where
    masked : (x : ℕ) → bit_and x (2 ^ 57 - 1) < 2 ^ 57
    masked x = omega (arith, bit_and_mask 57 x)

    down_lt : (unrot rot k : ℕ) → unrot < 2 ^ 57 → (if rot == 0 then 0 else shr unrot k) < 2 ^ 64
    down_lt unrot zero k lt = omega arith
    down_lt unrot (suc rot) k lt = ground (arith, div-le_self unrot (2 ^ k))

block_place : (p s : ℕ) (j : ℕ) → j < 64 → p * 64 + j ≡ s → (p ≡ s / 64) × (j ≡ s % 64)
block_place p s j lt e = omega arith

in_block : (p s : ℕ) → p ≡ s / 64 → p * 64 + s % 64 ≡ s
in_block p s e = omega arith

at_block : (b : Bloom) (p j : ℕ) → j < 64 → bit b (p * 64 + j) ≡ Insert.bit b p j
at_block b p j lt =
    let e = block_place p (p * 64 + j) j lt refl in
    ap₂ (λ q i. Insert.bit b q i) (sym e.0) (sym e.1)

put_all-put_each :
    (table hs : List ℕ) (b : Bloom) → put_all table b hs ≡ put_each (filter table) b hs
put_all-put_each table [] b = refl
put_all-put_each table (h ∷ hs) b = put_all-put_each table hs (put table b h)

hits_of-count_each :
    (table : List ℕ) (b : Bloom) (hs : List ℕ) → hits_of table b hs ≡ count_each (filter table) b hs
unfolding hits_of
hits_of-count_each table b [] = refl
hits_of-count_each table b (h ∷ hs) = ap (λ n. query table b h + n) (hits_of-count_each table b hs)

bit-put :
    (table : List ℕ) (b : Bloom) (h s : ℕ)
    → IsValid b
    → (bit (put table b h) s ≡ 1) ↔ ((bit b s ≡ 1) ⊎ IsIn s (slots table b h))
bit-put table b h s v =
    let step = bit-put_iff table b h (s / 64) (s % 64) v in
    let here = mask_slots-IsIn (block_idx_scalar b h) (mask_of table h) 64 s in
    (
      λ one. elim (step.0 one) [
        | inl o ↦ inl o
        | inr (e, on) ↦ inr (here.1 (s % 64, omega arith, on, in_block (block_idx_scalar b h) s e))
      ],
      λ m. step.1 (elim m [
        | inl o ↦ inl o
        | inr i ↦
            let (j, lt, on, e) = here.0 i in
            let at = block_place (block_idx_scalar b h) s j lt e in inr (at.0, rw at.1 at on)
      ]),
    )

query-All :
    (table : List ℕ) (b : Bloom) (h : ℕ)
    → (query table b h ≡ 1) ↔ All (λ s. bit b s ≡ 1) (slots table b h)
query-All table b h =
    let answer = query_iff table b h in
    let p = block_idx_scalar b h in
    let all = mask_slots-All (λ s. bit b s ≡ 1) p (mask_of table h) 64 in
    (
      λ e. all.1 (λ j lt on. at_block b p j lt ∙ answer.0 e j on),
      λ a. answer.1 (λ j on. elim (dec_lt j 64) [
        | yes lt ↦ sym (at_block b p j lt) ∙ all.0 a j lt on
        | no ge ↦ absurd (
            omega
              (arith, bit_at_high 64 (mask_of table h) j (mask_of-lt table h) (omega arith), on))
      ]),
    )

pub filter-IsLawful : (table : List ℕ) → IsTable table → IsLawful (filter table)
filter-IsLawful table t = record {
  put-IsValid = put-IsValid table;
  slots-put = λ b g h v. ap (λ p. mask_slots p (mask_of table h) 64) (block_idx-put table b g h);
  bit-put = bit-put table;
  answer_iff = λ b h v. query-All table b h;
  answer-le = λ b h v. query-le table b h;
  inserts = insert_prehash_lem table t;
  contains = λ b h v. contains_prehash_lem table b h t v;
  inserts_bulk =
      λ b hs v. insert_prehash_bulk_lem table t hs b v ∙ ap some (put_all-put_each table hs b);
  contains_bulk =
      λ b hs v lt. contains_batched_lem table b hs t v lt ∙ ap some (hits_of-count_each table b hs);
}
