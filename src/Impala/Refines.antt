-- ===== src/Impala/Refines.antt =====
-- bloom_impala.c as an implementation of the textbook filter, for any number of blocks. Slot
-- `32 * w + j` is bit `j` of word `w`.
use quickbloom.Base.{
  ℕ, zero, suc, ◌+◌, ◌-◌, ◌*◌, ◌/◌, ◌%◌, ◌^◌, ◌≤◌, ◌<◌, ◌≡◌, ◌∙◌, refl, sym, ap, ap₂, arith, List,
  [], ◌∷◌, Option, some, none, to_int,
}
use quickbloom.Base.{
  true, ◌↔◌, ◌⊎◌, inl, inr, All, IsIn, values, values-All, length, get_or, max, dec_le,
}
use quickbloom.Bits.{bit_at, bit_at-lt, bit_at-bit_or, bit_at-pow}
use quickbloom.Machine.{u32, u64, shr}
use quickbloom.Quickbloom.Mask.{position, position-lt}
use quickbloom.Impala.Filter.{
  Bloom, block_for, block_mask, insert_prehash, contains_prehash, insert_prehash_bulk,
  contains_prehash_bulk, count_hit,
}
use quickbloom.Impala.Loops.{IsOred, or_words_lem, has_words_lem, AllIn}
use quickbloom.Impala.Agree.{block_mask-word, length-block_mask, word_iff}
use quickbloom.Quickbloom.Slots.{lane_slot, selects, word_of, place_of, selects_iff}
use quickbloom.Spec.Interface.{Implementation, IsLawful, put_each, count_each, count_each-le}
use native.Mathlib.Nat.{mul-le-mul}

-- There is a block, and the array holds what `nblocks` says.
pub record IsValid (b : Bloom) : Type 0 where
  pub some_block : 1 ≤ b.nblocks
  pub sized : length b.bits ≡ 8 * b.nblocks

product : (hi n : ℕ) → hi < 2 ^ 32 → hi * n ≤ (2 ^ 32 - 1) * n
product hi n p =
    let le : hi ≤ 2 ^ 32 - 1 = omega arith in let same : n ≤ n = omega arith in mul-le-mul le same

-- The block of any hash lies inside the array, also when the product wraps at 2^64.
pub block_for-fits : (b : Bloom) (h : ℕ) → IsValid b → block_for b h + 8 ≤ length b.bits
unfolding block_for
block_for-fits b h v =
    omega (arith, v.sized, index_in (u32 (shr h 32)) b.nblocks (omega arith) v.some_block)
  where
    index_in : (hi n : ℕ) → hi < 2 ^ 32 → 1 ≤ n → u64 (hi * n) / 2 ^ 32 < n
    index_in hi n p q = elim (dec_le n (2 ^ 32)) [
      | yes le ↦ omega (arith, product hi n p)
      | no gt ↦ omega arith
    ]

abbrev pub bit : Bloom → ℕ → ℕ
bit b s = bit_at (get_or b.bits (s / 32) 0) (s % 32)

abbrev pub slots : Bloom → ℕ → List ℕ
slots b h = values (lane_slot (block_for b h) (u32 h)) 8

put_of : Bloom → Option Bloom → Bloom
put_of b none = b
put_of b (some c) = c

-- The filter after an insertion that does not fault.
unfoldable pub put : Bloom → ℕ → Bloom
unfolding put_of
put b h = put_of b (insert_prehash b h)

answer_of : Option ℕ → ℕ
answer_of none = 0
answer_of (some c) = c

-- The answer of a query that does not fault.
unfoldable pub query : Bloom → ℕ → ℕ
unfolding answer_of
query b h = answer_of (contains_prehash b h)

abbrev pub filter : Implementation
filter = record {
  State = Bloom;
  IsValid = IsValid;
  slots = slots;
  bit = bit;
  put = put;
  answer = query;
  insert_prehash = insert_prehash;
  contains_prehash = contains_prehash;
  insert_prehash_bulk = insert_prehash_bulk;
  contains_prehash_bulk = λ b hs. contains_prehash_bulk b hs 0;
}

put_lem :
    (b : Bloom) (h : ℕ)
    → IsValid b
    → (out : List ℕ) × (insert_prehash b h ≡ some (put b h))
      × (put b h ≡ record b { bits = out })
      × IsOred b.bits (block_for b h) (block_mask (u32 h)) out
unfolding put put_of insert_prehash
put_lem b h v =
    let (out, e, is) =
      or_words_lem (block_mask (u32 h)) b.bits (block_for b h)
        (omega (arith, length-block_mask (u32 h), block_for-fits b h v)) in
    (out, rw e refl, rw e refl, is)

query_lem :
    (b : Bloom) (h : ℕ)
    → IsValid b
    → (contains_prehash b h ≡ some (query b h))
      × (query b h ≤ 1)
      × ((query b h ≡ 1) ↔ AllIn b.bits (block_for b h) (block_mask (u32 h)))
unfolding query answer_of contains_prehash
query_lem b h v =
    let (c, e, le, iff) =
      has_words_lem (block_mask (u32 h)) b.bits (block_for b h)
        (omega (arith, length-block_mask (u32 h), block_for-fits b h v)) in
    rw e (refl, le, iff)

put-IsValid : (b : Bloom) (h : ℕ) → IsValid b → IsValid (put b h)
put-IsValid b h v =
    let (out, e, f, is) = put_lem b h v in
    rw f (record { some_block = v.some_block; sized = is.same_length ∙ v.sized })

slots-put : (b : Bloom) (g h : ℕ) → IsValid b → slots (put b g) h ≡ slots b h
unfolding block_for
slots-put b g h v = let (out, e, f, is) = put_lem b g v in rw f

-- Word `i` of the block gets the bit at the position of the hash.
ored_bit :
    (b : Bloom) (h : ℕ) (out : List ℕ) (w j : ℕ)
    → IsOred b.bits (block_for b h) (block_mask (u32 h)) out
    → bit_at (get_or out w 0) j
      ≡ max (bit_at (get_or b.bits w 0) j) (to_int (selects (block_for b h) (u32 h) w j))
ored_bit b h out w j is = ground (
  arith,
  is.word w,
  length-block_mask (u32 h),
  block_mask-word (u32 h) (w - block_for b h),
  bit_at-bit_or (get_or b.bits w 0) (2 ^ position (u32 h) (w - block_for b h)) j,
  bit_at-pow (position (u32 h) (w - block_for b h)) j,
  bit_at-lt (get_or b.bits w 0) j,
)

-- A bit is set after an insertion exactly when it was, or when the hash selects it.
bit-put :
    (b : Bloom) (h s : ℕ) → IsValid b → (bit (put b h) s ≡ 1) ↔ ((bit b s ≡ 1) ⊎ IsIn s (slots b h))
bit-put b h s v =
    let (out, e, f, is) = put_lem b h v in
    let here = selects_iff (block_for b h) (u32 h) s in
    let step = either b h s out is in
    rw f (
      λ one. elim (step.0 one) [ inl o ↦ inl o | inr t ↦ inr (here.0 t) ],
      λ m. step.1 (elim m [ inl o ↦ inl o | inr i ↦ inr (here.1 i) ]),
    )
  where
    either :
        (b : Bloom) (h s : ℕ) (out : List ℕ)
        → IsOred b.bits (block_for b h) (block_mask (u32 h)) out
        → (bit_at (get_or out (s / 32) 0) (s % 32) ≡ 1)
          ↔ ((bit b s ≡ 1) ⊎ (selects (block_for b h) (u32 h) (s / 32) (s % 32) ≡ true))
    either b h s out is =
        let e = ored_bit b h out (s / 32) (s % 32) is in
        let lt = bit_at-lt (get_or b.bits (s / 32) 0) (s % 32) in
        (λ one. ground arith, λ m. ground arith)

AllIn-iff :
    (b : Bloom) (h : ℕ)
    → AllIn b.bits (block_for b h) (block_mask (u32 h)) ↔ All (λ s. bit b s ≡ 1) (slots b h)
AllIn-iff b h =
    let lanes = values-All (λ s. bit b s ≡ 1) (lane_slot (block_for b h) (u32 h)) 8 in
    (
      λ all. lanes.1 (λ i p.
          lane_bit i
          ∙ (word_iff (word i) (u32 h) i p).0 (all i (rw (length-block_mask (u32 h)) p))),
      λ a i p.
          let small = rw (length-block_mask (u32 h)) at p in
          (word_iff (word i) (u32 h) i small).1 (sym (lane_bit i) ∙ lanes.0 a i small),
    )
  where
    word : ℕ → ℕ
    word i = get_or b.bits (block_for b h + i) 0

    lane_bit :
        (i : ℕ)
        → bit b (lane_slot (block_for b h) (u32 h) i)
          ≡ bit_at (get_or b.bits (block_for b h + i) 0) (position (u32 h) i)
    lane_bit i =
        let small = position-lt (u32 h) i in
        ap₂ (λ w j. bit_at (get_or b.bits w 0) j)
          (word_of (block_for b h + i) (position (u32 h) i) small)
          (place_of (block_for b h + i) (position (u32 h) i) small)

bulk_lem :
    (hs : List ℕ) (b : Bloom) → IsValid b → insert_prehash_bulk b hs ≡ some (put_each filter b hs)
unfolding insert_prehash_bulk
bulk_lem [] b v = refl
bulk_lem (h ∷ hs) b v =
    let (out, e, f, is) = put_lem b h v in rw e (bulk_lem hs (put b h) (put-IsValid b h v))

count_one : (hits c more : ℕ) → c ≤ 1 → u64 (count_hit hits c + more) ≡ u64 (hits + (c + more))
count_one hits zero more le = omega arith
count_one hits (suc c) more le = omega arith

count_lt : (hits c : ℕ) → hits < 2 ^ 64 → count_hit hits c < 2 ^ 64
count_lt hits zero lt = lt
count_lt hits (suc c) lt = omega arith

loop_lem :
    (hs : List ℕ) (b : Bloom) (hits : ℕ)
    → IsValid b
    → hits < 2 ^ 64
    → contains_prehash_bulk b hs hits ≡ some (u64 (hits + count_each filter b hs))
unfolding contains_prehash_bulk
loop_lem [] b hits v lt = ap some (omega arith)
loop_lem (h ∷ hs) b hits v lt =
    let q = query_lem b h v in
    rw q.0 (
      loop_lem hs b (count_hit hits (query b h)) v (count_lt hits (query b h) lt)
      ∙ ap some (count_one hits (query b h) (count_each filter b hs) q.1))

pub filter-IsLawful : IsLawful filter
filter-IsLawful = record {
  put-IsValid = put-IsValid;
  slots-put = slots-put;
  bit-put = bit-put;
  answer_iff = λ b h v.
      let answer = (query_lem b h v).2 in
      let lanes = AllIn-iff b h in (λ e. lanes.0 (answer.0 e), λ a. answer.1 (lanes.1 a));
  answer-le = λ b h v. (query_lem b h v).1;
  inserts = λ b h v. (put_lem b h v).1;
  contains = λ b h v. (query_lem b h v).0;
  inserts_bulk = λ b hs v. bulk_lem hs b v;
  contains_bulk = λ b hs v lt.
      loop_lem hs b 0 v (omega arith)
      ∙ ap some (omega (arith, count_each-le filter (λ h. (query_lem b h v).1) hs));
}
