-- ===== src/Quickbloom/Refines.antt =====
-- quickbloom.c as an implementation of the textbook filter. Slot `32 * w + j` is bit `j` of word `w`.
use quickbloom.Base.{ℕ, ◌+◌, ◌/◌, ◌%◌, ◌≡◌, ◌∙◌, refl, sym, ap, ap₂, List, [], ◌∷◌}
use quickbloom.Base.{some, true, ◌↔◌, inl, inr, All, IsIn, values, values-All}
use quickbloom.Machine.{u32}
use quickbloom.Quickbloom.Filter.{Bloom, block_for}
use quickbloom.Quickbloom.Probe.{insert_prehash, contains_prehash}
use quickbloom.Quickbloom.Bulk.{insert_prehash_bulk, contains_prehash_bulk}
use quickbloom.Quickbloom.Slots.{lane_slot, word_of, place_of, selects_iff}
use quickbloom.Quickbloom.Mask.{position, position-lt}
use quickbloom.Quickbloom.Valid.{IsValid}
use quickbloom.Quickbloom.Insert.{bit, touches, put, put-IsValid, insert_prehash_lem}
use quickbloom.Quickbloom.Query.{query, query-le, query_iff, contains_prehash_lem}
use quickbloom.Quickbloom.Batch.{put_all, block_for-put, bit-put_iff, insert_prehash_bulk_lem}
use quickbloom.Quickbloom.Count.{hits_of, contains_prehash_bulk_lem}
use quickbloom.Machine.{Heap, Allocator}
use quickbloom.Quickbloom.Lifecycle.{Handle, new}
use quickbloom.Quickbloom.NewLaws.{empty_filter-IsValid, new-Outcome}
use quickbloom.Quickbloom.Lifetime.{made_of, no_bit}
use quickbloom.Spec.Textbook.{nothing}
use quickbloom.Spec.Trace.{Call, Fits, run, spec_run, run-fresh}
use quickbloom.Spec.Interface.{Implementation, IsLawful, put_each, count_each}

abbrev pub slots : Bloom → ℕ → List ℕ
slots b h = values (lane_slot (block_for b h) (u32 h)) 8

abbrev pub slot_bit : Bloom → ℕ → ℕ
slot_bit b s = bit b (s / 32) (s % 32)

abbrev pub filter : Implementation
filter = record {
  State = Bloom;
  IsValid = IsValid;
  slots = slots;
  bit = slot_bit;
  put = put;
  answer = query;
  insert_prehash = insert_prehash;
  contains_prehash = contains_prehash;
  insert_prehash_bulk = insert_prehash_bulk;
  contains_prehash_bulk = contains_prehash_bulk;
}

lane_bit :
    (b : Bloom) (h i : ℕ)
    → slot_bit b (lane_slot (block_for b h) (u32 h) i)
      ≡ bit b (block_for b h + i) (position (u32 h) i)
lane_bit b h i =
    let small = position-lt (u32 h) i in
    ap₂ (λ w j. bit b w j) (word_of (block_for b h + i) (position (u32 h) i) small)
      (place_of (block_for b h + i) (position (u32 h) i) small)

slots-touches : (b : Bloom) (h s : ℕ) → (touches b h (s / 32) (s % 32) ≡ true) ↔ IsIn s (slots b h)
unfolding touches
slots-touches b h s = selects_iff (block_for b h) (u32 h) s

put_all-put_each : (hs : List ℕ) (b : Bloom) → put_all b hs ≡ put_each filter b hs
put_all-put_each [] b = refl
put_all-put_each (h ∷ hs) b = put_all-put_each hs (put b h)

hits_of-count_each : (b : Bloom) (hs : List ℕ) → hits_of b hs ≡ count_each filter b hs
unfolding hits_of
hits_of-count_each b [] = refl
hits_of-count_each b (h ∷ hs) = ap (λ n. query b h + n) (hits_of-count_each b hs)

pub filter-IsLawful : IsLawful filter
filter-IsLawful = record {
  put-IsValid = put-IsValid;
  slots-put = λ b g h v. ap (λ p. values (lane_slot p (u32 h)) 8) (block_for-put b g h);
  bit-put = λ b h s v.
      let step = bit-put_iff b h (s / 32) (s % 32) v in
      let here = slots-touches b h s in
      (
        λ e. elim (step.0 e) [ inl o ↦ inl o | inr t ↦ inr (here.0 t) ],
        λ m. step.1 (elim m [ inl o ↦ inl o | inr i ↦ inr (here.1 i) ]),
      );
  answer_iff = λ b h v.
      let answer = query_iff b h v in
      let lanes = values-All (λ s. slot_bit b s ≡ 1) (lane_slot (block_for b h) (u32 h)) 8 in
      (
        λ e. lanes.1 (λ i p. lane_bit b h i ∙ answer.0 e i p),
        λ a. answer.1 (λ i p. sym (lane_bit b h i) ∙ lanes.0 a i p),
      );
  answer-le = λ b h v. query-le b h;
  inserts = insert_prehash_lem;
  contains = contains_prehash_lem;
  inserts_bulk = λ b hs v. insert_prehash_bulk_lem hs b v ∙ ap some (put_all-put_each hs b);
  contains_bulk =
      λ b hs v lt. contains_prehash_bulk_lem b hs v lt ∙ ap some (hits_of-count_each b hs);
}

-- Every sequence of calls of the four prehash functions, from a filter that `qb_new` returned, is
-- answered as the textbook filter with the same slots answers it, and no call faults, if no bulk
-- query has 2^64 hashes or more.
pub run-new :
    (a : Allocator) (heap : Heap) (nbits : ℕ) (h : Handle) (heap' : Heap) (cs : List Call)
    → new a heap nbits ≡ some (some h, heap')
    → All Fits cs
    → run filter h.filter cs ≡ some (spec_run (slots h.filter) nothing cs)
run-new a heap nbits h heap' cs e ok =
    let (k, size, f, live) = made_of a heap nbits h heap' (new-Outcome a heap nbits) e in
    run-fresh filter h.filter cs filter-IsLawful (rw f (empty_filter-IsValid k size.small))
      (λ s. rw f (no_bit k (s / 32) (s % 32))) ok
