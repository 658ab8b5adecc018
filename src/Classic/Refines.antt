-- ===== src/Classic/Refines.antt =====
-- bloom_classic.c as an implementation of the textbook filter. Slot `q` is bit `q` of the array.
use quickbloom.Base.{
  ℕ, zero, suc, ◌+◌, ◌^◌, ◌≤◌, ◌<◌, ◌≡◌, ◌∙◌, refl, sym, ap, arith, List, [], ◌∷◌, Option, some,
  none, map,
}
use quickbloom.Base.{◌↔◌, inl, inr, All, values, values-IsIn, values-All}
use quickbloom.Machine.{u64}
use quickbloom.Machine.{Heap, Allocator}
use quickbloom.Classic.Hash.{prehash_split}
use quickbloom.Classic.Filter.{
  Bloom, contains_with_pair, insert_prehash, contains_prehash, insert_prehash_bulk,
  contains_prehash_bulk, count_hit,
}
use quickbloom.Classic.Valid.{IsValid, nbits, bit}
use quickbloom.Classic.Loops.{
  probe, put_probes, put_probes-IsValid, nbits-put_probes, bit-put_probes_iff, contains_loop_lem,
}
use quickbloom.Classic.Membership.{put_all, insert_with_pair_lem, insert_prehash_bulk_lem}
use quickbloom.Classic.Lifecycle.{Handle, new}
use quickbloom.Classic.Outcomes.{NewOutcome, crashed, without_array, made}
use quickbloom.Classic.NewLaws.{new-NewOutcome}
use quickbloom.Spec.Textbook.{nothing}
use quickbloom.Spec.Trace.{Call, Fits, run, spec_run, run-fresh}
use quickbloom.Spec.Interface.{Implementation, IsLawful, put_each, count_each, count_each-le}

-- The probe of the hash in round `i`.
abbrev pub probe_slot : Bloom → ℕ → ℕ → ℕ
probe_slot b h i = let pair = prehash_split h in probe (nbits b) pair.h1 pair.h2 i

abbrev pub slots : Bloom → ℕ → List ℕ
slots b h = values (probe_slot b h) 8

-- The filter with the eight probes of a hash set.
abbrev pub put : Bloom → ℕ → Bloom
put b h = let pair = prehash_split h in put_probes 8 pair.h1 pair.h2 b

answer_of : Option ℕ → ℕ
answer_of none = 0
answer_of (some c) = c

-- The answer of a query that does not fault.
unfoldable pub query : Bloom → ℕ → ℕ
unfolding answer_of
query b h = answer_of (contains_prehash b h)

abbrev pub filter : Implementation
filter = record {
  State = Bloom;
  IsValid = IsValid;
  slots = slots;
  bit = bit;
  put = put;
  answer = query;
  insert_prehash = insert_prehash;
  contains_prehash = contains_prehash;
  insert_prehash_bulk = insert_prehash_bulk;
  contains_prehash_bulk = λ b hs. contains_prehash_bulk b hs 0;
}

query_lem :
    (b : Bloom) (h : ℕ)
    → IsValid b
    → (contains_prehash b h ≡ some (query b h))
      × (query b h ≤ 1)
      × ((query b h ≡ 1) ↔ ((i : ℕ) → i < 8 → bit b (probe_slot b h i) ≡ 1))
unfolding query answer_of contains_prehash contains_with_pair
query_lem b h v =
    let pair = prehash_split h in
    let (c, e, le, iff) = contains_loop_lem 8 pair.h1 pair.h2 b v in rw e (refl, le, iff)

put_all-put_each :
    (hs : List ℕ) (b : Bloom) → put_all b (map prehash_split hs) ≡ put_each filter b hs
put_all-put_each [] b = refl
put_all-put_each (h ∷ hs) b = put_all-put_each hs (put b h)

count_one : (hits c more : ℕ) → c ≤ 1 → u64 (count_hit hits c + more) ≡ u64 (hits + (c + more))
count_one hits zero more le = omega arith
count_one hits (suc c) more le = omega arith

count_lt : (hits c : ℕ) → hits < 2 ^ 64 → count_hit hits c < 2 ^ 64
count_lt hits zero lt = lt
count_lt hits (suc c) lt = omega arith

loop_lem :
    (hs : List ℕ) (b : Bloom) (hits : ℕ)
    → IsValid b
    → hits < 2 ^ 64
    → contains_prehash_bulk b hs hits ≡ some (u64 (hits + count_each filter b hs))
unfolding contains_prehash_bulk
loop_lem [] b hits v lt = ap some (omega arith)
loop_lem (h ∷ hs) b hits v lt =
    let q = query_lem b h v in
    rw q.0 (
      loop_lem hs b (count_hit hits (query b h)) v (count_lt hits (query b h) lt)
      ∙ ap some (count_one hits (query b h) (count_each filter b hs) q.1))

pub filter-IsLawful : IsLawful filter
filter-IsLawful = record {
  put-IsValid = λ b h v. let pair = prehash_split h in put_probes-IsValid 8 pair.h1 pair.h2 b v;
  slots-put = λ b g h v.
      let pair = prehash_split g in
      let other = prehash_split h in
      ap (λ n. values (probe n other.h1 other.h2) 8) (nbits-put_probes 8 pair.h1 pair.h2 b);
  bit-put = λ b h s v.
      let pair = prehash_split h in
      let step = bit-put_probes_iff 8 pair.h1 pair.h2 b s v in
      let here = values-IsIn (probe_slot b h) 8 s in
      (
        λ e. elim (step.0 e) [ inl o ↦ inl o | inr (i, p, q) ↦ inr (here.1 (i, p, sym q)) ],
        λ m.
            step.1
              (elim m [ inl o ↦ inl o | inr t ↦ let (i, p, q) = here.0 t in inr (i, p, sym q) ]),
      );
  answer_iff = λ b h v.
      let answer = (query_lem b h v).2 in
      let probes = values-All (λ s. bit b s ≡ 1) (probe_slot b h) 8 in
      (λ e. probes.1 (answer.0 e), λ a. answer.1 (probes.0 a));
  answer-le = λ b h v. (query_lem b h v).1;
  inserts = λ b h v. unfold insert_prehash in insert_with_pair_lem b (prehash_split h) v;
  contains = λ b h v. (query_lem b h v).0;
  inserts_bulk = λ b hs v. insert_prehash_bulk_lem hs b v ∙ ap some (put_all-put_each hs b);
  contains_bulk = λ b hs v lt.
      loop_lem hs b 0 v (omega arith)
      ∙ ap some (omega (arith, count_each-le filter (λ h. (query_lem b h v).1) hs));
}

-- Every sequence of calls of the four prehash functions, from a filter that `bloom_new` of at most
-- 2^63 bits returned with an array, is answered as the textbook filter with the same slots answers
-- it, and no call faults, if no bulk query has 2^64 hashes or more.
pub run-new_classic :
    (a : Allocator) (heap : Heap) (wanted : ℕ) (h : Handle) (heap' : Heap) (mem : ℕ)
    (cs : List Call)
    → wanted ≤ 2 ^ 63
    → new a heap wanted ≡ some (h, heap')
    → h.mem ≡ some mem
    → All Fits cs
    → run filter h.filter cs ≡ some (spec_run (slots h.filter) nothing cs)
run-new_classic a heap wanted h heap' mem cs small e given ok =
    let (v, clear) = fresh (new-NewOutcome a heap wanted small) e in
    run-fresh filter h.filter cs filter-IsLawful v clear ok
  where
    fresh :
        {r : Option (Handle × Heap)}
        → NewOutcome a heap wanted r
        → r ≡ some (h, heap')
        → IsValid h.filter × ((q : ℕ) → bit h.filter q ≡ 0)
    fresh (crashed refused) e = cc
    fresh (without_array k g heap1 size header no_block refused null bits live) e = cc
    fresh (made k g heap1 m size header array v total clear got live) e =
        let same : g ≡ h = cc in rw (← same) (v, clear)
