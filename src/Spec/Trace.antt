-- ===== src/Spec/Trace.antt =====
-- A client's calls, one after another, on an implementation and on the textbook filter: whatever the
-- client does, it sees the same answers.
use quickbloom.Base.{ℕ, ◌^◌, ◌≤◌, ◌<◌, ◌≡◌, ◌∙◌, refl, sym, ap, arith, List, [], ◌∷◌, Option}
use quickbloom.Base.{some, ◌>>=◌, ◌↔◌, inl, inr, All, Any, IsIn, length, to_int, Bool-cases, ◌∙◌}
use mathlib.Core.Quot
use quickbloom.Spec.Textbook.{
  Inserted, nothing, spec_contains, spec_count, spec_insert, spec_insert_all, are_set, are_set_iff,
  list_answer,
}
use quickbloom.Spec.Interface.{Implementation, IsLawful, put_each, count_each}

-- A call of the prehash API.
pub data Call : Type 0 where
  insert : ℕ → Call
  insert_bulk : List ℕ → Call
  contains : ℕ → Call
  contains_bulk : List ℕ → Call

-- The number of hashes of a bulk query is a `size_t`.
abbrev pub Fits : Call → Type 0
Fits (contains_bulk hs) = length hs < 2 ^ 64
Fits (insert h) = Unit {0}
Fits (insert_bulk hs) = Unit {0}
Fits (contains h) = Unit {0}

-- The answers that a client of the implementation sees; `none` is a fault.
unfoldable pub run : (f : Implementation) → f.State → List Call → Option (List ℕ)
run f b [] = some []
run f b (insert h ∷ cs) = f.insert_prehash b h >>= λ b'. run f b' cs
run f b (insert_bulk hs ∷ cs) = f.insert_prehash_bulk b hs >>= λ b'. run f b' cs
run f b (contains h ∷ cs) =
    f.contains_prehash b h >>= λ c. run f b cs >>= λ answers. some (c ∷ answers)
run f b (contains_bulk hs ∷ cs) =
    f.contains_prehash_bulk b hs >>= λ c. run f b cs >>= λ answers. some (c ∷ answers)

-- The answers of the textbook filter with the given slots.
unfoldable pub spec_run : (ℕ → List ℕ) → Inserted → List Call → List ℕ
spec_run slots q [] = []
spec_run slots q (insert h ∷ cs) = spec_run slots (spec_insert h q) cs
spec_run slots q (insert_bulk hs ∷ cs) = spec_run slots (spec_insert_all hs q) cs
spec_run slots q (contains h ∷ cs) = spec_contains slots q h ∷ spec_run slots q cs
spec_run slots q (contains_bulk hs ∷ cs) = spec_count slots q hs ∷ spec_run slots q cs

-- The filter is valid, has the given slots, and its bits are those that the hashes select.
pub record Simulates (f : Implementation) (slots : ℕ → List ℕ) (b : f.State) (gs : List ℕ)
    : Type 0 where
  pub valid : f.IsValid b
  pub same_slots : (h : ℕ) → f.slots b h ≡ slots h
  pub bits : (s : ℕ) → (f.bit b s ≡ 1) ↔ Any (λ g. IsIn s (slots g)) gs

module _ (f : Implementation) (slots : ℕ → List ℕ) (law : IsLawful f) where
  Simulates-put :
      (b : f.State) (h : ℕ) (gs : List ℕ)
      → Simulates f slots b gs
      → Simulates f slots (f.put b h) (h ∷ gs)
  Simulates-put b h gs m = record {
    valid = law.put-IsValid b h m.valid;
    same_slots = λ g. law.slots-put b h g m.valid ∙ m.same_slots g;
    bits = λ s.
        let step = law.bit-put b h s m.valid in
        let before = m.bits s in
        (
          λ e. elim (step.0 e) [
            | inl o ↦ inr (before.0 o)
            | inr i ↦ inl (rw (m.same_slots h) at i)
          ],
          λ a. step.1 (elim a [ inl i ↦ inr (rw (m.same_slots h) i) | inr o ↦ inl (before.1 o) ]),
        );
  }

  -- The hashes after a run of insertions, the last one first.
  abbrev grown : List ℕ → List ℕ → List ℕ
  grown [] gs = gs
  grown (h ∷ hs) gs = grown hs (h ∷ gs)

  Simulates-put_each :
      (hs : List ℕ) (b : f.State) (gs : List ℕ)
      → Simulates f slots b gs
      → Simulates f slots (put_each f b hs) (grown hs gs)
  Simulates-put_each [] b gs m = m
  Simulates-put_each (h ∷ hs) b gs m =
      Simulates-put_each hs (f.put b h) (h ∷ gs) (Simulates-put b h gs m)

  spec_insert_all-mk : (hs gs : List ℕ) → spec_insert_all hs (Quot.mk gs) ≡ Quot.mk (grown hs gs)
  unfolding spec_insert_all spec_insert
  spec_insert_all-mk [] gs = refl
  spec_insert_all-mk (h ∷ hs) gs = spec_insert_all-mk hs (h ∷ gs)

  bits_iff :
      (b : f.State) (gs ss : List ℕ)
      → Simulates f slots b gs
      → All (λ s. f.bit b s ≡ 1) ss ↔ All (λ s. Any (λ g. IsIn s (slots g)) gs) ss
  bits_iff b gs [] m = (λ a. tt, λ a. tt)
  bits_iff b gs (s ∷ ss) m =
      let here = m.bits s in
      let rest = bits_iff b gs ss m in
      (λ a. (here.0 a.0, rest.0 a.1), λ a. (here.1 a.0, rest.1 a.1))

  answer_lem :
      (b : f.State) (gs : List ℕ) (h : ℕ)
      → Simulates f slots b gs
      → f.answer b h ≡ list_answer slots gs h
  answer_lem b gs h m =
      let here : (f.answer b h ≡ 1) ↔ All (λ s. f.bit b s ≡ 1) (slots h) =
        rw (m.same_slots h) at (law.answer_iff b h m.valid) in
      let there = bits_iff b gs (slots h) m in
      let spec = are_set_iff slots gs (slots h) in
      elim (Bool-cases (are_set slots gs (slots h))) [
        | inl t ↦ here.1 (there.1 (spec.0 t)) ∙ sym (ap to_int t)
        | inr e ↦
            zero_unless (f.answer b h) (law.answer-le b h m.valid)
              (λ one. let t = spec.1 (there.0 (here.0 one)) in cc)
            ∙ sym (ap to_int e)
      ]
    where
      zero_unless : (c : ℕ) → c ≤ 1 → ¬ (c ≡ 1) → c ≡ 0
      zero_unless c le ne = omega arith

  count_lem :
      (b : f.State) (gs hs : List ℕ)
      → Simulates f slots b gs
      → count_each f b hs ≡ spec_count slots (Quot.mk gs) hs
  unfolding spec_count spec_contains
  count_lem b gs [] m = refl
  count_lem b gs (h ∷ hs) m = omega (arith, answer_lem b gs h m, count_lem b gs hs m)

  -- On a lawful implementation every sequence of calls, from a filter whose bits are those of some
  -- inserted hashes, is answered as the textbook filter answers it, and none of the calls faults.
  pub run-refines :
      (cs : List Call) (b : f.State) (gs : List ℕ)
      → Simulates f slots b gs
      → All Fits cs
      → run f b cs ≡ some (spec_run slots (Quot.mk gs) cs)
  unfolding run spec_run spec_insert
  run-refines [] b gs m ok = refl
  run-refines (insert h ∷ cs) b gs m ok =
      rw (law.inserts b h m.valid)
        (run-refines cs (f.put b h) (h ∷ gs) (Simulates-put b h gs m) ok.1)
  run-refines (insert_bulk hs ∷ cs) b gs m ok =
      rw (law.inserts_bulk b hs m.valid, spec_insert_all-mk hs gs)
        (run-refines cs (put_each f b hs) (grown hs gs) (Simulates-put_each hs b gs m) ok.1)
  run-refines (contains h ∷ cs) b gs m ok =
      rw (law.contains b h m.valid, run-refines cs b gs m ok.1)
        (ap (λ c. some (c ∷ spec_run slots (Quot.mk gs) cs))
          (unfold spec_contains in answer_lem b gs h m))
  run-refines (contains_bulk hs ∷ cs) b gs m ok =
      rw (law.contains_bulk b hs m.valid ok.0, run-refines cs b gs m ok.1)
        (ap (λ c. some (c ∷ spec_run slots (Quot.mk gs) cs)) (count_lem b gs hs m))

-- The answers on a filter that has no bit set yet.
pub run-fresh :
    (f : Implementation) (b : f.State) (cs : List Call)
    → IsLawful f
    → f.IsValid b
    → ((s : ℕ) → f.bit b s ≡ 0)
    → All Fits cs
    → run f b cs ≡ some (spec_run (f.slots b) nothing cs)
unfolding nothing
run-fresh f b cs law v clear ok =
    run-refines f (f.slots b) law cs b []
      (record {
        valid = v;
        same_slots = λ h. refl;
        bits = λ s. (λ one. absurd (omega (arith, clear s, one)), λ n. absurd n);
      })
      ok
