-- ===== src/Concurrency/Alone.antt =====
-- A call that runs to its end while the other threads pause, from any state that a run reaches: its
-- loads and stores do not fault, and it does what the sequential function does.
use quickbloom.Base.{
  ℕ, zero, suc, ◌+◌, ◌≤◌, ◌<◌, ◌≡◌, ◌∙◌, refl, sym, ap, arith, List, [], ◌∷◌, ◌++◌, some, inl, inr,
  IsIn, All, All-set, All-get_or, All-replicate, length, length-set, length-replicate, get_or, set,
  get_or-set_self, get_or-set_ne, ℕ_discrete, replicate,
}
use quickbloom.Machine.{IsWord32, u32, testc_si256}
use quickbloom.Quickbloom.Filter.{Bloom, block_for, mask_for}
use quickbloom.Quickbloom.Probe.{contains_prehash}
use quickbloom.Quickbloom.Valid.{IsValid}
use quickbloom.Quickbloom.Query.{
  query, query-le, query_iff, contains_prehash_lem, testc_si256-mask_for,
}
use quickbloom.Concurrency.{
  IsAccessible, resting, storing, waiting, reading, answered, System, update, ask, read, answer,
  initial, Run, stop, step,
}
use quickbloom.Concurrency.Arrays.{over, over-IsValid, accessible, run-IsSound}
use quickbloom.Concurrency.Progress.{run-append, update-at, finish}

same_block : (b : Bloom) (mem : List ℕ) (h : ℕ) → block_for (over b mem) h ≡ block_for b h
unfolding block_for
same_block b mem h = refl

answer_of_lanes :
    (b : Bloom) (h : ℕ) (mem reg : List ℕ)
    → IsValid (over b mem)
    → length reg ≡ 8
    → All IsWord32 reg
    → ((j : ℕ) → j < 8 → get_or reg j 0 ≡ get_or mem (block_for b h + j) 0)
    → contains_prehash (over b mem) h ≡ some (testc_si256 reg (mask_for (u32 h)))
answer_of_lanes b h mem reg v sized words lanes =
    let seen = testc_si256-mask_for reg (u32 h) sized words in
    let known = query_iff (over b mem) h v in
    let block = same_block b mem h in
    contains_prehash_lem (over b mem) h v
    ∙ ap some (
        same (query (over b mem) h) (testc_si256 reg (mask_for (u32 h))) (query-le (over b mem) h)
          (ground arith) (λ one. seen.1 (λ i lt. rw (lanes i lt) (rw block at (known.0 one i lt))))
          (λ one. known.1 (λ i lt. rw (block, ← lanes i lt) (seen.0 one i lt))))
  where
    same : (c e : ℕ) → c ≤ 1 → e ≤ 1 → (c ≡ 1 → e ≡ 1) → (e ≡ 1 → c ≡ 1) → c ≡ e
    same zero zero p q f g = refl
    same (suc zero) e p q f g = sym (f refl)
    same c (suc zero) p q f g = g refl
    same (suc (suc c)) e p q f g = absurd (omega arith)
    same zero (suc (suc e)) p q f g = absurd (omega arith)

-- For any number of inserting threads, in every state that a run reaches from a valid filter, an
-- insertion that is under way can run to its end, with no fault, while the other threads pause.
pub storing-returns :
    (n : ℕ) (b : Bloom) (s : System) (i h : ℕ) (reg stored : List ℕ)
    → IsValid b
    → Run n b (initial b) s
    → s.writers i ≡ storing h reg stored
    → (t : System) × Run n b s t
      × (t.writers i ≡ resting)
      × (t.done ≡ s.done ++ (h ∷ []))
      × (t.readers ≡ s.readers)
storing-returns n b s i h reg stored v run begun =
    let there = accessible b h s.mem v (run-IsSound b v run).sized in
    let (t, more, rests, done, others, queries, same, keeps) =
      finish n b s i h reg stored begun there in
    (t, more, rests, done, queries)

-- A query that has loaded the first `k` lanes of an array that has not changed.
record IsLoading (n : ℕ) (b : Bloom) (s : System) (r h : ℕ) (before : List ℕ) (k : ℕ) (t : System)
    (reg seen : List ℕ) : Type 0 where
  run : Run n b s t
  state : t.readers r ≡ reading h before reg seen
  mem : t.mem ≡ s.mem
  sized : length reg ≡ 8
  words : All IsWord32 reg
  lanes : (j : ℕ) → j < k → get_or reg j 0 ≡ get_or s.mem (block_for b h + j) 0
  first : (j : ℕ) → j < k → IsIn j seen
  no_more : (j : ℕ) → k ≤ j → ¬ IsIn j seen

load_lanes :
    (n : ℕ) (b : Bloom) (s : System) (r h : ℕ) (before : List ℕ) (k : ℕ)
    → k ≤ 8
    → IsAccessible b h s.mem
    → All IsWord32 s.mem
    → s.readers r ≡ reading h before (replicate 8 0) []
    → (t : System) × (reg : List ℕ) × (seen : List ℕ) × IsLoading n b s r h before k t reg seen
load_lanes n b s r h before zero le there words e = (
  s,
  replicate 8 0,
  [],
  record {
    run = stop;
    state = e;
    mem = refl;
    sized = length-replicate {A = ℕ} 8 0;
    words = All-replicate IsWord32 8 0 (omega arith);
    lanes = λ j lt. absurd (omega arith);
    first = λ j lt. absurd (omega arith);
    no_more = λ j le none. none;
  },
)
load_lanes n b s r h before (suc k) le there words e =
    let (t, reg, seen, m) = load_lanes n b s r h before k (omega arith) there words e in
    let word : ℕ = get_or t.mem (block_for b h + k) 0 in
    (
      record t { readers = update t.readers r (reading h before (set reg k word) (k ∷ seen)) },
      set reg k word,
      k ∷ seen,
      record {
        run = step m.run (
            read r h before reg seen k m.state (omega arith) (m.no_more k (omega arith))
              (rw m.mem there));
        state = update-at t.readers r (reading h before (set reg k word) (k ∷ seen));
        mem = m.mem;
        sized = length-set reg k word ∙ m.sized;
        words =
            All-set IsWord32 reg k word m.words
              (All-get_or IsWord32 t.mem (block_for b h + k) 0 (rw m.mem words) (omega arith));
        lanes = λ j lt. elim (ℕ_discrete k j) [
          | yes here ↦ rw (← here) (
              get_or-set_self 0 reg k word (omega (arith, m.sized))
              ∙ ap (λ ws. get_or ws (block_for b h + k) 0) m.mem)
          | no ne ↦ get_or-set_ne 0 reg k j word ne ∙ m.lanes j (omega arith)
        ];
        first = λ j lt. elim (ℕ_discrete k j) [
          | yes here ↦ inl here
          | no ne ↦ inr (m.first j (omega arith))
        ];
        no_more = λ j le is. elim is [
          | inl here ↦ omega arith
          | inr later ↦ m.no_more j (omega arith) later
        ];
      },
    )

pub waiting-answers :
    (n : ℕ) (b : Bloom) (s : System) (r h : ℕ)
    → IsValid b
    → Run n b (initial b) s
    → s.readers r ≡ waiting
    → (t : System) × (c : ℕ) × Run n b s t
      × (t.readers r ≡ answered h s.done c)
      × (contains_prehash (record b { bits = s.mem }) h ≡ some c)
      × (c ≤ 1)
waiting-answers n b s r h v run waits =
    let ok = run-IsSound b v run in
    let asked : System = record s {
      readers = update s.readers r (reading h s.done (replicate 8 0) []);
    } in
    let (t, reg, seen, m) =
      load_lanes n b asked r h s.done 8 (omega arith) (accessible b h s.mem v ok.sized) ok.words
        (update-at s.readers r (reading h s.done (replicate 8 0) [])) in
    let c : ℕ = testc_si256 reg (mask_for (u32 h)) in
    (
      record t { readers = update t.readers r (answered h s.done c) },
      c,
      run-append (step stop (ask r h waits))
          (step m.run (answer r h s.done reg seen m.state m.first)),
      update-at t.readers r (answered h s.done c),
      answer_of_lanes b h s.mem reg (over-IsValid b s.mem v ok.sized ok.words) m.sized m.words
          m.lanes,
      ground arith,
    )
