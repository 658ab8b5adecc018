-- ===== src/Concurrency/Progress.antt =====
-- An insertion that has loaded its block runs to its end while the other threads pause, if its block is
-- accessible: the state it ends in.
use quickbloom.Base.{
  ℕ, zero, suc, ◌+◌, ◌≤◌, ◌<◌, ◌≡◌, ◌≢◌, ◌∙◌, refl, ap, arith, List, [], ◌∷◌, ◌++◌, ◌⊎◌, inl, inr,
}
use quickbloom.Base.{
  IsIn, All, All-set, All-get_or, length, length-set, get_or, set, get_or-set_self, get_or-set_ne,
  ℕ_discrete, ==_iff, ne→==,
}
use quickbloom.Machine.{IsWord32}
use quickbloom.Quickbloom.Filter.{Bloom, block_for}
use quickbloom.Concurrency.{
  IsAccessible, resting, storing, System, update, store, return, Run, stop, step,
}

pub update-at : {A : Type 0} (f : ℕ → A) (i : ℕ) (x : A) → update f i x i ≡ x
update-at f i x = rw ((==_iff i i).1 refl) refl

pub update-other : {A : Type 0} (f : ℕ → A) (i j : ℕ) (x : A) → j ≢ i → update f i x j ≡ f j
update-other f i j x ne = rw (ne→== j i ne) refl

pub run-append : {n : ℕ} {b : Bloom} {s t u : System} → Run n b s t → Run n b t u → Run n b s u
run-append first stop = first
run-append first (step more next) = step (run-append first more) next

lane_stored : (j : ℕ) (lanes : List ℕ) → IsIn j lanes ⊎ ¬ IsIn j lanes
lane_stored j [] = inr (λ n. n)
lane_stored j (x ∷ xs) = elim (ℕ_discrete x j) [
  | yes e ↦ inl (inl e)
  | no ne ↦ elim (lane_stored j xs) [
    | inl is ↦ inl (inr is)
    | inr off ↦ inr (λ m. elim m [ inl e ↦ ne e | inr r ↦ off r ])
  ]
]

up_to :
    (k : ℕ) (lanes : List ℕ)
    → IsIn k lanes
    → ((j : ℕ) → j < k → IsIn j lanes)
    → (j : ℕ) → j < suc k
    → IsIn j lanes
up_to k lanes is all j lt = elim (ℕ_discrete j k) [ yes e ↦ rw e is | no ne ↦ all j (omega arith) ]

-- The lanes of the list are in the array.
abbrev pub HasLanes : Bloom → ℕ → List ℕ → List ℕ → List ℕ → Type 0
HasLanes b h reg mem stored =
    (j : ℕ) → j < 8 → IsIn j stored → get_or mem (block_for b h + j) 0 ≡ get_or reg j 0

-- An array of 32-bit words that holds the block of `h`.
pub record IsArray (b : Bloom) (h size : ℕ) (mem : List ℕ) : Type 0 where
  pub sized : length mem ≡ size
  pub fits : block_for b h + 8 ≤ size
  pub words : All IsWord32 mem

set-HasLanes :
    (b : Bloom) (h size : ℕ) (mem reg stored : List ℕ) (k : ℕ)
    → IsArray b h size mem
    → k < 8
    → HasLanes b h reg mem stored
    → HasLanes b h reg (set mem (block_for b h + k) (get_or reg k 0)) (k ∷ stored)
set-HasLanes b h size mem reg stored k is lt has j small here = elim (ℕ_discrete k j) [
  | yes e ↦ rw (← e) (
      get_or-set_self 0 mem (block_for b h + k) (get_or reg k 0) (omega (arith, is.sized, is.fits)))
  | no ne ↦
      get_or-set_ne 0 mem (block_for b h + k) (block_for b h + j) (get_or reg k 0)
        (λ e. ne (omega arith))
      ∙ has j small (elim here [ inl e ↦ absurd (ne e) | inr r ↦ r ])
]

-- The state `t`, reached from `s`, in which thread `i` has stored the given lanes and the other
-- threads have done nothing.
pub record IsStoring (n : ℕ) (b : Bloom) (s : System) (i h : ℕ) (reg : List ℕ) (t : System)
    (stored' : List ℕ) : Type 0 where
  pub run : Run n b s t
  pub state : t.writers i ≡ storing h reg stored'
  pub done : t.done ≡ s.done
  pub others : (j : ℕ) → j ≢ i → t.writers j ≡ s.writers j
  pub queries : t.readers ≡ s.readers
  pub same_length : length t.mem ≡ length s.mem

module _ (n : ℕ) (b : Bloom) (s : System) (i h : ℕ) (reg stored : List ℕ)
    (begun : s.writers i ≡ storing h reg stored) (there : IsAccessible b h s.mem) where
  store_lanes :
      (k : ℕ)
      → k ≤ 8
      → (t : System) × (stored' : List ℕ) × IsStoring n b s i h reg t stored'
        × ((j : ℕ) → j < k → IsIn j stored')
        × ((size : ℕ)
            → IsArray b h size s.mem
            → All IsWord32 reg
            → HasLanes b h reg s.mem stored
            → IsArray b h size t.mem × HasLanes b h reg t.mem stored')
  store_lanes zero le = (
    s,
    stored,
    record {
      run = stop;
      state = begun;
      done = refl;
      others = λ j ne. refl;
      queries = refl;
      same_length = refl;
    },
    λ j lt. absurd (omega arith),
    λ size is words has. (is, has),
  )
  store_lanes (suc k) le =
      let (t, stored', m, all, keeps) = store_lanes k (omega arith) in
      elim (lane_stored k stored') [
        | inl is ↦ (t, stored', m, λ j lt. up_to k stored' is all j lt, keeps)
        | inr off ↦ (
          record t {
            mem = set t.mem (block_for b h + k) (get_or reg k 0);
            writers = update t.writers i (storing h reg (k ∷ stored'));
          },
          k ∷ stored',
          record {
            run = step m.run (
                store i h reg stored' k m.state (omega arith) off (record {
                  aligned = there.aligned;
                  fits = omega (arith, there.fits, m.same_length);
                }));
            state = update-at t.writers i (storing h reg (k ∷ stored'));
            done = m.done;
            others =
                λ j ne. update-other t.writers i j (storing h reg (k ∷ stored')) ne ∙ m.others j ne;
            queries = m.queries;
            same_length = length-set t.mem (block_for b h + k) (get_or reg k 0) ∙ m.same_length;
          },
          λ j lt. up_to k (k ∷ stored') (inl refl) (λ j lt. inr (all j lt)) j lt,
          λ size is words has.
              let (is', has') = keeps size is words has in
              (
                record {
                  sized = length-set t.mem (block_for b h + k) (get_or reg k 0) ∙ is'.sized;
                  fits = is'.fits;
                  words =
                      All-set IsWord32 t.mem (block_for b h + k) (get_or reg k 0) is'.words
                        (All-get_or IsWord32 reg k 0 words (omega arith));
                },
                set-HasLanes b h size t.mem reg stored' k is' (omega arith) has',
              ),
        )
      ]

  -- Thread `i` finishes while the others do nothing: its state, the hashes, the other threads, the
  -- queries, and what the array then holds.
  pub finish :
      (t : System) × Run n b s t
      × (t.writers i ≡ resting)
      × (t.done ≡ s.done ++ (h ∷ []))
      × ((j : ℕ) → j ≢ i → t.writers j ≡ s.writers j)
      × (t.readers ≡ s.readers)
      × (length t.mem ≡ length s.mem)
      × ((size : ℕ)
          → IsArray b h size s.mem
          → All IsWord32 reg
          → HasLanes b h reg s.mem stored
          → IsArray b h size t.mem
            × ((j : ℕ) → j < 8 → get_or t.mem (block_for b h + j) 0 ≡ get_or reg j 0))
  finish =
      let (t, stored', m, all, keeps) = store_lanes 8 (omega arith) in
      (
        record t { writers = update t.writers i resting; done = t.done ++ (h ∷ []) },
        step m.run (return i h reg stored' m.state all),
        update-at t.writers i resting,
        ap (λ hs. hs ++ (h ∷ [])) m.done,
        λ j ne. update-other t.writers i j resting ne ∙ m.others j ne,
        m.queries,
        m.same_length,
        λ size is words has.
            let (is', has') = keeps size is words has in (is', λ j lt. has' j lt (all j lt)),
      )
