-- ===== src/Concurrency/Queries.antt =====
-- The invariant of a system with one inserting thread: the array is between two filters of the
-- sequential run, and each query has seen what was inserted before it.
use quickbloom.Base.{ℕ, ◌+◌, ◌^◌, ◌<◌, ◌≡◌, ◌∙◌, arith, List, [], ◌∷◌, ◌++◌, inl, inr}
use quickbloom.Base.{
  IsIn, All, All-set, All-get_or, length, length-set, get_or, set, get_or-set_self, get_or-set_ne,
  ℕ_discrete, ==_iff, ne→==,
}
use quickbloom.Bits.{bit_at}
use quickbloom.Machine.{u32, IsWord32, testc_si256}
use quickbloom.Quickbloom.Filter.{Bloom, mask_for, block_for}
use quickbloom.Quickbloom.Mask.{position}
use quickbloom.Quickbloom.Valid.{IsValid}
use quickbloom.Quickbloom.Insert.{put, put-IsValid}
use quickbloom.Quickbloom.Query.{Covered, testc_si256-mask_for}
use quickbloom.Quickbloom.Batch.{put_all, put_all-IsValid, block_for-put_all, bit-put_iff}
use quickbloom.Quickbloom.Membership.{Covered-inserted}
use quickbloom.Concurrency.{
  Writer, resting, storing, Reader, waiting, reading, answered, System, update, AllLanes,
}
use quickbloom.Concurrency.Writers.{IsMid}

-- The array between two steps, from what the inserting thread is doing; `f` is the filter after the
-- insertions that have returned.
abbrev pub WriterOk : Bloom → List ℕ → Writer → Type 0
WriterOk f mem resting = mem ≡ f.bits
WriterOk f mem (storing h reg stored) = IsMid f h mem reg stored

-- What a query has seen so far.
pub record IsReading (b : Bloom) (done : List ℕ) (h : ℕ) (before reg seen : List ℕ) : Type 0 where
  pub sized : length reg ≡ 8
  pub words : All IsWord32 reg
  pub returned : IsIn h before → IsIn h done
  pub sees :
      IsIn h before
      → (i : ℕ) → i < 8
      → IsIn i seen
      → bit_at (get_or reg i 0) (position (u32 h) i) ≡ 1

abbrev pub ReaderOk : Bloom → List ℕ → Reader → Type 0
ReaderOk b done waiting = Unit
ReaderOk b done (reading h before reg seen) = IsReading b done h before reg seen
ReaderOk b done (answered h before c) = IsIn h before → c ≡ 1

pub record IsConsistent (b : Bloom) (s : System) : Type 0 where
  pub only_one : (i : ℕ) → 0 < i → s.writers i ≡ resting
  pub writer : WriterOk (put_all b s.done) s.mem (s.writers 0)
  pub queries : (r : ℕ) → ReaderOk b s.done (s.readers r)

module _ {A : Type 0} (P : ℕ → A → Type 0) (f : ℕ → A) (i : ℕ) (x : A) where
  -- What holds of the new value and of the other values holds of all.
  pub update-all : P i x → ((j : ℕ) → P j (f j)) → (j : ℕ) → P j (update f i x j)
  update-all p q j = elim (ℕ_discrete j i) [
    | yes e ↦ rw ((==_iff j i).1 e) (rw e p)
    | no ne ↦ rw (ne→== j i ne) (q j)
  ]

-- Each word of the array is a word of the filter before or after the insertion under way.
bit-still :
    (f : Bloom) (mem : List ℕ) (w : Writer) (h i : ℕ)
    → IsValid f
    → WriterOk f mem w
    → Covered f h
    → i < 8
    → bit_at (get_or mem (block_for f h + i) 0) (position (u32 h) i) ≡ 1
bit-still f mem resting h i v ok c lt = rw ok (c i lt)
bit-still f mem (storing g reg stored) h i v ok c lt = elim (ok.word (block_for f h + i)) [
  | inl old ↦ rw old (c i lt)
  | inr new ↦ rw new ((bit-put_iff f g (block_for f h + i) (position (u32 h) i) v).1 (inl (c i lt)))
]

word-small :
    (f : Bloom) (mem : List ℕ) (w : Writer) (k : ℕ)
    → IsValid f
    → WriterOk f mem w
    → get_or mem k 0 < 2 ^ 32
word-small f mem resting k v ok = rw ok (All-get_or IsWord32 f.bits k 0 v.words (omega arith))
word-small f mem (storing g reg stored) k v ok = elim (ok.word k) [
  | inl old ↦ rw old (All-get_or IsWord32 f.bits k 0 v.words (omega arith))
  | inr new ↦
      rw new (All-get_or IsWord32 (put f g).bits k 0 (put-IsValid f g v).words (omega arith))
]

-- What one lane of a query sees.
pub read-IsReading :
    (b : Bloom) (s : System) (h : ℕ) (before reg seen : List ℕ) (lane : ℕ)
    → IsValid b
    → IsConsistent b s
    → lane < 8
    → IsReading b s.done h before reg seen
    → IsReading b s.done h before
        (set reg lane (get_or s.mem (block_for b h + lane) 0))
        (lane ∷ seen)
read-IsReading b s h before reg seen lane v ok lt m =
    let f = put_all b s.done in
    let vf = put_all-IsValid s.done b v in
    let word : ℕ = get_or s.mem (block_for b h + lane) 0 in
    record {
      sized = length-set reg lane word ∙ m.sized;
      words =
          All-set IsWord32 reg lane word m.words
            (word-small f s.mem (s.writers 0) (block_for b h + lane) vf ok.writer);
      returned = m.returned;
      sees = λ is i small here. elim (ℕ_discrete lane i) [
        | yes e ↦
            rw (← e, get_or-set_self 0 reg lane word (omega (arith, m.sized)))
              (rw (block_for-put_all s.done b h) at (
                bit-still f s.mem (s.writers 0) h lane vf ok.writer
                  (Covered-inserted b s.done h v (m.returned is)) lt))
        | no ne ↦
            rw (get_or-set_ne 0 reg lane i word ne)
              (m.sees is i small (elim here [ inl e ↦ absurd (ne e) | inr r ↦ r ]))
      ];
    }

pub answer-one :
    (b : Bloom) (done : List ℕ) (h : ℕ) (before reg seen : List ℕ)
    → IsReading b done h before reg seen
    → AllLanes seen
    → IsIn h before
    → testc_si256 reg (mask_for (u32 h)) ≡ 1
answer-one b done h before reg seen m all is =
    (testc_si256-mask_for reg (u32 h) m.sized m.words).1 (λ i lt. m.sees is i lt (all i lt))

IsIn-append : (g h : ℕ) (hs : List ℕ) → IsIn g hs → IsIn g (hs ++ (h ∷ []))
IsIn-append g h [] n = absurd n
IsIn-append g h (x ∷ hs) (inl e) = inl e
IsIn-append g h (x ∷ hs) (inr r) = inr (IsIn-append g h hs r)

pub ReaderOk-append :
    (b : Bloom) (done : List ℕ) (g : ℕ) (q : Reader)
    → ReaderOk b done q
    → ReaderOk b (done ++ (g ∷ [])) q
ReaderOk-append b done g waiting ok = tt
ReaderOk-append b done g (reading h before reg seen) m = record {
  sized = m.sized;
  words = m.words;
  returned = λ is. IsIn-append h g done (m.returned is);
  sees = m.sees;
}
ReaderOk-append b done g (answered h before c) ok = ok
