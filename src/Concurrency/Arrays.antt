-- ===== src/Concurrency/Arrays.antt =====
-- Whatever the threads do, the array keeps its size and holds 32-bit words, so that each block stays
-- accessible.
use quickbloom.Base.{ℕ, ◌≡◌, ◌∙◌, refl, arith, List, [], ◌∷◌, length, length-set, get_or}
use quickbloom.Base.{All, All-set, All-get_or, ◌+◌}
use quickbloom.Machine.{IsWord32}
use quickbloom.Quickbloom.Filter.{Bloom, block_for}
use quickbloom.Quickbloom.Valid.{IsValid, block_for-aligned, block_for-fits}
use quickbloom.Quickbloom.Insert.{or-words}
use quickbloom.Concurrency.{
  Writer, resting, storing, System, register, IsAccessible, Step, load, store, return, ask, read,
  answer, initial, Run, stop, step,
}
use quickbloom.Concurrency.Queries.{update-all}

-- The filter with another array.
abbrev pub over : Bloom → List ℕ → Bloom
over b mem = record b { bits = mem }

abbrev WriterSound : Writer → Type 0
WriterSound resting = Unit
WriterSound (storing h reg stored) = All IsWord32 reg

pub record IsSound (b : Bloom) (s : System) : Type 0 where
  pub sized : length s.mem ≡ length b.bits
  pub words : All IsWord32 s.mem
  pub registers : (i : ℕ) → WriterSound (s.writers i)

pub over-IsValid :
    (b : Bloom) (mem : List ℕ)
    → IsValid b
    → length mem ≡ length b.bits
    → All IsWord32 mem
    → IsValid (over b mem)
over-IsValid b mem v sized words = record {
  log = v.log;
  log_small = v.log_small;
  masked = v.masked;
  shifted = v.shifted;
  sized = sized ∙ v.sized;
  words = words;
}

pub accessible :
    (b : Bloom) (h : ℕ) (mem : List ℕ)
    → IsValid b
    → length mem ≡ length b.bits
    → IsAccessible b h mem
accessible b h mem v sized = record {
  aligned = block_for-aligned b h;
  fits = omega (arith, block_for-fits b h v);
}

pub register-words :
    (b : Bloom) (h : ℕ) (mem : List ℕ)
    → IsValid b
    → length mem ≡ length b.bits
    → All IsWord32 mem
    → All IsWord32 (register b mem h)
unfolding register block_for
register-words b h mem v sized words = or-words (over b mem) h (over-IsValid b mem v sized words)

step-IsSound :
    {n : ℕ} (b : Bloom) (s : System) {t : System}
    → IsValid b
    → IsSound b s
    → Step n b s t
    → IsSound b t
step-IsSound b s v ok (load i h lt rests there) = record {
  sized = ok.sized;
  words = ok.words;
  registers =
      update-all (λ j w. WriterSound w) s.writers i (storing h (register b s.mem h) [])
        (register-words b h s.mem v ok.sized ok.words) ok.registers;
}
step-IsSound b s v ok (store i h reg stored lane e lt fresh there) =
    let words : All IsWord32 reg = rw e at (ok.registers i) in
    let word : ℕ = get_or reg lane 0 in
    record {
      sized = length-set s.mem (block_for b h + lane) word ∙ ok.sized;
      words =
          All-set IsWord32 s.mem (block_for b h + lane) word ok.words
            (All-get_or IsWord32 reg lane 0 words (omega arith));
      registers =
          update-all (λ j w. WriterSound w) s.writers i (storing h reg (lane ∷ stored)) words
            ok.registers;
    }
step-IsSound b s v ok (return i h reg stored e all) = record {
  sized = ok.sized;
  words = ok.words;
  registers = update-all (λ j w. WriterSound w) s.writers i resting tt ok.registers;
}
step-IsSound b s v ok (ask r h e) = record {
  sized = ok.sized;
  words = ok.words;
  registers = ok.registers;
}
step-IsSound b s v ok (read r h before reg seen lane e lt fresh there) = record {
  sized = ok.sized;
  words = ok.words;
  registers = ok.registers;
}
step-IsSound b s v ok (answer r h before reg seen e all) = record {
  sized = ok.sized;
  words = ok.words;
  registers = ok.registers;
}

-- In every state that a run reaches from a valid filter, for any number of threads.
pub run-IsSound : {n : ℕ} (b : Bloom) {s : System} → IsValid b → Run n b (initial b) s → IsSound b s
run-IsSound b v stop = record { sized = refl; words = v.words; registers = λ i. tt }
run-IsSound b v (step {t} run next) = step-IsSound b t v (run-IsSound b v run) next
