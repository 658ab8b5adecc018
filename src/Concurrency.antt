-- ===== src/Concurrency.antt =====
-- Calls of `qb_insert_prehash` and `qb_contains_prehash` on one filter from several threads. A call
-- works on the block of its hash; the eight words of the block are stored and loaded one at a
-- time, in any order.
use quickbloom.Base.{ℕ, ◌+◌, ◌<◌, ◌≡◌, List, [], ◌∷◌, ◌++◌, Bool, ◌==◌, if◌then◌else◌, IsIn}
use quickbloom.Base.{get_or, set, take, drop, replicate, length, ◌≤◌, ◌%◌}
use quickbloom.Machine.{u32, or_si256, testc_si256}
use quickbloom.Quickbloom.Filter.{Bloom, mask_for, block_for}
pub mod Writers
pub mod Queries
pub mod Invariant
pub mod Arrays
pub mod OneWriter
pub mod Progress
pub mod Alone
pub mod LostUpdate
mod Tests

-- A thread that inserts: `storing h reg stored` has loaded the block and ored the mask in, and has
-- stored the given lanes of the register.
pub data Writer : Type 0 where
  resting : Writer
  storing : ℕ → List ℕ → List ℕ → Writer

-- A query: `reading h before reg seen` has loaded the given lanes into the register; `before` are
-- the hashes whose insertions had returned when the query started.
pub data Reader : Type 0 where
  waiting : Reader
  reading : ℕ → List ℕ → List ℕ → List ℕ → Reader
  answered : ℕ → List ℕ → ℕ → Reader

-- The array, the threads, the queries, and the hashes whose insertions have returned, in order.
pub record System : Type 0 where
  pub mem : List ℕ
  pub writers : ℕ → Writer
  pub readers : ℕ → Reader
  pub done : List ℕ

abbrev pub update {ℓ} : {A : Type ℓ} → (ℕ → A) → ℕ → A → ℕ → A
update f i v j = if j == i then v else f j

-- `_mm256_or_si256(_mm256_load_si256(blk), m)`
unfoldable pub register : Bloom → List ℕ → ℕ → List ℕ
register b mem h = or_si256 (take 8 (drop (block_for b h) mem)) (mask_for (u32 h))

-- Each lane below 8 is in the list.
abbrev pub AllLanes : List ℕ → Type 0
AllLanes lanes = (i : ℕ) → i < 8 → IsIn i lanes

-- The block of `h` lies in the array, at a multiple of 32 bytes.
pub record IsAccessible (b : Bloom) (h : ℕ) (mem : List ℕ) : Type 0 where
  pub aligned : block_for b h % 8 ≡ 0
  pub fits : block_for b h + 8 ≤ length mem

-- A step of one thread, where `n` threads insert. `b` has the geometry of the filter, which no call
-- changes. The load of a writer is one step. A load or a store of a block that is not accessible is a
-- fault: no step makes it, and the thread is stuck.
pub data Step (n : ℕ) (b : Bloom) (s : System) : System → Type 0 where
  load :
      (i h : ℕ)
      → i < n
      → s.writers i ≡ resting
      → IsAccessible b h s.mem
      → Step n b s (record s { writers = update s.writers i (storing h (register b s.mem h) []) })
  store :
      (i h : ℕ) (reg stored : List ℕ) (lane : ℕ)
      → s.writers i ≡ storing h reg stored
      → lane < 8
      → ¬ IsIn lane stored
      → IsAccessible b h s.mem
      → Step n b s (record s {
        mem = set s.mem (block_for b h + lane) (get_or reg lane 0);
        writers = update s.writers i (storing h reg (lane ∷ stored));
      })
  return :
      (i h : ℕ) (reg stored : List ℕ)
      → s.writers i ≡ storing h reg stored
      → AllLanes stored
      → Step n b s (record s { writers = update s.writers i resting; done = s.done ++ (h ∷ []) })
  ask :
      (r h : ℕ)
      → s.readers r ≡ waiting
      → Step n b s (record s { readers = update s.readers r (reading h s.done (replicate 8 0) []) })
  read :
      (r h : ℕ) (before reg seen : List ℕ) (lane : ℕ)
      → s.readers r ≡ reading h before reg seen
      → lane < 8
      → ¬ IsIn lane seen
      → IsAccessible b h s.mem
      → Step n b s (record s {
        readers =
            update s.readers r (
              reading h before
                (set reg lane (get_or s.mem (block_for b h + lane) 0))
                (lane ∷ seen));
      })
  answer :
      (r h : ℕ) (before reg seen : List ℕ)
      → s.readers r ≡ reading h before reg seen
      → AllLanes seen
      → Step n b s (record s {
        readers = update s.readers r (answered h before (testc_si256 reg (mask_for (u32 h))));
      })

-- No call is under way.
abbrev pub initial : Bloom → System
initial b = record { mem = b.bits; writers = λ i. resting; readers = λ r. waiting; done = [] }

-- A run of steps from `s`.
pub data Run (n : ℕ) (b : Bloom) (s : System) : System → Type 0 where
  stop : Run n b s s
  step : {t u : System} → Run n b s t → Step n b t u → Run n b s u
