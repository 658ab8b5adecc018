-- ===== src/Concurrency/Tests.antt =====
-- Runs of the theorems on a filter of two blocks.
use quickbloom.Base.{ℕ, ◌+◌, ◌≡◌, refl, ap, arith, [], ◌∷◌, some, inl, IsIn, ◌≢◌}
use quickbloom.Machine.{u32}
use quickbloom.Quickbloom.Filter.{Bloom, block_for}
use quickbloom.Quickbloom.Probe.{contains_prehash}
use quickbloom.Quickbloom.Bulk.{insert_prehash_bulk}
use quickbloom.Quickbloom.Mask.{position}
use quickbloom.Quickbloom.NewLaws.{empty_filter, empty_filter-IsValid}
use quickbloom.Quickbloom.Lifetime.{no_bit}
use quickbloom.Quickbloom.Valid.{IsValid}
use quickbloom.Concurrency.{
  System, resting, storing, waiting, answered, register, update, load, initial, Run, stop, step,
}
use quickbloom.Concurrency.OneWriter.{answered-returned, resting-mem}
use quickbloom.Concurrency.Progress.{run-append}
use quickbloom.Concurrency.Arrays.{accessible}
use quickbloom.Concurrency.Alone.{storing-returns, waiting-answers}
use quickbloom.Concurrency.LostUpdate.{contains-lost}

abbrev filter : Bloom
filter = empty_filter 1

filter-IsValid : IsValid filter
filter-IsValid = empty_filter-IsValid 1 (omega arith)

-- The hash 5 is being inserted.
abbrev begun : System
begun = record (initial filter) {
  writers = update (λ i. resting) 0 (storing 5 (register filter filter.bits 5) []);
}

load_five : Run 1 filter (initial filter) begun
load_five =
    step stop (load 0 5 (omega arith) refl (accessible filter 5 filter.bits filter-IsValid refl))

-- It has returned.
returned :
    (t : System) × Run 1 filter (initial filter) t
    × (t.writers 0 ≡ resting)
    × (t.done ≡ 5 ∷ [])
    × (t.readers 0 ≡ waiting)
returned =
    let (t, run, rests, done, queries) =
      storing-returns 1 filter begun 0 5 (register filter filter.bits 5) [] filter-IsValid load_five
        refl in
    (t, run-append load_five run, rests, done, ap (λ f. f 0) queries)

resting-mem_example :
    insert_prehash_bulk filter returned.0.done ≡ some (record filter { bits = returned.0.mem })
resting-mem_example = resting-mem filter returned.0 filter-IsValid returned.1 returned.2

queried :
    (t : System) × (c : ℕ) × Run 1 filter (initial filter) t
    × (t.readers 0 ≡ answered 5 returned.0.done c)
queried =
    let (t, c, run, at, same, le) =
      waiting-answers 1 filter returned.0 0 5 filter-IsValid returned.1 returned.4 in
    (t, c, run-append returned.1 run, at)

five_returned : IsIn 5 returned.0.done
five_returned = rw returned.3 (inl refl)

answered-returned_example : queried.1 ≡ 1
answered-returned_example =
    answered-returned filter queried.0 0 5 returned.0.done queried.1 filter-IsValid queried.2
      queried.3 five_returned

one_block : block_for filter 2 ≡ block_for filter 1
unfolding block_for
one_block = refl

other_bit : position (u32 2) 0 ≢ position (u32 1) 0
unfolding position
other_bit e = absurd (omega arith)

contains-lost_example :
    (s : System) × Run 2 filter (initial filter) s
    × (s.done ≡ 1 ∷ 2 ∷ [])
    × (contains_prehash (record filter { bits = s.mem }) 1 ≡ some 0)
contains-lost_example =
    contains-lost filter 1 2 0 filter-IsValid one_block (omega arith) other_bit
      (no_bit 1 (block_for filter 1 + 0) (position (u32 1) 0))
