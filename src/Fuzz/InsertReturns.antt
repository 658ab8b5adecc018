-- ===== src/Fuzz/InsertReturns.antt =====
-- How the runs of fuzz_insert.c end.
use quickbloom.Base.{ℕ, ◌≡◌, List}
use quickbloom.Base.{length}
use quickbloom.Machine.{Heap, IsBytes}
use quickbloom.Quickbloom.Restore as Restore
use quickbloom.Fuzz.Run.{Run, ok}

-- The target returns, with the live allocations as they were.
abbrev pub Returns : Heap → Run Heap → Type 0
Returns heap r = (heap' : Heap) × (r ≡ ok heap') × (heap'.live ≡ heap.live)

-- What a new block of the given number of bytes holds.
abbrev pub IsContents : (ℕ → List ℕ) → Type 0
IsContents contents = (n : ℕ) → (length (contents n) ≡ n) × IsBytes (contents n)
