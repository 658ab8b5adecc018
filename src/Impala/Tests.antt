-- ===== src/Impala/Tests.antt =====
-- Runs of the theorems on concrete filters.
use quickbloom.Base.{ℕ, List, [], ◌∷◌, some, ◌≡◌, arith}
use quickbloom.Quickbloom.Filter as Fast
use quickbloom.Quickbloom.Probe as Probe
use quickbloom.Quickbloom.Bulk as Bulk
use quickbloom.Quickbloom.NewLaws.{empty_filter, empty_filter-IsValid}
use quickbloom.Impala.Filter.{insert_prehash_bulk, contains_prehash}
use quickbloom.Impala.Agree.{view, prehash-agrees}

abbrev hashes : List ℕ
hashes = 0x123456789abcdef0 ∷ 7 ∷ 0xffffffff00000001 ∷ 42 ∷ 0x8000000000000000 ∷ []

prehash-agrees_example :
    (b' : Fast.Bloom) × (Bulk.insert_prehash_bulk (empty_filter 1) hashes ≡ some b')
    × (insert_prehash_bulk (view (empty_filter 1)) hashes ≡ some (view b'))
    × (contains_prehash (view b') 43 ≡ Probe.contains_prehash b' 43)
prehash-agrees_example =
    prehash-agrees (empty_filter 1) hashes 43 (empty_filter-IsValid 1 (omega arith))
