-- ===== src/Classic/Tests.antt =====
-- Runs of the theorems on a small filter and a concrete allocator.
use quickbloom.Machine.Granting.{granting, nothing_live}
use quickbloom.Base.{
  ℕ, ◌≤◌, ◌<◌, ◌≡◌, ◌*◌, refl, arith, List, [], ◌∷◌, ◌++◌, some, map, drop, replicate,
}
use quickbloom.Base.{◌↔◌, inl, inr}
use quickbloom.Machine.{Heap, load_le, malloc, posix_memalign, round_up_pow2}
use quickbloom.Classic.Hash.{prehash_split}
use quickbloom.Classic.Filter.{
  Bloom, insert, contains, insert_bulk, contains_prehash, insert_prehash_bulk,
}
use quickbloom.Classic.Valid.{IsValid}
use quickbloom.Classic.Membership.{
  Explained, contains_prehash-insert_prehash_bulk, contains-insert_bulk,
}
use quickbloom.Classic.Collide.{zero_half-collides}
use quickbloom.Classic.Lifecycle.{Handle, new, destroy, sizes, with_header, or_calloc, fill_header}
use quickbloom.Classic.Outcomes.{empty_filter, empty_filter-IsValid, NewOutcome}
use quickbloom.Classic.NewLaws.{new-NewOutcome, live-destroy-new}

-- 128 bits, none of them set.
abbrev small_filter : Bloom
small_filter = empty_filter 7

small_filter-IsValid : IsValid small_filter
small_filter-IsValid = empty_filter-IsValid 7 (omega arith) (omega arith)

abbrev hashes : List ℕ
hashes = 0xffffffffffffffff ∷ 7 ∷ 42 ∷ []

contains_prehash-insert_prehash_bulk_example :
    (b' : Bloom) × (c : ℕ) × (insert_prehash_bulk small_filter hashes ≡ some b')
    × IsValid b'
    × (contains_prehash b' 43 ≡ some c)
    × (c ≤ 1)
    × ((c ≡ 1) ↔ (
        (i : ℕ) → i < 8 → Explained small_filter (map prehash_split hashes) (prehash_split 43) i))
contains_prehash-insert_prehash_bulk_example =
    contains_prehash-insert_prehash_bulk small_filter hashes 43 small_filter-IsValid

abbrev keys : List ℕ
keys = replicate 20 17 ++ replicate 13 200

contains-insert_bulk_example :
    (b' : Bloom) × (insert_bulk keys 11 0 3 small_filter ≡ some b')
    × (contains b' (drop (2 * 11) keys) 11 ≡ some 1)
contains-insert_bulk_example =
    contains-insert_bulk small_filter keys 11 3 2 small_filter-IsValid (omega arith)

-- Two different keys, each with a zero half.
abbrev low_key : List ℕ
low_key = replicate 8 1 ++ replicate 8 0

abbrev high_key : List ℕ
high_key = replicate 8 0 ++ replicate 8 255

low_key_zero : load_le 8 (drop 8 low_key) ≡ 0
unfolding load_le
low_key_zero = refl

high_key_zero : load_le 8 high_key ≡ 0
unfolding load_le
high_key_zero = refl

zero_half-collides_example :
    (b' : Bloom) × (insert small_filter low_key 16 ≡ some b') × (contains b' high_key 16 ≡ some 1)
zero_half-collides_example =
    zero_half-collides small_filter low_key high_key small_filter-IsValid (inr low_key_zero)
      (inl high_key_zero)

new-NewOutcome_example : NewOutcome granting nothing_live 100 (new granting nothing_live 100)
new-NewOutcome_example = new-NewOutcome granting nothing_live 100 (omega arith)

abbrev handle : Handle
handle = record { self = 0; mem = some 1; filter = small_filter }

abbrev both_live : Heap
both_live = record { live = 1 ∷ 0 ∷ []; next = 2 }

new_run : new granting nothing_live 100 ≡ some (handle, both_live)
unfolding new sizes with_header or_calloc fill_header malloc posix_memalign round_up_pow2
    empty_filter
new_run = refl

live-destroy-new_example :
    (heap'' : Heap) × (destroy both_live (record handle { filter = small_filter }) ≡ some heap'')
    × (heap''.live ≡ nothing_live.live)
live-destroy-new_example =
    live-destroy-new granting nothing_live 100 handle both_live small_filter (omega arith) new_run
