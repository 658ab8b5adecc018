-- ===== src/Krassovsky/Tests.antt =====
-- Runs of the theorems on a filter of four blocks.
use quickbloom.Base.{ℕ, ◌^◌, ◌<◌, ◌≤◌, ◌≡◌, refl, arith, List, [], ◌∷◌, some, replicate, ◌↔◌}
use quickbloom.Bits.{bit_at}
use quickbloom.Krassovsky.Filter.{Bloom, contains_prehash, construct_mask_scalar}
use quickbloom.Krassovsky.Batch.{
  insert_prehash_bulk, contains_prehash_bulk, construct_mask_avx2, insert_bulk, contains_bulk,
}
use quickbloom.Krassovsky.Mask.{IsTable, mask_of, construct_mask_avx2-scalar}
use quickbloom.Krassovsky.Insert.{IsValid}
use quickbloom.Krassovsky.Membership.{Explained, contains-insert_batched}
use quickbloom.Krassovsky.Count.{hits_of, contains_batched_lem}
use quickbloom.Krassovsky.Keys.{key_hashes, contains_bulk-insert_bulk}
use quickbloom.Krassovsky.Table.{Statics, mask_table_init, num_masks}
use quickbloom.Krassovsky.Sliding.{IsMask}
use quickbloom.Krassovsky.Masks.{mask_table_init-IsMask}
use quickbloom.Base.{false}

abbrev table : List ℕ
table = replicate 136 77

table-IsTable : IsTable table
table-IsTable = refl

abbrev four_blocks : Bloom
four_blocks = record { bv = replicate 4 0; num_blocks = 4; num_blocks_mask = 3 }

four_blocks-IsValid : IsValid four_blocks
four_blocks-IsValid = record { log = 2; counted = refl; masked = refl; sized = refl }

-- One batch of eight and one hash more.
abbrev hashes : List ℕ
hashes =
    0x123456789abcdef0 ∷ 7 ∷ 0xffffffff00000001 ∷ 42 ∷ 0x8000000000000000 ∷ 1 ∷ 2 ∷ 0xffff ∷ 99 ∷ []

construct_mask_avx2-scalar_example :
    (m0 : ℕ) × (m1 : ℕ) × (m2 : ℕ) × (m3 : ℕ) × (construct_mask_scalar table 7 ≡ some m0)
    × (construct_mask_scalar table 0xffffffff00000001 ≡ some m1)
    × (construct_mask_scalar table 42 ≡ some m2)
    × (construct_mask_scalar table 0xffff ≡ some m3)
    × (construct_mask_avx2 table (7 ∷ 0xffffffff00000001 ∷ 42 ∷ 0xffff ∷ [])
        ≡ some (m0 ∷ m1 ∷ m2 ∷ m3 ∷ []))
construct_mask_avx2-scalar_example =
    construct_mask_avx2-scalar table 7 0xffffffff00000001 42 0xffff table-IsTable

contains-insert_batched_example :
    (b' : Bloom) × (c : ℕ) × (insert_prehash_bulk table four_blocks hashes ≡ some b')
    × IsValid b'
    × (contains_prehash table b' 43 ≡ some c)
    × (c ≤ 1)
    × ((c ≡ 1)
        ↔ ((j : ℕ) → bit_at (mask_of table 43) j ≡ 1 → Explained table four_blocks hashes 43 j))
contains-insert_batched_example =
    contains-insert_batched table four_blocks hashes 43 table-IsTable four_blocks-IsValid

contains_batched_lem_example :
    contains_prehash_bulk table four_blocks hashes 0 ≡ some (hits_of table four_blocks hashes)
contains_batched_lem_example =
    contains_batched_lem table four_blocks hashes table-IsTable four_blocks-IsValid (omega arith)

-- Nine keys of 16 bytes: one batch and one key more.
contains_bulk-insert_bulk_example :
    (b' : Bloom) × (insert_bulk table four_blocks (replicate 144 200) 16 9 ≡ some b')
    × IsValid b'
    × (contains_bulk table b' (replicate 144 200) 16 9 ≡ some 9)
    × ((other : List ℕ) (olen m : ℕ)
        → m < 2 ^ 64
        → contains_bulk table b' other olen m ≡ some (hits_of table b' (key_hashes other olen 0 m)))
contains_bulk-insert_bulk_example =
    contains_bulk-insert_bulk table four_blocks (replicate 144 200) 16 9 table-IsTable
      four_blocks-IsValid (omega arith)

-- The static variables before the first call.
abbrev at_start : Statics
at_start = record { mask_table = replicate 136 0; mask_table_inited = false; prng_state = 0 }

mask_table_init-IsMask_example :
    (s' : Statics) × (mask_table_init at_start ≡ some s')
    × IsTable s'.mask_table
    × ((k : ℕ) → k < num_masks → IsMask s'.mask_table k)
    × (mask_table_init s' ≡ some s')
mask_table_init-IsMask_example = mask_table_init-IsMask at_start refl
