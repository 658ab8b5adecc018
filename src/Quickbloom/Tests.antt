-- ===== src/Quickbloom/Tests.antt =====
-- Runs of the theorems on concrete filters, keys and allocators.
use quickbloom.Base.{IsIn}
use quickbloom.Base.{ℕ, ◌-◌, ◌/◌, ◌%◌, ◌^◌, ◌≤◌, ◌<◌, ◌≡◌, refl, arith, List, []}
use quickbloom.Base.{◌∷◌, ◌++◌, some, inl, inr, ◌↔◌}
use quickbloom.Base.{replicate, All-replicate}
use quickbloom.Machine.{u64, mul64, IsByte, IsBytes}
use quickbloom.Machine.{round_up_pow2, IsRounded, round_up_pow2_lem}
use quickbloom.Machine.{load_si256}
use quickbloom.Quickbloom.Hash.{fasthash_m, fasthash_final, fasthash64_var}
use quickbloom.Quickbloom.HashWords.{le_words, fold_mix, fasthash64_var_lem}
use quickbloom.Quickbloom.Filter.{Bloom, block_for, mask_for}
use quickbloom.Quickbloom.Probe.{contains_prehash}
use quickbloom.Quickbloom.Bulk.{insert_bulk, contains_bulk, insert_prehash_bulk}
use quickbloom.Quickbloom.Valid.{IsValid}
use quickbloom.Quickbloom.Batch.{put_all}
use quickbloom.Quickbloom.Membership.{
  Explained, contains-insert_prehash_bulk, insert_prehash_bulk-set,
}
use quickbloom.Quickbloom.BulkLaws.{key_hashes, insert_bulk_lem}
use quickbloom.Quickbloom.Count.{hits_of, contains_bulk_lem}
use quickbloom.Quickbloom.Header.{header_of}
use quickbloom.Quickbloom.NewLaws.{empty_filter, empty_filter-IsValid}

-- Two blocks with no bit set.
abbrev pub two_blocks : Bloom
two_blocks = empty_filter 1

pub two_blocks-IsValid : IsValid two_blocks
two_blocks-IsValid = empty_filter-IsValid 1 (omega arith)

abbrev pub hashes : List ℕ
hashes = 0x123456789abcdef0 ∷ 7 ∷ 0xffffffff00000001 ∷ 42 ∷ 0x8000000000000000 ∷ []

contains-insert_prehash_bulk_example :
    (b' : Bloom) × (c : ℕ) × (insert_prehash_bulk two_blocks hashes ≡ some b')
    × IsValid b'
    × (contains_prehash b' 43 ≡ some c)
    × (c ≤ 1)
    × ((c ≡ 1) ↔ ((i : ℕ) → i < 8 → Explained two_blocks hashes 43 i))
contains-insert_prehash_bulk_example =
    contains-insert_prehash_bulk two_blocks hashes 43 two_blocks-IsValid

-- A filter of one block in which every bit is set.
abbrev pub full_block : Bloom
full_block = header_of 0 (replicate 8 (2 ^ 32 - 1))

full_block-IsValid : IsValid full_block
unfolding header_of
full_block-IsValid = record {
  log = 0;
  log_small = omega arith;
  masked = refl;
  shifted = refl;
  sized = refl;
  words = All-replicate (λ w. w < 2 ^ 32) 8 (2 ^ 32 - 1) (omega arith);
}

full_block-contains : contains_prehash full_block 99 ≡ some 1
unfolding contains_prehash header_of load_si256 block_for mask_for
full_block-contains = refl

same_members : (h : ℕ) → IsIn h (3 ∷ 5 ∷ 3 ∷ []) ↔ IsIn h (5 ∷ 3 ∷ [])
same_members h = (
  λ m. elim m [
    | inl e ↦ inr (inl e)
    | inr (inl e) ↦ inl e
    | inr (inr (inl e)) ↦ inr (inl e)
    | inr (inr (inr n)) ↦ absurd n
  ],
  λ m. elim m [ inl e ↦ inr (inl e) | inr (inl e) ↦ inl e | inr (inr n) ↦ absurd n ],
)

insert_prehash_bulk-set_example :
    insert_prehash_bulk two_blocks (3 ∷ 5 ∷ 3 ∷ []) ≡ insert_prehash_bulk two_blocks (5 ∷ 3 ∷ [])
insert_prehash_bulk-set_example =
    insert_prehash_bulk-set two_blocks (3 ∷ 5 ∷ 3 ∷ []) (5 ∷ 3 ∷ []) two_blocks-IsValid same_members

-- Five keys of 16 bytes: one round of the unrolled loop and one of the last.
abbrev keys : List ℕ
keys = replicate 20 17 ++ replicate 60 200

insert_bulk_lem_example :
    insert_bulk two_blocks keys 16 5 ≡ some (put_all two_blocks (key_hashes keys 16 0 5))
insert_bulk_lem_example = insert_bulk_lem two_blocks keys 16 5 two_blocks-IsValid

contains_bulk_lem_example :
    contains_bulk full_block keys 16 5 ≡ some (hits_of full_block (key_hashes keys 16 0 5))
contains_bulk_lem_example = contains_bulk_lem full_block keys 16 5 full_block-IsValid (omega arith)

eleven-IsBytes : IsBytes (replicate 11 200)
eleven-IsBytes = All-replicate IsByte 11 200 (omega arith)

fasthash64_var_lem_example :
    fasthash64_var (replicate 11 200) 11
    ≡ fasthash_final
        (fold_mix (mul64 (u64 11) fasthash_m) (le_words (11 / 8) (11 % 8) (replicate 11 200)))
fasthash64_var_lem_example = fasthash64_var_lem (replicate 11 200) 11 eleven-IsBytes

round_up_pow2_lem_example : IsRounded 300 0 (round_up_pow2 64 300 (2 ^ 0))
round_up_pow2_lem_example = round_up_pow2_lem 300 0 (omega arith) (omega arith)
