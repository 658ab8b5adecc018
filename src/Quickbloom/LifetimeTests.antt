-- ===== src/Quickbloom/LifetimeTests.antt =====
-- Runs of the theorems on allocation, serialisation and sizing, with an allocator that has room.
use quickbloom.Machine.Granting.{granting, nothing_live}
use quickbloom.Base.{ℕ, zero, suc, ◌+◌, ◌-◌, ◌*◌, ◌^◌, ◌≤◌, ◌<◌, ◌≡◌, refl, arith, List, []}
use quickbloom.Base.{◌∷◌, none, some, true, ◌⊎◌, length, take}
use quickbloom.Base.{replicate, All-replicate, dec_lt, pow_mono}
use quickbloom.Machine.{Heap, to_bytes, IsByte}
use quickbloom.Machine.{round_up_pow2}
use quickbloom.Machine.{malloc, posix_memalign}
use quickbloom.Quickbloom.Filter.{log2_loop, log2_pow2}
use quickbloom.Quickbloom.Valid.{IsValid, nblocks}
use quickbloom.Quickbloom.Header.{header_of}
use quickbloom.Quickbloom.Build.{Built}
use quickbloom.Quickbloom.Lifecycle.{
  Handle, new, destroy, requested, build, with_array, with_header, fill_header,
}
use quickbloom.Quickbloom.NewLaws.{empty_filter}
use quickbloom.Quickbloom.NewSizes.{SizedOutcome, new-SizedOutcome}
use quickbloom.Quickbloom.Lifetime.{new-size, destroy-new, new_wraps}
use quickbloom.Quickbloom.Serialize.{done, serialize, deserialize}
use quickbloom.Quickbloom.RoundTrip.{IsAccepted, IsCopied, deserialize-refused, deserialize-Built}
use quickbloom.Quickbloom.Restore.{Restored, Writes, deserialize-serialize, serialize-deserialize}
use quickbloom.Quickbloom.Tests.{two_blocks, two_blocks-IsValid, full_block}

abbrev handle : Handle
handle = record { self = 0; mem = 1; filter = two_blocks }

abbrev both_live : Heap
both_live = record { live = 1 ∷ 0 ∷ []; next = 2 }

new_run : new granting nothing_live 300 ≡ some (some handle, both_live)
unfolding new requested build with_header with_array fill_header malloc posix_memalign log2_pow2
    log2_loop round_up_pow2 empty_filter header_of
new_run = refl

new-size_example :
    IsValid two_blocks
    × (300 ≤ 256 * nblocks two_blocks)
    × ((nblocks two_blocks ≡ 1) ⊎ (256 * nblocks two_blocks < 2 * (300 + 256)))
new-size_example = new-size granting nothing_live 300 handle both_live (omega arith) new_run

destroy-new_example :
    (heap'' : Heap) × (destroy both_live (some (record handle { filter = full_block }))
      ≡ some heap'')
    × (heap''.live ≡ nothing_live.live)
destroy-new_example = destroy-new granting nothing_live 300 handle both_live full_block new_run

new_wraps_example :
    (h : Handle) × (heap' : Heap) × (new granting nothing_live (2 ^ 64 - 1) ≡ some (some h, heap'))
    × (h.filter ≡ empty_filter 0)
new_wraps_example =
    new_wraps granting nothing_live (2 ^ 64 - 1) (replicate 8 0) (omega arith) (omega arith) refl
      refl

new-SizedOutcome_example : SizedOutcome granting nothing_live 300 (new granting nothing_live 300)
new-SizedOutcome_example = new-SizedOutcome granting nothing_live 300 (omega arith)

two_blocks-bytes : length (to_bytes two_blocks.bits) ≡ 64
unfolding empty_filter header_of to_bytes
two_blocks-bytes = refl

deserialize-serialize_example :
    (out : List ℕ) × (serialize true (some two_blocks) (some (replicate 70 9)) ≡ done (some out))
    × Restored granting nothing_live
        (λ c. c ≡ two_blocks)
        (deserialize granting nothing_live (some out) (length (to_bytes two_blocks.bits)))
deserialize-serialize_example =
    deserialize-serialize granting nothing_live true two_blocks (replicate 70 9) two_blocks-IsValid
      (omega (arith, two_blocks-bytes)) (omega (arith, two_blocks-bytes))
      (All-replicate IsByte 70 9 (omega arith))

accepts_two : IsAccepted 64 1
accepts_two = record { blocks = refl; capped = omega arith }

serialize-deserialize_example :
    Restored granting nothing_live
      (λ b. IsValid b × Writes b (take 64 (replicate 70 9)))
      (deserialize granting nothing_live (some (replicate 70 9)) 64)
serialize-deserialize_example =
    serialize-deserialize granting nothing_live (replicate 70 9) 64 1 accepts_two (omega arith)
      (All-replicate IsByte 70 9 (omega arith))

deserialize-Built_example :
    Built granting nothing_live 1
      (IsCopied 1 (replicate 70 9))
      (deserialize granting nothing_live (some (replicate 70 9)) 64)
deserialize-Built_example =
    deserialize-Built granting nothing_live (replicate 70 9) 64 1 accepts_two (omega arith)
      (All-replicate IsByte 70 9 (omega arith))

-- 96 bytes are three blocks, no power of two.
three_blocks-refused : (k : ℕ) → ¬ IsAccepted 96 k
three_blocks-refused k ok = elim (dec_lt k 2) [
  | no p ↦ omega (arith, ok.blocks, pow_mono 2 k (omega arith))
  | yes p ↦ small k p ok.blocks
]
  where
    small : (k : ℕ) → k < 2 → 96 ≡ 2 ^ k * 32 → ⊥
    small zero p e = omega arith
    small (suc zero) p e = omega arith
    small (suc (suc k)) p e = omega arith

deserialize-refused_example :
    deserialize granting nothing_live (some (replicate 96 9)) 96 ≡ some (none, nothing_live)
deserialize-refused_example =
    deserialize-refused granting nothing_live (replicate 96 9) 96 three_blocks-refused
