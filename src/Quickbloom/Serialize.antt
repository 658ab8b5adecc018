-- ===== src/Quickbloom/Serialize.antt =====
-- `qb_serialized_size`, `qb_serialize` and `qb_deserialize`.
use quickbloom.Base.{ℕ, ◌-◌, ◌/◌, ◌%◌, ◌^◌, List, Option, none, some, Bool, true, false, ltb}
use quickbloom.Base.{◌==◌, if◌then◌else◌, ◌||◌, not, bit_and}
use quickbloom.Machine.{add64, mul64, Heap, Allocator, copy_out, copy_in}
use quickbloom.Quickbloom.Filter.{Bloom}
use quickbloom.Quickbloom.Lifecycle.{Handle, block_bytes, build}

-- How a call ends: normally, at a failed `assert`, or with an access out of bounds.
pub data Run {ℓ} (A : Type ℓ) : Type ℓ where
  done : A → Run A
  aborted : Run A
  faulted : Run A

abbrev pub of_copy : Option (List ℕ) → Run (List ℕ)
of_copy none = faulted
of_copy (some dst) = done dst

-- QB_DESERIALIZE_MAX_BYTES, as it is by default.
abbrev pub max_bytes : ℕ
max_bytes = 2 ^ 30

-- `asserts` is false in a build with NDEBUG; `none` is a null pointer.
unfoldable pub serialized_size : Bool → Option Bloom → Run ℕ
serialized_size true none = aborted
serialized_size false none = done 0
serialized_size asserts (some b) = done (mul64 (add64 b.nblocks_mask 1) block_bytes)

unfoldable pub serialize : Bool → Option Bloom → Option (List ℕ) → Run (Option (List ℕ))
serialize true none dst = aborted
serialize true (some b) none = aborted
serialize false none dst = done dst
serialize false (some b) none = done none
serialize asserts (some b) (some dst) =
    let nbytes = mul64 (add64 b.nblocks_mask 1) block_bytes in
    elim (copy_out dst b.bits nbytes) [ none ↦ faulted | some out ↦ done (some out) ]

-- The inner `none` is a NULL result.
unfoldable pub deserialize : Allocator → Heap → Option (List ℕ) → ℕ → Option (Option Handle × Heap)
unfolding build
deserialize a heap none nbytes = some (none, heap)
deserialize a heap (some bytes) nbytes =
    if nbytes == 0 || ltb max_bytes nbytes
    then some (none, heap)
    else if not (nbytes % block_bytes == 0)
    then some (none, heap)
    else let nblocks = nbytes / block_bytes in
      if not (bit_and nblocks (nblocks - 1) == 0)
      then some (none, heap)
      else build a heap nblocks nbytes (λ words. copy_in words bytes nbytes)
