-- ===== src/Fuzz/Insert.antt =====
-- `LLVMFuzzerTestOneInput` of tools/fuzz_insert.c.
use quickbloom.Base.{
  ℕ, ◌+◌, ◌-◌, ◌/◌, ◌%◌, List, Bool, Option, none, some, ◌==◌, ltb, if◌then◌else◌, drop, length,
}
use quickbloom.Machine.{Heap, Allocator, malloc, free}
use quickbloom.Quickbloom.Filter.{Bloom}
use quickbloom.Quickbloom.Bulk.{insert_bulk, contains_bulk}
use quickbloom.Quickbloom.Lifecycle.{Handle, new, destroy}
use quickbloom.Quickbloom.Serialize.{serialized_size, serialize, deserialize}
use quickbloom.Quickbloom.Estimate.{Double, estimate_bits}
use quickbloom.Fuzz.Run.{Run, ok, ◌>>=◌, of_option, of_call, trap_if, check_each, read_keys}
use quickbloom.Quickbloom.Reads.{byte_in}

-- The heap after `qb_free`.
abbrev pub freed : Option Heap → Run Heap
freed = of_option

-- `contents` is what a new block of the given number of bytes holds.
module _ (a : Allocator) (asserts : Bool) (contents : ℕ → List ℕ) (keys : List ℕ) (klen n : ℕ) where
  -- `if (g) { ... qb_free(g); }`
  unfoldable pub with_copy : Option Handle × Heap → Run Heap
  with_copy (none, heap) = ok heap
  with_copy (some g, heap) = check_each g.filter keys klen 0 n (freed (destroy heap (some g)))

  -- `if (buf) { ... free(buf); }`
  unfoldable pub with_buffer : Bloom → ℕ → Option ℕ × Heap → Run Heap
  with_buffer b nbytes (none, heap) = ok heap
  with_buffer b nbytes (some buf, heap) = do
    out ← of_call (serialize asserts (some b) (some (contents nbytes)))
    heap' ← of_option (deserialize a heap out nbytes) >>= with_copy
    freed (free heap' buf)

  -- From the call of `qb_new` on.
  unfoldable pub with_filter : Option Handle × Heap → Run Heap
  with_filter (none, heap) = ok heap
  with_filter (some f, heap) = do
    read ← read_keys keys klen 0 n
    b ← of_option (insert_bulk f.filter keys klen n)
    check_each b keys klen 0 n do
      read_again ← read_keys keys klen 0 n
      hits ← of_option (contains_bulk b keys klen n)
      trap_if (ltb hits n) do
        nbytes ← of_call (serialized_size asserts (some b))
        heap' ← with_buffer b nbytes (malloc a heap nbytes)
        freed (destroy heap' (some (record f { filter = b })))

module _ (d : Double) (fp : d.Value) (a : Allocator) (asserts : Bool) (contents : ℕ → List ℕ)
    (heap : Heap) where
  -- After `data += 1; size -= 1;`.
  unfoldable pub with_keys : List ℕ → ℕ → ℕ → Run Heap
  with_keys keys size klen =
      let wanted = size / klen in
      let n = if ltb 4096 wanted then 4096 else wanted in
      let rest = of_call (estimate_bits d asserts n fp) >>= λ nbits.
      of_option (new a heap nbits) >>= with_filter a asserts contents keys klen n in
      if ltb size klen then ok heap else if wanted == 0 then ok heap else rest

  -- `fp` is 0.01. The result is the heap; the C function returns 0. A read past the input is a
  -- fault.
  unfoldable pub fuzz_insert : List ℕ → Run Heap
  unfolding with_keys
  fuzz_insert input =
      let rest = of_option (byte_in input 0) >>= λ first.
      with_keys (drop 1 input) (length input - 1) (first % 64 + 1) in
      if ltb (length input) 16 then ok heap else rest
