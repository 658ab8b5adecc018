-- ===== src/Fuzz/Fasthash.antt =====
-- `LLVMFuzzerTestOneInput` of tools/fuzz_fasthash_var.c.
use quickbloom.Base.{
  ℕ, zero, suc, ◌*◌, ◌+◌, ◌-◌, ◌/◌, ◌%◌, List, Bool, Option, none, some, ◌==◌, ltb, if◌then◌else◌,
  drop, length,
}
use quickbloom.Machine.{Heap, Allocator}
use quickbloom.Quickbloom.Filter.{Bloom}
use quickbloom.Quickbloom.Probe.{insert_prehash}
use quickbloom.Quickbloom.Reads.{byte_in, bloom_hash_in}
use quickbloom.Quickbloom.Lifecycle.{Handle, new, destroy}
use quickbloom.Quickbloom.Estimate.{Double, estimate_bits}
use quickbloom.Fuzz.Run.{Run, ok, ◌>>=◌, of_option, of_call, check_each}

-- `for (i = ...; i < max_keys; i++) qb_insert(f, data + i * klen, klen);`, with the number of rounds
-- left.
unfoldable pub insert_keys : List ℕ → ℕ → ℕ → ℕ → Bloom → Run Bloom
insert_keys keys klen i zero b = ok b
insert_keys keys klen i (suc left) b = do
  h ← of_option (bloom_hash_in (drop (i * klen) keys) klen)
  b' ← of_option (insert_prehash b h)
  insert_keys keys klen (i + 1) left b'

-- From the call of `qb_new` on.
unfoldable pub with_filter : List ℕ → ℕ → ℕ → Option Handle × Heap → Run Heap
with_filter keys klen max_keys (none, heap) = ok heap
with_filter keys klen max_keys (some f, heap) = do
  b ← insert_keys keys klen 0 max_keys f.filter
  check_each b keys klen 0 max_keys (of_option (destroy heap (some (record f { filter = b }))))

module _ (d : Double) (fp : d.Value) (a : Allocator) (asserts : Bool) (heap : Heap) where
  -- After `data += 1; size -= 1;`.
  unfoldable pub with_keys : List ℕ → ℕ → ℕ → Run Heap
  with_keys keys size klen =
      let wanted = size / klen in
      let max_keys = if ltb 2048 wanted then 2048 else wanted in
      let rest = of_call (estimate_bits d asserts max_keys fp) >>= λ nbits.
      of_option (new a heap nbits) >>= with_filter keys klen max_keys in
      if wanted == 0 then ok heap else rest

  -- `fp` is 0.01. The result is the heap; the C function returns 0. A read past the input is a
  -- fault.
  unfoldable pub fuzz_fasthash_var : List ℕ → Run Heap
  unfolding with_keys
  fuzz_fasthash_var input =
      let rest = of_option (byte_in input 0) >>= λ first.
      with_keys (drop 1 input) (length input - 1) (first % 23 + 1) in
      if ltb (length input) 2 then ok heap else rest
