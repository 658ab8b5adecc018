-- ===== src/Fuzz/Deserialize.antt =====
-- `LLVMFuzzerTestOneInput` of tools/fuzz_deserialize.c.
use quickbloom.Base.{
  ℕ, ◌%◌, ◌^◌, List, [], ◌∷◌, Bool, true, false, Option, none, some, ◌==◌, ◌&&◌, not, ltb,
  if◌then◌else◌, take, length, get_or, map,
}
use quickbloom.Machine.{Heap, Allocator, malloc, free}
use quickbloom.Quickbloom.Filter.{Bloom}
use quickbloom.Quickbloom.Probe.{contains, contains_prehash}
use quickbloom.Quickbloom.Lifecycle.{Handle, destroy}
use quickbloom.Quickbloom.Serialize.{serialized_size, serialize, deserialize}
use quickbloom.Fuzz.Run.{Run, ok, ◌>>=◌, of_option, of_call, trap_if}

abbrev pub same_bytes : List ℕ → List ℕ → Bool
same_bytes [] ys = true
same_bytes (x ∷ xs) [] = false
same_bytes (x ∷ xs) (y ∷ ys) = x == y && same_bytes xs ys

-- `memcmp(out, out2, n) == 0`
abbrev pub equal_bytes : ℕ → List ℕ → List ℕ → Bool
equal_bytes n out out2 = same_bytes (take n out) (take n out2)

-- `key[i] = data[i % nbytes]`
abbrev pub key_byte : List ℕ → ℕ → ℕ → ℕ
key_byte bytes nbytes i = get_or bytes (i % nbytes) 0

abbrev pub key_of : List ℕ → ℕ → List ℕ
key_of bytes nbytes =
    map (key_byte bytes nbytes)
      (0 ∷ 1 ∷ 2 ∷ 3 ∷ 4 ∷ 5 ∷ 6 ∷ 7 ∷ 8 ∷ 9 ∷ 10 ∷ 11 ∷ 12 ∷ 13 ∷ 14 ∷ 15 ∷ [])

-- What a `serialize` wrote; its argument was no null pointer.
abbrev pub written : Option (List ℕ) → List ℕ
written none = []
written (some out) = out

-- `contents` is what a new block of the given number of bytes holds.
module _ (a : Allocator) (asserts : Bool) (contents : ℕ → List ℕ) where
  -- `if (out2) { ... free(out2); }`
  unfoldable pub with_out2 : Bloom → ℕ → ℕ → List ℕ → Option ℕ × Heap → Run Heap
  with_out2 g gn out_n out (none, heap) = ok heap
  with_out2 g gn out_n out (some buf, heap) = do
    out2 ← of_call (serialize asserts (some g) (some (contents gn)))
    trap_if (not (equal_bytes out_n out (written out2))) (of_option (free heap buf))

  -- `if (g) { ... qb_free(g); }`
  unfoldable pub with_copy : ℕ → List ℕ → Option Handle × Heap → Run Heap
  with_copy out_n out (none, heap) = ok heap
  with_copy out_n out (some g, heap) = do
    gn ← of_call (serialized_size asserts (some g.filter))
    trap_if (not (gn == out_n)) do
      heap' ← with_out2 g.filter gn out_n out (malloc a heap gn)
      of_option (destroy heap' (some g))

  -- `if (out) { ... free(out); }`
  unfoldable pub with_out : Bloom → ℕ → Option ℕ × Heap → Run Heap
  with_out b out_n (none, heap) = ok heap
  with_out b out_n (some buf, heap) = do
    out ← of_call (serialize asserts (some b) (some (contents out_n)))
    heap' ← of_option (deserialize a heap out out_n) >>= with_copy out_n (written out)
    of_option (free heap' buf)

  -- `if (out_n) { ... }`
  unfoldable pub again : Bloom → ℕ → Heap → Run Heap
  again b out_n heap =
      let rest = with_out b out_n (malloc a heap out_n) in if out_n == 0 then ok heap else rest

  -- From the first call of `qb_deserialize` on.
  unfoldable pub with_filter : List ℕ → ℕ → Option Handle × Heap → Run Heap
  with_filter bytes nbytes (none, heap) = ok heap
  with_filter bytes nbytes (some f, heap) = do
    c ← of_option (contains f.filter (key_of bytes nbytes) 16)
    c' ← of_option (contains_prehash f.filter 0xc0ffee)
    out_n ← of_call (serialized_size asserts (some f.filter))
    heap' ← again f.filter out_n heap
    of_option (destroy heap' (some f))

  -- The input is no null pointer. The result is the heap; the C function returns 0.
  unfoldable pub fuzz_deserialize : Heap → List ℕ → Run Heap
  fuzz_deserialize heap input =
      let size = length input in
      let nbytes = if ltb (2 ^ 24) size then 2 ^ 24 else size in
      of_option (deserialize a heap (some input) nbytes) >>= with_filter input nbytes
