-- ===== src/Xorfuse/Filter.antt =====
-- The functions of bloom_xorfuse.c. `none` is an access out of bounds, or that a loop does not end.
use quickbloom.Base.{
  ℕ, zero, suc, ◌+◌, ◌*◌, ◌/◌, ◌%◌, ◌^◌, List, [], ◌∷◌, ◌++◌, Bool, true, false, Option, none, some,
}
use quickbloom.Base.{◌>>=◌, ◌==◌, ltb, if◌then◌else◌, take, drop, set, length, bit_xor}
use quickbloom.Machine.{u32, u64, mul64, add64, shr, load_le}
use quickbloom.Quickbloom.Hash as Wymum
use quickbloom.Xorfuse.Fuse.{FuseLibrary, Memory}

unfoldable pub hash16 : List ℕ → ℕ
hash16 key =
    let a = load_le 8 key in
    let b = load_le 8 (drop 8 key) in let r = a * b % 2 ^ 128 in bit_xor (u64 r) (u64 (shr r 64))

-- The function is, line for line, the one of quickbloom.c.
abbrev pub fasthash64_var : List ℕ → ℕ → ℕ
fasthash64_var = Wymum.fasthash64_var

unfoldable pub bloom_hash : List ℕ → ℕ → ℕ
bloom_hash key len = if len == 16 then hash16 key else fasthash64_var key len

-- `buf` is what the pointer leads to, nothing for NULL; the type of the filter is a parameter.
pub record Shim (F : Type 0) : Type 0 where
  pub filter : F
  pub buf : List ℕ
  pub buf_len : ℕ
  pub buf_cap : ℕ
  pub built : Bool

-- The old words, as many as fit, and then those of the new block; a null pointer leads to nothing.
unfoldable pub realloc : Memory → List ℕ → ℕ → List ℕ
realloc m old nbytes = elim (m.block nbytes) [
  | none ↦ []
  | some ws ↦ take (nbytes / 8) old ++ drop (length old) ws
]

-- `buf[i] = h`
unfoldable pub write : List ℕ → ℕ → ℕ → Option (List ℕ)
write buf i h = if ltb i (length buf) then some (set buf i h) else none

-- `buf[i + j] = hs[j]` for each `j`, in order.
unfoldable pub write_all : List ℕ → ℕ → List ℕ → Option (List ℕ)
write_all buf i [] = some buf
write_all buf i (h ∷ hs) = write buf i h >>= λ buf'. write_all buf' (i + 1) hs

-- `while (new_cap < need) new_cap = new_cap ? new_cap * 2 : 1024;`, on fuel.
unfoldable pub grow : ℕ → ℕ → ℕ → Option ℕ
grow zero new_cap need = none
grow (suc fuel) new_cap need =
    let rest = grow fuel (if new_cap == 0 then 1024 else mul64 new_cap 2) need in
    if ltb new_cap need then rest else some new_cap

module _ {F : Type 0} (m : Memory) where
  -- `realloc` is not checked.
  unfoldable pub with_capacity : Shim F → ℕ → Shim F
  with_capacity x new_cap = record x { buf = realloc m x.buf (mul64 new_cap 8); buf_cap = new_cap }

  unfoldable pub buf_push : Shim F → ℕ → Option (Shim F)
  buf_push x h =
      let new_cap = if x.buf_cap == 0 then 1024 else mul64 x.buf_cap 2 in
      let y = if x.buf_len == x.buf_cap then with_capacity x new_cap else x in
      write y.buf y.buf_len h >>= λ buf. some (record y { buf = buf; buf_len = add64 y.buf_len 1 })

  -- Room for `n` more hashes.
  unfoldable pub reserve : Shim F → ℕ → Option (Shim F)
  reserve x n =
      let need = add64 x.buf_len n in
      let larger = grow 65 x.buf_cap need in
      if ltb x.buf_cap need then (larger >>= λ new_cap. some (with_capacity x new_cap)) else some x

  -- The two hashes of an empty buffer.
  unfoldable pub seed : Shim F → Option (Shim F)
  seed x =
      let seeded = buf_push x 0 >>= λ y. buf_push y 1 in if x.buf_len == 0 then seeded else some x

module _ (lib : FuseLibrary) where
  -- `allocate`, whose result is not looked at, and `populate`, whose result is not either.
  unfoldable pub populate : Shim lib.Filter → Shim lib.Filter
  populate x =
      let n = u32 x.buf_len in
      let result = lib.populate x.buf n (lib.allocate n x.filter).1 in
      record x { buf = result.1.0; filter = result.1.1; built = true }

  -- `if (x->built) { binary_fuse8_free(&x->filter); x->built = 0; }`
  unfoldable pub invalidate : Shim lib.Filter → Shim lib.Filter
  invalidate x = if x.built then record x { filter = lib.free x.filter; built = false } else x

  -- The number of hits of a filter that is built.
  unfoldable pub count : lib.Filter → List ℕ → ℕ → Option ℕ
  count f [] hits = some hits
  count f (h ∷ hs) hits =
      lib.contain h f >>= λ c. count f hs (if c == 0 then hits else add64 hits 1)

module _ (lib : FuseLibrary) (m : Memory) where
  unfoldable pub build : Shim lib.Filter → Option (Shim lib.Filter)
  build x = let fresh = seed m x >>= λ y. some (populate lib y) in if x.built then some x else fresh

  unfoldable pub insert_prehash : Shim lib.Filter → ℕ → Option (Shim lib.Filter)
  insert_prehash x h = buf_push m (invalidate lib x) h

  unfoldable pub contains_prehash : Shim lib.Filter → ℕ → Option (ℕ × Shim lib.Filter)
  contains_prehash x h = build x >>= λ y. lib.contain h y.filter >>= λ c. some (c, y)

  unfoldable pub insert : Shim lib.Filter → List ℕ → ℕ → Option (Shim lib.Filter)
  insert x key len = insert_prehash x (bloom_hash key len)

  unfoldable pub contains : Shim lib.Filter → List ℕ → ℕ → Option (ℕ × Shim lib.Filter)
  contains x key len = contains_prehash x (bloom_hash key len)

  unfoldable pub insert_prehash_bulk : Shim lib.Filter → List ℕ → Option (Shim lib.Filter)
  insert_prehash_bulk x hashes = do
    y ← reserve m (invalidate lib x) (length hashes)
    buf ← write_all y.buf y.buf_len hashes
    build (record y { buf = buf; buf_len = add64 y.buf_len (length hashes) })

  unfoldable pub contains_prehash_bulk : Shim lib.Filter → List ℕ → Option (ℕ × Shim lib.Filter)
  contains_prehash_bulk x hashes =
      build x >>= λ y. count lib y.filter hashes 0 >>= λ hits. some (hits, y)

-- The hashes of the keys `keys[i..i+n)`, each of `klen` bytes.
unfoldable pub key_hashes : List ℕ → ℕ → ℕ → ℕ → List ℕ
key_hashes keys klen i zero = []
key_hashes keys klen i (suc n) =
    bloom_hash (drop (i * klen) keys) klen ∷ key_hashes keys klen (i + 1) n

module _ (lib : FuseLibrary) (m : Memory) where
  unfoldable pub insert_bulk : Shim lib.Filter → List ℕ → ℕ → ℕ → Option (Shim lib.Filter)
  insert_bulk x keys klen n = do
    y ← reserve m (invalidate lib x) n
    buf ← write_all y.buf y.buf_len (key_hashes keys klen 0 n)
    build lib m (record y { buf = buf; buf_len = add64 y.buf_len n })

  unfoldable pub contains_bulk : Shim lib.Filter → List ℕ → ℕ → ℕ → Option (ℕ × Shim lib.Filter)
  contains_bulk x keys klen n = build lib m x >>= λ y.
      count lib y.filter (key_hashes keys klen 0 n) 0 >>= λ hits. some (hits, y)

  -- `bloom_new`, when `calloc` grants the structure; otherwise it returns NULL.
  unfoldable pub new : ℕ → Shim lib.Filter
  new nbits =
      let wanted = nbits / 21 in
      let reserved = if ltb wanted 1024 then 1024 else wanted in
      elim (m.block (mul64 reserved 8)) [
        | none ↦ record { filter = lib.zeroed; buf = []; buf_len = 0; buf_cap = 0; built = false }
        | some ws ↦ record {
          filter = lib.zeroed;
          buf = ws;
          buf_len = 0;
          buf_cap = reserved;
          built = false;
        }
      ]
