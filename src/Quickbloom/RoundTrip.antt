-- ===== src/Quickbloom/RoundTrip.antt =====
-- Serialisation and deserialisation are inverse, and `qb_deserialize` accepts exactly the sizes of
-- filters.
use quickbloom.Base.{ℕ, ◌-◌, ◌*◌, ◌/◌, ◌%◌, ◌^◌, ◌≤◌, ◌<◌, ◌≡◌, refl, arith, ap}
use quickbloom.Base.{List, ◌++◌, none, some, Bool, true, false, inl, inr, ltb}
use quickbloom.Base.{length, take, drop, ◌==◌, ◌||◌, not, bit_and, le→leb}
use quickbloom.Base.{
  take_of_ge, drop_of_ge, append-nil, All, All-take, length-take, Bool-cases, pow_mono, pow_pos,
}
use quickbloom.Base.{dec_lt}
use quickbloom.Bits.{power_test_iff}
use quickbloom.Machine.{
  mul64, add64, Heap, Allocator, copy_out, copy_in, to_bytes, from_bytes, length-to_bytes,
  to_bytes-from_bytes, length-from_bytes, from_bytes-words, IsByte, IsBytes, IsWord32,
}
use quickbloom.Quickbloom.Filter.{Bloom}
use quickbloom.Quickbloom.Lifecycle.{block_bytes}
use quickbloom.Quickbloom.Serialize.{done, max_bytes, serialized_size, serialize, deserialize}
use quickbloom.Quickbloom.Valid.{IsValid}
use quickbloom.Quickbloom.Build.{Built, build-Built}

-- The bytes of a filter of `2 ^ k` blocks.
size-eq : (b : Bloom) (v : IsValid b) → mul64 (add64 b.nblocks_mask 1) block_bytes ≡ 2 ^ v.log * 32
size-eq b v = omega (arith, v.masked, pow_mono v.log 31 v.log_small)

-- `qb_serialized_size` of a filter is the length of its array in bytes.
pub serialized_size_lem :
    (asserts : Bool) (b : Bloom)
    → IsValid b
    → serialized_size asserts (some b) ≡ done (length (to_bytes b.bits))
unfolding serialized_size
serialized_size_lem true b v = ap done (omega (arith, size-eq b v, length-to_bytes b.bits, v.sized))
serialized_size_lem false b v =
    ap done (omega (arith, size-eq b v, length-to_bytes b.bits, v.sized))

copy_out_all :
    (words dst : List ℕ) (n : ℕ)
    → n ≡ length (to_bytes words)
    → n ≤ length dst
    → copy_out dst words n ≡ some (to_bytes words ++ drop n dst)
unfolding copy_out
copy_out_all words dst n e h = rw (
  le→leb n (length (to_bytes words)) (omega arith),
  le→leb n (length dst) h,
  take_of_ge n (to_bytes words) (omega arith),
)

-- `qb_serialize` into a buffer that is large enough writes the bytes of the array, and nothing
-- past them.
pub serialize_lem :
    (asserts : Bool) (b : Bloom) (dst : List ℕ)
    → IsValid b
    → length (to_bytes b.bits) ≤ length dst
    → serialize asserts (some b) (some dst)
      ≡ done (some (to_bytes b.bits ++ drop (length (to_bytes b.bits)) dst))
unfolding serialize
serialize_lem asserts b dst v h =
    let size : mul64 (add64 b.nblocks_mask 1) block_bytes ≡ length (to_bytes b.bits) =
      omega (arith, size-eq b v, length-to_bytes b.bits, v.sized) in
    rw (size, copy_out_all b.bits dst (length (to_bytes b.bits)) refl h, serialize)

-- An accepted size: that of `2 ^ k` blocks, at most QB_DESERIALIZE_MAX_BYTES.
pub record IsAccepted (nbytes k : ℕ) : Type 0 where
  pub blocks : nbytes ≡ 2 ^ k * 32
  pub capped : nbytes ≤ max_bytes

block_test : (k : ℕ) → bit_and (2 ^ k) (2 ^ k - 1) ≡ 0
block_test k = (power_test_iff (2 ^ k) (pow_pos k)).1 (k, refl)

pub accepted-small : (nbytes k : ℕ) → IsAccepted nbytes k → k ≤ 31
accepted-small nbytes k ok = elim (dec_lt 31 k) [
  | no p ↦ omega arith
  | yes p ↦ absurd (omega (arith, ok.blocks, ok.capped, pow_mono 32 k p))
]

-- The three tests of an accepted size.
passes :
    (nbytes k : ℕ)
    → IsAccepted nbytes k
    → ((nbytes == 0 || ltb max_bytes nbytes) ≡ false)
      × (not (nbytes % block_bytes == 0) ≡ false)
      × (nbytes / block_bytes ≡ 2 ^ k)
passes nbytes k ok = (
  ground (arith, ok.blocks, ok.capped, pow_pos k),
  ground (arith, ok.blocks),
  omega (arith, ok.blocks),
)

-- Any other size is refused before anything is allocated or read.
pub deserialize-refused :
    (a : Allocator) (heap : Heap) (bytes : List ℕ) (nbytes : ℕ)
    → ((k : ℕ) → ¬ IsAccepted nbytes k)
    → deserialize a heap (some bytes) nbytes ≡ some (none, heap)
unfolding deserialize
deserialize-refused a heap bytes nbytes bad =
    elim (Bool-cases (nbytes == 0 || ltb max_bytes nbytes)) [
      | inl e ↦ rw e
      | inr e ↦ elim (Bool-cases (not (nbytes % block_bytes == 0))) [
        | inl d ↦ rw (e, d)
        | inr d ↦
            elim (Bool-cases
              (not (bit_and (nbytes / block_bytes) (nbytes / block_bytes - 1) == 0))) [
                | inl p ↦ rw (e, d, p)
                | inr p ↦ absurd (accepted e d p)
              ]
      ]
    ]
  where
    accepted :
        (nbytes == 0 || ltb max_bytes nbytes) ≡ false
        → not (nbytes % block_bytes == 0) ≡ false
        → not (bit_and (nbytes / block_bytes) (nbytes / block_bytes - 1) == 0) ≡ false
        → ⊥
    accepted e d p =
        let positive : 0 < nbytes = ground arith in
        let capped : nbytes ≤ max_bytes = ground arith in
        let whole : nbytes % 32 ≡ 0 = ground arith in
        let clear : bit_and (nbytes / 32) (nbytes / 32 - 1) ≡ 0 = ground arith in
        let (k, q) = (power_test_iff (nbytes / 32) (omega arith)).0 clear in
        bad k (record { blocks = omega arith; capped = capped })

-- What the array holds after the `memcpy` of `qb_deserialize`.
pub record IsCopied (k : ℕ) (bytes : List ℕ) (ws : List ℕ) : Type 0 where
  pub same : to_bytes ws ≡ take (2 ^ k * 32) bytes
  pub sized : length ws ≡ 8 * 2 ^ k
  pub words : All IsWord32 ws

module _ (k : ℕ) (bytes : List ℕ) (long : 2 ^ k * 32 ≤ length bytes) (are : IsBytes bytes) where
  copied :
      (ws : List ℕ)
      → length ws ≡ 2 ^ k * 32 / 4
      → (ws' : List ℕ) × (copy_in ws bytes (2 ^ k * 32) ≡ some ws') × IsCopied k bytes ws'
  unfolding copy_in
  copied ws e =
      let part = take (2 ^ k * 32) bytes in
      let size : length part ≡ 4 * (8 * 2 ^ k) = omega (arith, length-take (2 ^ k * 32) bytes) in
      let bytes_in = All-take IsByte (2 ^ k * 32) bytes are in
      (
        from_bytes part,
        rw
            (
              le→leb (2 ^ k * 32) (length bytes) long,
              le→leb (2 ^ k * 32 / 4) (length ws) (omega arith),
              drop_of_ge (2 ^ k * 32 / 4) ws (omega arith),
            )
            (ap some (append-nil (from_bytes part))),
        record {
          same = to_bytes-from_bytes (8 * 2 ^ k) part size bytes_in;
          sized = length-from_bytes (8 * 2 ^ k) part size;
          words = from_bytes-words part bytes_in;
        },
      )

-- An accepted size with that many bytes behind it: either an allocation fails and nothing stays
-- live of it, or the filter holds those bytes and is valid.
pub deserialize-Built :
    (a : Allocator) (heap : Heap) (bytes : List ℕ) (nbytes k : ℕ)
    → IsAccepted nbytes k
    → nbytes ≤ length bytes
    → IsBytes bytes
    → Built a heap k (IsCopied k bytes) (deserialize a heap (some bytes) nbytes)
unfolding deserialize
deserialize-Built a heap bytes nbytes k ok long are =
    let t = passes nbytes k ok in
    rw (t.0, t.1, t.2, block_test k, ok.blocks)
      (build-Built a heap k (IsCopied k bytes) (λ ws. copy_in ws bytes (2 ^ k * 32))
        (accepted-small nbytes k ok) (copied k bytes (rw ok.blocks at long) are))
