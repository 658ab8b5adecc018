-- ===== src/Quickbloom/Restore.antt =====
-- Writing a filter out and reading it back, and the other way round.
use quickbloom.Base.{ℕ, ◌-◌, ◌*◌, ◌^◌, ◌≤◌, ◌≡◌, ◌∙◌, refl, arith, ap, sym, List, ◌∷◌}
use quickbloom.Base.{◌++◌, Option, none, some, Bool, false, ◌⊎◌, inl, inr, length, take, drop}
use quickbloom.Base.{take-length-append, length-append, All-append, All-drop}
use quickbloom.Machine.{
  Heap, Allocator, allocate, to_bytes, from_bytes, length-to_bytes, from_bytes-to_bytes,
  to_bytes-IsBytes, IsBytes, IsByte,
}
use quickbloom.Quickbloom.Filter.{Bloom}
use quickbloom.Quickbloom.Lifecycle.{Handle}
use quickbloom.Quickbloom.Serialize.{done, max_bytes, serialize, deserialize}
use quickbloom.Quickbloom.Valid.{IsValid}
use quickbloom.Quickbloom.Header.{header_of, header_of-IsValid}
use quickbloom.Quickbloom.Build.{Built, no_header, no_array, built}
use quickbloom.Quickbloom.RoundTrip.{
  IsAccepted, IsCopied, serialize_lem, deserialize-Built, accepted-small,
}

-- How `qb_deserialize` ends when the bytes are good: an allocation failed and none stays live, or
-- there is a handle to a filter with two live allocations of its own that satisfies `P`.
pub data Restored (a : Allocator) (heap : Heap) (P : Bloom → Type 0)
    : Option (Option Handle × Heap) → Type 0 where
  no_memory :
      (k : ℕ) (heap' : Heap)
      → heap'.live ≡ heap.live
      → (a.grants heap 24 ≡ false) ⊎ (a.block (allocate heap) (2 ^ k * 32) ≡ none)
      → Restored a heap P (some (none, heap'))
  restored :
      (h : Handle) (heap' : Heap)
      → P h.filter
      → heap'.live ≡ h.mem ∷ h.self ∷ heap.live
      → Restored a heap P (some (some h, heap'))

of_Built :
    (a : Allocator) (heap : Heap) (k : ℕ) (Good : List ℕ → Type 0) (P : Bloom → Type 0)
    {r : Option (Option Handle × Heap)}
    → ((ws : List ℕ) → Good ws → P (header_of k ws))
    → Built a heap k Good r
    → Restored a heap P r
of_Built a heap k Good P f (no_header e) = no_memory k heap refl (inl e)
of_Built a heap k Good P f (no_array heap' same e) = no_memory k heap' same (inr e)
of_Built a heap k Good P f (built h heap' ws good e live granted) =
    restored h heap' (rw e (f ws good)) live

header_again : (b : Bloom) (v : IsValid b) → header_of v.log b.bits ≡ b
unfolding header_of
header_again b v =
    let mask : 2 ^ v.log - 1 ≡ b.nblocks_mask = omega (arith, v.masked) in
    let shift : 32 - v.log ≡ b.idx_shift = omega (arith, v.shifted) in
    λ i. record { bits = b.bits; nblocks_mask = mask i; idx_shift = shift i }

-- Round trip from a filter: what `qb_serialize` writes, `qb_deserialize` turns back into the same
-- filter, if the filter is no larger than QB_DESERIALIZE_MAX_BYTES and the allocator has room.
pub deserialize-serialize :
    (a : Allocator) (heap : Heap) (asserts : Bool) (b : Bloom) (dst : List ℕ)
    → IsValid b
    → length (to_bytes b.bits) ≤ length dst
    → length (to_bytes b.bits) ≤ max_bytes
    → IsBytes dst
    → (out : List ℕ) × (serialize asserts (some b) (some dst) ≡ done (some out))
      × Restored a heap (λ c. c ≡ b) (deserialize a heap (some out) (length (to_bytes b.bits)))
deserialize-serialize a heap asserts b dst v room capped are =
    let wire = to_bytes b.bits in
    let out = wire ++ drop (length wire) dst in
    let blocks : length wire ≡ 2 ^ v.log * 32 = omega (arith, length-to_bytes b.bits, v.sized) in
    let good : IsBytes out =
      All-append IsByte wire (drop (length wire) dst) (to_bytes-IsBytes b.bits)
        (All-drop IsByte (length wire) dst are) in
    (
      out,
      serialize_lem asserts b dst v room,
      of_Built a heap v.log (IsCopied v.log out) (λ c. c ≡ b)
          (λ ws c. ap (header_of v.log) (same_words ws blocks c) ∙ header_again b v)
          (deserialize-Built a heap out (length wire) v.log
            (record { blocks = blocks; capped = capped })
            (omega (arith, length-append wire (drop (length wire) dst))) good),
    )
  where
    same_words :
        (ws : List ℕ)
        → length (to_bytes b.bits) ≡ 2 ^ v.log * 32
        → IsCopied v.log (to_bytes b.bits ++ drop (length (to_bytes b.bits)) dst) ws
        → ws ≡ b.bits
    same_words ws blocks c =
        sym (from_bytes-to_bytes ws c.words)
        ∙ ap from_bytes (
            c.same
            ∙ rw (← blocks)
                (take-length-append (to_bytes b.bits) (drop (length (to_bytes b.bits)) dst)))
        ∙ from_bytes-to_bytes b.bits v.words

-- What `qb_serialize` writes for a filter, into a buffer that is large enough: the given bytes,
-- and then what the buffer held.
abbrev pub Writes : Bloom → List ℕ → Type 0
Writes b wire =
    (asserts : Bool) (dst : List ℕ)
    → length wire ≤ length dst
    → serialize asserts (some b) (some dst) ≡ done (some (wire ++ drop (length wire) dst))

-- Round trip from bytes: for an accepted size, a filter that `qb_deserialize` returns is valid and
-- `qb_serialize` writes the same bytes for it.
pub serialize-deserialize :
    (a : Allocator) (heap : Heap) (bytes : List ℕ) (nbytes k : ℕ)
    → IsAccepted nbytes k
    → nbytes ≤ length bytes
    → IsBytes bytes
    → Restored a heap
        (λ b. IsValid b × Writes b (take nbytes bytes))
        (deserialize a heap (some bytes) nbytes)
unfolding header_of
serialize-deserialize a heap bytes nbytes k ok long are =
    of_Built a heap k (IsCopied k bytes) (λ b. IsValid b × Writes b (take nbytes bytes)) good
      (deserialize-Built a heap bytes nbytes k ok long are)
  where
    same : (ws : List ℕ) → IsCopied k bytes ws → to_bytes ws ≡ take nbytes bytes
    same ws c = c.same ∙ ap (λ n. take n bytes) (sym ok.blocks)

    good :
        (ws : List ℕ)
        → IsCopied k bytes ws
        → IsValid (header_of k ws) × Writes (header_of k ws) (take nbytes bytes)
    good ws c =
        let v = header_of-IsValid k ws (accepted-small nbytes k ok) c.sized c.words in
        (
          v,
          λ asserts dst room. rw (same ws c) at (
              serialize_lem asserts (header_of k ws) dst v
                (unfold header_of in rw (same ws c) room)),
        )
