-- ===== src/Fuzz/Reread.antt =====
-- The bytes of a filter in a buffer of their size, read back.
use quickbloom.Base.{ℕ, ◌≡◌, ◌∙◌, refl, sym, arith, List, [], ◌∷◌, ◌++◌, Bool, true, none, some}
use quickbloom.Base.{◌⊎◌, inl, inr, length, drop, take-length-append, ==_iff, dec_le}
use quickbloom.Machine.{Heap, Allocator, to_bytes, IsBytes}
use quickbloom.Quickbloom.Filter.{Bloom}
use quickbloom.Quickbloom.Valid.{IsValid}
use quickbloom.Quickbloom.Serialize.{done, max_bytes, deserialize}
use quickbloom.Quickbloom.RoundTrip.{serialize_lem, deserialize-refused}
use quickbloom.Quickbloom.Restore.{Restored, deserialize-serialize}
use quickbloom.Fuzz.Deserialize.{same_bytes, equal_bytes}

same_bytes_self : (xs : List ℕ) → same_bytes xs xs ≡ true
same_bytes_self [] = refl
same_bytes_self (x ∷ xs) = rw ((==_iff x x).1 refl) (same_bytes_self xs)

-- The bytes of a filter, in a buffer of their size.
abbrev pub image : Bloom → List ℕ → List ℕ
image b dst = to_bytes b.bits ++ drop (length (to_bytes b.bits)) dst

pub image-equal_bytes :
    (b : Bloom) (dst dst2 : List ℕ)
    → equal_bytes (length (to_bytes b.bits)) (image b dst) (image b dst2) ≡ true
image-equal_bytes b dst dst2 =
    rw
      (
        take-length-append (to_bytes b.bits) (drop (length (to_bytes b.bits)) dst),
        take-length-append (to_bytes b.bits) (drop (length (to_bytes b.bits)) dst2),
      )
      (same_bytes_self (to_bytes b.bits))

-- Reading the image back gives the same filter, or NULL.
pub reread :
    (a : Allocator) (asserts : Bool) (b : Bloom) (heap : Heap) (dst : List ℕ)
    → IsValid b
    → length dst ≡ length (to_bytes b.bits)
    → IsBytes dst
    → Restored a heap
        (λ c. c ≡ b)
        (deserialize a heap (some (image b dst)) (length (to_bytes b.bits)))
      ⊎ (deserialize a heap (some (image b dst)) (length (to_bytes b.bits)) ≡ some (none, heap))
reread a asserts b heap dst v sized bytes = elim (dec_le (length (to_bytes b.bits)) max_bytes) [
  | yes small ↦
      let (out, e, outcome) =
        deserialize-serialize a heap asserts b dst v (omega arith) small bytes in
      let same : out ≡ image b dst =
        the_output (sym e ∙ serialize_lem asserts b dst v (omega arith)) in
      inl (rw (← same) outcome)
  | no large ↦ inr (
      deserialize-refused a heap (image b dst) (length (to_bytes b.bits))
        (λ k good. large good.capped))
]
  where
    the_output : {xs ys : List ℕ} → done (some xs) ≡ done (some ys) → xs ≡ ys
    the_output e = cc
