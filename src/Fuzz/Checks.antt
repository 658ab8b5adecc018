-- ===== src/Fuzz/Checks.antt =====
-- The pieces of a fuzz target that no input makes trap: the keys that were inserted are found, they
-- are counted, and the allocations come back.
use quickbloom.Base.{
  ℕ, zero, suc, ◌+◌, ◌*◌, ◌≡◌, refl, arith, List, [], ◌∷◌, Bool, true, false, some,
}
use quickbloom.Base.{IsIn, inl, inr, All, length, drop, ◌==◌, ltb, ◌&&◌, Bool-cases, le→ltb}
use quickbloom.Machine.{Heap, free_top}
use quickbloom.Quickbloom.Filter.{Bloom}
use quickbloom.Quickbloom.Hash.{bloom_hash}
use quickbloom.Quickbloom.Valid.{IsValid}
use quickbloom.Quickbloom.Query.{query, query_iff, contains_prehash_lem}
use quickbloom.Quickbloom.Batch.{put_all, put_all-IsValid}
use quickbloom.Quickbloom.Membership.{Covered-inserted}
use quickbloom.Quickbloom.BulkLaws.{key_hashes}
use quickbloom.Quickbloom.Count.{hits_of, length-key_hashes}
use quickbloom.Quickbloom.Lifecycle.{Handle, destroy}
use quickbloom.Quickbloom.Estimate.{Double, unrounded, estimate_bits}
use quickbloom.Quickbloom.Serialize.{done}
use quickbloom.Fuzz.Run.{Run, ok, contains_at, check_each, read_keys}
use quickbloom.Quickbloom.Reads.{bloom_hash_in, bloom_hash_in_lem}
use native.Mathlib.Nat.{mul-le-mul, div-mul-le_self, le_trans, le_refl}
use quickbloom.Base.{◌-◌, ◌/◌, ◌≤◌, length-drop}

-- A filter that answers 1 for each of the hashes.
abbrev pub FindsAll : Bloom → List ℕ → Type 0
FindsAll b hs = All (λ h. query b h ≡ 1) hs

All-members : (P : ℕ → Type 0) (hs : List ℕ) → ((h : ℕ) → IsIn h hs → P h) → All P hs
All-members P [] f = tt
All-members P (h ∷ hs) f = (f h (inl refl), All-members P hs (λ g is. f g (inr is)))

pub put_all-FindsAll : (b : Bloom) (hs : List ℕ) → IsValid b → FindsAll (put_all b hs) hs
put_all-FindsAll b hs v =
    All-members (λ h. query (put_all b hs) h ≡ 1) hs
      (λ h is.
        (query_iff (put_all b hs) h (put_all-IsValid hs b v)).1 (Covered-inserted b hs h v is))

-- Keys `i` to `i + n - 1` are all there.
abbrev pub AreThere : List ℕ → ℕ → ℕ → ℕ → Type 0
AreThere keys klen i n = (i + n) * klen ≤ length keys

pub next_there :
    (keys : List ℕ) (klen i n : ℕ) → AreThere keys klen i (suc n) → AreThere keys klen (i + 1) n
next_there keys klen i n le = let same : i + 1 + n ≡ i + suc n = omega arith in rw same le

-- The hash of a key that is there reads nothing past the input.
pub hash_there :
    (keys : List ℕ) (klen i n : ℕ)
    → AreThere keys klen i (suc n)
    → bloom_hash_in (drop (i * klen) keys) klen ≡ some (bloom_hash (drop (i * klen) keys) klen)
hash_there keys klen i n le =
    bloom_hash_in_lem (drop (i * klen) keys) klen
      (room (i * klen) (n * klen) (split i n klen) le (length-drop (i * klen) keys))
  where
    split : (i n k : ℕ) → (i + suc n) * k ≡ i * k + (k + n * k)
    split i n k = grind arith

    room : {l d w all : ℕ} (x y : ℕ) → w ≡ x + (d + y) → w ≤ all → l ≡ all - x → d ≤ l
    room x y e le same = omega arith

-- The loop over the keys goes through to the end.
pub check_each_lem :
    {A : Type 0} (b : Bloom) (keys : List ℕ) (klen i n : ℕ) (rest : Run A)
    → IsValid b
    → AreThere keys klen i n
    → FindsAll b (key_hashes keys klen i n)
    → check_each b keys klen i n rest ≡ rest
unfolding check_each contains_at key_hashes
check_each_lem b keys klen i zero rest v there all = refl
check_each_lem b keys klen i (suc n) rest v there all =
    let h = bloom_hash (drop (i * klen) keys) klen in
    rw (hash_there keys klen i n there, contains_prehash_lem b h v, all.0)
      (check_each_lem b keys klen (i + 1) n rest v (next_there keys klen i n there) all.1)

-- A bulk call reads nothing past the input.
pub read_keys_lem :
    (keys : List ℕ) (klen i n : ℕ)
    → AreThere keys klen i n
    → read_keys keys klen i n ≡ ok (key_hashes keys klen i n)
unfolding read_keys key_hashes
read_keys_lem keys klen i zero there = refl
read_keys_lem keys klen i (suc n) there = rw (
  hash_there keys klen i n there,
  read_keys_lem keys klen (i + 1) n (next_there keys klen i n there),
)

-- As many keys as fit in the input are there, and fewer too.
pub quotient_there : (keys : List ℕ) (klen n : ℕ) → n ≤ length keys / klen → AreThere keys klen 0 n
quotient_there keys klen n le =
    let start : 0 + n ≡ n = omega arith in
    rw start (le_trans (mul-le-mul le (le_refl klen)) (div-mul-le_self (length keys) klen))

hits_of-all : (b : Bloom) (hs : List ℕ) → FindsAll b hs → hits_of b hs ≡ length hs
unfolding hits_of
hits_of-all b [] all = refl
hits_of-all b (h ∷ hs) all = omega (arith, all.0, hits_of-all b hs all.1)

-- The number of hits is not below the number of keys.
pub enough_hits :
    (b : Bloom) (keys : List ℕ) (klen n : ℕ)
    → FindsAll b (key_hashes keys klen 0 n)
    → ltb (hits_of b (key_hashes keys klen 0 n)) n ≡ false
enough_hits b keys klen n all =
    le→ltb (hits_of b (key_hashes keys klen 0 n)) n
      (omega (arith, hits_of-all b (key_hashes keys klen 0 n) all, length-key_hashes keys klen 0 n))

-- `qb_free` of a filter whose two allocations are the newest.
pub destroy_newest :
    (heap : Heap) (h : Handle) (rest : List ℕ)
    → heap.live ≡ h.mem ∷ h.self ∷ rest
    → destroy heap (some h) ≡ some (record heap { live = rest })
unfolding destroy
destroy_newest heap h rest e = rw (
  free_top heap h.mem (h.self ∷ rest) e,
  free_top (record heap { live = h.self ∷ rest }) h.self rest refl,
)

-- For a rate between 0 and 1 `qb_estimate_bits` returns, if what it casts is in range.
pub estimate_returns :
    (d : Double) (asserts : Bool) (n : ℕ) (fp limit : d.Value)
    → d.lt d.zero_value fp ≡ true
    → d.lt fp d.one ≡ true
    → ((x : d.Value)
        → d.lt d.zero_value x ≡ true
        → d.lt x limit ≡ true
        → (m : ℕ) × (d.to_size x ≡ some m))
    → (d.lt d.zero_value (unrounded d n fp) ≡ true) × (d.lt (unrounded d n fp) limit ≡ true)
    → (m : ℕ) × (estimate_bits d asserts n fp ≡ done m)
unfolding estimate_bits
estimate_returns d asserts n fp limit pos below casts range = elim (Bool-cases (n == 0)) [
  | inl z ↦ (256, rw z refl)
  | inr z ↦
      let (m, e) = casts (unrounded d n fp) range.0 range.1 in
      (m, rw (z, pos, below, no_assert asserts, e) refl)
]
  where
    no_assert : (asserts : Bool) → (asserts && false) ≡ false
    no_assert true = refl
    no_assert false = refl
