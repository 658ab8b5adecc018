-- ===== src/Quickbloom/Membership.antt =====
-- What a client may rely on: which hashes a filter answers for after a run of insertions.
use quickbloom.Base.{Any, IsIn, Any-map, Any-find}
use quickbloom.Base.{
  ℕ, ◌+◌, ◌-◌, get_or, ◌≤◌, ◌<◌, ◌≡◌, ◌∙◌, arith, List, some, true, ◌⊎◌, inl, inr,
}
use quickbloom.Base.{◌↔◌, ap, sym}
use quickbloom.Machine.{u32}
use quickbloom.Bits.{bit_at-lt}
use quickbloom.Quickbloom.Filter.{Bloom, block_for}
use quickbloom.Quickbloom.Probe.{contains_prehash}
use quickbloom.Quickbloom.Bulk.{insert_prehash_bulk}
use quickbloom.Quickbloom.Mask.{position}
use quickbloom.Quickbloom.Valid.{IsValid}
use quickbloom.Quickbloom.Insert.{bit, touches}
use quickbloom.Quickbloom.Query.{Covered, query, query_iff, query-le, contains_prehash_lem}
use quickbloom.Quickbloom.Batch.{put_all, put_all-IsValid, block_for-put_all, bit-put_all_iff}
use quickbloom.Quickbloom.Batch.{insert_prehash_bulk_lem, put_all_ext}

-- Bit `i` of the eight that `h` asks for was set in `b`, or some hash of `hs` sets it.
abbrev pub Explained : Bloom → List ℕ → ℕ → ℕ → Type 0
Explained b hs h i =
    (bit b (block_for b h + i) (position (u32 h) i) ≡ 1)
    ⊎ Any (λ g. touches b g (block_for b h + i) (position (u32 h) i) ≡ true) hs

pub touches_self :
    (b : Bloom) (h i : ℕ) → i < 8 → touches b h (block_for b h + i) (position (u32 h) i) ≡ true
unfolding touches
touches_self b h i p = ground (arith, ap (λ k. position (u32 h) k) (lane_index (block_for b h) i))
  where
    lane_index : (p i : ℕ) → p + i - p ≡ i
    lane_index p i = omega arith

Covered-iff :
    (b : Bloom) (hs : List ℕ) (h : ℕ)
    → IsValid b
    → Covered (put_all b hs) h ↔ ((i : ℕ) → i < 8 → Explained b hs h i)
Covered-iff b hs h v = (
  λ c i p.
      (bit-put_all_iff hs b (block_for b h + i) (position (u32 h) i) v).0
        (rw (block_for-put_all hs b h) at (c i p)),
  λ e i p.
      rw (block_for-put_all hs b h)
        ((bit-put_all_iff hs b (block_for b h + i) (position (u32 h) i) v).1 (e i p)),
)

-- From a valid filter, `qb_insert_prehash_bulk` does not fault and leaves a valid filter; a
-- following `qb_contains_prehash` does not fault, answers 0 or 1, and answers 1 exactly when each
-- of the eight bits that the hash asks for was set before or is set by one of the inserted hashes.
pub contains-insert_prehash_bulk :
    (b : Bloom) (hs : List ℕ) (h : ℕ)
    → IsValid b
    → (b' : Bloom) × (c : ℕ) × (insert_prehash_bulk b hs ≡ some b')
      × IsValid b'
      × (contains_prehash b' h ≡ some c)
      × (c ≤ 1)
      × ((c ≡ 1) ↔ ((i : ℕ) → i < 8 → Explained b hs h i))
contains-insert_prehash_bulk b hs h v =
    let v' = put_all-IsValid hs b v in
    let q = query_iff (put_all b hs) h v' in
    let e = Covered-iff b hs h v in
    (
      put_all b hs,
      query (put_all b hs) h,
      insert_prehash_bulk_lem hs b v,
      v',
      contains_prehash_lem (put_all b hs) h v',
      query-le (put_all b hs) h,
      (λ p. e.0 (q.0 p), λ p. q.1 (e.1 p)),
    )

-- The eight bits of a hash that was inserted are set.
pub Covered-inserted :
    (b : Bloom) (hs : List ℕ) (h : ℕ) → IsValid b → IsIn h hs → Covered (put_all b hs) h
Covered-inserted b hs h v m = (Covered-iff b hs h v).1 (λ i p. inr (explained i p))
  where
    explained :
        (i : ℕ) → i < 8 → Any (λ g. touches b g (block_for b h + i) (position (u32 h) i) ≡ true) hs
    explained i p =
        Any-map (λ x. x ≡ h) (λ g. touches b g (block_for b h + i) (position (u32 h) i) ≡ true)
          (λ g e. rw e (touches_self b h i p)) hs m

-- No false negatives: a hash that was inserted, in whatever company, is found.
pub contains-inserted :
    (b : Bloom) (hs : List ℕ) (h : ℕ)
    → IsValid b
    → IsIn h hs
    → (b' : Bloom) × (insert_prehash_bulk b hs ≡ some b') × (contains_prehash b' h ≡ some 1)
contains-inserted b hs h v m =
    let v' = put_all-IsValid hs b v in
    (
      put_all b hs,
      insert_prehash_bulk_lem hs b v,
      contains_prehash_lem (put_all b hs) h v'
          ∙ ap some ((query_iff (put_all b hs) h v').1 (Covered-inserted b hs h v m)),
    )

-- What a filter answered 1 for it answers 1 for after any insertions.
pub contains-monotone :
    (b : Bloom) (hs : List ℕ) (h : ℕ)
    → IsValid b
    → contains_prehash b h ≡ some 1
    → (b' : Bloom) × (insert_prehash_bulk b hs ≡ some b') × (contains_prehash b' h ≡ some 1)
contains-monotone b hs h v found =
    let v' = put_all-IsValid hs b v in
    let was : query b h ≡ 1 = cc (contains_prehash_lem b h v) in
    let c = (query_iff b h v).0 was in
    (
      put_all b hs,
      insert_prehash_bulk_lem hs b v,
      contains_prehash_lem (put_all b hs) h v'
          ∙ ap some
              ((query_iff (put_all b hs) h v').1 ((Covered-iff b hs h v).1 (λ i p. inl (c i p)))),
    )

same_bits :
    (b : Bloom) (gs hs : List ℕ)
    → IsValid b
    → ((h : ℕ) → IsIn h gs → IsIn h hs)
    → (w j : ℕ) → bit (put_all b gs) w j ≡ 1
    → bit (put_all b hs) w j ≡ 1
same_bits b gs hs v sub w j e =
    (bit-put_all_iff hs b w j v).1 (carry ((bit-put_all_iff gs b w j v).0 e))
  where
    carry :
        (bit b w j ≡ 1) ⊎ Any (λ g. touches b g w j ≡ true) gs
        → (bit b w j ≡ 1) ⊎ Any (λ g. touches b g w j ≡ true) hs
    carry (inl p) = inl p
    carry (inr a) =
        let (g, t, m) = Any-find (λ g. touches b g w j ≡ true) gs a in
        inr (Any-map (λ x. x ≡ g) (λ g. touches b g w j ≡ true) (λ x e. rw e t) hs (sub g m))

digit_ext : (x y : ℕ) → x < 2 → y < 2 → (x ≡ 1 → y ≡ 1) → (y ≡ 1 → x ≡ 1) → x ≡ y
digit_ext x y p q f g = grind arith

-- A filter depends only on the set of hashes that were inserted: neither their order nor how
-- often each was inserted matters.
pub insert_prehash_bulk-set :
    (b : Bloom) (gs hs : List ℕ)
    → IsValid b
    → ((h : ℕ) → IsIn h gs ↔ IsIn h hs)
    → insert_prehash_bulk b gs ≡ insert_prehash_bulk b hs
insert_prehash_bulk-set b gs hs v same =
    insert_prehash_bulk_lem gs b v
    ∙ ap some (put_all_ext b gs hs v equal)
    ∙ sym (insert_prehash_bulk_lem hs b v)
  where
    equal : (w j : ℕ) → bit (put_all b gs) w j ≡ bit (put_all b hs) w j
    equal w j =
        digit_ext (bit (put_all b gs) w j) (bit (put_all b hs) w j)
          (bit_at-lt (get_or (put_all b gs).bits w 0) j)
          (bit_at-lt (get_or (put_all b hs).bits w 0) j) (same_bits b gs hs v (λ h. (same h).0) w j)
          (same_bits b hs gs v (λ h. (same h).1) w j)
