-- ===== src/Quickbloom/Lifetime.antt =====
-- From `qb_new` to `qb_free`: the size that is chosen, the filter that a client gets, and that
-- nothing is leaked.
use quickbloom.Base.{ℕ, zero, suc, ◌+◌, ◌-◌, ◌*◌, ◌/◌, ◌^◌, ◌≤◌, ◌<◌, ◌≡◌, ◌∙◌, refl, arith, ap}
use quickbloom.Base.{List, ◌∷◌, true, Option, none, some, ◌⊎◌, inl, inr, ◌↔◌, get_or-replicate}
use quickbloom.Base.{dec_lt, pow_pos, pow-step}
use quickbloom.Bits.{zero-bit_at}
use quickbloom.Machine.{u32, Heap, Allocator, free_top, allocate}
use quickbloom.Quickbloom.Filter.{Bloom, block_for}
use quickbloom.Quickbloom.Probe.{contains_prehash}
use quickbloom.Quickbloom.Bulk.{insert_prehash_bulk}
use quickbloom.Quickbloom.Lifecycle.{Handle, requested, new, destroy}
use quickbloom.Quickbloom.Mask.{position}
use quickbloom.Quickbloom.Valid.{IsValid, nblocks}
use quickbloom.Quickbloom.Insert.{bit, touches}
use quickbloom.Base.{Any}
use quickbloom.Quickbloom.Header.{header_of}
use quickbloom.Quickbloom.Membership.{contains-insert_prehash_bulk, Explained}
use quickbloom.Quickbloom.NewLaws.{
  empty_filter, empty_filter-IsValid, IsSize, Outcome, too_large, no_memory, made, new-Outcome,
}

requested_one : (nbits : ℕ) → nbits ≤ 256 → requested nbits ≡ 1
unfolding requested
requested_one nbits h = ground arith

requested_many :
    (nbits : ℕ) → 256 < nbits → nbits ≤ 2 ^ 64 - 256 → requested nbits ≡ (nbits + 255) / 256
unfolding requested
requested_many nbits h k = ground arith

-- The blocks that are asked for hold `nbits` bits, and one block fewer would not.
pub requested_bounds :
    (nbits : ℕ)
    → nbits ≤ 2 ^ 64 - 256
    → (nbits ≤ 256 * requested nbits)
      × ((requested nbits ≡ 1) ⊎ (256 * (requested nbits - 1) < nbits))
requested_bounds nbits h = elim (dec_lt 256 nbits) [
  | yes p ↦ omega (arith, requested_many nbits p h)
  | no p ↦ omega (arith, requested_one nbits (omega arith))
]

-- `nbits + 255` wraps for the largest arguments, and one block is asked for.
requested_wraps : (nbits : ℕ) → 2 ^ 64 - 256 < nbits → nbits < 2 ^ 64 → requested nbits ≡ 1
unfolding requested
requested_wraps nbits h k = ground arith

nblocks-empty : (k : ℕ) → nblocks (empty_filter k) ≡ 2 ^ k
unfolding nblocks empty_filter header_of
nblocks-empty k = omega (arith, pow_pos k)

pub made_of :
    (a : Allocator) (heap : Heap) (nbits : ℕ) {r : Option (Option Handle × Heap)} (h : Handle)
    (heap' : Heap)
    → Outcome a heap nbits r
    → r ≡ some (some h, heap')
    → (k : ℕ) × IsSize nbits k
      × (h.filter ≡ empty_filter k)
      × (heap'.live ≡ h.mem ∷ h.self ∷ heap.live)
made_of a heap nbits h heap' (too_large big) e = cc
made_of a heap nbits h heap' (no_memory k heap1 size same why) e = cc
made_of a heap nbits h heap' (made k h1 heap1 size f live) e = (k, size, cc, cc)

-- The size of a filter that `qb_new` returns: a power of two of blocks that holds `nbits` bits,
-- and less than twice what `nbits` needs, unless one block is enough.
pub new-size :
    (a : Allocator) (heap : Heap) (nbits : ℕ) (h : Handle) (heap' : Heap)
    → nbits ≤ 2 ^ 64 - 256
    → new a heap nbits ≡ some (some h, heap')
    → IsValid h.filter
      × (nbits ≤ 256 * nblocks h.filter)
      × ((nblocks h.filter ≡ 1) ⊎ (256 * nblocks h.filter < 2 * (nbits + 256)))
new-size a heap nbits h heap' small e =
    let (k, size, f, live) = made_of a heap nbits h heap' (new-Outcome a heap nbits) e in
    let bounds = requested_bounds nbits small in
    rw f (
      empty_filter-IsValid k size.small,
      omega (arith, nblocks-empty k, bounds.0, size.enough),
      one_or_small k size.least bounds.1,
    )
  where
    one_or_small :
        (k : ℕ)
        → (k ≡ 0) ⊎ (2 ^ k < 2 * requested nbits)
        → (requested nbits ≡ 1) ⊎ (256 * (requested nbits - 1) < nbits)
        → (nblocks (empty_filter k) ≡ 1) ⊎ (256 * nblocks (empty_filter k) < 2 * (nbits + 256))
    one_or_small k (inl z) s = inl (rw (nblocks-empty k, z))
    one_or_small k (inr l) (inl o) = inl (omega (arith, nblocks-empty k, pow_pos k))
    one_or_small k (inr l) (inr m) = inr (omega (arith, nblocks-empty k))

-- `qb_free` on what `qb_new` returned, whatever was done to the filter in between, frees exactly
-- what `qb_new` had allocated.
pub destroy-new :
    (a : Allocator) (heap : Heap) (nbits : ℕ) (h : Handle) (heap' : Heap) (used : Bloom)
    → new a heap nbits ≡ some (some h, heap')
    → (heap'' : Heap) × (destroy heap' (some (record h { filter = used })) ≡ some heap'')
      × (heap''.live ≡ heap.live)
unfolding destroy
destroy-new a heap nbits h heap' used e =
    let (k, size, f, live) = made_of a heap nbits h heap' (new-Outcome a heap nbits) e in
    (
      record heap' { live = heap.live },
      rw (
        free_top heap' h.mem (h.self ∷ heap.live) live,
        free_top (record heap' { live = h.self ∷ heap.live }) h.self heap.live refl,
      ),
      refl,
    )

pub no_bit : (k w j : ℕ) → bit (empty_filter k) w j ≡ 0
unfolding empty_filter header_of
no_bit k w j = rw (get_or-replicate {A = ℕ} 0 (8 * 2 ^ k) w) (zero-bit_at j)

-- On a filter from `qb_new` the answer after a run of insertions is 1 exactly when each of the
-- eight bits that the hash asks for is set by one of the inserted hashes.
pub new-insert-contains :
    (a : Allocator) (heap : Heap) (nbits : ℕ) (h : Handle) (heap' : Heap) (hs : List ℕ) (g : ℕ)
    → new a heap nbits ≡ some (some h, heap')
    → (b : Bloom) × (c : ℕ) × (insert_prehash_bulk h.filter hs ≡ some b)
      × (contains_prehash b g ≡ some c)
      × ((c ≡ 1) ↔ (
          (i : ℕ)
          → i < 8
          → Any
              (λ x. touches h.filter x (block_for h.filter g + i) (position (u32 g) i) ≡ true)
              hs))
new-insert-contains a heap nbits h heap' hs g e =
    let (k, size, f, live) = made_of a heap nbits h heap' (new-Outcome a heap nbits) e in
    let r = contains-insert_prehash_bulk h.filter hs g (rw f (empty_filter-IsValid k size.small)) in
    (
      r.0,
      r.1,
      r.2,
      r.4,
      (λ one i p. only_new k f i (r.6.0 one i p), λ all. r.6.1 (λ i p. inr (all i p))),
    )
  where
    was_clear :
        (k : ℕ)
        → h.filter ≡ empty_filter k
        → (i : ℕ) → bit h.filter (block_for h.filter g + i) (position (u32 g) i) ≡ 0
    was_clear k f i = rw f (no_bit k (block_for (empty_filter k) g + i) (position (u32 g) i))

    only_new :
        (k : ℕ)
        → h.filter ≡ empty_filter k
        → (i : ℕ) → Explained h.filter hs g i
        → Any (λ x. touches h.filter x (block_for h.filter g + i) (position (u32 g) i) ≡ true) hs
    only_new k f i (inr a) = a
    only_new k f i (inl one) = absurd (omega (arith, was_clear k f i, one))

log_zero : (nbits k : ℕ) → requested nbits ≡ 1 → IsSize nbits k → k ≡ 0
log_zero nbits zero one size = refl
log_zero nbits (suc k) one size = absurd (ground (arith, size.least, pow-step k, pow_pos k))

one_block :
    (a : Allocator) (heap : Heap) (nbits : ℕ) (ws : List ℕ) {r : Option (Option Handle × Heap)}
    → requested nbits ≡ 1
    → a.grants heap 24 ≡ true
    → a.block (allocate heap) 32 ≡ some ws
    → Outcome a heap nbits r
    → (h : Handle) × (heap' : Heap) × (r ≡ some (some h, heap')) × (h.filter ≡ empty_filter 0)
one_block a heap nbits ws one granted given (too_large big) = absurd (omega arith)
one_block a heap nbits ws one granted given (no_memory k heap' size same (inl no_header)) = cc
one_block a heap nbits ws one granted given (no_memory k heap' size same (inr no_array)) =
    let z = log_zero nbits k one size in
    let none_given : a.block (allocate heap) 32 ≡ none = rw z at no_array in cc
one_block a heap nbits ws one granted given (made k h heap' size f live) =
    (h, heap', refl, f ∙ ap empty_filter (log_zero nbits k one size))

-- The largest arguments are not refused: `nbits + 255` wraps, and for them `qb_new` returns a
-- filter of a single block, if the allocator has room.
pub new_wraps :
    (a : Allocator) (heap : Heap) (nbits : ℕ) (ws : List ℕ)
    → 2 ^ 64 - 256 < nbits
    → nbits < 2 ^ 64
    → a.grants heap 24 ≡ true
    → a.block (allocate heap) 32 ≡ some ws
    → (h : Handle) × (heap' : Heap) × (new a heap nbits ≡ some (some h, heap'))
      × (h.filter ≡ empty_filter 0)
new_wraps a heap nbits ws big lt granted given =
    one_block a heap nbits ws (requested_wraps nbits big lt) granted given
      (new-Outcome a heap nbits)
