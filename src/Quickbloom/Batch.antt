-- ===== src/Quickbloom/Batch.antt =====
-- A run of insertions as one state change: `put_all` is what every bulk insertion comes to.
use quickbloom.Base.{Any}
use quickbloom.Base.{ℕ, ◌≡◌, ◌∙◌, refl, arith, List, [], ◌∷◌, some}
use quickbloom.Base.{true, ◌⊎◌, inl, inr, ◌↔◌, ap, get_or, ◌++◌}
use quickbloom.Base.{get_or_ext, sym, length}
use quickbloom.Bits.{bit_at-lt, bit_at_ext}
use quickbloom.Machine.{u32}
use quickbloom.Quickbloom.Filter.{Bloom, block_for, mask_for}
use quickbloom.Quickbloom.Probe.{apply}
use quickbloom.Quickbloom.Bulk.{insert_four, insert_prehash_each, insert_prehash_bulk}
use quickbloom.Quickbloom.Valid.{IsValid}
use quickbloom.Quickbloom.Insert.{bit, touches, put, apply_lem, insert_prehash_lem}
use quickbloom.Quickbloom.Insert.{put-IsValid, bit-put, length-updated}

abbrev pub put_all : Bloom → List ℕ → Bloom
put_all b [] = b
put_all b (h ∷ hs) = put_all (put b h) hs

pub block_for-put : (b : Bloom) (g h : ℕ) → block_for (put b g) h ≡ block_for b h
unfolding put block_for
block_for-put b g h = refl

pub touches-put : (b : Bloom) (g h w j : ℕ) → touches (put b g) h w j ≡ touches b h w j
unfolding touches
touches-put b g h w j = rw (block_for-put b g h)

pub put_all-IsValid : (hs : List ℕ) (b : Bloom) → IsValid b → IsValid (put_all b hs)
put_all-IsValid [] b v = v
put_all-IsValid (h ∷ hs) b v = put_all-IsValid hs (put b h) (put-IsValid b h v)

pub block_for-put_all :
    (hs : List ℕ) (b : Bloom) (h : ℕ) → block_for (put_all b hs) h ≡ block_for b h
block_for-put_all [] b h = refl
block_for-put_all (g ∷ hs) b h = block_for-put_all hs (put b g) h ∙ block_for-put b g h

pub put_all-append : (gs hs : List ℕ) (b : Bloom) → put_all b (gs ++ hs) ≡ put_all (put_all b gs) hs
put_all-append [] hs b = refl
put_all-append (g ∷ gs) hs b = put_all-append gs hs (put b g)

pub bit-put_iff :
    (b : Bloom) (h w j : ℕ)
    → IsValid b
    → (bit (put b h) w j ≡ 1) ↔ ((bit b w j ≡ 1) ⊎ (touches b h w j ≡ true))
bit-put_iff b h w j v = (
  λ e. ground (arith, bit-put b h v w j, bit_at-lt (get_or b.bits w 0) j),
  λ e. ground (arith, bit-put b h v w j, bit_at-lt (get_or b.bits w 0) j),
)

-- A bit is set after the insertions exactly when it was, or when one of the hashes sets it.
pub bit-put_all_iff :
    (hs : List ℕ) (b : Bloom) (w j : ℕ)
    → IsValid b
    → (bit (put_all b hs) w j ≡ 1) ↔ ((bit b w j ≡ 1) ⊎ Any (λ g. touches b g w j ≡ true) hs)
bit-put_all_iff [] b w j v = (inl, λ s. elim s [ inl e ↦ e | inr n ↦ absurd n ])
bit-put_all_iff (h ∷ hs) b w j v =
    let rest : (bit (put_all (put b h) hs) w j ≡ 1)
        ↔ ((bit (put b h) w j ≡ 1) ⊎ Any (λ g. touches b g w j ≡ true) hs) =
      simp touches-put at (bit-put_all_iff hs (put b h) w j (put-IsValid b h v)) in
    let first = bit-put_iff b h w j v in
    (
      λ e. elim (rest.0 e) [
        | inl p ↦ elim (first.0 p) [ inl q ↦ inl q | inr q ↦ inr (inl q) ]
        | inr p ↦ inr (inr p)
      ],
      λ s. rest.1 (elim s [
        | inl p ↦ inl (first.1 (inl p))
        | inr (inl p) ↦ inl (first.1 (inr p))
        | inr (inr p) ↦ inr p
      ]),
    )

idx_shift-put : (b : Bloom) (h : ℕ) → b.idx_shift ≡ (put b h).idx_shift
unfolding put
idx_shift-put b h = refl

idx_shift-put_all : (hs : List ℕ) (b : Bloom) → b.idx_shift ≡ (put_all b hs).idx_shift
idx_shift-put_all [] b = refl
idx_shift-put_all (h ∷ hs) b = idx_shift-put b h ∙ idx_shift-put_all hs (put b h)

mask-put_all : (hs : List ℕ) (b : Bloom) → b.nblocks_mask ≡ (put_all b hs).nblocks_mask
mask-put_all [] b = refl
mask-put_all (h ∷ hs) b = mask-put b h ∙ mask-put_all hs (put b h)
  where
    mask-put : (b : Bloom) (h : ℕ) → b.nblocks_mask ≡ (put b h).nblocks_mask
    mask-put b h = unfold put in refl

pub bits-put_all :
    (b : Bloom) (hs : List ℕ) → put_all b hs ≡ record b { bits = (put_all b hs).bits }
bits-put_all b hs = λ i. record {
  bits = (put_all b hs).bits;
  nblocks_mask = sym (mask-put_all hs b) i;
  idx_shift = sym (idx_shift-put_all hs b) i;
}

-- The fields other than the array are those of the filter that the insertions started from.
put-bits :
    (b : Bloom) (hs : List ℕ) (h : ℕ)
    → record b { bits = (put (put_all b hs) h).bits } ≡ put (put_all b hs) h
unfolding put
put-bits b hs h = λ i. record {
  bits = (put (put_all b hs) h).bits;
  nblocks_mask = mask-put_all hs b i;
  idx_shift = idx_shift-put_all hs b i;
}

apply-put :
    (b c : Bloom) (h : ℕ)
    → IsValid c
    → b.idx_shift ≡ c.idx_shift
    → apply c.bits (block_for b h) (mask_for (u32 h)) ≡ some (put c h).bits
unfolding put
apply-put b c h v e = rw (same_block b c h e) (apply_lem c h v)
  where
    same_block : (b c : Bloom) (h : ℕ) → b.idx_shift ≡ c.idx_shift → block_for b h ≡ block_for c h
    same_block b c h e = unfold block_for in rw e

pub insert_four_lem :
    (b : Bloom) (h0 h1 h2 h3 : ℕ)
    → IsValid b
    → insert_four b h0 h1 h2 h3 ≡ some (put_all b (h0 ∷ h1 ∷ h2 ∷ h3 ∷ []))
unfolding insert_four
insert_four_lem b h0 h1 h2 h3 v =
    let b0 = put b h0 in
    let b1 = put b0 h1 in
    let b2 = put b1 h2 in
    let v0 = put-IsValid b h0 v in
    let v1 = put-IsValid b0 h1 v0 in
    let v2 = put-IsValid b1 h2 v1 in
    rw
      (
        apply-put b b h0 v refl,
        apply-put b b0 h1 v0 (idx_shift-put b h0),
        apply-put b b1 h2 v1 (idx_shift-put_all (h0 ∷ h1 ∷ []) b),
        apply-put b b2 h3 v2 (idx_shift-put_all (h0 ∷ h1 ∷ h2 ∷ []) b),
      )
      (ap some (put-bits b (h0 ∷ h1 ∷ h2 ∷ []) h3))

pub insert_prehash_each_lem :
    (hs : List ℕ) (b : Bloom) → IsValid b → insert_prehash_each b hs ≡ some (put_all b hs)
unfolding insert_prehash_each
insert_prehash_each_lem [] b v = refl
insert_prehash_each_lem (h ∷ hs) b v =
    rw (insert_prehash_lem b h v) (insert_prehash_each_lem hs (put b h) (put-IsValid b h v))

pub insert_prehash_bulk_lem :
    (hs : List ℕ) (b : Bloom) → IsValid b → insert_prehash_bulk b hs ≡ some (put_all b hs)
unfolding insert_prehash_bulk
insert_prehash_bulk_lem (h0 ∷ h1 ∷ h2 ∷ h3 ∷ hs) b v = rw (insert_four_lem b h0 h1 h2 h3 v) (
    insert_prehash_bulk_lem hs (put_all b (h0 ∷ h1 ∷ h2 ∷ h3 ∷ []))
      (put_all-IsValid (h0 ∷ h1 ∷ h2 ∷ h3 ∷ []) b v))
insert_prehash_bulk_lem [] b v = insert_prehash_each_lem [] b v
insert_prehash_bulk_lem hs b v = insert_prehash_each_lem hs b v

-- Two filters that grew from one by insertions are equal if their bits are.
pub put_all_ext :
    (b : Bloom) (gs hs : List ℕ)
    → IsValid b
    → ((w j : ℕ) → bit (put_all b gs) w j ≡ bit (put_all b hs) w j)
    → put_all b gs ≡ put_all b hs
put_all_ext b gs hs v same = λ i. record {
  bits =
      get_or_ext 0 (put_all b gs).bits (put_all b hs).bits
        (length-put_all gs b v ∙ sym (length-put_all hs b v))
        (λ w p. bit_at_ext _ _ (λ j. same w j)) i;
  nblocks_mask = (sym (mask-put_all gs b) ∙ mask-put_all hs b) i;
  idx_shift = (sym (idx_shift-put_all gs b) ∙ idx_shift-put_all hs b) i;
}
  where
    length-put : (b : Bloom) (h : ℕ) → IsValid b → length (put b h).bits ≡ length b.bits
    length-put b h v = unfold put in length-updated b h v

    length-put_all :
        (hs : List ℕ) (b : Bloom) → IsValid b → length (put_all b hs).bits ≡ length b.bits
    length-put_all [] b v = refl
    length-put_all (h ∷ hs) b v = length-put_all hs (put b h) (put-IsValid b h v) ∙ length-put b h v
