-- ===== src/Krassovsky/Insert.antt =====
-- The representation invariant, and what the insertions come to.
use quickbloom.Base.{ℕ, ◌+◌, ◌-◌, ◌^◌, ◌<◌, ◌≡◌, ◌∙◌, refl, arith}
use quickbloom.Base.{
  List, [], ◌∷◌, some, length, get_or, set, length-set, get_or-set_self, get_or-set_ne,
}
use quickbloom.Base.{bit_or, lt→ltb, ◌⊎◌, inl, inr, ◌↔◌, Any, ℕ_discrete, pow_pos, max}
use quickbloom.Bits.{bit_at, bit_at-lt, bit_at-bit_or, bit_and_mask}
use quickbloom.Machine.{shr}
use quickbloom.Krassovsky.Filter.{Bloom, block_idx_scalar, or_word, insert_prehash}
use quickbloom.Krassovsky.Batch.{
  block_idx_avx2, or_lanes, insert_batch8, insert_each, insert_prehash_bulk,
}
use quickbloom.Krassovsky.Mask.{
  IsTable, mask_of, construct_mask_scalar_lem, construct_mask_avx2_lem,
}
use native.Mathlib.Nat.{mod-lt}

-- The number of blocks is `2 ^ log`; the mask and the array agree with it.
pub record IsValid (b : Bloom) : Type 0 where
  pub log : ℕ
  pub counted : b.num_blocks ≡ 2 ^ log
  pub masked : b.num_blocks_mask + 1 ≡ 2 ^ log
  pub sized : length b.bv ≡ 2 ^ log

-- Bit `j` of block `q`.
abbrev pub bit : Bloom → ℕ → ℕ → ℕ
bit b q j = bit_at (get_or b.bv q 0) j

pub block_idx-lt : (b : Bloom) (h : ℕ) → IsValid b → block_idx_scalar b h < length b.bv
unfolding block_idx_scalar
block_idx-lt b h v =
    let mask : b.num_blocks_mask ≡ 2 ^ v.log - 1 = omega (arith, v.masked) in
    rw (mask, bit_and_mask v.log (shr h 16), v.sized) (mod-lt (shr h 16) (pow_pos v.log))

-- `mem` with `m` ored into word `i`.
abbrev pub ored : List ℕ → ℕ → ℕ → List ℕ
ored mem i m = set mem i (bit_or (get_or mem i 0) m)

length-ored : (mem : List ℕ) (i m : ℕ) → length (ored mem i m) ≡ length mem
length-ored mem i m = length-set mem i (bit_or (get_or mem i 0) m)

or_word_lem : (mem : List ℕ) (i m : ℕ) → i < length mem → or_word mem i m ≡ some (ored mem i m)
unfolding or_word
or_word_lem mem i m lt = rw (lt→ltb i (length mem) lt)

module _ (table : List ℕ) where
  -- The filter with the mask of `h` in its block.
  unfoldable pub put : Bloom → ℕ → Bloom
  put b h = record b { bv = ored b.bv (block_idx_scalar b h) (mask_of table h) }

  abbrev pub put_all : Bloom → List ℕ → Bloom
  put_all b [] = b
  put_all b (h ∷ hs) = put_all (put b h) hs

  pub put-IsValid : (b : Bloom) (h : ℕ) → IsValid b → IsValid (put b h)
  unfolding put
  put-IsValid b h v = record {
    log = v.log;
    counted = v.counted;
    masked = v.masked;
    sized = length-ored b.bv (block_idx_scalar b h) (mask_of table h) ∙ v.sized;
  }

  pub put_all-IsValid : (hs : List ℕ) (b : Bloom) → IsValid b → IsValid (put_all b hs)
  put_all-IsValid [] b v = v
  put_all-IsValid (h ∷ hs) b v = put_all-IsValid hs (put b h) (put-IsValid b h v)

  length-put_all : (hs : List ℕ) (b : Bloom) → length (put_all b hs).bv ≡ length b.bv
  unfolding put
  length-put_all [] b = refl
  length-put_all (h ∷ hs) b =
      length-put_all hs (put b h) ∙ length-ored b.bv (block_idx_scalar b h) (mask_of table h)

  pub block_idx-put : (b : Bloom) (g h : ℕ) → block_idx_scalar (put b g) h ≡ block_idx_scalar b h
  unfolding put block_idx_scalar
  block_idx-put b g h = refl

  pub block_idx-put_all :
      (hs : List ℕ) (b : Bloom) (h : ℕ) → block_idx_scalar (put_all b hs) h ≡ block_idx_scalar b h
  block_idx-put_all [] b h = refl
  block_idx-put_all (g ∷ hs) b h = block_idx-put_all hs (put b g) h ∙ block_idx-put b g h

  module _ (is_table : IsTable table) where
    pub insert_prehash_lem :
        (b : Bloom) (h : ℕ) → IsValid b → insert_prehash table b h ≡ some (put b h)
    unfolding insert_prehash put
    insert_prehash_lem b h v = rw (
      construct_mask_scalar_lem table h is_table,
      or_word_lem b.bv (block_idx_scalar b h) (mask_of table h) (block_idx-lt b h v),
    )

    pub insert_each_lem :
        (hs : List ℕ) (b : Bloom) → IsValid b → insert_each table b hs ≡ some (put_all b hs)
    unfolding insert_each
    insert_each_lem [] b v = refl
    insert_each_lem (h ∷ hs) b v =
        rw (insert_prehash_lem b h v) (insert_each_lem hs (put b h) (put-IsValid b h v))

  -- The four updates of a register.
  or_lanes_lem :
      (b : Bloom) (mem : List ℕ) (h0 h1 h2 h3 : ℕ)
      → IsValid b
      → length mem ≡ length b.bv
      → or_lanes mem
          (block_idx_avx2 b (h0 ∷ h1 ∷ h2 ∷ h3 ∷ []))
          (mask_of table h0 ∷ mask_of table h1 ∷ mask_of table h2 ∷ mask_of table h3 ∷ [])
        ≡ some (put_all (record b { bv = mem }) (h0 ∷ h1 ∷ h2 ∷ h3 ∷ [])).bv
  unfolding or_lanes block_idx_avx2 put block_idx_scalar
  or_lanes_lem b mem h0 h1 h2 h3 v same =
      let idx : ℕ → ℕ = λ h. block_idx_scalar b h in
      let m0 = ored mem (idx h0) (mask_of table h0) in
      let m1 = ored m0 (idx h1) (mask_of table h1) in
      let m2 = ored m1 (idx h2) (mask_of table h2) in
      let l0 = length-ored mem (idx h0) (mask_of table h0) in
      let l1 = length-ored m0 (idx h1) (mask_of table h1) in
      let l2 = length-ored m1 (idx h2) (mask_of table h2) in
      rw (
        or_word_lem mem (idx h0) (mask_of table h0) (omega (arith, same, block_idx-lt b h0 v)),
        or_word_lem m0 (idx h1) (mask_of table h1) (omega (arith, same, l0, block_idx-lt b h1 v)),
        or_word_lem m1 (idx h2) (mask_of table h2)
            (omega (arith, same, l0, l1, block_idx-lt b h2 v)),
        or_word_lem m2 (idx h3) (mask_of table h3)
            (omega (arith, same, l0, l1, l2, block_idx-lt b h3 v)),
      )

module _ (table : List ℕ) (is_table : IsTable table) where
  -- `bloom_insert_batch8` comes to eight insertions in turn.
  pub insert_batch8_lem :
      (b : Bloom) (h0 h1 h2 h3 h4 h5 h6 h7 : ℕ)
      → IsValid b
      → insert_batch8 table b (h0 ∷ h1 ∷ h2 ∷ h3 ∷ []) (h4 ∷ h5 ∷ h6 ∷ h7 ∷ [])
        ≡ some (put_all table b (h0 ∷ h1 ∷ h2 ∷ h3 ∷ h4 ∷ h5 ∷ h6 ∷ h7 ∷ []))
  unfolding insert_batch8 put block_idx_scalar
  insert_batch8_lem b h0 h1 h2 h3 h4 h5 h6 h7 v =
      let first = h0 ∷ h1 ∷ h2 ∷ h3 ∷ [] in
      let half = put_all table b first in
      rw (
        construct_mask_avx2_lem table h0 h1 h2 h3 is_table,
        construct_mask_avx2_lem table h4 h5 h6 h7 is_table,
        or_lanes_lem table b b.bv h0 h1 h2 h3 v refl,
        or_lanes_lem table b half.bv h4 h5 h6 h7 v (length-put_all table first b),
      )

  -- `bloom_insert_prehash_bulk` comes to the insertions of the hashes in turn.
  pub insert_prehash_bulk_lem :
      (hs : List ℕ) (b : Bloom)
      → IsValid b
      → insert_prehash_bulk table b hs ≡ some (put_all table b hs)
  unfolding insert_prehash_bulk
  insert_prehash_bulk_lem (h0 ∷ h1 ∷ h2 ∷ h3 ∷ h4 ∷ h5 ∷ h6 ∷ h7 ∷ hs) b v =
      let eight = h0 ∷ h1 ∷ h2 ∷ h3 ∷ h4 ∷ h5 ∷ h6 ∷ h7 ∷ [] in
      rw (insert_batch8_lem b h0 h1 h2 h3 h4 h5 h6 h7 v)
        (insert_prehash_bulk_lem hs (put_all table b eight) (put_all-IsValid table eight b v))
  insert_prehash_bulk_lem hs b v = insert_each_lem table is_table hs b v

-- A bit is set after the insertions exactly when it was, or when the mask of one of the hashes has
-- it and the hash selects the block.
abbrev pub Sets : List ℕ → Bloom → ℕ → ℕ → ℕ → Type 0
Sets table b q j g = (block_idx_scalar b g ≡ q) × (bit_at (mask_of table g) j ≡ 1)

pub bit-put_iff :
    (table : List ℕ) (b : Bloom) (h q j : ℕ)
    → IsValid b
    → (bit (put table b h) q j ≡ 1) ↔ ((bit b q j ≡ 1) ⊎ Sets table b q j h)
unfolding put
bit-put_iff table b h q j v = elim (ℕ_discrete (block_idx_scalar b h) q) [
  | yes e ↦ rw (← e) (both (block_idx_scalar b h) (block_idx-lt b h v))
  | no ne ↦
      rw
        (get_or-set_ne 0 b.bv (block_idx_scalar b h) q
          (bit_or (get_or b.bv (block_idx_scalar b h) 0) (mask_of table h)) ne)
        (inl, λ s. elim s [ inl o ↦ o | inr (e, o) ↦ absurd (ne e) ])
]
  where
    either : (x y : ℕ) → x < 2 → y < 2 → max x y ≡ 1 → (x ≡ 1) ⊎ (y ≡ 1)
    either x y p q e = ground arith

    both :
        (i : ℕ)
        → i < length b.bv
        → (bit_at (get_or (ored b.bv i (mask_of table h)) i 0) j ≡ 1)
          ↔ ((bit_at (get_or b.bv i 0) j ≡ 1) ⊎ ((i ≡ i) × (bit_at (mask_of table h) j ≡ 1)))
    both i lt =
        rw
          (
            get_or-set_self 0 b.bv i (bit_or (get_or b.bv i 0) (mask_of table h)) lt,
            bit_at-bit_or (get_or b.bv i 0) (mask_of table h) j,
          )
          (
            λ e.
                elim (either _ _ (bit_at-lt (get_or b.bv i 0) j) (bit_at-lt (mask_of table h) j)
                  e) [ inl o ↦ inl o | inr o ↦ inr (refl, o) ],
            λ s. elim s [
              | inl o ↦ omega (arith, bit_at-lt (mask_of table h) j)
              | inr (e, o) ↦ omega (arith, bit_at-lt (get_or b.bv i 0) j)
            ],
          )

pub bit-put_all_iff :
    (table : List ℕ) (hs : List ℕ) (b : Bloom) (q j : ℕ)
    → IsValid b
    → (bit (put_all table b hs) q j ≡ 1) ↔ ((bit b q j ≡ 1) ⊎ Any (Sets table b q j) hs)
unfolding put block_idx_scalar
bit-put_all_iff table [] b q j v = (inl, λ s. elim s [ inl e ↦ e | inr n ↦ absurd n ])
bit-put_all_iff table (h ∷ hs) b q j v =
    let rest : (bit (put_all table (put table b h) hs) q j ≡ 1)
        ↔ ((bit (put table b h) q j ≡ 1) ⊎ Any (Sets table b q j) hs) =
      bit-put_all_iff table hs (put table b h) q j (put-IsValid table b h v) in
    let first = bit-put_iff table b h q j v in
    (
      λ e. elim (rest.0 e) [
        | inl p ↦ elim (first.0 p) [ inl o ↦ inl o | inr o ↦ inr (inl o) ]
        | inr a ↦ inr (inr a)
      ],
      λ s. rest.1 (elim s [
        | inl o ↦ inl (first.1 (inl o))
        | inr (inl o) ↦ inl (first.1 (inr o))
        | inr (inr a) ↦ inr a
      ]),
    )
