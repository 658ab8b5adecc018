-- ===== src/Krassovsky/Masks.antt =====
-- The masks of the table that `mask_table_init` leaves.
use quickbloom.Base.{
  ℕ, ◌+◌, ◌≤◌, ◌<◌, ◌≡◌, refl, arith, List, Option, none, some, Bool, true, false, ◌&&◌, ◌==◌,
  length,
}
use quickbloom.Krassovsky.Table.{
  Statics, Building, prng_step, prng_output, table_bit, set_table_bit, pick, first_mask, slides,
  mask_table_init, first_draw, num_set, first_phase, second_phase, mask_bytes, num_masks,
  bits_per_mask, min_bits_set, max_bits_set,
}
use quickbloom.Krassovsky.Mask.{IsTable}
use quickbloom.Krassovsky.TableLaws.{first_call}
use quickbloom.Krassovsky.Windows.{ones, none_set}
use quickbloom.Krassovsky.Sliding.{IsMask, IsSliding, slides-IsSliding}

-- The first mask has `num_set` bits, and no bit past it is set.
abbrev begins : Option (List ℕ × ℕ) → Bool
begins none = false
begins (some (table, prng)) =
    length table == mask_bytes
    && ones table 0 bits_per_mask == num_set
    && ones table bits_per_mask 1031 == 0

first_phase-begins : begins first_phase ≡ true
unfolding first_phase first_draw num_set first_mask pick prng_step prng_output table_bit
    set_table_bit ones
first_phase-begins = refl

num_set-bounds : (min_bits_set ≤ num_set) × (num_set ≤ max_bits_set)
unfolding num_set
num_set-bounds = omega arith

begun :
    (o : Option (List ℕ × ℕ))
    → begins o ≡ true
    → (t : List ℕ) × (p : ℕ) × (o ≡ some (t, p))
      × IsSliding 0 (record { table = t; prng = p; cur = num_set })
begun none e = absurd (ground arith)
begun (some (t, p)) e =
    let sized : length t ≡ mask_bytes = ground arith in
    let counted : ones t 0 57 ≡ num_set = ground arith in
    let empty : ones t 57 1031 ≡ 0 = ground arith in
    (
      t,
      p,
      refl,
      record {
        sized = sized;
        counted = counted;
        clear = λ j le lt. none_set t 57 1031 empty j le (omega arith);
        masks = λ k le. let start : k ≡ 0 = omega arith in rw (start, counted) num_set-bounds;
      },
    )

-- From statics that are not initialised, `mask_table_init` ends, within 1,000 rounds of each of its
-- `do ... while` loops, and leaves a table of MASK_BYTES bytes in which each of the NUM_MASKS
-- windows of BITS_PER_MASK bits has at least MIN_BITS_SET and at most MAX_BITS_SET bits set; a
-- second call changes nothing.
pub mask_table_init-IsMask :
    (s : Statics)
    → s.mask_table_inited ≡ false
    → (s' : Statics) × (mask_table_init s ≡ some s')
      × IsTable s'.mask_table
      × ((k : ℕ) → k < num_masks → IsMask s'.mask_table k)
      × (mask_table_init s' ≡ some s')
unfolding mask_table_init second_phase
mask_table_init-IsMask s off =
    let (t, p, e, is) = begun first_phase first_phase-begins in
    let start : Building = record { table = t; prng = p; cur = num_set } in
    let built : IsSliding (0 + 1023) (slides 1023 (0 + 57) start) =
      slides-IsSliding 1023 0 start is (omega arith) in
    (
      second_phase t p,
      first_call s off t p e,
      built.sized,
      λ k lt. built.masks k (omega arith),
      refl,
    )
