-- ===== src/Krassovsky/TableLaws.antt =====
-- `mask_table_init` ends, and makes a table of the right size.
use quickbloom.Base.{
  ℕ, zero, suc, ◌+◌, ◌*◌, ◌/◌, ◌%◌, ◌^◌, ◌≡◌, ◌∙◌, refl, arith, ap, List, Option, none,
}
use quickbloom.Base.{some, ◌>>=◌, Bool, true, false, length, length-set, bit_or, get_or}
use quickbloom.Base.{==_iff, ◌==◌, if◌then◌else◌}
use quickbloom.Machine.{u32}
use quickbloom.Krassovsky.Table.{
  Statics, Building, prng_step, prng_output, table_bit, set_table_bit, pick, first_mask, slide,
  slides, mask_table_init, first_draw, num_set, first_phase, second_phase, mask_bytes,
  bits_per_mask,
}
use quickbloom.Krassovsky.Mask.{IsTable}

pub length-set_table_bit : (table : List ℕ) (i : ℕ) → length (set_table_bit table i) ≡ length table
unfolding set_table_bit
length-set_table_bit table i =
    length-set table (i / 8) (bit_or (get_or table (i / 8) 0) (u32 (1 * 2 ^ (i % 8)) % 256))

length-slide : (i : ℕ) (s : Building) → length (slide i s).table ≡ length s.table
unfolding slide
length-slide i s = ground (arith, length-set_table_bit s.table i)

length-slides : (n i : ℕ) (s : Building) → length (slides n i s).table ≡ length s.table
unfolding slides
length-slides zero i s = refl
length-slides (suc n) i s = length-slides n (i + 1) (slide i s) ∙ length-slide i s

abbrev sized : Option (List ℕ × ℕ) → Bool
sized none = false
sized (some (table, prng)) = length table == mask_bytes

first_phase-sized : sized first_phase ≡ true
unfolding first_phase first_draw num_set first_mask pick prng_step prng_output table_bit
    set_table_bit
first_phase-sized = refl

second_phase-IsTable : (t : List ℕ) (p : ℕ) → IsTable t → IsTable (second_phase t p).mask_table
unfolding second_phase
second_phase-IsTable t p is =
    length-slides 1023 bits_per_mask (record { table = t; prng = p; cur = num_set }) ∙ is

pub first_call :
    (s : Statics)
    → s.mask_table_inited ≡ false
    → (t : List ℕ) (p : ℕ) → first_phase ≡ some (t, p)
    → mask_table_init s ≡ some (second_phase t p)
unfolding mask_table_init
first_call s off t p e =
    ap (λ (c : Bool). if c then some s else (first_phase >>= λ (t, p). some (second_phase t p))) off
    ∙ ap (λ (o : Option (List ℕ × ℕ)). o >>= λ (t, p). some (second_phase t p)) e

found-IsTable :
    (o : Option (List ℕ × ℕ))
    → sized o ≡ true
    → (t : List ℕ) × (p : ℕ) × (o ≡ some (t, p)) × IsTable t
found-IsTable none e = absurd (ground arith)
found-IsTable (some (t, p)) e = (t, p, refl, (==_iff (length t) mask_bytes).0 e)

-- From statics that are not initialised, `mask_table_init` ends, within 1,000 rounds of each of its
-- `do ... while` loops, and leaves a table of MASK_BYTES bytes; a second call
-- changes nothing.
pub mask_table_init-IsTable :
    (s : Statics)
    → s.mask_table_inited ≡ false
    → (s' : Statics) × (mask_table_init s ≡ some s')
      × IsTable s'.mask_table
      × (mask_table_init s' ≡ some s')
unfolding mask_table_init
mask_table_init-IsTable s off =
    let (t, p, e, is) = found-IsTable first_phase first_phase-sized in
    (second_phase t p, first_call s off t p e, second_phase-IsTable t p is, second_call t p)
  where
    second_call :
        (t : List ℕ) (p : ℕ) → mask_table_init (second_phase t p) ≡ some (second_phase t p)
    second_call t p = unfold second_phase in refl
