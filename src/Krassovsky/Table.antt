-- ===== src/Krassovsky/Table.antt =====
-- The mask table: `prng_next` and `mask_table_init`.
use quickbloom.Base.{
  ℕ, zero, suc, ◌+◌, ◌-◌, ◌*◌, ◌/◌, ◌%◌, ◌^◌, List, Option, none, some, ◌>>=◌, Bool, true,
}
use quickbloom.Base.{
  bit_and, bit_or, bit_xor, get_or, set, replicate, ltb, ◌==◌, ◌&&◌, if◌then◌else◌,
}
use quickbloom.Machine.{u32, mul64, shl64, shr}

abbrev pub log_num_masks : ℕ
log_num_masks = 10

abbrev pub num_masks : ℕ
num_masks = 2 ^ 10

abbrev pub bits_per_mask : ℕ
bits_per_mask = 57

abbrev pub min_bits_set : ℕ
min_bits_set = 4

abbrev pub max_bits_set : ℕ
max_bits_set = 5

abbrev pub rotate_bits : ℕ
rotate_bits = 6

-- (NUM_MASKS + 64) / 8
abbrev pub mask_bytes : ℕ
mask_bytes = 136

-- The static variables: the table as bytes, the flag, and the state of the generator.
pub record Statics : Type 0 where
  pub mask_table : List ℕ
  pub mask_table_inited : Bool
  pub prng_state : ℕ

-- The generator's next state.
unfoldable pub prng_step : ℕ → ℕ
prng_step s =
    let s1 = bit_xor s (shr s 12) in let s2 = bit_xor s1 (shl64 s1 25) in bit_xor s2 (shr s2 27)

-- What `prng_next` returns, from the new state.
unfoldable pub prng_output : ℕ → ℕ
prng_output s = u32 (shr (mul64 s 0x2545f4914f6cdd1d) 32)

-- `(MASK_TABLE[i / 8] >> (i % 8)) & 1`
unfoldable pub table_bit : List ℕ → ℕ → ℕ
table_bit table i = bit_and (shr (get_or table (i / 8) 0) (i % 8)) 1

-- `MASK_TABLE[i / 8] |= (uint8_t)(1u << (i % 8))`; the loops keep `i` below 8 * MASK_BYTES.
unfoldable pub set_table_bit : List ℕ → ℕ → List ℕ
set_table_bit table i =
    set table (i / 8) (bit_or (get_or table (i / 8) 0) (u32 (1 * 2 ^ (i % 8)) % 256))

-- The table, the generator and `cur` while the table is built.
pub record Building : Type 0 where
  pub table : List ℕ
  pub prng : ℕ
  pub cur : ℕ

-- The `do ... while` that picks a position that is still free, on fuel: the position and the
-- generator's state.
unfoldable pub pick : ℕ → List ℕ → ℕ → Option (ℕ × ℕ)
pick zero table prng = none
pick (suc fuel) table prng =
    let prng' = prng_step prng in
    let pos = prng_output prng' % bits_per_mask in
    let again = pick fuel table prng' in
    if table_bit table pos == 1 then again else some (pos, prng')

-- The loop that sets the bits of the first mask, with the number of bits left.
unfoldable pub first_mask : ℕ → List ℕ → ℕ → Option (List ℕ × ℕ)
unfolding pick
first_mask zero table prng = some (table, prng)
first_mask (suc n) table prng =
    pick 1000 table prng >>= λ (pos, prng'). first_mask n (set_table_bit table pos) prng'

-- One round of the loop that slides the window on by bit `i`.
unfoldable pub slide : ℕ → Building → Building
slide i s =
    let leaving = table_bit s.table (i - bits_per_mask) in
    let prng' = prng_step s.prng in
    if leaving == 1 && s.cur == min_bits_set
    then record s { table = set_table_bit s.table i }
    else if leaving == 0 && s.cur == max_bits_set
    then s
    else if ltb (prng_output prng' % (bits_per_mask * 2)) (min_bits_set + max_bits_set)
    then record {
      table = set_table_bit s.table i;
      prng = prng';
      cur = if leaving == 0 then s.cur + 1 else s.cur;
    }
    else record { table = s.table; prng = prng'; cur = if leaving == 1 then s.cur - 1 else s.cur }

-- The loop from bit `i`, with the number of rounds left.
unfoldable pub slides : ℕ → ℕ → Building → Building
slides zero i s = s
slides (suc n) i s = slides n (i + 1) (slide i s)

-- The generator after the draw of `num_set`, from the seed.
unfoldable pub first_draw : ℕ
first_draw = prng_step 0x123456789abcdef0

unfoldable pub num_set : ℕ
unfolding first_draw
num_set =
    let range = max_bits_set - min_bits_set + 1 in min_bits_set + prng_output first_draw % range

-- The cleared table with its first mask.
unfoldable pub first_phase : Option (List ℕ × ℕ)
unfolding first_mask num_set first_draw
first_phase = first_mask num_set (replicate mask_bytes 0) first_draw

-- The loop over the rest of the table.
unfoldable pub second_phase : List ℕ → ℕ → Statics
unfolding slides num_set
second_phase table prng =
    let total_bits = num_masks + bits_per_mask - 1 in
    let built =
      slides (total_bits - bits_per_mask) bits_per_mask
        (record { table = table; prng = prng; cur = num_set }) in
    record { mask_table = built.table; mask_table_inited = true; prng_state = built.prng }

-- `none` means that the fuel of `pick` ran out.
unfoldable pub mask_table_init : Statics → Option Statics
unfolding first_phase second_phase
mask_table_init s =
    if s.mask_table_inited
    then some s
    else first_phase >>= λ (table, prng). some (second_phase table prng)
