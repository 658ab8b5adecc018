-- ===== src/Krassovsky/Windows.antt =====
-- The bits of the mask table, and the number of those set in a window of it.
use quickbloom.Base.{
  ℕ, zero, suc, ◌+◌, ◌*◌, ◌/◌, ◌%◌, ◌^◌, ◌≤◌, ◌<◌, ◌≡◌, ◌≢◌, refl, arith, List, get_or, set, length,
  get_or-set_self, get_or-set_ne, bit_or, ℕ_discrete, ==_iff, ne→==, pow_mono,
}
use quickbloom.Bits.{bit_at, bit_at-lt, bit_at-bit_or, bit_at-pow, shift-bit_and-one}
use quickbloom.Machine.{u32}
use quickbloom.Krassovsky.Table.{table_bit, set_table_bit}

-- The number of bits set among bits `i` to `i + n - 1` of the table.
unfoldable pub ones : List ℕ → ℕ → ℕ → ℕ
ones table i zero = 0
ones table i (suc n) = table_bit table i + ones table (i + 1) n

table_bit-bit_at : (t : List ℕ) (i : ℕ) → table_bit t i ≡ bit_at (get_or t (i / 8) 0) (i % 8)
unfolding table_bit
table_bit-bit_at t i = shift-bit_and-one (i % 8) (get_or t (i / 8) 0)

pub table_bit-lt : (t : List ℕ) (i : ℕ) → table_bit t i < 2
table_bit-lt t i = omega (arith, table_bit-bit_at t i, bit_at-lt (get_or t (i / 8) 0) (i % 8))

one_byte : (r : ℕ) → r < 8 → u32 (1 * 2 ^ r) % 256 ≡ 2 ^ r
one_byte r lt = omega (arith, pow_mono r 7 (omega arith))

set_table_bit_lem :
    (t : List ℕ) (i : ℕ)
    → set_table_bit t i ≡ set t (i / 8) (bit_or (get_or t (i / 8) 0) (2 ^ (i % 8)))
unfolding set_table_bit
set_table_bit_lem t i = rw (one_byte (i % 8) (omega arith))

-- The bit is set, and no other bit changes.
pub table_bit-set_self :
    (t : List ℕ) (i : ℕ) → i < 8 * length t → table_bit (set_table_bit t i) i ≡ 1
table_bit-set_self t i lt =
    rw (table_bit-bit_at (set_table_bit t i) i, set_table_bit_lem t i)
      (rw (get_or-set_self 0 t (i / 8) (bit_or (get_or t (i / 8) 0) (2 ^ (i % 8))) (omega arith)) (
        rw
          (
            bit_at-bit_or (get_or t (i / 8) 0) (2 ^ (i % 8)) (i % 8),
            bit_at-pow (i % 8) (i % 8),
            (==_iff (i % 8) (i % 8)).1 refl,
          )
          (omega (arith, bit_at-lt (get_or t (i / 8) 0) (i % 8)))))

pub table_bit-set_ne :
    (t : List ℕ) (i j : ℕ)
    → i < 8 * length t
    → i ≢ j
    → table_bit (set_table_bit t i) j ≡ table_bit t j
table_bit-set_ne t i j lt ne =
    rw (table_bit-bit_at (set_table_bit t i) j, set_table_bit_lem t i, table_bit-bit_at t j)
      (elim (ℕ_discrete (i / 8) (j / 8)) [
        | no far ↦
            rw (get_or-set_ne 0 t (i / 8) (j / 8) (bit_or (get_or t (i / 8) 0) (2 ^ (i % 8))) far)
              refl
        | yes same ↦ rw (← same) (
            rw
              (
                get_or-set_self 0 t (i / 8) (bit_or (get_or t (i / 8) 0) (2 ^ (i % 8)))
                    (omega arith),
                bit_at-bit_or (get_or t (i / 8) 0) (2 ^ (i % 8)) (j % 8),
                bit_at-pow (i % 8) (j % 8),
                ne→== (i % 8) (j % 8) (λ e. ne (omega arith)),
              )
              (omega arith))
      ])

-- Windows with the same bits have as many set.
pub ones_ext :
    (t u : List ℕ) (i n : ℕ)
    → ((j : ℕ) → i ≤ j → j < i + n → table_bit t j ≡ table_bit u j)
    → ones t i n ≡ ones u i n
unfolding ones
ones_ext t u i zero same = refl
ones_ext t u i (suc n) same =
    let rest = ones_ext t u (i + 1) n (λ j le lt. same j (omega arith) (omega arith)) in
    omega (arith, same i (omega arith) (omega arith), rest)

-- A window without its first bit, and without its last.
pub ones-last : (t : List ℕ) (i n : ℕ) → ones t i (suc n) ≡ ones t i n + table_bit t (i + n)
unfolding ones
ones-last t i zero = let here : i + 0 ≡ i = omega arith in rw here (omega arith)
ones-last t i (suc n) =
    let here : i + 1 + n ≡ i + suc n = omega arith in
    omega (arith, rw here at (ones-last t (i + 1) n))

pub none_set :
    (t : List ℕ) (i n : ℕ) → ones t i n ≡ 0 → (j : ℕ) → i ≤ j → j < i + n → table_bit t j ≡ 0
unfolding ones
none_set t i zero e j le lt = absurd (omega arith)
none_set t i (suc n) e j le lt = elim (ℕ_discrete i j) [
  | yes here ↦ let z : table_bit t i ≡ 0 = omega arith in rw (← here) z
  | no ne ↦ none_set t (i + 1) n (omega arith) j (omega arith) (omega arith)
]
