-- ===== src/Classic/Valid.antt =====
-- The representation invariant of the classic filter, and one bit set or read.
use quickbloom.Base.{ℕ, ◌+◌, ◌-◌, ◌*◌, ◌/◌, ◌%◌, ◌^◌, ◌≤◌, ◌<◌, ◌≡◌, ◌∙◌, arith, ap, sym}
use quickbloom.Base.{some, length, get_or, set, All, All-set, All-get_or, pow_mono, ◌==◌}
use quickbloom.Base.{
  bit_or, bit_and, if◌then◌else◌, lt→ltb, length-set, get_or-set_self, get_or-set_ne,
}
use quickbloom.Base.{ℕ_discrete}
use quickbloom.Bits.{
  bit_at, bit_at-lt, bit_and_mask, shift-bit_and-one, bit_at-bit_or, bit_at-pow, bit_or-lt,
}
use quickbloom.Machine.{IsWord64, shl64}
use quickbloom.Classic.Filter.{Bloom, set_bit, get_bit}
use native.Mathlib.Nat.{mod-lt}

-- The number of bits is `2 ^ log`; the mask and the array's length agree with it.
pub record IsValid (b : Bloom) : Type 0 where
  pub log : ℕ
  pub log_large : 6 ≤ log
  pub log_small : log ≤ 63
  pub masked : b.bit_mask + 1 ≡ 2 ^ log
  pub sized : 64 * length b.bits ≡ 2 ^ log
  pub words : All IsWord64 b.bits

-- The number of bits.
abbrev pub nbits : Bloom → ℕ
nbits b = b.bit_mask + 1

-- Bit `q` of the array.
abbrev pub bit : Bloom → ℕ → ℕ
bit b q = bit_at (get_or b.bits (q / 64) 0) (q % 64)

-- The filter with bit `q` set.
unfoldable pub put_bit : Bloom → ℕ → Bloom
put_bit b q = record b {
  bits = set b.bits (q / 64) (bit_or (get_or b.bits (q / 64) 0) (2 ^ (q % 64)));
}

module _ (b : Bloom) (p : ℕ) (v : IsValid b) where
  masked_lem : bit_and p b.bit_mask ≡ p % nbits b
  masked_lem =
      let mask : b.bit_mask ≡ 2 ^ v.log - 1 = omega (arith, v.masked) in
      rw (mask, bit_and_mask v.log p) (ap (λ n. p % n) (sym v.masked ∙ ap (λ m. m + 1) mask))

  pub probe-lt : p % nbits b < nbits b
  probe-lt = mod-lt p (omega arith)

  pub probe-fits : p % nbits b / 64 < length b.bits
  probe-fits = omega (arith, probe-lt, v.masked, v.sized)

  low_six : (q : ℕ) → bit_and q 63 ≡ q % 64
  low_six q = bit_and_mask 6 q

  pub set_bit_lem : set_bit b p ≡ some (put_bit b (p % nbits b))
  unfolding set_bit put_bit
  set_bit_lem =
      rw (masked_lem, lt→ltb (p % nbits b / 64) (length b.bits) probe-fits, low_six (p % nbits b))
        (ap
          (λ m. some (record b {
            bits = set b.bits (p % nbits b / 64) (bit_or (get_or b.bits (p % nbits b / 64) 0) m);
          }))
          (one_bit (p % nbits b % 64) (omega arith)))
    where
      one_bit : (k : ℕ) → k < 64 → shl64 1 k ≡ 2 ^ k
      one_bit k h = omega (arith, pow_mono k 63 (omega arith))

  pub get_bit_lem : get_bit b p ≡ some (bit b (p % nbits b))
  unfolding get_bit
  get_bit_lem =
      rw (masked_lem, lt→ltb (p % nbits b / 64) (length b.bits) probe-fits, low_six (p % nbits b))
        (ap some (shift-bit_and-one (p % nbits b % 64) (get_or b.bits (p % nbits b / 64) 0)))

module _ (b : Bloom) (q : ℕ) (v : IsValid b) where
  pub put_bit-IsValid : IsValid (put_bit b q)
  unfolding put_bit
  put_bit-IsValid = record {
    log = v.log;
    log_large = v.log_large;
    log_small = v.log_small;
    masked = v.masked;
    sized =
        ap (λ n. 64 * n)
          (length-set b.bits (q / 64) (bit_or (get_or b.bits (q / 64) 0) (2 ^ (q % 64))))
        ∙ v.sized;
    words =
        All-set IsWord64 b.bits (q / 64) (bit_or (get_or b.bits (q / 64) 0) (2 ^ (q % 64))) v.words
          (bit_or-lt 64 (get_or b.bits (q / 64) 0) (2 ^ (q % 64))
            (All-get_or IsWord64 b.bits (q / 64) 0 v.words (omega arith))
            (omega (arith, pow_mono (q % 64) 63 (omega arith))));
  }

  -- Setting a bit that the array holds changes that bit and no other.
  pub bit-put_bit : q < nbits b → (r : ℕ) → bit (put_bit b q) r ≡ (if r == q then 1 else bit b r)
  unfolding put_bit
  bit-put_bit lt r = elim (ℕ_discrete (q / 64) (r / 64)) [
    | yes e ↦
        rw
          (
            ← e,
            get_or-set_self 0 b.bits (q / 64) (bit_or (get_or b.bits (q / 64) 0) (2 ^ (q % 64)))
                (omega (arith, v.masked, v.sized)),
            bit_at-bit_or (get_or b.bits (q / 64) 0) (2 ^ (q % 64)) (r % 64),
            bit_at-pow (q % 64) (r % 64),
          )
          (ground (arith, bit_at-lt (get_or b.bits (q / 64) 0) (r % 64)))
    | no ne ↦
        rw
          (get_or-set_ne 0 b.bits (q / 64) (r / 64)
            (bit_or (get_or b.bits (q / 64) 0) (2 ^ (q % 64))) ne)
          (ground arith)
  ]
