-- ===== src/Krassovsky/Lanes64.antt =====
-- A `__m256i` as its four 64-bit lanes, lowest first, and the AVX2 instructions that the batched
-- path uses, as Intel documents them.
use quickbloom.Base.{
  ℕ, zero, suc, ◌+◌, ◌-◌, ◌*◌, ◌/◌, ◌%◌, ◌^◌, List, [], ◌∷◌, Option, none, some, ◌>>=◌, map,
}
use quickbloom.Base.{
  bit_and, bit_or, get_or, drop, length, leb, ltb, ◌==◌, if◌then◌else◌, replicate,
}
use quickbloom.Machine.{sub64, shl64, shr, load_le, zip_with}

-- _mm256_set1_epi64x
abbrev pub set1_epi64x : ℕ → List ℕ
set1_epi64x x = replicate 4 x

-- _mm256_and_si256
abbrev pub and_si256 : List ℕ → List ℕ → List ℕ
and_si256 = zip_with bit_and

-- _mm256_or_si256
abbrev pub or_si256_64 : List ℕ → List ℕ → List ℕ
or_si256_64 = zip_with bit_or

-- _mm256_srli_epi64
abbrev pub srli_epi64 : List ℕ → ℕ → List ℕ
srli_epi64 a n = map (λ x. if ltb n 64 then shr x n else 0) a

abbrev pub srlv64 : ℕ → ℕ → ℕ
srlv64 x n = if ltb n 64 then shr x n else 0

abbrev pub sllv64 : ℕ → ℕ → ℕ
sllv64 x n = if ltb n 64 then shl64 x n else 0

-- _mm256_srlv_epi64, _mm256_sllv_epi64: a count of 64 or more gives 0.
abbrev pub srlv_epi64 : List ℕ → List ℕ → List ℕ
srlv_epi64 = zip_with srlv64

abbrev pub sllv_epi64 : List ℕ → List ℕ → List ℕ
sllv_epi64 = zip_with sllv64

-- _mm256_sub_epi64
abbrev pub sub_epi64 : List ℕ → List ℕ → List ℕ
sub_epi64 = zip_with sub64

-- _mm256_cmpeq_epi64
abbrev pub cmpeq_epi64 : List ℕ → List ℕ → List ℕ
cmpeq_epi64 = zip_with (λ x y. if x == y then 2 ^ 64 - 1 else 0)

-- Eight bytes at byte offset `p`; `none` is an access out of bounds.
unfoldable pub load64 : List ℕ → ℕ → Option ℕ
load64 bytes p = if leb (p + 8) (length bytes) then some (load_le 8 (drop p bytes)) else none

-- Word `i` of an array of 64-bit words; `none` is an access out of bounds.
unfoldable pub word_at : List ℕ → ℕ → Option ℕ
word_at words i = if ltb i (length words) then some (get_or words i 0) else none

-- _mm256_i64gather_epi64, with `load` what is read at an index.
abbrev pub i64gather : (ℕ → Option ℕ) → List ℕ → Option (List ℕ)
i64gather load [] = some []
i64gather load (i ∷ is) = load i >>= λ x. i64gather load is >>= λ xs. some (x ∷ xs)

-- The top bits of the low `n` bytes of `x`, lowest first.
abbrev pub top_bits : ℕ → ℕ → ℕ
top_bits zero x = 0
top_bits (suc n) x = x / 2 ^ 7 % 2 + 2 * top_bits n (x / 2 ^ 8)

-- _mm256_movemask_epi8, as the bit pattern of the 32-bit result.
abbrev pub movemask_epi8 : List ℕ → ℕ
movemask_epi8 [] = 0
movemask_epi8 (x ∷ xs) = top_bits 8 x + 2 ^ 8 * movemask_epi8 xs

-- __builtin_popcount of a number of at most `n` bits.
abbrev pub popcount : ℕ → ℕ → ℕ
popcount zero x = 0
popcount (suc n) x = x % 2 + popcount n (x / 2)
