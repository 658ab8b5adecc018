-- ===== src/Machine/Word.antt =====
-- The unsigned types of C as native numbers: a cast or a wrap is a remainder, a shift to the right
-- a quotient. `load_le n p` is `memcpy` of `n` bytes into an integer, on a little-endian machine.
use quickbloom.Base.{ℕ, zero, suc, ◌+◌, ◌-◌, ◌*◌, ◌/◌, ◌%◌, ◌^◌, ◌≤◌, ◌<◌, ◌≡◌, refl, arith, ap}
use quickbloom.Base.{bit_or, List, [], ◌∷◌, ◌++◌, All, length, pow-add, pow_pos}

abbrev pub u32 : ℕ → ℕ
u32 x = x % 2 ^ 32

abbrev pub u64 : ℕ → ℕ
u64 x = x % 2 ^ 64

abbrev pub mul64 : ℕ → ℕ → ℕ
mul64 a b = u64 (a * b)

abbrev pub add64 : ℕ → ℕ → ℕ
add64 a b = u64 (a + b)

-- `-` stops at 0, so the modulus is added first.
abbrev pub sub64 : ℕ → ℕ → ℕ
sub64 a b = u64 (a + 2 ^ 64 - b)

abbrev pub shl64 : ℕ → ℕ → ℕ
shl64 x k = u64 (x * 2 ^ k)

abbrev pub shr : ℕ → ℕ → ℕ
shr x k = x / 2 ^ k

-- Rotation to the left by `n`, for `n` from 1 to 63.
abbrev pub rotl64 : ℕ → ℕ → ℕ
rotl64 x n = bit_or (shl64 x n) (shr x (64 - n))

-- A byte past the end of the list reads as 0; the laws of the hashes show that none is read.
unfoldable pub load_le : ℕ → List ℕ → ℕ
load_le zero p = 0
load_le (suc n) [] = 0
load_le (suc n) (b ∷ p) = b + 256 * load_le n p

abbrev pub IsByte : ℕ → Type 0
IsByte b = b < 256

abbrev pub IsBytes : List ℕ → Type 0
IsBytes p = All IsByte p

abbrev pub IsWord32 : ℕ → Type 0
IsWord32 w = w < 2 ^ 32

abbrev pub IsWord64 : ℕ → Type 0
IsWord64 w = w < 2 ^ 64

-- Bytes that follow the `n` that are read do not matter.
pub load_le-append : (n : ℕ) (p rest : List ℕ) → n ≤ length p → load_le n (p ++ rest) ≡ load_le n p
unfolding load_le
load_le-append zero p rest h = refl
load_le-append (suc n) [] rest h = absurd (omega arith)
load_le-append (suc n) (b ∷ p) rest h =
    ap (λ t. b + 256 * t) (load_le-append n p rest (omega arith))

pub load_le-lt : (n : ℕ) (p : List ℕ) → IsBytes p → load_le n p < 2 ^ (8 * n)
unfolding load_le
load_le-lt zero p h = omega arith
load_le-lt (suc n) [] h = pow_pos (8 * suc n)
load_le-lt (suc n) (b ∷ p) h =
    rw (eight_more n, pow-add 8 (8 * n)) (omega (arith, load_le-lt n p h.1))
  where
    eight_more : (n : ℕ) → 8 * suc n ≡ 8 + 8 * n
    eight_more n = omega arith
