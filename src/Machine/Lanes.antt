-- ===== src/Machine/Lanes.antt =====
-- A `__m256i` as its eight 32-bit lanes, lowest first, and the AVX2 instructions that the code
-- uses, lane by lane, as Intel documents them.
use quickbloom.Base.{ℕ, zero, suc, ◌-◌, ◌*◌, ◌/◌, ◌^◌, ◌<◌, ◌≡◌, refl, arith}
use quickbloom.Base.{bit_or, bit_and, List, [], ◌∷◌, map, Bool, true, ◌&&◌, ◌==◌, ltb, to_int}
use quickbloom.Base.{length, get_or, replicate, if◌then◌else◌, All, ◌↔◌, min}
use quickbloom.Machine.Word.{u32}

abbrev pub zip_with : (ℕ → ℕ → ℕ) → List ℕ → List ℕ → List ℕ
zip_with f [] ys = []
zip_with f (x ∷ xs) [] = []
zip_with f (x ∷ xs) (y ∷ ys) = f x y ∷ zip_with f xs ys

-- _mm256_set1_epi32
abbrev pub set1_epi32 : ℕ → List ℕ
set1_epi32 x = replicate 8 x

-- _mm256_set_epi32 takes the highest lane first.
abbrev pub set_epi32 : ℕ → ℕ → ℕ → ℕ → ℕ → ℕ → ℕ → ℕ → List ℕ
set_epi32 e7 e6 e5 e4 e3 e2 e1 e0 = e0 ∷ e1 ∷ e2 ∷ e3 ∷ e4 ∷ e5 ∷ e6 ∷ e7 ∷ []

-- _mm256_mullo_epi32: the low half of each product.
abbrev pub mullo_epi32 : List ℕ → List ℕ → List ℕ
mullo_epi32 = zip_with (λ x y. u32 (x * y))

-- _mm256_srli_epi32
abbrev pub srli_epi32 : List ℕ → ℕ → List ℕ
srli_epi32 a n = map (λ x. if ltb n 32 then x / 2 ^ n else 0) a

-- _mm256_sllv_epi32: a count of 32 or more gives 0.
abbrev pub sllv_epi32 : List ℕ → List ℕ → List ℕ
sllv_epi32 = zip_with (λ x n. if ltb n 32 then u32 (x * 2 ^ n) else 0)

-- _mm256_or_si256
abbrev pub or_si256 : List ℕ → List ℕ → List ℕ
or_si256 = zip_with bit_or

abbrev pub andnot32 : ℕ → ℕ → ℕ
andnot32 x y = bit_and (2 ^ 32 - 1 - x) y

abbrev pub all_zero : List ℕ → Bool
all_zero [] = true
all_zero (x ∷ xs) = x == 0 && all_zero xs

-- _mm256_testc_si256: 1 if no bit of `b` is missing in `a`, else 0.
abbrev pub testc_si256 : List ℕ → List ℕ → ℕ
testc_si256 a b = to_int (all_zero (zip_with andnot32 a b))

pub length-zip_with :
    (f : ℕ → ℕ → ℕ) (xs ys : List ℕ) → length (zip_with f xs ys) ≡ min (length xs) (length ys)
length-zip_with f [] ys = omega arith
length-zip_with f (x ∷ xs) [] = omega arith
length-zip_with f (x ∷ xs) (y ∷ ys) = omega (arith, length-zip_with f xs ys)

pub get_or-zip_with :
    (f : ℕ → ℕ → ℕ) (xs ys : List ℕ) (i : ℕ)
    → i < length xs
    → i < length ys
    → get_or (zip_with f xs ys) i 0 ≡ f (get_or xs i 0) (get_or ys i 0)
get_or-zip_with f [] ys i p q = absurd (omega arith)
get_or-zip_with f (x ∷ xs) [] i p q = absurd (omega arith)
get_or-zip_with f (x ∷ xs) (y ∷ ys) zero p q = refl
get_or-zip_with f (x ∷ xs) (y ∷ ys) (suc i) p q =
    get_or-zip_with f xs ys i (omega arith) (omega arith)

pub All-zip_with :
    (P : ℕ → Type 0) (f : ℕ → ℕ → ℕ)
    → ((x y : ℕ) → P x → P y → P (f x y))
    → (xs ys : List ℕ) → All P xs
    → All P ys
    → All P (zip_with f xs ys)
All-zip_with P f keep [] ys p q = tt
All-zip_with P f keep (x ∷ xs) [] p q = tt
All-zip_with P f keep (x ∷ xs) (y ∷ ys) p q =
    (keep x y p.0 q.0, All-zip_with P f keep xs ys p.1 q.1)

head_and_tail :
    (x : ℕ) (xs : List ℕ)
    → ((i : ℕ) → get_or xs i 0 ≡ 0)
    → x ≡ 0
    → (i : ℕ) → get_or (x ∷ xs) i 0 ≡ 0
head_and_tail x xs rest e zero = e
head_and_tail x xs rest e (suc i) = rest i

pub all_zero_iff : (xs : List ℕ) → (all_zero xs ≡ true) ↔ ((i : ℕ) → get_or xs i 0 ≡ 0)
all_zero_iff [] = (λ e i. refl, λ h. refl)
all_zero_iff (x ∷ xs) = (
  λ e. head_and_tail x xs ((all_zero_iff xs).0 (ground arith)) (ground arith),
  λ h. ground (arith, h 0, (all_zero_iff xs).1 (λ i. h (suc i))),
)
