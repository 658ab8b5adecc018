-- ===== src/Machine/Bytes.antt =====
-- Words as their little-endian bytes, and `memcpy` between an array of words and one of bytes.
use quickbloom.Base.{ℕ, ◌+◌, ◌-◌, ◌*◌, ◌/◌, ◌%◌, ◌^◌, ◌≡◌, refl, arith, ap₂}
use quickbloom.Base.{
  List, [], ◌∷◌, ◌++◌, Option, none, some, ◌&&◌, leb, if◌then◌else◌, length, take, drop,
}
use quickbloom.Base.{All}
use quickbloom.Machine.Word.{IsBytes, IsWord32}

unfoldable pub to_bytes : List ℕ → List ℕ
to_bytes [] = []
to_bytes (w ∷ ws) = w % 256 ∷ w / 2 ^ 8 % 256 ∷ w / 2 ^ 16 % 256 ∷ w / 2 ^ 24 % 256 ∷ to_bytes ws

-- Bytes that make up no whole word are left out.
unfoldable pub from_bytes : List ℕ → List ℕ
from_bytes (b0 ∷ b1 ∷ b2 ∷ b3 ∷ bs) = (b0 + 256 * b1 + 65536 * b2 + 16777216 * b3) ∷ from_bytes bs
from_bytes bs = []

-- `memcpy` of `n` bytes from words to bytes; `none` if either array is too short.
unfoldable pub copy_out : List ℕ → List ℕ → ℕ → Option (List ℕ)
copy_out dst words n =
    if leb n (length (to_bytes words)) && leb n (length dst)
    then some (take n (to_bytes words) ++ drop n dst)
    else none

-- `memcpy` of `n` bytes, a multiple of 4, from bytes to words.
unfoldable pub copy_in : List ℕ → List ℕ → ℕ → Option (List ℕ)
copy_in words bytes n =
    if leb n (length bytes) && leb (n / 4) (length words)
    then some (from_bytes (take n bytes) ++ drop (n / 4) words)
    else none

pub length-to_bytes : (ws : List ℕ) → length (to_bytes ws) ≡ 4 * length ws
unfolding to_bytes
length-to_bytes [] = refl
length-to_bytes (w ∷ ws) = omega (arith, length-to_bytes ws)

pub to_bytes-IsBytes : (ws : List ℕ) → IsBytes (to_bytes ws)
unfolding to_bytes
to_bytes-IsBytes [] = tt
to_bytes-IsBytes (w ∷ ws) =
    (omega arith, (omega arith, (omega arith, (omega arith, to_bytes-IsBytes ws))))

pub from_bytes-to_bytes : (ws : List ℕ) → All IsWord32 ws → from_bytes (to_bytes ws) ≡ ws
unfolding from_bytes to_bytes
from_bytes-to_bytes [] h = refl
from_bytes-to_bytes (w ∷ ws) h = ap₂ ◌∷◌ (omega arith) (from_bytes-to_bytes ws h.1)

-- Four bytes at a time, for lists of `4 * m` bytes.
pub to_bytes-from_bytes :
    (m : ℕ) (bs : List ℕ) → length bs ≡ 4 * m → IsBytes bs → to_bytes (from_bytes bs) ≡ bs
unfolding from_bytes to_bytes
to_bytes-from_bytes m [] e h = refl
to_bytes-from_bytes m (b0 ∷ []) e h = absurd (omega arith)
to_bytes-from_bytes m (b0 ∷ b1 ∷ []) e h = absurd (omega arith)
to_bytes-from_bytes m (b0 ∷ b1 ∷ b2 ∷ []) e h = absurd (omega arith)
to_bytes-from_bytes m (b0 ∷ b1 ∷ b2 ∷ b3 ∷ bs) e h = ap₂ ◌∷◌ (omega arith) (
    ap₂ ◌∷◌ (omega arith) (
      ap₂ ◌∷◌ (omega arith)
        (ap₂ ◌∷◌ (omega arith) (to_bytes-from_bytes (m - 1) bs (omega arith) h.1.1.1.1))))

pub length-from_bytes : (m : ℕ) (bs : List ℕ) → length bs ≡ 4 * m → length (from_bytes bs) ≡ m
unfolding from_bytes
length-from_bytes m [] e = omega arith
length-from_bytes m (b0 ∷ []) e = absurd (omega arith)
length-from_bytes m (b0 ∷ b1 ∷ []) e = absurd (omega arith)
length-from_bytes m (b0 ∷ b1 ∷ b2 ∷ []) e = absurd (omega arith)
length-from_bytes m (b0 ∷ b1 ∷ b2 ∷ b3 ∷ bs) e =
    omega (arith, length-from_bytes (m - 1) bs (omega arith))

pub from_bytes-words : (bs : List ℕ) → IsBytes bs → All IsWord32 (from_bytes bs)
unfolding from_bytes
from_bytes-words (b0 ∷ b1 ∷ b2 ∷ b3 ∷ bs) h = (omega arith, from_bytes-words bs h.1.1.1.1)
from_bytes-words [] h = tt
from_bytes-words bs h = tt
