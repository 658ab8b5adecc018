-- ===== src/Quickbloom/HashWords.antt =====
-- `fasthash64_var` as one fold over the key's 8-byte words, the last one padded with zeros.
use quickbloom.Base.{ℕ, zero, suc, ◌+◌, ◌*◌, ◌/◌, ◌%◌, ◌^◌, ◌≤◌, ◌<◌, ◌≡◌, ◌∙◌, refl, arith, List}
use quickbloom.Base.{[], ◌∷◌, drop, get_or, bit_xor, ap, All-drop, drop-drop}
use quickbloom.Base.{All-get_or, pow-add, pow_pos, pow_mono}
use quickbloom.Bits.{bit_xor_fields, bit_and_mask}
use quickbloom.Machine.{u64, mul64, shl64, load_le, IsBytes, IsByte}
use quickbloom.Quickbloom.Hash.{
  fasthash_m, fasthash_mix, fasthash_blocks, fasthash_tail, fasthash_final, fasthash_switch,
  fasthash64_var,
}
use native.Mathlib.Nat.{mod-eq_of_lt, mul-lt-mul_of_pos_right, lt_of_lt_of_le}

-- The words of the first `len` bytes: whole ones first, then what is left, if anything is.
unfoldable pub le_words : ℕ → ℕ → List ℕ → List ℕ
le_words zero zero key = []
le_words zero (suc rest) key = load_le (suc rest) key ∷ []
le_words (suc n) rest key = load_le 8 key ∷ le_words n rest (drop 8 key)

unfoldable pub fold_mix : ℕ → List ℕ → ℕ
fold_mix h [] = h
fold_mix h (w ∷ ws) = fold_mix (fasthash_mix h w) ws

byte_pow : (n : ℕ) → 2 ^ (8 * suc n) ≡ 256 * 2 ^ (8 * n)
byte_pow n = ap (λ k. 2 ^ k) (eight_more n) ∙ pow-add 8 (8 * n)
  where
    eight_more : (n : ℕ) → 8 * suc n ≡ 8 + 8 * n
    eight_more n = omega arith

-- A product by `2 ^ (8 * (n + 1))`, in terms of one by `2 ^ (8 * n)`.
byte_shift : (q n : ℕ) → q * 2 ^ (8 * suc n) ≡ 256 * (q * 2 ^ (8 * n))
byte_shift q n = omega (arith, ap (λ (t : ℕ). q * t) (byte_pow n))

-- The highest of `n + 1` bytes, taken out of the little-endian number.
load_le-snoc : (n : ℕ) (p : List ℕ) → load_le (suc n) p ≡ load_le n p + get_or p n 0 * 2 ^ (8 * n)
unfolding load_le
load_le-snoc zero [] = omega arith
load_le-snoc zero (b ∷ p) = omega arith
load_le-snoc (suc n) [] = omega arith
load_le-snoc (suc n) (b ∷ p) = omega (arith, load_le-snoc n p, byte_shift (get_or p n 0) n)

-- A byte shifted into place does not overflow, and lies below the field that is there.
byte_in :
    (q b n : ℕ)
    → suc n ≤ 8
    → b < 256
    → bit_xor (q * 2 ^ (8 * suc n)) (shl64 b (8 * n)) ≡ (q * 256 + b) * 2 ^ (8 * n)
byte_in q b n le small =
    rw (mod-eq_of_lt fits, bit_xor_fields (8 * suc n) q (b * 2 ^ (8 * n)) below)
      (omega (arith, byte_shift q n))
  where
    below : b * 2 ^ (8 * n) < 2 ^ (8 * suc n)
    below = rw (byte_pow n) (mul-lt-mul_of_pos_right small (pow_pos (8 * n)))

    fits : b * 2 ^ (8 * n) < 2 ^ 64
    fits = lt_of_lt_of_le below (pow_mono (8 * suc n) 64 (omega arith))

-- The fall-through reads `n` bytes as a little-endian number, highest byte first.
fasthash_tail_lem :
    (n q : ℕ) (tail : List ℕ)
    → n ≤ 8
    → IsBytes tail
    → fasthash_tail n (q * 2 ^ (8 * n)) tail ≡ q * 2 ^ (8 * n) + load_le n tail
unfolding fasthash_tail load_le
fasthash_tail_lem zero q tail le bytes = omega arith
fasthash_tail_lem (suc n) q tail le bytes =
    let b = get_or tail n 0 in
    let small : b < 256 = All-get_or IsByte tail n 0 bytes (omega arith) in
    let step : bit_xor (q * 2 ^ (8 * suc n)) (shl64 b (8 * n)) ≡ (q * 256 + b) * 2 ^ (8 * n) =
      byte_in q b n le small in
    rw (step, fasthash_tail_lem n (q * 256 + b) tail (omega arith) bytes)
      (omega (arith, load_le-snoc n tail, byte_shift q n))

fasthash_tail_whole :
    (n : ℕ) (tail : List ℕ) → n ≤ 8 → IsBytes tail → fasthash_tail n 0 tail ≡ load_le n tail
fasthash_tail_whole n tail le bytes =
    ap (λ t. fasthash_tail n t tail) no_field ∙ fasthash_tail_lem n 0 tail le bytes ∙ omega arith
  where
    no_field : 0 ≡ 0 * 2 ^ (8 * n)
    no_field = omega arith

fasthash_switch_lem :
    (n h : ℕ) (tail : List ℕ)
    → n ≤ 8
    → IsBytes tail
    → fasthash_switch n h tail ≡ fold_mix h (le_words 0 n tail)
unfolding fasthash_switch fold_mix le_words
fasthash_switch_lem zero h tail le bytes = refl
fasthash_switch_lem (suc n) h tail le bytes =
    ap (fasthash_mix h) (fasthash_tail_whole (suc n) tail le bytes)

fasthash_blocks_lem :
    (n r h : ℕ) (key : List ℕ)
    → r < 8
    → IsBytes key
    → fasthash_switch r (fasthash_blocks n h key) (drop (n * 8) key) ≡ fold_mix h (le_words n r key)
unfolding fasthash_blocks fold_mix le_words
fasthash_blocks_lem zero r h key le bytes = fasthash_switch_lem r h key (omega arith) bytes
fasthash_blocks_lem (suc n) r h key le bytes =
    rw (eight_on n, ← drop-drop 8 (n * 8) key)
      (fasthash_blocks_lem n r (fasthash_mix h (load_le 8 key)) (drop 8 key) le
        (All-drop IsByte 8 key bytes))
  where
    eight_on : (n : ℕ) → suc n * 8 ≡ 8 + n * 8
    eight_on n = omega arith

-- `fasthash64_var` is one fold over the little-endian 8-byte words of the key, the last one
-- padded with zeros when the length is no multiple of 8.
pub fasthash64_var_lem :
    (key : List ℕ) (len : ℕ)
    → IsBytes key
    → fasthash64_var key len
      ≡ fasthash_final (fold_mix (mul64 (u64 len) fasthash_m) (le_words (len / 8) (len % 8) key))
unfolding fasthash64_var
fasthash64_var_lem key len bytes = rw (bit_and_mask 3 len) (
    ap fasthash_final (
      fasthash_blocks_lem (len / 8) (len % 8) (mul64 (u64 len) fasthash_m) key (omega arith) bytes))
