-- ===== src/Quickbloom/HashLaws.antt =====
-- What the key hash reads and returns, and `fasthash64_var` as one fold over 8-byte words.
use quickbloom.Base.{ℕ, zero, suc, ◌*◌, ◌/◌, ◌%◌, ◌^◌, ◌≤◌, ◌<◌, ◌≡◌, refl, arith, List}
use quickbloom.Base.{[], ◌∷◌, ◌++◌, length, drop, get_or, get_or-append, bit_and, bit_xor, ap}
use quickbloom.Base.{◌==◌, Bool-cases, inl, inr, ==_iff}
use quickbloom.Base.{lt→ltb, length-drop}
use quickbloom.Bits.{bit_xor-lt, bit_and_mask}
use quickbloom.Machine.{u64, mul64, shl64, shr, load_le, load_le-append}
use quickbloom.Quickbloom.Hash.{
  hash16, fasthash_m, fasthash_mix, fasthash_blocks, fasthash_tail, fasthash_final, fasthash_switch,
  fasthash64_var, bloom_hash,
}

drop-append {ℓ} :
    {A : Type ℓ} (n : ℕ) (xs ys : List A) → n ≤ length xs → drop n (xs ++ ys) ≡ drop n xs ++ ys
drop-append zero xs ys h = refl
drop-append (suc n) [] ys h = absurd (omega arith)
drop-append (suc n) (x ∷ xs) ys h = drop-append n xs ys (omega arith)

hash16-lt : (key : List ℕ) → hash16 key < 2 ^ 64
unfolding hash16
hash16-lt key =
    let r =
      bit_xor (load_le 8 key) 0x736f6d6570736575
      * bit_xor (load_le 8 (drop 8 key)) 0x646f72616e646f6d
      % 2 ^ 128 in
    bit_xor-lt 64 (u64 r) (u64 (shr r 64)) (omega arith) (omega arith)

fasthash_final-lt : (h : ℕ) → h < 2 ^ 64 → fasthash_final h < 2 ^ 64
unfolding fasthash_final
fasthash_final-lt h p =
    let h2 = mul64 (bit_xor h (shr h 23)) 0x2127599bf4325c37 in
    bit_xor-lt 64 h2 (shr h2 47) (omega arith) (omega arith)

fasthash_mix-lt : (h k : ℕ) → fasthash_mix h k < 2 ^ 64
unfolding fasthash_mix
fasthash_mix-lt h k = omega arith

fasthash_blocks-lt : (n h : ℕ) (p : List ℕ) → h < 2 ^ 64 → fasthash_blocks n h p < 2 ^ 64
unfolding fasthash_blocks
fasthash_blocks-lt zero h p lt = lt
fasthash_blocks-lt (suc n) h p lt =
    fasthash_blocks-lt n (fasthash_mix h (load_le 8 p)) (drop 8 p) (fasthash_mix-lt h (load_le 8 p))

fasthash_switch-lt : (n h : ℕ) (tail : List ℕ) → h < 2 ^ 64 → fasthash_switch n h tail < 2 ^ 64
unfolding fasthash_switch
fasthash_switch-lt zero h tail lt = lt
fasthash_switch-lt (suc n) h tail lt = fasthash_mix-lt h (fasthash_tail (suc n) 0 tail)

fasthash64_var-lt : (key : List ℕ) (len : ℕ) → fasthash64_var key len < 2 ^ 64
unfolding fasthash64_var
fasthash64_var-lt key len =
    let start = mul64 (u64 len) fasthash_m in
    let h = fasthash_blocks (len / 8) start key in
    let tail = drop (len / 8 * 8) key in
    fasthash_final-lt (fasthash_switch (bit_and len 7) h tail) (
      fasthash_switch-lt (bit_and len 7) h tail
        (fasthash_blocks-lt (len / 8) start key (omega arith)))

-- The hash of a key of any length is a 64-bit number.
pub bloom_hash-lt : (key : List ℕ) (len : ℕ) → bloom_hash key len < 2 ^ 64
unfolding bloom_hash
bloom_hash-lt key len = elim (Bool-cases (len == 16)) [
  | inl e ↦ rw e (hash16-lt key)
  | inr e ↦ rw e (fasthash64_var-lt key len)
]

-- Which bytes are read.
fasthash_blocks-append :
    (n h : ℕ) (p rest : List ℕ)
    → n * 8 ≤ length p
    → fasthash_blocks n h (p ++ rest) ≡ fasthash_blocks n h p
unfolding fasthash_blocks
fasthash_blocks-append zero h p rest le = refl
fasthash_blocks-append (suc n) h p rest le =
    rw (load_le-append 8 p rest (omega arith), drop-append 8 p rest (omega arith))
      (fasthash_blocks-append n (fasthash_mix h (load_le 8 p)) (drop 8 p) rest
        (omega (arith, length-drop 8 p)))

fasthash_tail-append :
    (n t : ℕ) (p rest : List ℕ) → n ≤ length p → fasthash_tail n t (p ++ rest) ≡ fasthash_tail n t p
unfolding fasthash_tail
fasthash_tail-append zero t p rest le = refl
fasthash_tail-append (suc n) t p rest le =
    rw (get_or-append 0 p rest n, lt→ltb n (length p) (omega arith))
      (fasthash_tail-append n (bit_xor t (shl64 (get_or p n 0) (8 * n))) p rest (omega arith))

fasthash_switch-append :
    (n h : ℕ) (p rest : List ℕ)
    → n ≤ length p
    → fasthash_switch n h (p ++ rest) ≡ fasthash_switch n h p
unfolding fasthash_switch
fasthash_switch-append zero h p rest le = refl
fasthash_switch-append (suc n) h p rest le =
    ap (fasthash_mix h) (fasthash_tail-append (suc n) 0 p rest le)

low_three_bits : (len : ℕ) → bit_and len 7 ≡ len % 8
low_three_bits len = bit_and_mask 3 len

fasthash64_var-append :
    (key rest : List ℕ) (len : ℕ)
    → len ≤ length key
    → fasthash64_var (key ++ rest) len ≡ fasthash64_var key len
unfolding fasthash64_var
fasthash64_var-append key rest len le = rw (
  fasthash_blocks-append (len / 8) (mul64 (u64 len) fasthash_m) key rest (omega arith),
  drop-append (len / 8 * 8) key rest (omega arith),
  fasthash_switch-append (bit_and len 7)
      (fasthash_blocks (len / 8) (mul64 (u64 len) fasthash_m) key) (drop (len / 8 * 8) key) rest
      (omega (arith, low_three_bits len, length-drop (len / 8 * 8) key)),
)

hash16-append : (key rest : List ℕ) → 16 ≤ length key → hash16 (key ++ rest) ≡ hash16 key
unfolding hash16
hash16-append key rest le = rw (
  load_le-append 8 key rest (omega arith),
  drop-append 8 key rest (omega arith),
  load_le-append 8 (drop 8 key) rest (omega (arith, length-drop 8 key)),
)

-- Hashing a key of `len` bytes reads none past them: what follows in memory has no effect.
bloom_hash-append :
    (key rest : List ℕ) (len : ℕ)
    → len ≤ length key
    → bloom_hash (key ++ rest) len ≡ bloom_hash key len
unfolding bloom_hash
bloom_hash-append key rest len le = elim (Bool-cases (len == 16)) [
  | inl e ↦ rw e (hash16-append key rest (rw ((==_iff len 16).0 e) at le))
  | inr e ↦ rw e (fasthash64_var-append key rest len le)
]
