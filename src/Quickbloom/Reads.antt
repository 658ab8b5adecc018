-- ===== src/Quickbloom/Reads.antt =====
-- The key hashes of quickbloom.c with each read of the key checked: `none` is a read past the end of
-- the memory that the key stands in.
use quickbloom.Base.{
  ℕ, zero, suc, ◌*◌, ◌/◌, ◌%◌, ◌^◌, ◌≤◌, ◌≡◌, refl, arith, bit_and, bit_xor, List, drop, length,
  get_or, Option, none, some, ◌>>=◌, leb, ltb, ◌==◌, if◌then◌else◌,
}
use quickbloom.Base.{le→leb, lt→ltb, length-drop, Bool-cases, inl, inr, ==_iff}
use quickbloom.Bits.{bit_and_mask}
use quickbloom.Machine.{u64, mul64, shl64, shr, load_le}
use quickbloom.Quickbloom.Hash.{
  hash16, fasthash_m, fasthash_mix, fasthash_blocks, fasthash_tail, fasthash_switch, fasthash_final,
  fasthash64_var, bloom_hash,
}

-- `p[i]`
unfoldable pub byte_in : List ℕ → ℕ → Option ℕ
byte_in p i = if ltb i (length p) then some (get_or p i 0) else none

-- `memcpy(&x, p, 8)`
unfoldable pub load_in : List ℕ → Option ℕ
load_in p = if leb 8 (length p) then some (load_le 8 p) else none

unfoldable pub hash16_in : List ℕ → Option ℕ
hash16_in key = do
  lo ← load_in key
  hi ← load_in (drop 8 key)
  let a = bit_xor lo 0x736f6d6570736575
  let b = bit_xor hi 0x646f72616e646f6d
  let r = a * b % 2 ^ 128
  some (bit_xor (u64 r) (u64 (shr r 64)))

unfoldable pub fasthash_blocks_in : ℕ → ℕ → List ℕ → Option ℕ
fasthash_blocks_in zero h p = some h
fasthash_blocks_in (suc n) h p =
    load_in p >>= λ k. fasthash_blocks_in n (fasthash_mix h k) (drop 8 p)

unfoldable pub fasthash_tail_in : ℕ → ℕ → List ℕ → Option ℕ
fasthash_tail_in zero t tail = some t
fasthash_tail_in (suc i) t tail =
    byte_in tail i >>= λ x. fasthash_tail_in i (bit_xor t (shl64 x (8 * i))) tail

unfoldable pub fasthash_switch_in : ℕ → ℕ → List ℕ → Option ℕ
fasthash_switch_in zero h tail = some h
fasthash_switch_in (suc n) h tail = fasthash_tail_in (suc n) 0 tail >>= λ t. some (fasthash_mix h t)

unfoldable pub fasthash64_var_in : List ℕ → ℕ → Option ℕ
fasthash64_var_in key len = do
  let nblocks = len / 8
  h ← fasthash_blocks_in nblocks (mul64 (u64 len) fasthash_m) key
  h' ← fasthash_switch_in (bit_and len 7) h (drop (nblocks * 8) key)
  some (fasthash_final h')

unfoldable pub bloom_hash_in : List ℕ → ℕ → Option ℕ
bloom_hash_in key len = if len == 16 then hash16_in key else fasthash64_var_in key len

pub byte_in_lem : (p : List ℕ) (i : ℕ) → suc i ≤ length p → byte_in p i ≡ some (get_or p i 0)
unfolding byte_in
byte_in_lem p i le = rw (lt→ltb i (length p) le)

load_in_lem : (p : List ℕ) → 8 ≤ length p → load_in p ≡ some (load_le 8 p)
unfolding load_in
load_in_lem p le = rw (le→leb 8 (length p) le)

hash16_in_lem : (key : List ℕ) → 16 ≤ length key → hash16_in key ≡ some (hash16 key)
unfolding hash16_in hash16
hash16_in_lem key le =
    rw (load_in_lem key (omega arith), load_in_lem (drop 8 key) (omega (arith, length-drop 8 key)))

blocks_in_lem :
    (n h : ℕ) (p : List ℕ)
    → n * 8 ≤ length p
    → fasthash_blocks_in n h p ≡ some (fasthash_blocks n h p)
unfolding fasthash_blocks_in fasthash_blocks
blocks_in_lem zero h p le = refl
blocks_in_lem (suc n) h p le =
    rw (load_in_lem p (omega arith))
      (blocks_in_lem n (fasthash_mix h (load_le 8 p)) (drop 8 p) (omega (arith, length-drop 8 p)))

tail_in_lem :
    (n t : ℕ) (p : List ℕ) → n ≤ length p → fasthash_tail_in n t p ≡ some (fasthash_tail n t p)
unfolding fasthash_tail_in fasthash_tail
tail_in_lem zero t p le = refl
tail_in_lem (suc n) t p le =
    rw (byte_in_lem p n le)
      (tail_in_lem n (bit_xor t (shl64 (get_or p n 0) (8 * n))) p (omega arith))

switch_in_lem :
    (n h : ℕ) (p : List ℕ) → n ≤ length p → fasthash_switch_in n h p ≡ some (fasthash_switch n h p)
unfolding fasthash_switch_in fasthash_switch
switch_in_lem zero h p le = refl
switch_in_lem (suc n) h p le = rw (tail_in_lem (suc n) 0 p le)

fasthash64_var_in_lem :
    (key : List ℕ) (len : ℕ)
    → len ≤ length key
    → fasthash64_var_in key len ≡ some (fasthash64_var key len)
unfolding fasthash64_var_in fasthash64_var
fasthash64_var_in_lem key len le =
    let seven : bit_and len 7 ≡ len % 8 = bit_and_mask 3 len in
    let h = fasthash_blocks (len / 8) (mul64 (u64 len) fasthash_m) key in
    rw (
      blocks_in_lem (len / 8) (mul64 (u64 len) fasthash_m) key (omega arith),
      switch_in_lem (bit_and len 7) h (drop (len / 8 * 8) key)
          (omega (arith, seven, length-drop (len / 8 * 8) key)),
    )

-- Hashing a key of `len` bytes that is all there reads none past it.
pub bloom_hash_in_lem :
    (key : List ℕ) (len : ℕ) → len ≤ length key → bloom_hash_in key len ≡ some (bloom_hash key len)
unfolding bloom_hash_in bloom_hash
bloom_hash_in_lem key len le = elim (Bool-cases (len == 16)) [
  | inl e ↦ rw e (hash16_in_lem key (rw ((==_iff len 16).0 e) at le))
  | inr e ↦ rw e (fasthash64_var_in_lem key len le)
]
