-- ===== src/Quickbloom/Hash.antt =====
-- The key hashes of quickbloom.c: `hash16` on 16-byte keys, `fasthash64_var` on any other length.
use quickbloom.Base.{ℕ, zero, suc, ◌*◌, ◌/◌, ◌%◌, ◌^◌, bit_and, bit_xor, List, drop, get_or}
use quickbloom.Base.{◌==◌, if◌then◌else◌}
use quickbloom.Machine.{u64, mul64, shl64, shr, load_le}

-- `hash16`. The product is of two 64-bit numbers in 128 bits.
unfoldable pub hash16 : List ℕ → ℕ
hash16 key =
    let a = bit_xor (load_le 8 key) 0x736f6d6570736575 in
    let b = bit_xor (load_le 8 (drop 8 key)) 0x646f72616e646f6d in
    let r = a * b % 2 ^ 128 in bit_xor (u64 r) (u64 (shr r 64))

abbrev pub fasthash_m : ℕ
fasthash_m = 0x880355f21e6d1965

-- `k *= M; k ^= k >> 23; k *= M;` and then `h ^= k; h *= M;`
unfoldable pub fasthash_mix : ℕ → ℕ → ℕ
fasthash_mix h k =
    let k1 = mul64 k fasthash_m in
    let k2 = bit_xor k1 (shr k1 23) in
    let k3 = mul64 k2 fasthash_m in mul64 (bit_xor h k3) fasthash_m

-- The loop over the 8-byte blocks of `p`, with the number of rounds left.
unfoldable pub fasthash_blocks : ℕ → ℕ → List ℕ → ℕ
fasthash_blocks zero h p = h
fasthash_blocks (suc n) h p = fasthash_blocks n (fasthash_mix h (load_le 8 p)) (drop 8 p)

-- The cases of the `switch` from `n` down to 1, each falling through to the next.
unfoldable pub fasthash_tail : ℕ → ℕ → List ℕ → ℕ
fasthash_tail zero t tail = t
fasthash_tail (suc i) t tail = fasthash_tail i (bit_xor t (shl64 (get_or tail i 0) (8 * i))) tail

-- The last lines of `fasthash64_var`.
unfoldable pub fasthash_final : ℕ → ℕ
fasthash_final h =
    let h1 = bit_xor h (shr h 23) in let h2 = mul64 h1 0x2127599bf4325c37 in bit_xor h2 (shr h2 47)

-- Case 1 of the `switch` also mixes the tail in; `len & 7` of 0 has no case.
unfoldable pub fasthash_switch : ℕ → ℕ → List ℕ → ℕ
unfolding fasthash_mix fasthash_tail
fasthash_switch zero h tail = h
fasthash_switch (suc n) h tail = fasthash_mix h (fasthash_tail (suc n) 0 tail)

unfoldable pub fasthash64_var : List ℕ → ℕ → ℕ
unfolding fasthash_blocks fasthash_switch fasthash_final
fasthash64_var key len =
    let nblocks = len / 8 in
    let h = fasthash_blocks nblocks (mul64 (u64 len) fasthash_m) key in
    fasthash_final (fasthash_switch (bit_and len 7) h (drop (nblocks * 8) key))

unfoldable pub bloom_hash : List ℕ → ℕ → ℕ
unfolding hash16 fasthash64_var
bloom_hash key len = if len == 16 then hash16 key else fasthash64_var key len
