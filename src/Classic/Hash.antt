-- ===== src/Classic/Hash.antt =====
-- The pairs of hashes of bloom_classic.c: `hash16_pair`, `bloom_hash_pair` and `prehash_split`.
use quickbloom.Base.{ℕ, ◌*◌, ◌%◌, ◌^◌, bit_or, bit_xor, List, drop, ◌==◌, if◌then◌else◌}
use quickbloom.Machine.{u64, mul64, shr, load_le}
use quickbloom.Quickbloom.Hash as Wymum

-- The two results, `*h1` and `*h2`.
pub record HashPair : Type 0 where
  pub h1 : ℕ
  pub h2 : ℕ

-- The second hash, from the first.
unfoldable pub second_hash : ℕ → ℕ
second_hash h1 = let m = mul64 h1 0x9e3779b97f4a7c15 in let m' = bit_xor m (shr m 32) in bit_or m' 1

unfoldable pub hash16_pair : List ℕ → HashPair
unfolding second_hash
hash16_pair key =
    let a = load_le 8 key in
    let b = load_le 8 (drop 8 key) in
    let r = a * b % 2 ^ 128 in
    let h1 = bit_xor (u64 r) (u64 (shr r 64)) in record { h1 = h1; h2 = second_hash h1 }

-- The function is, line for line, the one of quickbloom.c.
abbrev pub fasthash64_var : List ℕ → ℕ → ℕ
fasthash64_var = Wymum.fasthash64_var

unfoldable pub bloom_hash_pair : List ℕ → ℕ → HashPair
unfolding hash16_pair second_hash
bloom_hash_pair key len =
    if len == 16
    then hash16_pair key
    else let h = fasthash64_var key len in record { h1 = h; h2 = second_hash h }

unfoldable pub prehash_split : ℕ → HashPair
unfolding second_hash
prehash_split h = record { h1 = h; h2 = second_hash h }
