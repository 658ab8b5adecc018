-- ===== src/Impala/Xxh64.antt =====
-- `xxh64` of comparisons/bloom_impala.c. A loop over `p` recurs on its number of rounds: the
-- `do ... while (p <= limit)` over 32-byte stripes runs `len / 32` times, the loop over 8-byte
-- words then `len % 32 / 8` times, and the one over single bytes `len % 4` times.
use quickbloom.Base.{ℕ, zero, suc, ◌*◌, ◌/◌, ◌%◌, List, bit_xor, leb, if◌then◌else◌}
use quickbloom.Base.{drop, get_or}
use quickbloom.Machine.{u64, mul64, add64, sub64, shr, rotl64, load_le}

abbrev pub prime1 : ℕ
prime1 = 0x9E3779B185EBCA87

abbrev pub prime2 : ℕ
prime2 = 0xC2B2AE3D27D4EB4F

abbrev pub prime3 : ℕ
prime3 = 0x165667B19E3779F9

abbrev pub prime4 : ℕ
prime4 = 0x85EBCA77C2B2AE63

abbrev pub prime5 : ℕ
prime5 = 0x27D4EB2F165667C5

unfoldable pub xxh_round : ℕ → ℕ → ℕ
xxh_round acc input = mul64 (rotl64 (add64 acc (mul64 input prime2)) 31) prime1

unfoldable pub xxh_merge_round : ℕ → ℕ → ℕ
unfolding xxh_round
xxh_merge_round acc val = add64 (mul64 (bit_xor acc (xxh_round 0 val)) prime1) prime4

-- The four accumulators of the stripe loop.
pub record Lanes : Type 0 where
  pub v1 : ℕ
  pub v2 : ℕ
  pub v3 : ℕ
  pub v4 : ℕ

unfoldable pub xxh_stripes : ℕ → Lanes → List ℕ → Lanes
unfolding xxh_round
xxh_stripes zero v p = v
xxh_stripes (suc n) v p =
    xxh_stripes n
      (record {
        v1 = xxh_round v.v1 (load_le 8 p);
        v2 = xxh_round v.v2 (load_le 8 (drop 8 p));
        v3 = xxh_round v.v3 (load_le 8 (drop 16 p));
        v4 = xxh_round v.v4 (load_le 8 (drop 24 p));
      })
      (drop 32 p)

unfoldable pub xxh_merge : Lanes → ℕ
unfolding xxh_merge_round
xxh_merge v =
    let h =
      add64 (add64 (add64 (rotl64 v.v1 1) (rotl64 v.v2 7)) (rotl64 v.v3 12)) (rotl64 v.v4 18) in
    let h1 = xxh_merge_round h v.v1 in
    let h2 = xxh_merge_round h1 v.v2 in let h3 = xxh_merge_round h2 v.v3 in xxh_merge_round h3 v.v4

unfoldable pub xxh_words : ℕ → ℕ → List ℕ → ℕ
unfolding xxh_round
xxh_words zero h p = h
xxh_words (suc n) h p =
    let h1 = bit_xor h (xxh_round 0 (load_le 8 p)) in
    xxh_words n (add64 (mul64 (rotl64 h1 27) prime1) prime4) (drop 8 p)

unfoldable pub xxh_bytes : ℕ → ℕ → List ℕ → ℕ
xxh_bytes zero h p = h
xxh_bytes (suc n) h p =
    let h1 = bit_xor h (mul64 (get_or p 0 0) prime5) in
    xxh_bytes n (mul64 (rotl64 h1 11) prime1) (drop 1 p)

-- The last lines of `xxh64`.
unfoldable pub xxh_final : ℕ → ℕ
xxh_final h =
    let h1 = mul64 (bit_xor h (shr h 33)) prime2 in
    let h2 = mul64 (bit_xor h1 (shr h1 29)) prime3 in bit_xor h2 (shr h2 32)

-- What follows the stripes: `left` bytes at `p`, fewer than 32.
unfoldable pub xxh_rest : ℕ → ℕ → List ℕ → ℕ
unfolding xxh_words xxh_bytes xxh_final
xxh_rest h left p =
    let h1 = xxh_words (left / 8) h p in
    let p1 = drop (left / 8 * 8) p in
    if leb 4 (left % 8)
    then (let h2 = bit_xor h1 (mul64 (load_le 4 p1) prime1) in
        let h3 = add64 (mul64 (rotl64 h2 23) prime2) prime3 in
        xxh_final (xxh_bytes (left % 8 % 4) h3 (drop 4 p1)))
    else xxh_final (xxh_bytes (left % 8 % 4) h1 p1)

unfoldable pub xxh64 : List ℕ → ℕ → ℕ → ℕ
unfolding xxh_stripes xxh_merge xxh_rest
xxh64 p len seed =
    if leb 32 len
    then (let v =
          xxh_stripes (len / 32)
            (record {
              v1 = add64 (add64 seed prime1) prime2;
              v2 = add64 seed prime2;
              v3 = seed;
              v4 = sub64 seed prime1;
            })
            p in
        xxh_rest (add64 (xxh_merge v) (u64 len)) (len % 32) (drop (len / 32 * 32) p))
    else xxh_rest (add64 (add64 seed prime5) (u64 len)) len p
