-- ===== src/Classic/Collide.antt =====
-- `hash16_pair` has no mixing constants, unlike `hash16` of quickbloom.c: a 16-byte key with a zero
-- half hashes to the same pair whatever its other half is.
use quickbloom.Base.{ℕ, ◌*◌, ◌≡◌, refl, arith, List, [], ◌∷◌, some, ◌⊎◌, inl, inr}
use quickbloom.Base.{drop}
use quickbloom.Machine.{load_le}
use quickbloom.Classic.Hash.{HashPair, second_hash, hash16_pair, bloom_hash_pair}
use quickbloom.Classic.Filter.{Bloom, insert, contains}
use quickbloom.Classic.Valid.{IsValid}
use quickbloom.Classic.Membership.{put_all, insert_with_pair_lem, found}

-- One of the two 8-byte halves is zero.
abbrev pub HasZeroHalf : List ℕ → Type 0
HasZeroHalf key = (load_le 8 key ≡ 0) ⊎ (load_le 8 (drop 8 key) ≡ 0)

abbrev zero_pair : HashPair
zero_pair = record { h1 = 0; h2 = 1 }

hash16_pair_zero : (key : List ℕ) → HasZeroHalf key → hash16_pair key ≡ zero_pair
unfolding hash16_pair second_hash
hash16_pair_zero key (inl e) =
    let none_left : 0 * load_le 8 (drop 8 key) ≡ 0 = omega arith in rw (e, none_left)
hash16_pair_zero key (inr e) =
    let none_left : load_le 8 key * 0 ≡ 0 = omega arith in rw (e, none_left)

bloom_hash_pair_zero : (key : List ℕ) → HasZeroHalf key → bloom_hash_pair key 16 ≡ zero_pair
unfolding bloom_hash_pair
bloom_hash_pair_zero key z = hash16_pair_zero key z

-- In a valid filter, after `bloom_insert` of one 16-byte key with a zero half, `bloom_contains`
-- answers 1 for every other 16-byte key with a zero half.
pub zero_half-collides :
    (b : Bloom) (key other : List ℕ)
    → IsValid b
    → HasZeroHalf key
    → HasZeroHalf other
    → (b' : Bloom) × (insert b key 16 ≡ some b') × (contains b' other 16 ≡ some 1)
unfolding insert contains
zero_half-collides b key other v z w =
    rw (bloom_hash_pair_zero key z, bloom_hash_pair_zero other w)
      (
        put_all b (zero_pair ∷ []),
        insert_with_pair_lem b zero_pair v,
        found b (zero_pair ∷ []) zero_pair v (inl refl),
      )
