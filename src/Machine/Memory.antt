-- ===== src/Machine/Memory.antt =====
-- The bit array as its 32-bit words, from its 32-byte aligned start. An access to a register's
-- width at word `p` faults (`none`) out of bounds or off a 32-byte boundary.
use quickbloom.Base.{ℕ, ◌+◌, ◌-◌, ◌%◌, ◌≤◌, ◌<◌, ◌≡◌, arith, ap, max}
use quickbloom.Base.{List, ◌++◌, Bool, true, ◌&&◌, ◌==◌, ltb, leb, if◌then◌else◌}
use quickbloom.Base.{length, get_or, take, drop, Option, none, some, length-append, length-take}
use quickbloom.Base.{length-drop, get_or-append, get_or-take, get_or-drop, All, All-take, All-drop}
use quickbloom.Base.{All-append}

abbrev pub accessible : List ℕ → ℕ → Bool
accessible mem p = p % 8 == 0 && leb (p + 8) (length mem)

-- _mm256_load_si256
unfoldable pub load_si256 : List ℕ → ℕ → Option (List ℕ)
load_si256 mem p = if accessible mem p then some (take 8 (drop p mem)) else none

abbrev pub splice : List ℕ → ℕ → List ℕ → List ℕ
splice mem p v = take p mem ++ (v ++ drop (p + 8) mem)

-- _mm256_store_si256
unfoldable pub store_si256 : List ℕ → ℕ → List ℕ → Option (List ℕ)
store_si256 mem p v = if accessible mem p then some (splice mem p v) else none

module _ (mem : List ℕ) (p : ℕ) (aligned : p % 8 ≡ 0) (fits : p + 8 ≤ length mem) where
  accessible_lem : accessible mem p ≡ true
  accessible_lem = ground arith

  pub load_si256_lem : load_si256 mem p ≡ some (take 8 (drop p mem))
  unfolding load_si256
  load_si256_lem = rw accessible_lem

  pub store_si256_lem : (v : List ℕ) → store_si256 mem p v ≡ some (splice mem p v)
  unfolding store_si256
  store_si256_lem v = rw accessible_lem

  pub length-splice : (v : List ℕ) → length v ≡ 8 → length (splice mem p v) ≡ length mem
  length-splice v e = omega (
    arith,
    length-append (take p mem) (v ++ drop (p + 8) mem),
    length-append v (drop (p + 8) mem),
    length-take p mem,
    length-drop (p + 8) mem,
  )

  pub get_or-splice :
      (v : List ℕ) (w : ℕ)
      → length v ≡ 8
      → get_or (splice mem p v) w 0
        ≡ (if leb p w && ltb w (p + 8) then get_or v (w - p) 0 else get_or mem w 0)
  get_or-splice v w e = ground (
    arith,
    get_or-append 0 (take p mem) (v ++ drop (p + 8) mem) w,
    get_or-append 0 v (drop (p + 8) mem) (w - length (take p mem)),
    length-take p mem,
    get_or-take 0 p mem w,
    get_or-drop 0 (p + 8) mem (w - length (take p mem) - length v),
    ap (λ k. get_or mem k 0) (past w),
  )
    where
      past : (w : ℕ) → p + 8 + (w - p - 8) ≡ max w (p + 8)
      past w = omega arith

  pub lane-load : (i : ℕ) → i < 8 → get_or (take 8 (drop p mem)) i 0 ≡ get_or mem (p + i) 0
  lane-load i h = ground (arith, get_or-take 0 8 (drop p mem) i, get_or-drop 0 p mem i)

  pub length-load : length (take 8 (drop p mem)) ≡ 8
  length-load = omega (arith, length-take 8 (drop p mem), length-drop p mem)

  pub All-splice : (P : ℕ → Type 0) (v : List ℕ) → All P mem → All P v → All P (splice mem p v)
  All-splice P v h k =
      All-append P (take p mem) (v ++ drop (p + 8) mem) (All-take P p mem h)
        (All-append P v (drop (p + 8) mem) k (All-drop P (p + 8) mem h))
