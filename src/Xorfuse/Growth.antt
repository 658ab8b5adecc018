-- ===== src/Xorfuse/Growth.antt =====
-- The capacity of the buffer: what a reallocation keeps, and that the loop that doubles it ends.
use quickbloom.Base.{ℕ, zero, suc, ◌+◌, ◌*◌, ◌/◌, ◌^◌, ◌≤◌, ◌<◌, ◌≡◌, ◌∙◌, refl, ap, arith, List}
use quickbloom.Base.{
  some, ◌⊎◌, inl, inr, IsIn, take, drop, length, length-take, length-drop, length-append,
}
use quickbloom.Base.{lt→ltb, le→ltb, ne→==, dec_lt, pow-step}
use quickbloom.Machine.{mul64, add64}
use quickbloom.Xorfuse.Fuse.{Memory, Grants}
use quickbloom.Xorfuse.Filter.{Shim, realloc, with_capacity, grow, reserve}
use quickbloom.Xorfuse.Buffer.{take-kept}

-- The array has the size that `buf_cap` says, and that size in bytes does not wrap.
pub record IsBuffer {F : Type 0} (x : Shim F) : Type 0 where
  pub sized : length x.buf ≡ x.buf_cap
  pub room : x.buf_len ≤ x.buf_cap
  pub small : x.buf_cap < 2 ^ 60

realloc_lem :
    (m : Memory) (old : List ℕ) (nbytes : ℕ)
    → Grants m
    → length old ≤ nbytes / 8
    → (length (realloc m old nbytes) ≡ nbytes / 8)
      × ((g n : ℕ) → n ≤ length old → IsIn g (take n old) → IsIn g (take n (realloc m old nbytes)))
unfolding realloc
realloc_lem m old nbytes grants le =
    let (ws, e) = grants nbytes in
    let sized = m.length-block nbytes ws e in
    rw (e, realloc)
      (
        omega (
          arith,
          length-append (take (nbytes / 8) old) (drop (length old) ws),
          length-take (nbytes / 8) old,
          length-drop (length old) ws,
        ),
        λ g n short is.
            take-kept g n (nbytes / 8) old (drop (length old) ws) (omega arith) short is,
      )

-- A larger capacity keeps the hashes.
pub with_capacity_lem :
    {F : Type 0} (m : Memory) (x : Shim F) (c : ℕ)
    → Grants m
    → IsBuffer x
    → x.buf_cap ≤ c
    → c < 2 ^ 60
    → IsBuffer (with_capacity m x c)
      × ((g : ℕ)
          → IsIn g (take x.buf_len x.buf)
          → IsIn g (take x.buf_len (with_capacity m x c).buf))
unfolding with_capacity
with_capacity_lem m x c grants is le lt =
    let bytes : mul64 c 8 / 8 ≡ c = omega arith in
    let (sized, keeps) = realloc_lem m x.buf (mul64 c 8) grants (omega (arith, is.sized)) in
    (
      record { sized = sized ∙ bytes; room = omega (arith, is.room); small = lt },
      λ g here. keeps g x.buf_len (omega (arith, is.sized, is.room)) here,
    )

module _ (fuel need : ℕ) where
  grow_stop : (c : ℕ) → need ≤ c → grow (suc fuel) c need ≡ some c
  unfolding grow
  grow_stop c le = rw (le→ltb c need le) refl

  grow_step :
      (c : ℕ) → 0 < c → c < need → need ≤ 2 ^ 33 → grow (suc fuel) c need ≡ grow fuel (2 * c) need
  unfolding grow
  grow_step c pos more small =
      rw (lt→ltb c need more, ne→== c 0 (omega arith))
        (ap (λ d. grow fuel d need) (doubled c (omega arith)))
    where
      doubled : (c : ℕ) → c < 2 ^ 33 → mul64 c 2 ≡ 2 * c
      doubled c lt = omega arith

  grow_first : 0 < need → grow (suc fuel) 0 need ≡ grow fuel 1024 need
  unfolding grow
  grow_first more = rw (lt→ltb 0 need more) refl

-- Enough rounds double the capacity past what is needed.
grow_lem :
    (fuel k c need : ℕ)
    → 0 < c
    → need ≤ c * 2 ^ k
    → k < fuel
    → need ≤ 2 ^ 33
    → (r : ℕ) × (grow fuel c need ≡ some r) × (need ≤ r) × (c ≤ r) × ((r ≡ c) ⊎ (r < 2 ^ 34))
grow_lem zero k c need pos big lt small = absurd (omega arith)
grow_lem (suc fuel) zero c need pos big lt small =
    (c, grow_stop fuel need c (omega arith), omega arith, omega arith, inl refl)
grow_lem (suc fuel) (suc k) c need pos big lt small = elim (dec_lt c need) [
  | no ge ↦ (c, grow_stop fuel need c (omega arith), omega arith, omega arith, inl refl)
  | yes more ↦
      let reach : need ≤ 2 * c * 2 ^ k = omega (arith, twice c (2 ^ k) (2 ^ suc k) (pow-step k)) in
      let (r, e, enough, larger, what) =
        grow_lem fuel k (2 * c) need (omega arith) reach (omega arith) small in
      (
        r,
        grow_step fuel need c pos more small ∙ e,
        enough,
        omega arith,
        inr (elim what [ inl same ↦ omega arith | inr l ↦ l ]),
      )
]
  where
    twice : (c p q : ℕ) → q ≡ 2 * p → 2 * c * p ≡ c * q
    twice c p q e = rw e (omega arith)

-- From an empty capacity too, 65 rounds are enough for any size below 2^33.
grow_any :
    (c need : ℕ)
    → c < need
    → need ≤ 2 ^ 33
    → (r : ℕ) × (grow 65 c need ≡ some r) × (need ≤ r) × (c ≤ r) × (r < 2 ^ 60)
grow_any zero need more small =
    let (r, e, enough, larger, what) =
      grow_lem 64 63 1024 need (omega arith) (omega arith) (omega arith) small in
    (
      r,
      grow_first 64 need (omega arith) ∙ e,
      enough,
      omega arith,
      elim what [ inl same ↦ omega arith | inr l ↦ omega arith ],
    )
grow_any (suc c) need more small =
    let (r, e, enough, larger, what) =
      grow_lem 65 33 (suc c) need (omega arith) (omega arith) (omega arith) small in
    (r, e, enough, larger, elim what [ inl same ↦ omega arith | inr l ↦ omega arith ])

-- Room for `n` more hashes, fewer than 2^32 in all.
pub reserve_lem :
    {F : Type 0} (m : Memory) (x : Shim F) (n : ℕ)
    → Grants m
    → IsBuffer x
    → x.buf_len + n < 2 ^ 32
    → (c : ℕ) × (buf : List ℕ) × (reserve m x n ≡ some (record x { buf = buf; buf_cap = c }))
      × IsBuffer (record x { buf = buf; buf_cap = c })
      × (x.buf_len + n ≤ c)
      × ((g : ℕ) → IsIn g (take x.buf_len x.buf) → IsIn g (take x.buf_len buf))
unfolding reserve with_capacity
reserve_lem m x n grants is lt = elim (dec_lt x.buf_cap (x.buf_len + n)) [
  | no ge ↦ (
    x.buf_cap,
    x.buf,
    rw (sum, le→ltb x.buf_cap (x.buf_len + n) (omega arith)) refl,
    is,
    omega arith,
    λ g here. here,
  )
  | yes more ↦
      let (c, e, enough, larger, small) = grow_any x.buf_cap (x.buf_len + n) more (omega arith) in
      let (is', keeps) = with_capacity_lem m x c grants is larger small in
      (
        c,
        realloc m x.buf (mul64 c 8),
        rw (sum, lt→ltb x.buf_cap (x.buf_len + n) more, e) refl,
        is',
        enough,
        keeps,
      )
]
  where
    sum : add64 x.buf_len n ≡ x.buf_len + n
    sum = omega arith
