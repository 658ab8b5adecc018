-- ===== src/Classic/Loops.antt =====
-- The probe loops of the classic filter: which bits a key sets and which it asks for.
use quickbloom.Base.{ℕ, zero, suc, ◌+◌, ◌*◌, ◌%◌, ◌^◌, ◌≤◌, ◌<◌, ◌≡◌, ◌∙◌, refl, arith, ap, sym}
use quickbloom.Base.{some, ◌⊎◌, inl, inr, ◌↔◌, mod-pow-pow, ℕ_discrete}
use quickbloom.Machine.{add64, u64}
use quickbloom.Bits.{bit_at-lt}
use quickbloom.Classic.Filter.{Bloom, insert_loop, contains_loop}
use quickbloom.Classic.Valid.{
  IsValid, nbits, bit, put_bit, put_bit-IsValid, bit-put_bit, set_bit_lem, get_bit_lem, probe-lt,
}
use native.Mathlib.Nat.{mod-add-mod}

-- Probe `i` of the sequence from `pos` in steps of `h2`, in a filter of `size` bits.
abbrev pub probe : ℕ → ℕ → ℕ → ℕ → ℕ
probe size pos h2 i = (pos + i * h2) % size

-- The filter after `n` rounds.
abbrev pub put_probes : ℕ → ℕ → ℕ → Bloom → Bloom
put_probes zero pos h2 b = b
put_probes (suc n) pos h2 b = put_probes n (add64 pos h2) h2 (put_bit b (pos % nbits b))

pub nbits-put_bit : (b : Bloom) (q : ℕ) → nbits (put_bit b q) ≡ nbits b
unfolding put_bit
nbits-put_bit b q = refl

pub nbits-put_probes : (n pos h2 : ℕ) (b : Bloom) → nbits (put_probes n pos h2 b) ≡ nbits b
nbits-put_probes zero pos h2 b = refl
nbits-put_probes (suc n) pos h2 b =
    nbits-put_probes n (add64 pos h2) h2 (put_bit b (pos % nbits b))
    ∙ nbits-put_bit b (pos % nbits b)

pub put_probes-IsValid : (n pos h2 : ℕ) (b : Bloom) → IsValid b → IsValid (put_probes n pos h2 b)
put_probes-IsValid zero pos h2 b v = v
put_probes-IsValid (suc n) pos h2 b v =
    put_probes-IsValid n (add64 pos h2) h2 (put_bit b (pos % nbits b))
      (put_bit-IsValid b (pos % nbits b) v)

pub insert_loop_lem :
    (n pos h2 : ℕ) (b : Bloom) → IsValid b → insert_loop n pos h2 b ≡ some (put_probes n pos h2 b)
unfolding insert_loop
insert_loop_lem zero pos h2 b v = refl
insert_loop_lem (suc n) pos h2 b v = rw (set_bit_lem b pos v) (
    insert_loop_lem n (add64 pos h2) h2 (put_bit b (pos % nbits b))
      (put_bit-IsValid b (pos % nbits b) v))

-- The wrap of `pos` at 2^64 does not show in the probes, since the size divides 2^64.
probe-add64 :
    (b : Bloom) (pos h2 i : ℕ)
    → IsValid b
    → probe (nbits b) (add64 pos h2) h2 i ≡ probe (nbits b) pos h2 (suc i)
probe-add64 b pos h2 i v = rw v.masked (
    sym (mod-add-mod (u64 (pos + h2)) (2 ^ v.log) (i * h2))
    ∙ ap (λ n. (n + i * h2) % 2 ^ v.log)
        (mod-pow-pow (pos + h2) v.log 64 (omega (arith, v.log_small)))
    ∙ mod-add-mod (pos + h2) (2 ^ v.log) (i * h2)
    ∙ ap (λ n. n % 2 ^ v.log) (one_more pos h2 i))
  where
    one_more : (pos h2 i : ℕ) → pos + h2 + i * h2 ≡ pos + suc i * h2
    one_more pos h2 i = omega arith

probe-zero : (b : Bloom) (pos h2 : ℕ) → probe (nbits b) pos h2 0 ≡ pos % nbits b
probe-zero b pos h2 = ap (λ n. n % nbits b) (none_added pos h2)
  where
    none_added : (pos h2 : ℕ) → pos + 0 * h2 ≡ pos
    none_added pos h2 = omega arith

-- Bit `q` is one of the first `n` probes.
abbrev pub Probed : ℕ → ℕ → ℕ → ℕ → ℕ → Type 0
Probed size n pos h2 q = (i : ℕ) × (i < n) × (q ≡ probe size pos h2 i)

Probed-iff :
    (b : Bloom) (n pos h2 q : ℕ)
    → IsValid b
    → Probed (nbits b) (suc n) pos h2 q
      ↔ ((q ≡ pos % nbits b) ⊎ Probed (nbits b) n (add64 pos h2) h2 q)
Probed-iff b n pos h2 q v = (
  λ (i, p, e). first_or_later i p e,
  λ s. elim s [
    | inl e ↦ (0, omega arith, e ∙ sym (probe-zero b pos h2))
    | inr (i, p, e) ↦ (suc i, omega arith, e ∙ probe-add64 b pos h2 i v)
  ],
)
  where
    first_or_later :
        (i : ℕ)
        → i < suc n
        → q ≡ probe (nbits b) pos h2 i
        → (q ≡ pos % nbits b) ⊎ Probed (nbits b) n (add64 pos h2) h2 q
    first_or_later zero p e = inl (e ∙ probe-zero b pos h2)
    first_or_later (suc i) p e = inr (i, omega arith, e ∙ sym (probe-add64 b pos h2 i v))

bit-put_bit_iff :
    (b : Bloom) (q r : ℕ)
    → IsValid b
    → q < nbits b
    → (bit (put_bit b q) r ≡ 1) ↔ ((bit b r ≡ 1) ⊎ (r ≡ q))
bit-put_bit_iff b q r v lt =
    let e = bit-put_bit b q v lt r in (λ one. ground arith, λ s. ground arith)

-- A bit is set after the loop exactly when it was, or when it is one of the probes.
pub bit-put_probes_iff :
    (n pos h2 : ℕ) (b : Bloom) (q : ℕ)
    → IsValid b
    → (bit (put_probes n pos h2 b) q ≡ 1) ↔ ((bit b q ≡ 1) ⊎ Probed (nbits b) n pos h2 q)
bit-put_probes_iff zero pos h2 b q v =
    (inl, λ s. elim s [ inl e ↦ e | inr (i, p, e) ↦ absurd (omega arith) ])
bit-put_probes_iff (suc n) pos h2 b q v =
    let here = pos % nbits b in
    let first = bit-put_bit_iff b here q v (probe-lt b pos v) in
    let later =
      bit-put_probes_iff n (add64 pos h2) h2 (put_bit b here) q (put_bit-IsValid b here v) in
    let probes = Probed-iff b n pos h2 q v in
    let same = nbits-put_bit b here in
    (
      λ one. elim (later.0 one) [
        | inl e ↦ elim (first.0 e) [ inl o ↦ inl o | inr o ↦ inr (probes.1 (inl o)) ]
        | inr (i, p, e) ↦
            inr (probes.1 (inr (i, p, e ∙ ap (λ m. (add64 pos h2 + i * h2) % m) same)))
      ],
      λ s. later.1 (elim s [
        | inl o ↦ inl (first.1 (inl o))
        | inr o ↦ elim (probes.0 o) [
          | inl e ↦ inl (first.1 (inr e))
          | inr (i, p, e) ↦ inr (i, p, e ∙ ap (λ m. (add64 pos h2 + i * h2) % m) (sym same))
        ]
      ]),
    )

-- All of the first `n` probes are set.
abbrev pub AllSet : Bloom → ℕ → ℕ → ℕ → Type 0
AllSet b n pos h2 = (i : ℕ) → i < n → bit b (probe (nbits b) pos h2 i) ≡ 1

AllSet-iff :
    (b : Bloom) (n pos h2 : ℕ)
    → IsValid b
    → AllSet b (suc n) pos h2 ↔ ((bit b (pos % nbits b) ≡ 1) × AllSet b n (add64 pos h2) h2)
AllSet-iff b n pos h2 v = (
  λ all. (
    rw (probe-zero b pos h2) at (all 0 (omega arith)),
    λ i p. rw (probe-add64 b pos h2 i v) (all (suc i) (omega arith)),
  ),
  λ (first, rest) i p. each first rest i p,
)
  where
    each :
        bit b (pos % nbits b) ≡ 1
        → AllSet b n (add64 pos h2) h2
        → (i : ℕ) → i < suc n
        → bit b (probe (nbits b) pos h2 i) ≡ 1
    each first rest zero p = rw (probe-zero b pos h2) first
    each first rest (suc i) p = rw (probe-add64 b pos h2 i v) at (rest i (omega arith))

pub contains_loop_lem :
    (n pos h2 : ℕ) (b : Bloom)
    → IsValid b
    → (c : ℕ) × (contains_loop n pos h2 b ≡ some c) × (c ≤ 1) × ((c ≡ 1) ↔ AllSet b n pos h2)
unfolding contains_loop
contains_loop_lem zero pos h2 b v =
    (1, refl, omega arith, (λ e i p. absurd (omega arith), λ a. refl))
contains_loop_lem (suc n) pos h2 b v =
    let all = AllSet-iff b n pos h2 v in
    elim (ℕ_discrete (bit b (pos % nbits b)) 0) [
      | yes z ↦ (
        0,
        rw (get_bit_lem b pos v, z),
        omega arith,
        (λ e. absurd (omega arith), λ a. absurd (omega (arith, (all.0 a).0))),
      )
      | no nz ↦
          let one : bit b (pos % nbits b) ≡ 1 =
            set_if_not_clear (bit b (pos % nbits b)) nz (bit_at-lt _ (pos % nbits b % 64)) in
          let (c, e, le, iff) = contains_loop_lem n (add64 pos h2) h2 b v in
          (
            c,
            rw (get_bit_lem b pos v, one) e,
            le,
            (λ o. all.1 (one, iff.0 o), λ a. iff.1 (all.0 a).1),
          )
    ]
  where
    set_if_not_clear : (x : ℕ) → ¬ (x ≡ 0) → x < 2 → x ≡ 1
    set_if_not_clear x nz lt = omega arith
