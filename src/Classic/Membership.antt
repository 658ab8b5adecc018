-- ===== src/Classic/Membership.antt =====
-- What a client of the classic filter may rely on, for keys and for prehashed keys.
use quickbloom.Base.{
  ℕ, zero, suc, ◌+◌, ◌*◌, ◌≤◌, ◌<◌, ◌≡◌, ◌∙◌, refl, arith, ap, sym, List, [], ◌∷◌,
}
use quickbloom.Base.{ℕ_discrete, some, map, drop, ◌⊎◌, inl, inr, ◌↔◌, Any, Any-map, IsIn}
use quickbloom.Classic.Hash.{HashPair, bloom_hash_pair, prehash_split}
use quickbloom.Classic.Filter.{
  Bloom, insert_with_pair, contains_with_pair, insert, contains, insert_bulk, insert_prehash,
  contains_prehash, insert_prehash_bulk,
}
use quickbloom.Classic.Valid.{IsValid, nbits, bit}
use quickbloom.Classic.Loops.{
  probe, put_probes, Probed, nbits-put_probes, put_probes-IsValid, insert_loop_lem,
  bit-put_probes_iff, contains_loop_lem,
}

-- The filter after the pairs were inserted in turn.
abbrev pub put_all : Bloom → List HashPair → Bloom
put_all b [] = b
put_all b (h ∷ hs) = put_all (put_probes 8 h.h1 h.h2 b) hs

-- Bit `q` is one of the eight that the pair selects.
abbrev pub Selects : Bloom → HashPair → ℕ → Type 0
Selects b h q = Probed (nbits b) 8 h.h1 h.h2 q

pub insert_with_pair_lem :
    (b : Bloom) (h : HashPair) → IsValid b → insert_with_pair b h ≡ some (put_probes 8 h.h1 h.h2 b)
unfolding insert_with_pair
insert_with_pair_lem b h v = insert_loop_lem 8 h.h1 h.h2 b v

pub put_all-IsValid : (hs : List HashPair) (b : Bloom) → IsValid b → IsValid (put_all b hs)
put_all-IsValid [] b v = v
put_all-IsValid (h ∷ hs) b v =
    put_all-IsValid hs (put_probes 8 h.h1 h.h2 b) (put_probes-IsValid 8 h.h1 h.h2 b v)

nbits-put_all : (hs : List HashPair) (b : Bloom) → nbits (put_all b hs) ≡ nbits b
nbits-put_all [] b = refl
nbits-put_all (h ∷ hs) b =
    nbits-put_all hs (put_probes 8 h.h1 h.h2 b) ∙ nbits-put_probes 8 h.h1 h.h2 b

bit-put_all_iff :
    (hs : List HashPair) (b : Bloom) (q : ℕ)
    → IsValid b
    → (bit (put_all b hs) q ≡ 1) ↔ ((bit b q ≡ 1) ⊎ Any (λ g. Selects b g q) hs)
bit-put_all_iff [] b q v = (inl, λ s. elim s [ inl e ↦ e | inr n ↦ absurd n ])
bit-put_all_iff (h ∷ hs) b q v =
    let c = put_probes 8 h.h1 h.h2 b in
    let first = bit-put_probes_iff 8 h.h1 h.h2 b q v in
    let rest : (bit (put_all c hs) q ≡ 1) ↔ ((bit c q ≡ 1) ⊎ Any (λ g. Selects b g q) hs) =
      rw (nbits-put_probes 8 h.h1 h.h2 b) at
        (bit-put_all_iff hs c q (put_probes-IsValid 8 h.h1 h.h2 b v)) in
    (
      λ one. elim (rest.0 one) [
        | inl e ↦ elim (first.0 e) [ inl o ↦ inl o | inr o ↦ inr (inl o) ]
        | inr a ↦ inr (inr a)
      ],
      λ s. rest.1 (elim s [
        | inl o ↦ inl (first.1 (inl o))
        | inr (inl o) ↦ inl (first.1 (inr o))
        | inr (inr a) ↦ inr a
      ]),
    )

-- Probe `i` of the pair was set in `b`, or one of the pairs selects it.
abbrev pub Explained : Bloom → List HashPair → HashPair → ℕ → Type 0
Explained b hs h i =
    (bit b (probe (nbits b) h.h1 h.h2 i) ≡ 1)
    ⊎ Any (λ g. Selects b g (probe (nbits b) h.h1 h.h2 i)) hs

-- The answer for a pair after the pairs `hs`.
pub answer :
    (b : Bloom) (hs : List HashPair) (h : HashPair)
    → IsValid b
    → (c : ℕ) × (contains_with_pair (put_all b hs) h ≡ some c)
      × (c ≤ 1)
      × ((c ≡ 1) ↔ ((i : ℕ) → i < 8 → Explained b hs h i))
unfolding contains_with_pair
answer b hs h v =
    let (c, e, le, iff) = contains_loop_lem 8 h.h1 h.h2 (put_all b hs) (put_all-IsValid hs b v) in
    let same = nbits-put_all hs b in
    let bits = λ (i : ℕ). bit-put_all_iff hs b (probe (nbits b) h.h1 h.h2 i) v in
    (
      c,
      e,
      le,
      (
        λ one i p. (bits i).0 (rw same at (iff.0 one i p)),
        λ all. iff.1 (λ i p. rw same ((bits i).1 (all i p))),
      ),
    )

-- A pair that was inserted is found.
pub found :
    (b : Bloom) (hs : List HashPair) (h : HashPair)
    → IsValid b
    → IsIn h hs
    → contains_with_pair (put_all b hs) h ≡ some 1
found b hs h v m =
    let (c, e, le, iff) = answer b hs h v in e ∙ ap some (iff.1 (λ i p. inr (selected i p)))
  where
    selected : (i : ℕ) → i < 8 → Any (λ g. Selects b g (probe (nbits b) h.h1 h.h2 i)) hs
    selected i p =
        Any-map (λ g. g ≡ h) (λ g. Selects b g (probe (nbits b) h.h1 h.h2 i))
          (λ g e. (i, p, ap (λ (x : HashPair). probe (nbits b) x.h1 x.h2 i) (sym e))) hs m

pub insert_prehash_bulk_lem :
    (hs : List ℕ) (b : Bloom)
    → IsValid b
    → insert_prehash_bulk b hs ≡ some (put_all b (map prehash_split hs))
unfolding insert_prehash_bulk insert_prehash
insert_prehash_bulk_lem [] b v = refl
insert_prehash_bulk_lem (h ∷ hs) b v =
    let pair = prehash_split h in
    rw (insert_with_pair_lem b pair v) (
      insert_prehash_bulk_lem hs (put_probes 8 pair.h1 pair.h2 b)
        (put_probes-IsValid 8 pair.h1 pair.h2 b v))

-- From a valid filter, `bloom_insert_prehash_bulk` does not fault and leaves a valid filter; a
-- following `bloom_contains_prehash` does not fault, answers 0 or 1, and answers 1 exactly when
-- each of its eight bits `(h1 + i * h2) % nbits` was set before or is one of the eight of an
-- inserted hash.
pub contains_prehash-insert_prehash_bulk :
    (b : Bloom) (hs : List ℕ) (h : ℕ)
    → IsValid b
    → (b' : Bloom) × (c : ℕ) × (insert_prehash_bulk b hs ≡ some b')
      × IsValid b'
      × (contains_prehash b' h ≡ some c)
      × (c ≤ 1)
      × ((c ≡ 1) ↔ ((i : ℕ) → i < 8 → Explained b (map prehash_split hs) (prehash_split h) i))
unfolding contains_prehash
contains_prehash-insert_prehash_bulk b hs h v =
    let pairs = map prehash_split hs in
    let (c, e, le, iff) = answer b pairs (prehash_split h) v in
    (put_all b pairs, c, insert_prehash_bulk_lem hs b v, put_all-IsValid pairs b v, e, le, iff)

-- The pairs of the keys `keys[i..i+n)`, each of `klen` bytes.
abbrev pub key_pairs : List ℕ → ℕ → ℕ → ℕ → List HashPair
key_pairs keys klen i zero = []
key_pairs keys klen i (suc n) =
    bloom_hash_pair (drop (i * klen) keys) klen ∷ key_pairs keys klen (i + 1) n

insert_bulk_lem :
    (keys : List ℕ) (klen i n : ℕ) (b : Bloom)
    → IsValid b
    → insert_bulk keys klen i n b ≡ some (put_all b (key_pairs keys klen i n))
unfolding insert_bulk insert
insert_bulk_lem keys klen i zero b v = refl
insert_bulk_lem keys klen i (suc n) b v =
    let pair = bloom_hash_pair (drop (i * klen) keys) klen in
    rw (insert_with_pair_lem b pair v) (
      insert_bulk_lem keys klen (i + 1) n (put_probes 8 pair.h1 pair.h2 b)
        (put_probes-IsValid 8 pair.h1 pair.h2 b v))

key_pairs-IsIn :
    (keys : List ℕ) (klen n i j : ℕ)
    → i ≤ j
    → j < i + n
    → IsIn (bloom_hash_pair (drop (j * klen) keys) klen) (key_pairs keys klen i n)
key_pairs-IsIn keys klen zero i j le lt = absurd (omega arith)
key_pairs-IsIn keys klen (suc n) i j le lt = elim (ℕ_discrete i j) [
  | yes e ↦ inl (ap (λ k. bloom_hash_pair (drop (k * klen) keys) klen) e)
  | no ne ↦ inr (key_pairs-IsIn keys klen n (i + 1) j (omega arith) (omega arith))
]

-- No false negatives: in a valid filter each of the `n` keys that `bloom_insert_bulk` inserted is
-- then found by `bloom_contains`.
pub contains-insert_bulk :
    (b : Bloom) (keys : List ℕ) (klen n j : ℕ)
    → IsValid b
    → j < n
    → (b' : Bloom) × (insert_bulk keys klen 0 n b ≡ some b')
      × (contains b' (drop (j * klen) keys) klen ≡ some 1)
unfolding contains
contains-insert_bulk b keys klen n j v lt = (
  put_all b (key_pairs keys klen 0 n),
  insert_bulk_lem keys klen 0 n b v,
  found b (key_pairs keys klen 0 n) (bloom_hash_pair (drop (j * klen) keys) klen) v
      (key_pairs-IsIn keys klen n 0 j (omega arith) (omega arith)),
)
