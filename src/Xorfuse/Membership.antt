-- ===== src/Xorfuse/Membership.antt =====
-- No false negatives: what was inserted, in whatever mix of calls, is found.
use quickbloom.Base.{ℕ, ◌+◌, ◌^◌, ◌≤◌, ◌<◌, ◌≡◌, refl, arith, max, List, [], ◌∷◌, ◌++◌}
use quickbloom.Base.{Option, some, ◌>>=◌, IsIn, length}
use quickbloom.Xorfuse.Fuse.{FuseLibrary, IsReliable, Memory, Grants}
use quickbloom.Xorfuse.Filter.{
  Shim, insert_prehash, contains_prehash, insert_prehash_bulk, contains_prehash_bulk, new,
}
use quickbloom.Xorfuse.Build.{Holds}
use quickbloom.Xorfuse.Operations.{
  insert_prehash_lem, insert_prehash_bulk_lem, contains_prehash_lem, contains_prehash_bulk_lem,
  new_lem,
}

-- A call of the prehash functions.
pub data Call : Type 0 where
  insert : ℕ → Call
  insert_bulk : List ℕ → Call
  contains : ℕ → Call
  contains_bulk : List ℕ → Call

-- The shim after the calls; `none` is a fault.
unfoldable pub after :
    (lib : FuseLibrary) → Memory → Shim lib.Filter → List Call → Option (Shim lib.Filter)
after lib m x [] = some x
after lib m x (insert h ∷ cs) = insert_prehash lib m x h >>= λ y. after lib m y cs
after lib m x (insert_bulk hs ∷ cs) = insert_prehash_bulk lib m x hs >>= λ y. after lib m y cs
after lib m x (contains h ∷ cs) = contains_prehash lib m x h >>= λ r. after lib m r.1 cs
after lib m x (contains_bulk hs ∷ cs) = contains_prehash_bulk lib m x hs >>= λ r. after lib m r.1 cs

-- The hashes that the calls insert, the last ones first.
abbrev pub inserted : List Call → List ℕ → List ℕ
inserted [] gs = gs
inserted (insert h ∷ cs) gs = inserted cs (h ∷ gs)
inserted (insert_bulk hs ∷ cs) gs = inserted cs (hs ++ gs)
inserted (contains h ∷ cs) gs = inserted cs gs
inserted (contains_bulk hs ∷ cs) gs = inserted cs gs

-- How many hashes they insert.
abbrev pub weight : List Call → ℕ
weight [] = 0
weight (insert h ∷ cs) = 1 + weight cs
weight (insert_bulk hs ∷ cs) = length hs + weight cs
weight (contains h ∷ cs) = weight cs
weight (contains_bulk hs ∷ cs) = weight cs

module _ (lib : FuseLibrary) (m : Memory) (law : IsReliable lib) (grants : Grants m) where
  -- The calls do not fault, and the shim then holds what they inserted.
  after_lem :
      (cs : List Call) (x : Shim lib.Filter) (gs : List ℕ)
      → Holds lib x gs
      → max 2 x.buf_len + weight cs < 2 ^ 32
      → (y : Shim lib.Filter) × (after lib m x cs ≡ some y)
        × Holds lib y (inserted cs gs)
        × (y.buf_len < 2 ^ 32)
  unfolding after
  after_lem [] x gs is lt = (x, refl, is, omega arith)
  after_lem (insert h ∷ cs) x gs is lt =
      let (y, e, holds, len) = insert_prehash_lem lib m law grants x h gs is (omega arith) in
      let (z, rest, done, few) = after_lem cs y (h ∷ gs) holds (omega (arith, len)) in
      (z, rw e rest, done, few)
  after_lem (insert_bulk hs ∷ cs) x gs is lt =
      let (y, e, holds, len) = insert_prehash_bulk_lem lib m law grants x hs gs is (omega arith) in
      let (z, rest, done, few) = after_lem cs y (hs ++ gs) holds (omega (arith, len)) in
      (z, rw e rest, done, few)
  after_lem (contains h ∷ cs) x gs is lt =
      let (c, y, e, holds, len, le, found) =
        contains_prehash_lem lib m law grants x h gs is (omega arith) in
      let (z, rest, done, few) = after_lem cs y gs holds (omega (arith, len)) in
      (z, rw e rest, done, few)
  after_lem (contains_bulk hs ∷ cs) x gs is lt =
      let (total, y, e, holds, len) =
        contains_prehash_bulk_lem lib m law grants x hs gs is (omega arith) in
      let (z, rest, done, few) = after_lem cs y gs holds (omega (arith, len)) in
      (z, rw e rest, done, few)

-- No false negatives: with a reliable fuse library and memory for every request, any sequence of
-- calls of the prehash functions on a filter that `bloom_new` returned does not fault, if the calls
-- insert fewer than 2^32 - 2 hashes; a following `bloom_contains_prehash` does not fault, answers 0
-- or 1, and answers 1 for each hash that was inserted, however insertions and queries were mixed.
pub contains-after :
    (lib : FuseLibrary) (m : Memory) (nbits : ℕ) (cs : List Call) (h : ℕ)
    → IsReliable lib
    → Grants m
    → nbits < 2 ^ 64
    → 2 + weight cs < 2 ^ 32
    → (x : Shim lib.Filter) × (c : ℕ) × (y : Shim lib.Filter) × (after lib m (new lib m nbits) cs
        ≡ some x)
      × (contains_prehash lib m x h ≡ some (c, y))
      × (c ≤ 1)
      × (IsIn h (inserted cs []) → c ≡ 1)
contains-after lib m nbits cs h law grants wide few =
    let (fresh, empty) = new_lem lib m law grants nbits wide in
    let (x, e, holds, lt) =
      after_lem lib m law grants cs (new lib m nbits) [] fresh (omega (arith, empty)) in
    let (c, y, answer, holds', len, le, found) =
      contains_prehash_lem lib m law grants x h (inserted cs []) holds lt in
    (x, c, y, e, answer, le, found)
