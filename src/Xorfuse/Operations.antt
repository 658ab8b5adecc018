-- ===== src/Xorfuse/Operations.antt =====
-- Each of the prehash functions keeps what the shim holds.
use quickbloom.Base.{
  ℕ, ◌+◌, ◌^◌, ◌≤◌, ◌<◌, ◌≡◌, ◌∙◌, refl, sym, ap, arith, max, List, [], ◌∷◌, ◌++◌,
}
use quickbloom.Base.{
  false, some, ◌⊎◌, inl, inr, IsIn, length, Bool-cases, if◌then◌else◌, ◌==◌, ltb, ◌/◌,
}
use quickbloom.Machine.{add64, mul64}
use quickbloom.Xorfuse.Fuse.{FuseLibrary, IsReliable, Memory, Grants}
use quickbloom.Xorfuse.Filter.{
  Shim, invalidate, insert_prehash, contains_prehash, insert_prehash_bulk, count,
  contains_prehash_bulk, new,
}
use quickbloom.Xorfuse.Buffer.{write_all_lem}
use quickbloom.Xorfuse.Growth.{IsBuffer, reserve_lem}
use quickbloom.Xorfuse.Push.{buf_push_lem}
use quickbloom.Xorfuse.Build.{Holds, IsReady, build_lem}

IsIn-either : (g : ℕ) (hs gs : List ℕ) → IsIn g (hs ++ gs) → IsIn g hs ⊎ IsIn g gs
IsIn-either g [] gs is = inr is
IsIn-either g (h ∷ hs) gs (inl e) = inl (inl e)
IsIn-either g (h ∷ hs) gs (inr r) = elim (IsIn-either g hs gs r) [
  | inl a ↦ inl (inr a)
  | inr b ↦ inr b
]

module _ (lib : FuseLibrary) (m : Memory) (law : IsReliable lib) (grants : Grants m) where
  invalidate_lem :
      (x : Shim lib.Filter)
      → (f : lib.Filter) × (invalidate lib x ≡ record x { filter = f; built = false })
  unfolding invalidate
  invalidate_lem x = elim (Bool-cases x.built) [
    | inl t ↦ (
      lib.free x.filter,
      ap (λ b. if b then record x { filter = lib.free x.filter; built = false } else x) t,
    )
    | inr off ↦ (
      x.filter,
      ap (λ b. if b then record x { filter = lib.free x.filter; built = false } else x) off
          ∙ (λ i. record x { built = off i }),
    )
  ]

  pub insert_prehash_lem :
      (x : Shim lib.Filter) (h : ℕ) (gs : List ℕ)
      → Holds lib x gs
      → x.buf_len + 1 < 2 ^ 32
      → (y : Shim lib.Filter) × (insert_prehash lib m x h ≡ some y)
        × Holds lib y (h ∷ gs)
        × (y.buf_len ≡ x.buf_len + 1)
  unfolding insert_prehash
  insert_prehash_lem x h gs is lt =
      let (f, e) = invalidate_lem x in
      let x' = record x { filter = f; built = false } in
      let buffer : IsBuffer x' = record {
        sized = is.buffer.sized;
        room = is.buffer.room;
        small = is.buffer.small;
      } in
      let (c, buf, push, buffer', has, keeps) = buf_push_lem m x' h grants buffer lt in
      (
        record x' { buf = buf; buf_len = x.buf_len + 1; buf_cap = c },
        rw e push,
        record {
          buffer = buffer';
          kept = λ g here. elim here [
            | inl same ↦ rw (← same) has
            | inr old ↦ keeps g (is.kept g old)
          ];
          ready = λ t. cc;
        },
        refl,
      )

  pub insert_prehash_bulk_lem :
      (x : Shim lib.Filter) (hs gs : List ℕ)
      → Holds lib x gs
      → x.buf_len + length hs < 2 ^ 32
      → (y : Shim lib.Filter) × (insert_prehash_bulk lib m x hs ≡ some y)
        × Holds lib y (hs ++ gs)
        × (y.buf_len ≤ max 2 (x.buf_len + length hs))
  unfolding insert_prehash_bulk
  insert_prehash_bulk_lem x hs gs is lt =
      let (f, e) = invalidate_lem x in
      let x' = record x { filter = f; built = false } in
      let buffer : IsBuffer x' = record {
        sized = is.buffer.sized;
        room = is.buffer.room;
        small = is.buffer.small;
      } in
      let (c, buf, more, buffer', room, keeps) = reserve_lem m x' (length hs) grants buffer lt in
      let (out, written, same, old, new) =
        write_all_lem hs buf x.buf_len (omega (arith, buffer'.sized)) in
      let sum : add64 x.buf_len (length hs) ≡ x.buf_len + length hs = omega arith in
      let z = record x' { buf = out; buf_len = x.buf_len + length hs; buf_cap = c } in
      let holds : Holds lib z (hs ++ gs) = record {
        buffer = record { sized = same ∙ buffer'.sized; room = room; small = buffer'.small };
        kept = λ g here. elim (IsIn-either g hs gs here) [
          | inl a ↦ new g a
          | inr b ↦ old g (keeps g (is.kept g b))
        ];
        ready = λ t. cc;
      } in
      let (y, built, holds', ready, few) = build_lem lib m z (hs ++ gs) law grants holds lt in
      (y, rw (e, more, written, sum) built, holds', few)

  pub contains_prehash_lem :
      (x : Shim lib.Filter) (h : ℕ) (gs : List ℕ)
      → Holds lib x gs
      → x.buf_len < 2 ^ 32
      → (c : ℕ) × (y : Shim lib.Filter) × (contains_prehash lib m x h ≡ some (c, y))
        × Holds lib y gs
        × (y.buf_len ≤ max 2 x.buf_len)
        × (c ≤ 1)
        × (IsIn h gs → c ≡ 1)
  unfolding contains_prehash
  contains_prehash_lem x h gs is lt =
      let (y, e, holds, ready, few) = build_lem lib m x gs law grants is lt in
      let (c, answer, le) = ready.answers h in
      (
        c,
        y,
        rw (e, answer) refl,
        holds,
        few,
        le,
        λ here. let one = ready.finds h (holds.kept h here) in some_same (sym answer ∙ one),
      )
    where
      some_same : {a b : ℕ} → some a ≡ some b → a ≡ b
      some_same e = cc

  -- The hits of a filter that answers for every hash.
  count_lem :
      (x : Shim lib.Filter) (hs : List ℕ) (hits : ℕ)
      → IsReady lib x
      → (total : ℕ) × (count lib x.filter hs hits ≡ some total)
  unfolding count
  count_lem x [] hits ready = (hits, refl)
  count_lem x (h ∷ hs) hits ready =
      let (c, e, le) = ready.answers h in
      let (total, rest) = count_lem x hs (if c == 0 then hits else add64 hits 1) ready in
      (total, rw e rest)

  pub contains_prehash_bulk_lem :
      (x : Shim lib.Filter) (hs gs : List ℕ)
      → Holds lib x gs
      → x.buf_len < 2 ^ 32
      → (total : ℕ) × (y : Shim lib.Filter) × (contains_prehash_bulk lib m x hs ≡ some (total, y))
        × Holds lib y gs
        × (y.buf_len ≤ max 2 x.buf_len)
  unfolding contains_prehash_bulk
  contains_prehash_bulk_lem x hs gs is lt =
      let (y, e, holds, ready, few) = build_lem lib m x gs law grants is lt in
      let (total, counted) = count_lem y hs 0 ready in (total, y, rw (e, counted) refl, holds, few)

  pub new_lem :
      (nbits : ℕ)
      → nbits < 2 ^ 64
      → Holds lib (new lib m nbits) [] × ((new lib m nbits).buf_len ≡ 0)
  unfolding new
  new_lem nbits lt =
      let wanted : ℕ = nbits / 21 in
      let (ws, e) = grants (mul64 (if ltb wanted 1024 then 1024 else wanted) 8) in
      let sized = m.length-block (mul64 (if ltb wanted 1024 then 1024 else wanted) 8) ws e in
      rw (e, new)
        (
          record {
            buffer = record {
              sized = sized ∙ whole (nbits / 21) (omega arith);
              room = omega arith;
              small = bound (nbits / 21) (omega arith);
            };
            kept = λ g n. absurd n;
            ready = λ t. cc;
          },
          refl,
        )
    where
      bound : (w : ℕ) → w < 2 ^ 60 → (if ltb w 1024 then 1024 else w) < 2 ^ 60
      bound w lt = ground arith

      whole :
          (w : ℕ)
          → w < 2 ^ 60
          → mul64 (if ltb w 1024 then 1024 else w) 8 / 8 ≡ (if ltb w 1024 then 1024 else w)
      whole w lt = let c : ℕ = if ltb w 1024 then 1024 else w in omega (arith, bound w lt)
