-- ===== src/Xorfuse/Build.antt =====
-- The build of the binary fuse filter: it holds each hash of the buffer.
use quickbloom.Base.{ℕ, ◌+◌, ◌^◌, ◌≤◌, ◌<◌, ◌≡◌, ◌∙◌, refl, ap, arith, max, List}
use quickbloom.Base.{
  true, false, Option, some, ◌>>=◌, inl, inr, IsIn, take, ne→==, ==_iff, if◌then◌else◌, ℕ_discrete,
  Bool-cases,
}
use quickbloom.Machine.{u32}
use quickbloom.Xorfuse.Fuse.{FuseLibrary, IsReliable, Memory, Grants}
use quickbloom.Xorfuse.Filter.{Shim, seed, populate, build}
use quickbloom.Xorfuse.Growth.{IsBuffer}
use quickbloom.Xorfuse.Push.{buf_push_lem}

-- A filter that is built finds each hash of the buffer, and answers for every hash.
pub record IsReady (lib : FuseLibrary) (x : Shim lib.Filter) : Type 0 where
  pub finds : (g : ℕ) → IsIn g (take x.buf_len x.buf) → lib.contain g x.filter ≡ some 1
  pub answers : (h : ℕ) → (c : ℕ) × (lib.contain h x.filter ≡ some c) × (c ≤ 1)

-- The shim holds the hashes `gs` in its buffer, and a filter that is built is up to date.
pub record Holds (lib : FuseLibrary) (x : Shim lib.Filter) (gs : List ℕ) : Type 0 where
  pub buffer : IsBuffer x
  pub kept : (g : ℕ) → IsIn g gs → IsIn g (take x.buf_len x.buf)
  pub ready : x.built ≡ true → IsReady lib x

populate_lem :
    (lib : FuseLibrary) (x : Shim lib.Filter) (gs : List ℕ)
    → IsReliable lib
    → IsBuffer x
    → x.buf_len < 2 ^ 32
    → ((g : ℕ) → IsIn g gs → IsIn g (take x.buf_len x.buf))
    → Holds lib (populate lib x) gs
unfolding populate
populate_lem lib x gs law is lt kept =
    let n : u32 x.buf_len ≡ x.buf_len = omega arith in
    let f : lib.Filter = (lib.allocate x.buf_len x.filter).1 in
    let done = law.succeeds x.buf x.buf_len x.filter (omega (arith, is.sized, is.room)) in
    rw n (record {
      buffer = record {
        sized = law.same_length x.buf x.buf_len f ∙ is.sized;
        room = is.room;
        small = is.small;
      };
      kept = λ g here. (law.same_keys x.buf x.buf_len g f).1 (kept g here);
      ready = λ b. record {
        finds = λ g here.
            law.finds x.buf x.buf_len g f done ((law.same_keys x.buf x.buf_len g f).0 here);
        answers = λ h. law.answers x.buf x.buf_len h f done;
      };
    })

-- An empty buffer gets two hashes, and another one stays.
seed_lem :
    {F : Type 0} (m : Memory) (x : Shim F)
    → Grants m
    → IsBuffer x
    → x.buf_len < 2 ^ 32
    → (y : Shim F) × (seed m x ≡ some y)
      × IsBuffer y
      × (y.buf_len ≤ max 2 x.buf_len)
      × ((g : ℕ) → IsIn g (take x.buf_len x.buf) → IsIn g (take y.buf_len y.buf))
unfolding seed
seed_lem m x grants is lt = elim (ℕ_discrete x.buf_len 0) [
  | no some_keys ↦ (x, rw (ne→== x.buf_len 0 some_keys) refl, is, omega arith, λ g here. here)
  | yes empty ↦
      let (c, buf, e, is', has, keeps) = buf_push_lem m x 0 grants is (omega arith) in
      let y = record x { buf = buf; buf_len = x.buf_len + 1; buf_cap = c } in
      let (c', buf', e', is'', has', keeps') = buf_push_lem m y 1 grants is' (omega arith) in
      (
        record y { buf = buf'; buf_len = x.buf_len + 1 + 1; buf_cap = c' },
        rw ((==_iff x.buf_len 0).1 empty, e, e') refl,
        is'',
        omega arith,
        λ g here. keeps' g (keeps g here),
      )
]

module _ (lib : FuseLibrary) (m : Memory) (x : Shim lib.Filter) where
  build_again : x.built ≡ true → build lib m x ≡ some x
  unfolding build
  build_again t = ap (λ b. if b then some x else (seed m x >>= λ y. some (populate lib y))) t

  build_fresh : x.built ≡ false → build lib m x ≡ (seed m x >>= λ y. some (populate lib y))
  unfolding build
  build_fresh f = ap (λ b. if b then some x else (seed m x >>= λ y. some (populate lib y))) f

-- After `build` the filter is up to date and holds what the buffer held.
pub build_lem :
    (lib : FuseLibrary) (m : Memory) (x : Shim lib.Filter) (gs : List ℕ)
    → IsReliable lib
    → Grants m
    → Holds lib x gs
    → x.buf_len < 2 ^ 32
    → (y : Shim lib.Filter) × (build lib m x ≡ some y)
      × Holds lib y gs
      × IsReady lib y
      × (y.buf_len ≤ max 2 x.buf_len)
build_lem lib m x gs law grants is lt = elim (Bool-cases x.built) [
  | inl t ↦ (x, build_again lib m x t, is, is.ready t, omega arith)
  | inr f ↦
      let (y, e, buffer, few, keeps) = seed_lem m x grants is.buffer lt in
      let holds =
        populate_lem lib y gs law buffer (omega arith) (λ g here. keeps g (is.kept g here)) in
      (
        populate lib y,
        build_fresh lib m x f
            ∙ ap (λ (o : Option (Shim lib.Filter)). o >>= λ y. some (populate lib y)) e,
        holds,
        holds.ready (unfold populate in refl),
        unfold populate in few,
      )
]
