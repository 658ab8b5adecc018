-- ===== src/Fuzz/Run.antt =====
-- How a run of a fuzz target ends.
use quickbloom.Base.{
  ℕ, zero, suc, ◌+◌, ◌*◌, List, [], ◌∷◌, Bool, true, false, Option, none, some, ◌==◌, drop,
}
use quickbloom.Quickbloom.Serialize as Serialize
use quickbloom.Quickbloom.Filter.{Bloom}
use quickbloom.Quickbloom.Probe.{contains_prehash}
use quickbloom.Quickbloom.Reads.{bloom_hash_in}

-- `trapped` is `__builtin_trap`, `aborted` a failed `assert`, `faulted` undefined behaviour.
pub data Run {ℓ} (A : Type ℓ) : Type ℓ where
  ok : A → Run A
  trapped : Run A
  aborted : Run A
  faulted : Run A

infixl 1 ◌>>=◌
abbrev pub ◌>>=◌ {ℓ κ} : {A : Type ℓ} {B : Type κ} → Run A → (A → Run B) → Run B
ok a >>= f = f a
trapped >>= f = trapped
aborted >>= f = aborted
faulted >>= f = faulted

abbrev pub of_option {ℓ} : {A : Type ℓ} → Option A → Run A
of_option none = faulted
of_option (some a) = ok a

abbrev pub of_call {ℓ} : {A : Type ℓ} → Serialize.Run A → Run A
of_call (Serialize.done a) = ok a
of_call Serialize.aborted = aborted
of_call Serialize.faulted = faulted

-- `if (c) __builtin_trap();`, and then the rest.
abbrev pub trap_if {ℓ} : {A : Type ℓ} → Bool → Run A → Run A
trap_if true rest = trapped
trap_if false rest = rest

-- `qb_contains(f, keys + i * klen, klen)`, where `keys` is all that is left of the input.
unfoldable pub contains_at : Bloom → List ℕ → ℕ → ℕ → Run ℕ
contains_at b keys klen i = do
  h ← of_option (bloom_hash_in (drop (i * klen) keys) klen)
  of_option (contains_prehash b h)

-- `for (i = ...; i < n; i++) if (!qb_contains(f, data + i * klen, klen)) __builtin_trap();`, with
-- the number of rounds left, and then the rest.
unfoldable pub check_each {ℓ} : {A : Type ℓ} → Bloom → List ℕ → ℕ → ℕ → ℕ → Run A → Run A
unfolding contains_at
check_each b keys klen i zero rest = rest
check_each b keys klen i (suc left) rest =
    let next = check_each b keys klen (i + 1) left rest in
    contains_at b keys klen i >>= λ c. trap_if (c == 0) next

-- What a bulk call reads of the input: each key, from key `i` on, as the hash of it does.
unfoldable pub read_keys : List ℕ → ℕ → ℕ → ℕ → Run (List ℕ)
read_keys keys klen i zero = ok []
read_keys keys klen i (suc left) = do
  h ← of_option (bloom_hash_in (drop (i * klen) keys) klen)
  hs ← read_keys keys klen (i + 1) left
  ok (h ∷ hs)
