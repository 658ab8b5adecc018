-- ===== src/Xorfuse/Fuse.antt =====
-- The functions of binaryfusefilter.h that the shim calls, and what it relies on. The file is not part
-- of the model: its functions are parameters.
use quickbloom.Base.{ℕ, ◌≤◌, ◌≡◌, ◌/◌, ◌↔◌, List, Bool, true, Option, some, take, length, IsIn}

-- `populate` may write to the keys and returns whether it succeeded; `contain` may fault, `none`.
pub record FuseLibrary : Type 1 where
  pub Filter : Type 0
  pub zeroed : Filter
  pub allocate : ℕ → Filter → Bool × Filter
  pub populate : List ℕ → ℕ → Filter → Bool × (List ℕ × Filter)
  pub contain : ℕ → Filter → Option ℕ
  pub free : Filter → Filter

-- A filter that was populated successfully finds its keys and answers for every hash; `populate`
-- leaves the same keys, in some order; and it succeeds on a newly allocated filter.
pub record IsReliable (lib : FuseLibrary) : Type 0 where
  pub succeeds :
      (keys : List ℕ) (n : ℕ) (f : lib.Filter)
      → n ≤ length keys
      → (lib.populate keys n (lib.allocate n f).1).0 ≡ true
  pub finds :
      (keys : List ℕ) (n h : ℕ) (f : lib.Filter)
      → (lib.populate keys n f).0 ≡ true
      → IsIn h (take n keys)
      → lib.contain h (lib.populate keys n f).1.1 ≡ some 1
  pub answers :
      (keys : List ℕ) (n h : ℕ) (f : lib.Filter)
      → (lib.populate keys n f).0 ≡ true
      → (c : ℕ) × (lib.contain h (lib.populate keys n f).1.1 ≡ some c) × (c ≤ 1)
  pub same_length :
      (keys : List ℕ) (n : ℕ) (f : lib.Filter) → length (lib.populate keys n f).1.0 ≡ length keys
  pub same_keys :
      (keys : List ℕ) (n h : ℕ) (f : lib.Filter)
      → IsIn h (take n (lib.populate keys n f).1.0) ↔ IsIn h (take n keys)

-- `malloc` and `realloc` for a number of bytes: what a new block holds, as 64-bit words, or NULL.
pub record Memory : Type 0 where
  pub block : ℕ → Option (List ℕ)
  pub length-block : (nbytes : ℕ) (ws : List ℕ) → block nbytes ≡ some ws → length ws ≡ nbytes / 8

-- Every request is granted.
abbrev pub Grants : Memory → Type 0
Grants m = (nbytes : ℕ) → (ws : List ℕ) × (m.block nbytes ≡ some ws)
