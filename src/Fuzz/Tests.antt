-- ===== src/Fuzz/Tests.antt =====
-- Runs of the theorems with an allocator that has room.
use quickbloom.Base.{
  some, none, if◌then◌else◌, ◌^◌, ℕ, ◌+◌, ◌*◌, ◌/◌, ◌-◌, List, ◌∷◌, ◌++◌, replicate, ltb,
}
use quickbloom.Quickbloom.Estimate.{Double}

-- Rational numbers in thousandths, rounded down.
abbrev thousandths : Double
thousandths = record {
  Value = ℕ;
  zero_value = 0;
  one = 1000;
  half = 500;
  block_bits = 256000;
  ln2_sq = 480;
  lt = ltb;
  neg = λ x. x;
  plus = ◌+◌;
  times = λ x y. x * y / 1000;
  divided = λ x y. x * 1000 / y;
  log = λ x. 1000 - x;
  of_size = λ n. n * 1000;
  to_size = λ x. if ltb x (1000 * 2 ^ 64) then some (x / 1000) else none;
}

abbrev nines : ℕ → List ℕ
nines n = replicate n 9

-- Keys of five bytes.
abbrev input : List ℕ
input = 4 ∷ (replicate 11 17 ++ replicate 30 200)
