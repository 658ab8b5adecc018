-- ===== src/Quickbloom/Estimate.antt =====
-- `qb_estimate_bits` of qb_util.c. C's `double`, with `log`, is a parameter: `qb_estimate_bits`
-- only compares, multiplies, divides, adds and converts.
use quickbloom.Base.{ℕ, Bool, ◌&&◌, ◌||◌, not, ◌==◌, if◌then◌else◌, Option, none, some}
use quickbloom.Machine.{mul64}
use quickbloom.Quickbloom.Serialize.{Run, done, aborted, faulted}

pub record Double : Type 1 where
  pub Value : Type 0
  -- The literals 0.0, 1.0, 0.5, 256.0 and LN2_SQ.
  pub zero_value : Value
  pub one : Value
  pub half : Value
  pub block_bits : Value
  pub ln2_sq : Value
  pub lt : Value → Value → Bool
  pub neg : Value → Value
  pub plus : Value → Value → Value
  pub times : Value → Value → Value
  pub divided : Value → Value → Value
  pub log : Value → Value
  pub of_size : ℕ → Value
  -- The cast to `size_t`; `none` where C leaves it undefined, out of the range of `size_t`.
  pub to_size : Value → Option ℕ

-- The value that is cast: the number of bits, at least one block, with 0.5 added.
unfoldable pub unrounded : (d : Double) → ℕ → d.Value → d.Value
unrounded d n fp =
    let m = d.divided (d.times (d.neg (d.of_size n)) (d.log fp)) d.ln2_sq in
    d.plus (if d.lt m d.block_bits then d.block_bits else m) d.half

-- An undefined cast is a fault.
abbrev pub cast : Option ℕ → Run ℕ
cast none = faulted
cast (some m) = done m

-- `asserts` is false in a build with NDEBUG.
unfoldable pub estimate_bits : (d : Double) → Bool → ℕ → d.Value → Run ℕ
unfolding unrounded
estimate_bits d asserts n fp =
    if n == 0
    then done 256
    else if asserts && not (d.lt d.zero_value fp && d.lt fp d.one)
    then aborted
    else if not (d.lt d.zero_value fp) || not (d.lt fp d.one)
    then done (mul64 n 32)
    else cast (d.to_size (unrounded d n fp))
