-- ===== src/Concurrency/LostUpdate.antt =====
-- Two inserting threads: an insertion that has returned can be lost.
use quickbloom.Base.{
  ℕ, ◌+◌, ◌^◌, ◌≤◌, ◌<◌, ◌≡◌, ◌≢◌, ◌∙◌, refl, ap, arith, List, [], ◌∷◌, ◌++◌, some,
}
use quickbloom.Base.{IsIn, length, get_or, ne→==}
use quickbloom.Bits.{bit_at, bit_at-bit_or, bit_at-pow}
use quickbloom.Machine.{u32}
use quickbloom.Quickbloom.Filter.{Bloom, block_for}
use quickbloom.Quickbloom.Probe.{contains_prehash}
use quickbloom.Quickbloom.Mask.{position}
use quickbloom.Quickbloom.Valid.{IsValid, block_for-fits}
use quickbloom.Quickbloom.Insert.{bit, lane-or, or-words}
use quickbloom.Quickbloom.Query.{query, query-le, query_iff, contains_prehash_lem}
use quickbloom.Concurrency.{
  resting, storing, System, update, register, load, initial, Run, stop, step,
}
use quickbloom.Concurrency.Arrays.{accessible, over-IsValid}
use quickbloom.Concurrency.Progress.{run-append, finish}

-- Both threads have loaded their blocks.
abbrev both_loaded : Bloom → ℕ → ℕ → System
both_loaded b h g = record (initial b) {
  writers =
      update (update (λ i. resting) 0 (storing h (register b b.bits h) [])) 1
        (storing g (register b b.bits g) []);
}

load_both : (b : Bloom) (h g : ℕ) → IsValid b → Run 2 b (initial b) (both_loaded b h g)
load_both b h g v =
    step (step stop (load 0 h (omega arith) refl (accessible b h b.bits v refl)))
      (load 1 g (omega arith) refl (accessible b g b.bits v refl))

no_array_lanes :
    (b : Bloom) (h : ℕ) (mem reg : List ℕ) (j : ℕ)
    → j < 8
    → IsIn j []
    → get_or mem (block_for b h + j) 0 ≡ get_or reg j 0
no_array_lanes b h mem reg j lt n = absurd n

-- The bit of `h` in a lane of the register for `g`.
register_bit :
    (b : Bloom) (h g lane : ℕ)
    → IsValid b
    → block_for b g ≡ block_for b h
    → lane < 8
    → position (u32 g) lane ≢ position (u32 h) lane
    → bit b (block_for b h + lane) (position (u32 h) lane) ≡ 0
    → bit_at (get_or (register b b.bits g) lane 0) (position (u32 h) lane) ≡ 0
unfolding register
register_bit b h g lane v same lt ne clear =
    rw
      (
        lane-or b g v lane lt,
        same,
        bit_at-bit_or (get_or b.bits (block_for b h + lane) 0) (2 ^ position (u32 g) lane)
            (position (u32 h) lane),
        clear,
        bit_at-pow (position (u32 g) lane) (position (u32 h) lane),
        ne→== (position (u32 g) lane) (position (u32 h) lane) ne,
      )
      (omega arith)

-- A query that answers 1 saw the bit of `h`, which the register for `g` does not have.
absurd_bit :
    (b : Bloom) (h g lane : ℕ) (mem : List ℕ)
    → IsValid (record b { bits = mem })
    → get_or mem (block_for b h + lane) 0 ≡ get_or (register b b.bits g) lane 0
    → bit_at (get_or (register b b.bits g) lane 0) (position (u32 h) lane) ≡ 0
    → lane < 8
    → ¬ (query (record b { bits = mem }) h ≡ 1)
unfolding block_for
absurd_bit b h g lane mem v stored clear lt one =
    let seen = (query_iff (record b { bits = mem }) h v).0 one lane lt in
    let not_seen : bit_at (get_or mem (block_for b h + lane) 0) (position (u32 h) lane) ≡ 0 =
      rw stored clear in
    absurd (omega (arith, seen, not_seen))

-- With two inserting threads an insertion can be lost: when two hashes select one block of a valid
-- filter, and in some lane the bit of the first is clear and is not that of the second, there is a
-- run after which both insertions have returned and `qb_contains_prehash` answers 0 for the first.
pub contains-lost :
    (b : Bloom) (h g lane : ℕ)
    → IsValid b
    → block_for b g ≡ block_for b h
    → lane < 8
    → position (u32 g) lane ≢ position (u32 h) lane
    → bit b (block_for b h + lane) (position (u32 h) lane) ≡ 0
    → (s : System) × Run 2 b (initial b) s
      × (s.done ≡ h ∷ g ∷ [])
      × (contains_prehash (record b { bits = s.mem }) h ≡ some 0)
contains-lost b h g lane v same lt ne clear =
    let begun = both_loaded b h g in
    let (t, run, rests, done, others, queries, same_length, keeps) =
      finish 2 b begun 0 h (register b b.bits h) [] refl (accessible b h b.bits v refl) in
    let (u, run', rests', done', others', queries', same_length', keeps') =
      finish 2 b t 1 g (register b b.bits g) [] (others 1 (λ e. absurd (omega arith)))
        (accessible b g t.mem v same_length) in
    let (is, first) =
      keeps (length b.bits) (record { sized = refl; fits = block_for-fits b h v; words = v.words })
        (unfold register in or-words b h v) (no_array_lanes b h b.bits (register b b.bits h)) in
    let (is', second) =
      keeps' (length b.bits)
        (record { sized = is.sized; fits = block_for-fits b g v; words = is.words })
        (unfold register in or-words b g v) (no_array_lanes b g t.mem (register b b.bits g)) in
    let v' = over-IsValid b u.mem v (is'.sized) is'.words in
    (
      u,
      run-append (load_both b h g v) (run-append run run'),
      done' ∙ ap (λ hs. hs ++ (g ∷ [])) done,
      contains_prehash_lem (record b { bits = u.mem }) h v'
          ∙ ap some (
              unless_one (query (record b { bits = u.mem }) h)
                (query-le (record b { bits = u.mem }) h)
                (λ one.
                  absurd_bit b h g lane u.mem v' (rw same at (second lane lt))
                    (register_bit b h g lane v same lt ne clear) lt one)),
    )
  where
    unless_one : (c : ℕ) → c ≤ 1 → ¬ (c ≡ 1) → c ≡ 0
    unless_one c le f = omega arith
