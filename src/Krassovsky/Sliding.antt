-- ===== src/Krassovsky/Sliding.antt =====
-- The loop of `mask_table_init` that slides a window of BITS_PER_MASK bits over the table.
use quickbloom.Base.{
  ℕ, zero, suc, ◌+◌, ◌-◌, ◌*◌, ◌%◌, ◌≤◌, ◌<◌, ◌≡◌, ◌≢◌, ◌∙◌, refl, arith, List, Bool, true, false,
  ◌&&◌, ltb, ◌==◌, if◌then◌else◌, length, Bool-cases, inl, inr, dec_lt,
}
use quickbloom.Krassovsky.Table.{
  Building, prng_step, prng_output, table_bit, set_table_bit, slide, slides, mask_bytes,
  bits_per_mask, min_bits_set, max_bits_set,
}
use quickbloom.Krassovsky.TableLaws.{length-set_table_bit}
use quickbloom.Krassovsky.Windows.{
  ones, table_bit-lt, table_bit-set_self, table_bit-set_ne, ones_ext, ones-last,
}

-- The window of BITS_PER_MASK bits from bit `k` on has MIN_BITS_SET or MAX_BITS_SET bits set.
abbrev pub IsMask : List ℕ → ℕ → Type 0
IsMask table k =
    (min_bits_set ≤ ones table k bits_per_mask) × (ones table k bits_per_mask ≤ max_bits_set)

-- The state of the loop when the window starts at bit `w`: `cur` bits are set in it, the bits past it
-- are clear, and the windows up to it are masks.
pub record IsSliding (w : ℕ) (s : Building) : Type 0 where
  pub sized : length s.table ≡ mask_bytes
  pub counted : ones s.table w bits_per_mask ≡ s.cur
  pub clear : (j : ℕ) → w + bits_per_mask ≤ j → j < 8 * mask_bytes → table_bit s.table j ≡ 0
  pub masks : (k : ℕ) → k ≤ w → IsMask s.table k

-- The window moves on by one bit, of which the new table has changed at most the last.
moves_on :
    (w : ℕ) (s t : Building)
    → IsSliding w s
    → length t.table ≡ length s.table
    → ((j : ℕ) → j ≤ w + 57 → j ≢ w + 57 → table_bit t.table j ≡ table_bit s.table j)
    → ((j : ℕ) → w + 57 < j → j < 8 * mask_bytes → table_bit t.table j ≡ table_bit s.table j)
    → t.cur + table_bit s.table w ≡ s.cur + table_bit t.table (w + 57)
    → min_bits_set ≤ t.cur
    → t.cur ≤ max_bits_set
    → IsSliding (w + 1) t
moves_on w s t is same_length before after balance low high =
    let earlier : (k : ℕ) → k ≤ w → ones t.table k 57 ≡ ones s.table k 57 =
      λ k le. ones_ext t.table s.table k 57 (λ j a b. before j (omega arith) (λ e. omega arith)) in
    let first : table_bit t.table w ≡ table_bit s.table w =
      before w (omega arith) (λ e. omega arith) in
    let both : table_bit t.table w + ones t.table (w + 1) 57
        ≡ ones t.table w 57 + table_bit t.table (w + 57) =
      unfold ones in ones-last t.table w 57 in
    let now : ones t.table (w + 1) 57 ≡ t.cur =
      omega (arith, both, first, earlier w (omega arith), is.counted, balance) in
    record {
      sized = same_length ∙ is.sized;
      counted = now;
      clear = λ j le lt. after j (omega arith) lt ∙ is.clear j (omega arith) lt;
      masks = λ k le. elim (dec_lt w k) [
        | yes p ↦ let here : k ≡ w + 1 = omega arith in rw (here, now) (low, high)
        | no p ↦ rw (earlier k (omega arith)) (is.masks k (omega arith))
      ];
    }

module _ (w : ℕ) (s : Building) (is : IsSliding w s) (inside : w + 57 < 8 * mask_bytes) where
  -- The round that sets the bit.
  set_bit :
      (cur prng : ℕ)
      → cur + table_bit s.table w ≡ s.cur + 1
      → min_bits_set ≤ cur
      → cur ≤ max_bits_set
      → IsSliding
          (w + 1)
          (record { table = set_table_bit s.table (w + 57); prng = prng; cur = cur })
  set_bit cur prng balance low high =
      let room : w + 57 < 8 * length s.table = omega (arith, is.sized) in
      moves_on w s (record { table = set_table_bit s.table (w + 57); prng = prng; cur = cur }) is
        (length-set_table_bit s.table (w + 57))
        (λ j le ne. table_bit-set_ne s.table (w + 57) j room (λ e. omega arith))
        (λ j lt all. table_bit-set_ne s.table (w + 57) j room (λ e. omega arith))
        (omega (arith, table_bit-set_self s.table (w + 57) room)) low high

  -- The round that leaves it clear.
  leave_bit :
      (cur prng : ℕ)
      → cur + table_bit s.table w ≡ s.cur
      → min_bits_set ≤ cur
      → cur ≤ max_bits_set
      → IsSliding (w + 1) (record { table = s.table; prng = prng; cur = cur })
  leave_bit cur prng balance low high =
      moves_on w s (record { table = s.table; prng = prng; cur = cur }) is refl (λ j le ne. refl)
        (λ j lt all. refl) (omega (arith, is.clear (w + 57) (omega arith) inside)) low high

  -- One round, from the bit that leaves the window and the outcome of the draw.
  slide-IsSliding : IsSliding (w + 1) (slide (w + 57) s)
  unfolding slide
  slide-IsSliding =
      let back : w + 57 - 57 ≡ w = omega arith in
      rw back (
        by_bit (table_bit s.table w) (table_bit-lt s.table w) refl
          (ltb (prng_output (prng_step s.prng) % 114) 9))
    where
      low : 4 ≤ s.cur
      low = omega (arith, is.counted, (is.masks w (omega arith)).0)

      high : s.cur ≤ 5
      high = omega (arith, is.counted, (is.masks w (omega arith)).1)

      either :
          {t u : Building} (draw : Bool)
          → IsSliding (w + 1) t
          → IsSliding (w + 1) u
          → IsSliding (w + 1) (if draw then t else u)
      either true p q = p
      either false p q = q

      by_bit :
          (b : ℕ)
          → b < 2
          → table_bit s.table w ≡ b
          → (draw : Bool)
          → IsSliding (w + 1) (
              if b == 1 && s.cur == 4
              then record s { table = set_table_bit s.table (w + 57) }
              else if b == 0 && s.cur == 5
              then s
              else if draw
              then record {
                table = set_table_bit s.table (w + 57);
                prng = prng_step s.prng;
                cur = if b == 0 then s.cur + 1 else s.cur;
              }
              else record {
                table = s.table;
                prng = prng_step s.prng;
                cur = if b == 1 then s.cur - 1 else s.cur;
              })
      by_bit zero lt e draw = elim (Bool-cases (s.cur == 5)) [
        | inl full ↦ rw full (leave_bit s.cur s.prng (omega arith) low high)
        | inr room ↦
            let below : s.cur ≤ 4 = ground (arith, high) in
            rw room (
              either draw
                (set_bit (s.cur + 1) (prng_step s.prng) (omega arith) (omega (arith, low))
                  (omega arith))
                (leave_bit s.cur (prng_step s.prng) (omega arith) low high))
      ]
      by_bit (suc zero) lt e draw = elim (Bool-cases (s.cur == 4)) [
        | inl few ↦ rw few (set_bit s.cur s.prng (omega arith) low high)
        | inr more ↦
            let above : 5 ≤ s.cur = ground (arith, low) in
            rw more (
              either draw (set_bit s.cur (prng_step s.prng) (omega arith) low high) (
                leave_bit (s.cur - 1) (prng_step s.prng) (omega arith) (omega arith)
                  (omega (arith, high))))
      ]
      by_bit (suc (suc b)) lt e draw = absurd (omega arith)

pub slides-IsSliding :
    (n w : ℕ) (s : Building)
    → IsSliding w s
    → w + n + 57 ≤ 8 * mask_bytes
    → IsSliding (w + n) (slides n (w + 57) s)
unfolding slides
slides-IsSliding zero w s is le = let same : w + 0 ≡ w = omega arith in rw same is
slides-IsSliding (suc n) w s is le =
    let next : w + 57 + 1 ≡ w + 1 + 57 = omega arith in
    let same : w + suc n ≡ w + 1 + n = omega arith in
    rw (next, same)
      (slides-IsSliding n (w + 1) (slide (w + 57) s) (slide-IsSliding w s is (omega arith))
        (omega arith))
