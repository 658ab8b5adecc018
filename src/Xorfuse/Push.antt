-- ===== src/Xorfuse/Push.antt =====
-- `buf_push`, with and without a reallocation.
use quickbloom.Base.{ℕ, zero, suc, ◌+◌, ◌^◌, ◌<◌, ◌≡◌, ◌∙◌, refl, arith, List}
use quickbloom.Base.{some, IsIn, take, set, length, length-set}
use quickbloom.Base.{lt→ltb, ◌==◌, ==_iff, ne→==, if◌then◌else◌, ℕ_discrete}
use quickbloom.Machine.{mul64, add64}
use quickbloom.Xorfuse.Fuse.{Memory, Grants}
use quickbloom.Xorfuse.Filter.{Shim, realloc, write, with_capacity, buf_push}
use quickbloom.Xorfuse.Buffer.{take-later, set-after, set-new}
use quickbloom.Xorfuse.Growth.{IsBuffer, with_capacity_lem}

-- A push of a hash when there are fewer than 2^32 - 1.
pub buf_push_lem :
    {F : Type 0} (m : Memory) (x : Shim F) (h : ℕ)
    → Grants m
    → IsBuffer x
    → x.buf_len + 1 < 2 ^ 32
    → (c : ℕ) × (buf : List ℕ) × (buf_push m x h
        ≡ some (record x { buf = buf; buf_len = x.buf_len + 1; buf_cap = c }))
      × IsBuffer (record x { buf = buf; buf_len = x.buf_len + 1; buf_cap = c })
      × IsIn h (take (x.buf_len + 1) buf)
      × ((g : ℕ) → IsIn g (take x.buf_len x.buf) → IsIn g (take (x.buf_len + 1) buf))
unfolding buf_push with_capacity write
buf_push_lem m x h grants is lt = elim (ℕ_discrete x.buf_len x.buf_cap) [
  | no ne ↦ (
    x.buf_cap,
    set x.buf x.buf_len h,
    rw
        (
          ne→== x.buf_len x.buf_cap ne,
          lt→ltb x.buf_len (length x.buf) (omega (arith, is.sized, is.room)),
          next,
        )
        refl,
    record {
      sized = length-set x.buf x.buf_len h ∙ is.sized;
      room = omega (arith, is.room);
      small = is.small;
    },
    added x.buf (omega (arith, is.sized, is.room)),
    λ g here. kept g x.buf here,
  )
  | yes full ↦
      let (c, choice, larger, small) = chosen x.buf_cap (omega (arith, is.room)) in
      let (is', keeps) = with_capacity_lem m x c grants is (omega arith) small in
      let grown = realloc m x.buf (mul64 c 8) in
      (
        c,
        set grown x.buf_len h,
        rw
            (
              (==_iff x.buf_len x.buf_cap).1 full,
              choice,
              lt→ltb x.buf_len (length grown) (omega (arith, is'.sized)),
              next,
            )
            refl,
        record {
          sized = length-set grown x.buf_len h ∙ is'.sized;
          room = omega arith;
          small = small;
        },
        added grown (omega (arith, is'.sized)),
        λ g here. kept g grown (keeps g here),
      )
]
  where
    next : add64 x.buf_len 1 ≡ x.buf_len + 1
    next = omega arith

    one_more : x.buf_len + 1 ≡ suc x.buf_len
    one_more = omega arith

    chosen :
        (old : ℕ)
        → old < 2 ^ 32
        → (c : ℕ) × ((if old == 0 then 1024 else mul64 old 2) ≡ c) × (old < c) × (c < 2 ^ 60)
    chosen zero lt = (1024, refl, omega arith, omega arith)
    chosen (suc old) lt = (mul64 (suc old) 2, ground arith, omega arith, omega arith)

    added :
        (buf : List ℕ)
        → x.buf_len < length buf
        → IsIn h (take (x.buf_len + 1) (set buf x.buf_len h))
    added buf room = rw one_more (set-new x.buf_len h buf room)

    kept :
        (g : ℕ) (buf : List ℕ)
        → IsIn g (take x.buf_len buf)
        → IsIn g (take (x.buf_len + 1) (set buf x.buf_len h))
    kept g buf here =
        take-later g x.buf_len (x.buf_len + 1) (set buf x.buf_len h) (omega arith)
          (set-after g x.buf_len x.buf_len h buf (omega arith) here)
