-- ===== src/Spec/Tests.antt =====
-- One sequence of calls on new filters of the four implementations.
use quickbloom.Base.{
  ◌+◌, ◌*◌, ◌/◌, ◌≤◌, ◌≡◌, refl, arith, List, [], ◌∷◌, some, false, max, replicate, All,
}
use quickbloom.Machine.{
  Heap, u64, malloc, posix_memalign, round_up_pow2, zeroed_array, or_else_calloc,
}
use quickbloom.Machine.Granting.{granting, nothing_live}
use quickbloom.Quickbloom.Lifecycle as Q
use quickbloom.Quickbloom.Filter as QF
use quickbloom.Quickbloom.NewLaws as QN
use quickbloom.Quickbloom.Header as QH
use quickbloom.Quickbloom.Refines as QR
use quickbloom.Classic.Lifecycle as C
use quickbloom.Classic.Refines as CR
use quickbloom.Impala.Lifecycle as I
use quickbloom.Impala.NewLaws as IN
use quickbloom.Impala.Refines as IR
use quickbloom.Krassovsky.Table as KT
use quickbloom.Krassovsky.TableLaws as KL
use quickbloom.Krassovsky.Lifecycle as K
use quickbloom.Krassovsky.NewLaws as KN
use quickbloom.Krassovsky.Refines as KR
use quickbloom.Spec.Textbook.{nothing}
use quickbloom.Spec.Trace.{Call, insert, insert_bulk, contains, contains_bulk, Fits, run, spec_run}

abbrev calls : List Call
calls =
    insert 7
    ∷ contains 7
    ∷ insert_bulk (1 ∷ 2 ∷ 3 ∷ 4 ∷ 5 ∷ [])
    ∷ contains 0x123456789abcdef0
    ∷ contains_bulk (1 ∷ 9 ∷ 7 ∷ 5 ∷ 11 ∷ [])
    ∷ []

calls-Fits : All Fits calls
calls-Fits = (tt, (tt, (tt, (tt, (omega arith, tt)))))

abbrev both_live : Heap
both_live = record { live = 1 ∷ 0 ∷ []; next = 2 }

abbrev q_handle : Q.Handle
q_handle = record { self = 0; mem = 1; filter = QN.empty_filter 1 }

q_new : Q.new granting nothing_live 300 ≡ some (some q_handle, both_live)
unfolding Q.new Q.requested Q.build Q.with_header Q.with_array Q.fill_header malloc posix_memalign
    QF.log2_pow2 QF.log2_loop round_up_pow2 QN.empty_filter QH.header_of
q_new = refl

run-new_example :
    run QR.filter q_handle.filter calls ≡ some (spec_run (QR.slots q_handle.filter) nothing calls)
run-new_example = QR.run-new granting nothing_live 300 q_handle both_live calls q_new calls-Fits

abbrev c_handle : C.Handle
c_handle = record { self = 0; mem = some 1; filter = record { bits = 0 ∷ 0 ∷ []; bit_mask = 127 } }

c_new : C.new granting nothing_live 100 ≡ some (c_handle, both_live)
unfolding C.new C.sizes C.with_header C.or_calloc C.fill_header malloc posix_memalign round_up_pow2
c_new = refl

run-new_classic_example :
    run CR.filter c_handle.filter calls ≡ some (spec_run (CR.slots c_handle.filter) nothing calls)
run-new_classic_example =
    CR.run-new_classic granting nothing_live 100 c_handle both_live 1 calls (omega arith) c_new refl
      calls-Fits

-- Three blocks, which is no power of two.
abbrev i_handle : I.Handle
i_handle = record { self = 0; mem = some 1; filter = record { bits = replicate 24 0; nblocks = 3 } }

i_new : I.new granting nothing_live 700 ≡ some (i_handle, both_live)
unfolding I.new I.blocks I.with_header I.fill_header malloc zeroed_array or_else_calloc
    posix_memalign
i_new = refl

run-new_impala_example :
    (3 ≡ max 1 (u64 (700 + 255) / 256))
    × (run IR.filter i_handle.filter calls
        ≡ some (spec_run (IR.slots i_handle.filter) nothing calls))
run-new_impala_example =
    IN.run-new_impala granting nothing_live 700 i_handle both_live 1 calls i_new refl calls-Fits

abbrev at_start : KT.Statics
at_start = record { mask_table = replicate 136 0; mask_table_inited = false; prng_state = 0 }

-- The static variables after the first call.
after_start : KT.Statics
after_start = (KL.mask_table_init-IsTable at_start refl).0

abbrev k_handle : K.Handle
k_handle = record {
  self = 0;
  mem = some 1;
  filter = record { bv = replicate 8 0; num_blocks = 8; num_blocks_mask = 7 };
}

k_new : K.new granting nothing_live at_start 300 ≡ some ((k_handle, both_live), after_start)
unfolding K.new K.blocks K.with_header K.fill_header malloc zeroed_array or_else_calloc
    posix_memalign round_up_pow2 after_start
k_new = rw ((KL.mask_table_init-IsTable at_start refl).1) refl

run-new_krassovsky_example :
    (300 ≤ 64 * 8)
    × (run (KR.filter after_start.mask_table) k_handle.filter calls
        ≡ some (spec_run (KR.slots after_start.mask_table k_handle.filter) nothing calls))
run-new_krassovsky_example =
    KN.run-new_krassovsky granting nothing_live at_start 300 k_handle both_live after_start 1 calls
      refl (omega arith) k_new refl calls-Fits
