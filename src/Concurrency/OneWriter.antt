-- ===== src/Concurrency/OneWriter.antt =====
-- One thread inserts and any number of threads query: a query that starts after an insertion has
-- returned sees it, and the array is that of the insertions in turn.
use quickbloom.Base.{ℕ, ◌≡◌, ◌∙◌, sym, ap, List, some}
use quickbloom.Base.{IsIn}
use quickbloom.Quickbloom.Filter.{Bloom}
use quickbloom.Quickbloom.Bulk.{insert_prehash_bulk}
use quickbloom.Quickbloom.Valid.{IsValid}
use quickbloom.Quickbloom.Batch.{put_all, insert_prehash_bulk_lem, bits-put_all}
use quickbloom.Concurrency.{resting, answered, System, initial, Run}
use quickbloom.Concurrency.Invariant.{run-IsConsistent}

-- With one inserting thread, in every state that a run reaches from a valid filter: a query that
-- has answered and that started after the insertion of its hash had returned answered 1, whatever
-- insertion it overlapped with.
pub answered-returned :
    (b : Bloom) (s : System) (r h : ℕ) (before : List ℕ) (c : ℕ)
    → IsValid b
    → Run 1 b (initial b) s
    → s.readers r ≡ answered h before c
    → IsIn h before
    → c ≡ 1
answered-returned b s r h before c v run e is =
    let seen : IsIn h before → c ≡ 1 = rw e at ((run-IsConsistent b v run).queries r) in seen is

-- With one inserting thread, in every state that a run reaches from a valid filter in which that
-- thread rests, the array is the one that `qb_insert_prehash_bulk` leaves for the same hashes.
pub resting-mem :
    (b : Bloom) (s : System)
    → IsValid b
    → Run 1 b (initial b) s
    → s.writers 0 ≡ resting
    → insert_prehash_bulk b s.done ≡ some (record b { bits = s.mem })
resting-mem b s v run rests =
    let same : s.mem ≡ (put_all b s.done).bits = rw rests at (run-IsConsistent b v run).writer in
    insert_prehash_bulk_lem s.done b v
    ∙ ap some (bits-put_all b s.done ∙ ap (λ ws. record b { bits = ws }) (sym same))
