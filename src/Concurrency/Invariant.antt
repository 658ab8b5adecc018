-- ===== src/Concurrency/Invariant.antt =====
-- Every step of a system with one inserting thread keeps the invariant.
use quickbloom.Base.{ℕ, zero, suc, ◌+◌, ◌<◌, ◌≡◌, refl, arith, List, [], ◌∷◌, ◌++◌}
use quickbloom.Base.{All-replicate, length-replicate, get_or, set, ne→==}
use quickbloom.Machine.{IsWord32}
use quickbloom.Quickbloom.Filter.{Bloom, block_for}
use quickbloom.Quickbloom.Valid.{IsValid}
use quickbloom.Quickbloom.Batch.{put_all, put_all-IsValid, put_all-append, block_for-put_all}
use quickbloom.Concurrency.{
  Writer, resting, storing, Reader, System, update, register, AllLanes, Step, load, store, return,
  ask, read, answer, initial, Run, stop, step,
}
use quickbloom.Concurrency.Writers.{IsMid, load-IsMid, store-IsMid, full-IsMid}
use quickbloom.Concurrency.Queries.{
  ReaderOk, IsConsistent, update-all, read-IsReading, answer-one, ReaderOk-append,
}

module _ (b : Bloom) (v : IsValid b) (s : System) (ok : IsConsistent b s) where
  -- Only thread 0 is ever in an insertion.
  the_writer : (i h : ℕ) (reg stored : List ℕ) → s.writers i ≡ storing h reg stored → i ≡ 0
  the_writer zero h reg stored e = refl
  the_writer (suc i) h reg stored e = let idle = ok.only_one (suc i) (omega arith) in cc

  others_rest : (w : Writer) (j : ℕ) → 0 < j → update s.writers 0 w j ≡ resting
  others_rest w j lt = rw (ne→== j 0 (omega arith)) (ok.only_one j lt)

  same_register : (h : ℕ) (mem : List ℕ) → register b mem h ≡ register (put_all b s.done) mem h
  unfolding register
  same_register h mem = rw (block_for-put_all s.done b h) refl

  load-IsConsistent :
      (h : ℕ)
      → s.writers 0 ≡ resting
      → IsConsistent b
          (record s { writers = update s.writers 0 (storing h (register b s.mem h) []) })
  load-IsConsistent h rests = record {
    only_one = others_rest _;
    writer =
        let same : s.mem ≡ (put_all b s.done).bits = rw rests at ok.writer in
        rw (same_register h s.mem, same)
          (load-IsMid (put_all b s.done) h (put_all-IsValid s.done b v));
    queries = ok.queries;
  }

  store-IsConsistent :
      (h : ℕ) (reg stored : List ℕ) (lane : ℕ)
      → s.writers 0 ≡ storing h reg stored
      → lane < 8
      → IsConsistent b (record s {
        mem = set s.mem (block_for b h + lane) (get_or reg lane 0);
        writers = update s.writers 0 (storing h reg (lane ∷ stored));
      })
  store-IsConsistent h reg stored lane e lt = record {
    only_one = others_rest _;
    writer =
        let mid : IsMid (put_all b s.done) h s.mem reg stored = rw e at ok.writer in
        rw (← block_for-put_all s.done b h) (
          store-IsMid (put_all b s.done) h s.mem reg stored lane (put_all-IsValid s.done b v) lt
            mid);
    queries = ok.queries;
  }

  return-IsConsistent :
      (h : ℕ) (reg stored : List ℕ)
      → s.writers 0 ≡ storing h reg stored
      → AllLanes stored
      → IsConsistent b
          (record s { writers = update s.writers 0 resting; done = s.done ++ (h ∷ []) })
  return-IsConsistent h reg stored e all = record {
    only_one = others_rest _;
    writer =
        let mid : IsMid (put_all b s.done) h s.mem reg stored = rw e at ok.writer in
        rw (put_all-append s.done (h ∷ []) b)
          (full-IsMid (put_all b s.done) h s.mem reg stored (put_all-IsValid s.done b v) all mid);
    queries = λ r. ReaderOk-append b s.done h (s.readers r) (ok.queries r);
  }

  query-IsConsistent :
      (r : ℕ) (q : Reader)
      → ReaderOk b s.done q
      → IsConsistent b (record s { readers = update s.readers r q })
  query-IsConsistent r q good = record {
    only_one = ok.only_one;
    writer = ok.writer;
    queries = update-all (λ r q. ReaderOk b s.done q) s.readers r q good ok.queries;
  }

  step-IsConsistent : {t : System} → Step 1 b s t → IsConsistent b t
  step-IsConsistent (load zero h lt rests there) = load-IsConsistent h rests
  step-IsConsistent (load (suc i) h lt rests there) = absurd (omega arith)
  step-IsConsistent (store i h reg stored lane e lt fresh there) =
      let first = the_writer i h reg stored e in
      rw first (store-IsConsistent h reg stored lane (rw first at e) lt)
  step-IsConsistent (return i h reg stored e all) =
      let first = the_writer i h reg stored e in
      rw first (return-IsConsistent h reg stored (rw first at e) all)
  step-IsConsistent (ask r h e) = query-IsConsistent r _ (record {
    sized = length-replicate {A = ℕ} 8 0;
    words = All-replicate IsWord32 8 0 (omega arith);
    returned = λ is. is;
    sees = λ is i lt n. absurd n;
  })
  step-IsConsistent (read r h before reg seen lane e lt fresh there) =
      query-IsConsistent r _
        (read-IsReading b s h before reg seen lane v ok lt (rw e at (ok.queries r)))
  step-IsConsistent (answer r h before reg seen e all) =
      query-IsConsistent r _ (answer-one b s.done h before reg seen (rw e at (ok.queries r)) all)

pub run-IsConsistent :
    (b : Bloom) {s : System} → IsValid b → Run 1 b (initial b) s → IsConsistent b s
run-IsConsistent b v stop = record { only_one = λ i lt. refl; writer = refl; queries = λ r. tt }
run-IsConsistent b v (step {t} run next) = step-IsConsistent b v t (run-IsConsistent b v run) next
