-- ===== src/Lib.antt =====
-- quickbloom: a split block Bloom filter for AVX2, its serialisation and sizing, and filters of
-- the benchmark that it is compared with.
--
-- Parts and files. A file of the development models the code named after it; the other files of
-- the same folder are about those definitions.
--   quickbloom.c      Quickbloom/Hash       hash16, fasthash64_var, bloom_hash
--                     Quickbloom/Reads      the same with each read of the key checked
--                     Quickbloom/Filter     bloom_t, mask_for, block_for, log2_pow2
--                     Quickbloom/Probe      qb_insert, qb_contains and the prehash forms, APPLY
--                     Quickbloom/Bulk       the four bulk functions, unrolled loops included
--                     Quickbloom/Lifecycle  qb_new, qb_free
--                     Quickbloom/Serialize  qb_serialized_size, qb_serialize, qb_deserialize
--                     Concurrency           the two prehash functions, from several threads
--   qb_util.c         Quickbloom/Estimate   qb_estimate_bits
--   comparisons/bloom_impala.c   Impala/Xxh64, Impala/Filter, Impala/Lifecycle
--   comparisons/bloom_classic.c  Classic/Hash, Classic/Filter, Classic/Lifecycle
--   comparisons/bloom_krassovsky.c  Krassovsky/Table, Krassovsky/Filter, Krassovsky/Batch,
--                     Krassovsky/Lifecycle
--   comparisons/bloom_xorfuse.c  Xorfuse/Filter
--   tools/fuzz_insert.c          Fuzz/Insert
--   tools/fuzz_fasthash_var.c    Fuzz/Fasthash
--   tools/fuzz_deserialize.c     Fuzz/Deserialize
--   the loop `while (p < n) p <<= 1` that several files have: Machine/Doubling
--   the array that is zeroed by memset or comes of calloc, in three files: Machine/Zeroed
--
-- State. A filter is a record with the header's fields and the array as a list of words. An
-- operation takes the filter and returns the new one or an answer in an Option, whose `none` is an
-- access out of bounds, a misaligned vector access, or other undefined behaviour. The invariant of
-- a filter is IsValid (Quickbloom/Valid, Classic/Valid, Impala/Refines, Krassovsky/Insert) or
-- Holds (Xorfuse/Build). The creating functions also take the heap, as the list of live
-- allocations (Machine/Alloc), and an allocator, a parameter that may refuse any call. Pointers
-- are word indices into the array; a NULL result is an inner `none`.
--
-- Specification. Spec/Textbook is the Bloom filter of the literature: its state is a set of
-- hashes, a list up to order and repetition. Spec/Interface is what a filter of the repository
-- offers for prehashed keys and the laws that make it a Bloom filter; the Refines file of each of
-- the four filters fills it. Spec/Trace runs a client's calls on an implementation and on the
-- specification.
--
-- Concurrency. A state has the array, the inserting threads, the queries, and the hashes whose
-- insertions have returned. A step is the load of a writer's block, the store of one of the eight
-- words of its register, the return, or the start of a query, the load of one word, its answer. A
-- load or a store of a block that is out of bounds or misaligned has no step: the thread is stuck
-- (IsAccessible). The words go in any order, which is more than the hardware does; steps take
-- effect in the order of the run, so reordering by the compiler or by caches is not modelled.
--
-- Machine. Integers are natural numbers with every wrap written out (Machine/Word); memcpy to an
-- integer is little-endian. Machine/Lanes and Krassovsky/Lanes64 have the AVX2 instructions lane
-- by lane as Intel documents them, and Machine/Memory the aligned load and store. Bits has the
-- laws of the bit operations, Base the shared names and the lemmas on lists and powers of two.
--
-- Interaction. Bulk, Probe and Serialize work on the same array; qb_new and qb_deserialize share
-- the end of their bodies (build). Impala/Agree compares quickbloom.c with bloom_impala.c on the
-- same array.
--
-- Fuzz targets. A target is a function of its input, the heap and the allocator; Fuzz/Run has its
-- results: it returns a heap, traps, fails an assert, or faults. A read past the input is a fault:
-- Quickbloom/Reads has the key hashes with each read checked. What a block of malloc holds is a
-- parameter.
--
-- Third-party code. bloom_xorfuse.c calls a vendored library, comparisons/binaryfusefilter.h. Its
-- functions are the parameter FuseLibrary (Xorfuse/Fuse), and IsReliable is what the file relies
-- on: populating succeeds, a populated filter finds its keys and answers for every hash, and the
-- keys that were passed in stay the same, in some order. malloc and realloc there are the
-- parameter Memory.
--
-- Fuel. The loops of log2_pow2 and of rounding up to a power of two run on fuel 64, the number of
-- powers of two that a size_t holds; the loop that grows the key buffer on 65, since it may start
-- from 0; and the loop that picks a free bit of the mask table on 1,000. All other loops recur on
-- their number of rounds or on a list.
--
-- Left out. Timing and prefetching; __builtin_expect, which only guides the compiler; the contents
-- of double arithmetic and log, a parameter of Estimate, where a cast out of range faults; a value
-- of QB_DESERIALIZE_MAX_BYTES other than the default; bloom_free of bloom_xorfuse.c. Keys are
-- lists of bytes, and a byte past the end of a list reads as 0, except in the fuzz targets. Not
-- modelled are the vendored headers, quickbloom.h, which only declares, the benchmark drivers, the
-- Rust shims and the Python harness.
pub mod Base
pub mod Bits
pub mod Machine
pub mod Xorfuse
pub mod Fuzz
pub mod Concurrency
pub mod Spec
pub mod Quickbloom
pub mod Impala
pub mod Classic
pub mod Krassovsky
