-- ===== src/Fuzz/FasthashReturns.antt =====
-- How the runs of fuzz_fasthash_var.c end.
use quickbloom.Fuzz.Run.{Run}
use quickbloom.Fuzz.Fasthash as Fasthash
