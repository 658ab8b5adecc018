-- ===== src/Fuzz/DeserializeReturns.antt =====
-- How the runs of fuzz_deserialize.c end.
use quickbloom.Quickbloom.Restore as Restore
use quickbloom.Quickbloom.Restore.{deserialize-serialize}
use quickbloom.Fuzz.Run.{Run}
