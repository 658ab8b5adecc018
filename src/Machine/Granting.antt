-- ===== src/Machine/Granting.antt =====
-- An allocator that always has room, and a heap on which nothing is live, for the tests.
use quickbloom.Base.{ℕ, ◌/◌, ◌≡◌, List, [], some, true, length, replicate, length-replicate}
use quickbloom.Machine.Alloc.{Heap, Allocator}

pub granting_length :
    (heap : Heap) (nbytes : ℕ) (ws : List ℕ)
    → some (replicate (nbytes / 4) 0) ≡ some ws
    → length ws ≡ nbytes / 4
granting_length heap nbytes ws e = cc (length-replicate {A = ℕ} (nbytes / 4) 0)

abbrev pub granting : Allocator
granting = record {
  grants = λ heap nbytes. true;
  block = λ heap nbytes. some (replicate (nbytes / 4) 0);
  length-block = granting_length;
}

abbrev pub nothing_live : Heap
nothing_live = record { live = []; next = 0 }
