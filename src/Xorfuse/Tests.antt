-- ===== src/Xorfuse/Tests.antt =====
-- A run of the theorem with a library that keeps the keys in a list.
use quickbloom.Base.{
  ℕ, ◌/◌, ◌≤◌, ◌≡◌, refl, arith, List, [], ◌∷◌, Bool, true, some, IsIn, take, replicate,
  length-replicate, length, to_int, ap,
}
use quickbloom.Spec.Textbook.{member, member_iff}
use quickbloom.Xorfuse.Fuse.{FuseLibrary, IsReliable, Memory, Grants}
use quickbloom.Xorfuse.Filter.{Shim, new, contains_prehash}
use quickbloom.Xorfuse.Membership.{
  Call, insert, insert_bulk, contains, contains_bulk, after, inserted, contains-after,
}

abbrev listed : FuseLibrary
listed = record {
  Filter = List ℕ;
  zeroed = [];
  allocate = λ n f. (true, []);
  populate = λ keys n f. (true, (keys, take n keys));
  contain = λ h f. some (to_int (member h f));
  free = λ f. [];
}

bit-le : (t : Bool) → to_int t ≤ 1
bit-le t = ground arith

listed-IsReliable : IsReliable listed
listed-IsReliable = record {
  succeeds = λ keys n f le. refl;
  finds = λ keys n h f e is. ap (λ t. some (to_int t)) ((member_iff h (take n keys)).1 is);
  answers =
      λ keys n h f e. (to_int (member h (take n keys)), refl, bit-le (member h (take n keys)));
  same_length = λ keys n f. refl;
  same_keys = λ keys n h f. (λ i. i, λ i. i);
}

zeros-length :
    (nbytes : ℕ) (ws : List ℕ) → some (replicate (nbytes / 8) 0) ≡ some ws → length ws ≡ nbytes / 8
zeros-length nbytes ws e = cc (length-replicate {A = ℕ} (nbytes / 8) 0)

abbrev zeros : Memory
zeros = record { block = λ nbytes. some (replicate (nbytes / 8) 0); length-block = zeros-length }

zeros-Grants : Grants zeros
zeros-Grants nbytes = (replicate (nbytes / 8) 0, refl)

abbrev calls : List Call
calls = contains 7 ∷ insert 7 ∷ contains_bulk (1 ∷ 7 ∷ []) ∷ insert_bulk (3 ∷ 4 ∷ 3 ∷ []) ∷ []

contains-after_example :
    (x : Shim (List ℕ)) × (c : ℕ) × (y : Shim (List ℕ)) × (after listed zeros
        (new listed zeros 5000)
        calls
      ≡ some x)
    × (contains_prehash listed zeros x 7 ≡ some (c, y))
    × (c ≤ 1)
    × (IsIn 7 (inserted calls []) → c ≡ 1)
contains-after_example =
    contains-after listed zeros 5000 calls 7 listed-IsReliable zeros-Grants (omega arith)
      (omega arith)
