-- ===== src/LinkedList/Tests.antt =====
-- A small list of code/threads/list.cc.
use usc_cs.Common.{ℕ, ◌≡◌, refl, none, some, List, [], ◌∷◌, ◌++◌, arith}
use usc_cs.LinkedList.{Store, new_list, sorted_insert}
use usc_cs.LinkedList.Refinement.{Holds}
use usc_cs.LinkedList.Sorting.{new_list_lem, sorted_insert_lem, IsSorted, UpTo, Above}

abbrev empty : Store
empty = new_list (record { next_free = 0; cell = λ _. none; first = none; last = none })

empty-Holds : Holds empty []
empty-Holds = new_list_lem (record { next_free = 0; cell = λ _. none; first = none; last = none })

-- One item, 8 with the key 5.
abbrev one : Store
one = record {
  next_free = 1;
  cell = λ _. some (record { item = 8; key = 5; next = none });
  first = some 0;
  last = some 0;
}

one-Holds : Holds one ((8, 5) ∷ [])
one-Holds = record {
  nodes = record { addr = 0; item = 8; key = 5 } ∷ [];
  shape = record {
    chain = (refl, none, refl, refl);
    ends = refl;
    apart = (refl, tt);
    below = λ a far. ground arith;
    count = omega arith;
  };
  same_values = refl;
}

abbrev one_items : List (ℕ × ℕ)
one_items = (8, 5) ∷ []

sorted_insert_example :
    (s' : Store) × (before after : List (ℕ × ℕ)) × (sorted_insert 3 5 one ≡ some s')
    × (one_items ≡ before ++ after)
    × Holds s' (before ++ (3, 5) ∷ after)
    × IsSorted (before ++ (3, 5) ∷ after)
    × UpTo 5 before
    × Above 5 after
sorted_insert_example = sorted_insert_lem 3 5 one one_items one-Holds (tt, tt)
