-- ===== src/LinkedList/Sorting.antt =====
-- List (code/threads/list.cc) as a queue and as a list sorted by key.
use usc_cs.Common.{
  ℕ, ◌≤◌, ◌<◌, ◌≡◌, ◌⊎◌, inl, inr, refl, ◌∙◌, sym, ap, none, some, List, [], ◌∷◌, ◌++◌, ltb, subst,
  Bool-cases, arith,
}
use usc_cs.LinkedList.{Store, new_list, append, prepend, sorted_insert, sorted_remove}
use usc_cs.LinkedList.Chains.{Node}
use usc_cs.LinkedList.Refinement.{
  Shape, Holds, values, insert_value, values-insert, values-append, insert_nodes, fresh,
}
use usc_cs.LinkedList.Ends.{append_nodes, prepend_nodes, remove_none, remove_some}

pub new_list_lem : (s : Store) → Holds (new_list s) []
new_list_lem s = record {
  nodes = [];
  shape = record {
    chain = refl;
    ends = refl;
    apart = tt;
    below = λ a far. refl;
    count = omega arith;
  };
  same_values = refl;
}

-- On a heap and a List object that hold the items `xs`, Append and Prepend return, and the item stands
-- behind the others or before them, with the key 0; SortedInsert returns, and the item stands before
-- the first one with a greater key.
pub grow_lem :
    (item key : ℕ) (s : Store) (xs : List (ℕ × ℕ))
    → Holds s xs
    → ((s' : Store) × (append item s ≡ some s') × Holds s' (xs ++ (item, 0) ∷ []))
      × ((s' : Store) × (prepend item s ≡ some s') × Holds s' ((item, 0) ∷ xs))
      × ((s' : Store) × (sorted_insert item key s ≡ some s') × Holds s' (insert_value item key xs))
grow_lem item key s xs h =
    let ns = h.nodes in
    let v = h.same_values in
    let (a, run_a, shape_a) = append_nodes item s ns h.shape in
    let (p, run_p, shape_p) = prepend_nodes item s ns h.shape in
    let (i, run_i, shape_i) = insert_nodes item key s ns h.shape in
    (
      (
        a,
        run_a,
        record {
          nodes = _;
          shape = shape_a;
          same_values = values-append ns _ ∙ ap (λ ys. ys ++ (item, 0) ∷ []) v;
        },
      ),
      (p, run_p, record { nodes = _; shape = shape_p; same_values = ap (λ ys. (item, 0) ∷ ys) v }),
      (
        i,
        run_i,
        record {
          nodes = _;
          shape = shape_i;
          same_values = values-insert (fresh item key s) ns ∙ ap (insert_value item key) v;
        },
      ),
    )

-- Remove on an empty list answers NULL and changes nothing; otherwise it answers the first item with
-- its key and leaves the others.
pub remove_lem :
    (s : Store) (xs : List (ℕ × ℕ))
    → Holds s xs
    → ((xs ≡ []) × (sorted_remove s ≡ some (s, none)))
      ⊎ ((x : ℕ × ℕ) × (rest : List (ℕ × ℕ)) × (s' : Store) × (xs ≡ x ∷ rest)
          × (sorted_remove s ≡ some (s', some x))
          × Holds s' rest)
remove_lem s xs h = go h.nodes h.shape h.same_values
  where
    go :
        (ns : List Node)
        → Shape s ns
        → values ns ≡ xs
        → ((xs ≡ []) × (sorted_remove s ≡ some (s, none)))
          ⊎ ((x : ℕ × ℕ) × (rest : List (ℕ × ℕ)) × (s' : Store) × (xs ≡ x ∷ rest)
              × (sorted_remove s ≡ some (s', some x))
              × Holds s' rest)
    go [] shape v = inl (sym v, remove_none s shape)
    go (n ∷ ns) shape v =
        let (s', run, left) = remove_some s n ns shape in
        inr (
          (n.item, n.key),
          values ns,
          s',
          sym v,
          run,
          record { nodes = ns; shape = left; same_values = refl },
        )

-- Every key is at most `k`, or greater than it.
abbrev pub UpTo : ℕ → List (ℕ × ℕ) → Type 0
UpTo k [] = Unit
UpTo k ((i, l) ∷ xs) = (l ≤ k) × UpTo k xs

abbrev pub Above : ℕ → List (ℕ × ℕ) → Type 0
Above k [] = Unit
Above k ((i, l) ∷ xs) = (k < l) × Above k xs

abbrev pub AtLeast : ℕ → List (ℕ × ℕ) → Type 0
AtLeast k [] = Unit
AtLeast k ((i, l) ∷ xs) = (k ≤ l) × AtLeast k xs

abbrev pub IsSorted : List (ℕ × ℕ) → Type 0
IsSorted [] = Unit
IsSorted ((i, k) ∷ xs) = AtLeast k xs × IsSorted xs

pub AtLeast-Above : (k l : ℕ) (xs : List (ℕ × ℕ)) → k < l → AtLeast l xs → Above k xs
AtLeast-Above k l [] h a = tt
AtLeast-Above k l ((i, m) ∷ xs) h (b, a) = (omega arith, AtLeast-Above k l xs h a)

AtLeast-weaken : (k l : ℕ) (xs : List (ℕ × ℕ)) → k ≤ l → AtLeast l xs → AtLeast k xs
AtLeast-weaken k l [] h a = tt
AtLeast-weaken k l ((i, m) ∷ xs) h (b, a) = (omega arith, AtLeast-weaken k l xs h a)

AtLeast-insert :
    (item key k : ℕ) (xs : List (ℕ × ℕ))
    → k ≤ key
    → AtLeast k xs
    → AtLeast k (insert_value item key xs)
AtLeast-insert item key k [] h a = (h, tt)
AtLeast-insert item key k ((i, l) ∷ xs) h (b, a) = elim (Bool-cases (ltb key l)) [
  | inl before ↦ rw before (h, (b, a))
  | inr pass ↦ rw pass (b, AtLeast-insert item key k xs h a)
]

pub insert-IsSorted :
    (item key : ℕ) (xs : List (ℕ × ℕ)) → IsSorted xs → IsSorted (insert_value item key xs)
insert-IsSorted item key [] s = (tt, tt)
insert-IsSorted item key ((i, l) ∷ xs) (a, s) = elim (Bool-cases (ltb key l)) [
  | inl before ↦ rw before ((ground arith, AtLeast-weaken key l xs (ground arith) a), (a, s))
  | inr pass ↦
      rw pass (AtLeast-insert item key l xs (ground arith) a, insert-IsSorted item key xs s)
]

-- Where SortedInsert puts an item among sorted ones.
record Placed (item key : ℕ) (xs : List (ℕ × ℕ)) : Type 0 where
  before : List (ℕ × ℕ)
  after : List (ℕ × ℕ)
  split : xs ≡ before ++ after
  placed : insert_value item key xs ≡ before ++ (item, key) ∷ after
  earlier : UpTo key before
  later : Above key after

place : (item key : ℕ) (xs : List (ℕ × ℕ)) → IsSorted xs → Placed item key xs
place item key [] s = record {
  before = [];
  after = [];
  split = refl;
  placed = refl;
  earlier = tt;
  later = tt;
}
place item key ((i, l) ∷ xs) (a, s) = elim (Bool-cases (ltb key l)) [
  | inl first ↦ record {
    before = [];
    after = (i, l) ∷ xs;
    split = refl;
    placed = rw first refl;
    earlier = tt;
    later = (ground arith, AtLeast-Above key l xs (ground arith) a);
  }
  | inr pass ↦
      let p = place item key xs s in
      record {
        before = (i, l) ∷ p.before;
        after = p.after;
        split = ap (λ ys. (i, l) ∷ ys) p.split;
        placed = rw pass (ap (λ ys. (i, l) ∷ ys) p.placed);
        earlier = (ground arith, p.earlier);
        later = p.later;
      }
]

-- SortedInsert into a list sorted by key returns a sorted list with the same items in the same order
-- and the new one behind all that have its key or a smaller one, before all with a greater key: items
-- with equal keys leave in the order in which they came.
pub sorted_insert_lem :
    (item key : ℕ) (s : Store) (xs : List (ℕ × ℕ))
    → Holds s xs
    → IsSorted xs
    → (s' : Store) × (before after : List (ℕ × ℕ)) × (sorted_insert item key s ≡ some s')
      × (xs ≡ before ++ after)
      × Holds s' (before ++ (item, key) ∷ after)
      × IsSorted (before ++ (item, key) ∷ after)
      × UpTo key before
      × Above key after
sorted_insert_lem item key s xs h sorted =
    let (a, p, (s', run, holds)) = grow_lem item key s xs h in
    let place = place item key xs sorted in
    (
      s',
      place.before,
      place.after,
      run,
      place.split,
      subst (Holds s') place.placed holds,
      subst IsSorted place.placed (insert-IsSorted item key xs sorted),
      place.earlier,
      place.later,
    )
