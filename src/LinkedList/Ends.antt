-- ===== src/LinkedList/Ends.antt =====
-- List::Append, List::Prepend and List::Remove on the nodes of a list.
use usc_cs.Common.{
  ℕ, ◌≡◌, inl, inr, refl, ◌∙◌, sym, ap, Bool, true, false, Option, none, some, List, [], ◌∷◌, ◌++◌,
  ◌==◌, same, same→eq, if◌then◌else◌, length-append, put, Bool-cases, arith,
}
use usc_cs.LinkedList.{
  ListElement, Store, new_element, append, prepend, sorted_remove, remove_first,
}
use usc_cs.LinkedList.Chains.{Node, Chain, at, Apart, Chain-put, at-append}
use usc_cs.LinkedList.Insertion.{end_of, element}
use usc_cs.LinkedList.Refinement.{Shape, fresh, new-Chain}

-- The last node, and what a write of its next pointer does.
record Last (cell : ℕ → Option ListElement) (p : Option ℕ) (ns : List Node) (e : Node) (l : Node)
    : Type 0 where
  is_end : end_of ns ≡ some l.addr
  in_heap : cell l.addr ≡ element l none
  among : at l.addr ns ≡ true
  extended : Chain (put cell l.addr (element l (some e.addr))) p (ns ++ e ∷ []) none

last_lem :
    (cell : ℕ → Option ListElement) (p : Option ℕ) (m : Node) (ms : List Node) (e : Node)
    → Chain cell p (m ∷ ms) none
    → Apart (m ∷ ms)
    → at e.addr (m ∷ ms) ≡ false
    → cell e.addr ≡ element e none
    → (l : Node) × Last cell p (m ∷ ms) e l
last_lem cell p m [] e (here, next, eq, stop) apart new cell_e = (
  m,
  record {
    is_end = refl;
    in_heap = eq ∙ ap (element m) stop;
    among = ground arith;
    extended = (here, some e.addr, ground arith, (refl, none, ground arith, refl));
  },
)
last_lem cell p m (n ∷ ns) e (here, next, eq, rest) (far, apart) new cell_e =
    let (l, h) = last_lem cell next n ns e rest apart (ground arith) cell_e in
    let among = h.among in
    (
      l,
      record {
        is_end = h.is_end;
        in_heap = h.in_heap;
        among = ground arith;
        extended = (here, next, kept l.addr among (element l (some e.addr)), h.extended);
      },
    )
  where
    kept :
        (a : ℕ)
        → at a (n ∷ ns) ≡ true
        → (x : Option ListElement) → put cell a x m.addr ≡ element m next
    kept a among x = elim (Bool-cases (a == m.addr)) [
      | inl e ↦ let eq : a ≡ m.addr = ground arith in absurd cc
      | inr e ↦ rw e eq
    ]

end_of-append : (ns : List Node) (e : Node) → end_of (ns ++ e ∷ []) ≡ some e.addr
end_of-append [] e = refl
end_of-append (m ∷ []) e = refl
end_of-append (m ∷ n ∷ ns) e = end_of-append (n ∷ ns) e

Apart-append : (ns : List Node) (e : Node) → at e.addr ns ≡ false → Apart ns → Apart (ns ++ e ∷ [])
Apart-append [] e far apart = (refl, tt)
Apart-append (n ∷ ns) e far (out, apart) =
    (ground (arith, at-append n.addr ns (e ∷ [])), Apart-append ns e (ground arith) apart)

pub append_nodes :
    (item : ℕ) (s : Store) (ns : List Node)
    → Shape s ns
    → (s' : Store) × (append item s ≡ some s') × Shape s' (ns ++ fresh item 0 s ∷ [])
unfolding append
append_nodes item s [] h =
    let e = some s.next_free in
    let empty = h.chain in
    let below = h.below in
    (
      record (new_element item 0 s) { first = e; last = e },
      simp empty,
      record {
        chain = (refl, none, ground arith, refl);
        ends = refl;
        apart = (refl, tt);
        below = λ a far. ground arith;
        count = omega arith;
      },
    )
append_nodes item s (n ∷ ns) h =
    let e = fresh item 0 s in
    let c = new-Chain s item 0 (n ∷ ns) h in
    let new_cell : (new_element item 0 s).cell s.next_free ≡ element e none = ground arith in
    let far = h.below s.next_free (omega arith) in
    let (l, at_end) = last_lem _ s.first n ns e c h.apart far new_cell in
    let s' = record (new_element item 0 s) {
      cell = put (new_element item 0 s).cell l.addr (element l (some s.next_free));
      last = some s.next_free;
    } in
    let here = c.0 in
    let count = h.count in
    (
      s',
      simp (here, h.ends, at_end.is_end, at_end.in_heap),
      record {
        chain = at_end.extended;
        ends = sym (end_of-append (n ∷ ns) e);
        apart = Apart-append (n ∷ ns) e far h.apart;
        below = λ a out. ground (arith, at-append a (n ∷ ns) (e ∷ []), h.below a);
        count = omega (arith, length-append (n ∷ ns) (e ∷ []));
      },
    )

pub prepend_nodes :
    (item : ℕ) (s : Store) (ns : List Node)
    → Shape s ns
    → (s' : Store) × (prepend item s ≡ some s') × Shape s' (fresh item 0 s ∷ ns)
unfolding prepend
prepend_nodes item s [] h =
    let e = some s.next_free in
    let empty = h.chain in
    (
      record (new_element item 0 s) { first = e; last = e },
      simp empty,
      record {
        chain = (refl, none, ground arith, refl);
        ends = refl;
        apart = (refl, tt);
        below = λ a far. ground arith;
        count = omega arith;
      },
    )
prepend_nodes item s (n ∷ ns) h =
    let e = fresh item 0 s in
    let c = new-Chain s item 0 (n ∷ ns) h in
    let new_cell : (new_element item 0 s).cell s.next_free ≡ element e none = ground arith in
    let far = h.below s.next_free (omega arith) in
    let s' = record (new_element item 0 s) {
      cell = put (new_element item 0 s).cell s.next_free (element e s.first);
      first = some s.next_free;
    } in
    let here = c.0 in
    let count = h.count in
    (
      s',
      simp (here, new_cell),
      record {
        chain = (refl, s.first, ground arith, Chain-put _ _ none (n ∷ ns) s.next_free _ far c);
        ends = h.ends;
        apart = (far, h.apart);
        below = λ a out. ground (arith, h.below a);
        count = omega arith;
      },
    )

pub remove_none : (s : Store) → Shape s [] → sorted_remove s ≡ some (s, none)
unfolding sorted_remove
remove_none s h = ap (λ p. remove_first p s) h.chain

removed : (s : Store) (a : ℕ) (e : ListElement) (one : Bool) → Store
removed s a e one = record s {
  first = if one then none else e.next;
  last = if one then none else s.last;
  cell = put s.cell a none;
}

remove_run :
    (s : Store) (a : ℕ) (e : ListElement) (one : Bool)
    → s.first ≡ some a
    → s.cell a ≡ some e
    → same s.first s.last ≡ one
    → sorted_remove s ≡ some (removed s a e one, some (e.item, e.key))
unfolding sorted_remove removed
remove_run s a e one here eq test = ap (λ p. remove_first p s) here ∙ rw (eq, test) refl

end_of-at : (n : Node) (ns : List Node) (a : ℕ) → end_of (n ∷ ns) ≡ some a → at a (n ∷ ns) ≡ true
end_of-at n [] a e = ground arith
end_of-at n (m ∷ ms) a e = ground (arith, end_of-at m ms a e)

-- The first node is the last one exactly where it is alone.
only_node :
    (n m : Node) (ms : List Node)
    → at n.addr (m ∷ ms) ≡ false
    → same (some n.addr) (end_of (m ∷ ms)) ≡ false
only_node n m ms far = elim (Bool-cases (same (some n.addr) (end_of (m ∷ ms)))) [
  | inr e ↦ e
  | inl e ↦
      let on = end_of-at m ms n.addr (sym (same→eq (some n.addr) (end_of (m ∷ ms)) e)) in absurd cc
]

pub remove_some :
    (s : Store) (n : Node) (ns : List Node)
    → Shape s (n ∷ ns)
    → (s' : Store) × (sorted_remove s ≡ some (s', some (n.item, n.key))) × Shape s' ns
unfolding removed
remove_some s n [] h =
    let (here, next, eq, stop) = h.chain in
    (
      _,
      remove_run s n.addr _ true here eq (rw (here, h.ends) (ground arith)),
      record { chain = refl; ends = refl; apart = tt; below = λ a far. refl; count = omega arith },
    )
remove_some s n (m ∷ ms) h =
    let (here, next, eq, rest) = h.chain in
    let (far, apart) = h.apart in
    let count = h.count in
    (
      _,
      remove_run s n.addr _ false here eq (rw (here, h.ends) (only_node n m ms far)),
      record {
        chain = Chain-put s.cell next none (m ∷ ms) n.addr none far rest;
        ends = h.ends;
        apart = apart;
        below = λ a out. ground (arith, h.below a);
        count = omega arith;
      },
    )
