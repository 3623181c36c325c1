-- ===== src/LinkedList/Refinement.antt =====
-- The operations of List (code/threads/list.cc) do on the heap what they do on a list of pairs, an item
-- with its key.
use usc_cs.Common.{
  ℕ, suc, ◌+◌, ◌≤◌, ◌≡◌, inl, inr, refl, ◌∙◌, sym, ap, false, none, some, List, [], ◌∷◌, ◌++◌, ltb,
  ◌==◌, if◌then◌else◌, length, ◌||◌, put, subst, Bool-cases, arith,
}
use usc_cs.LinkedList.{ListElement, Store, new_element, sorted_insert, insert_loop}
use usc_cs.LinkedList.Chains.{Node, Chain, at, Apart, Chain-put}
use usc_cs.LinkedList.Insertion.{end_of, element, insert, insert_loop_lem}

-- The List object and the heap hold these nodes, in this order.
pub record Shape (s : Store) (ns : List Node) : Type 0 where
  pub chain : Chain s.cell s.first ns none
  pub ends : s.last ≡ end_of ns
  pub apart : Apart ns
  pub below : (a : ℕ) → s.next_free ≤ a → at a ns ≡ false
  pub count : length ns ≤ s.next_free

abbrev pub values : List Node → List (ℕ × ℕ)
values [] = []
values (n ∷ ns) = (n.item, n.key) ∷ values ns

-- The list holds these items with their keys.
pub record Holds (s : Store) (xs : List (ℕ × ℕ)) : Type 0 where
  pub nodes : List Node
  pub shape : Shape s nodes
  pub same_values : values nodes ≡ xs

abbrev pub insert_value : ℕ → ℕ → List (ℕ × ℕ) → List (ℕ × ℕ)
insert_value item key [] = (item, key) ∷ []
insert_value item key ((i, k) ∷ xs) =
    if ltb key k then (item, key) ∷ (i, k) ∷ xs else (i, k) ∷ insert_value item key xs

pub values-insert :
    (e : Node) (ns : List Node) → values (insert e ns) ≡ insert_value e.item e.key (values ns)
values-insert e [] = refl
values-insert e (n ∷ ns) = elim (Bool-cases (ltb e.key n.key)) [
  | inl before ↦ rw before refl
  | inr pass ↦ rw pass (ap (λ xs. (n.item, n.key) ∷ xs) (values-insert e ns))
]

pub values-append : (ms ns : List Node) → values (ms ++ ns) ≡ values ms ++ values ns
values-append [] ns = refl
values-append (m ∷ ms) ns = ap (λ xs. (m.item, m.key) ∷ xs) (values-append ms ns)

at-insert : (a : ℕ) (e : Node) (ns : List Node) → at a (insert e ns) ≡ ((a == e.addr) || at a ns)
at-insert a e [] = refl
at-insert a e (n ∷ ns) = ground (arith, at-insert a e ns)

Apart-insert : (e : Node) (ns : List Node) → at e.addr ns ≡ false → Apart ns → Apart (insert e ns)
Apart-insert e [] h apart = (refl, tt)
Apart-insert e (n ∷ ns) h (far, apart) = elim (Bool-cases (ltb e.key n.key)) [
  | inl before ↦ rw before (h, (far, apart))
  | inr pass ↦
      rw pass (ground (arith, at-insert n.addr e ns), Apart-insert e ns (ground arith) apart)
]

length-insert : (e : Node) (ns : List Node) → length (insert e ns) ≡ suc (length ns)
length-insert e [] = refl
length-insert e (n ∷ ns) = ground (arith, length-insert e ns)

-- The new element of `new` on the heap.
abbrev pub fresh : ℕ → ℕ → Store → Node
fresh item key s = record { addr = s.next_free; item = item; key = key }

-- A list with one node more, put where its key belongs.
grown :
    (s s' : Store) (e : Node) (ns : List Node)
    → Shape s ns
    → e.addr ≡ s.next_free
    → s'.next_free ≡ s.next_free + 1
    → Chain s'.cell s'.first (insert e ns) none
    → s'.last ≡ end_of (insert e ns)
    → Shape s' (insert e ns)
grown s s' e ns h new size c ends = record {
  chain = c;
  ends = ends;
  apart = Apart-insert e ns (h.below e.addr (omega arith)) h.apart;
  below = λ a far. ground (arith, at-insert a e ns, h.below a);
  count = let count = h.count in omega (arith, length-insert e ns);
}

-- `new` leaves the chain of the list as it is.
pub new-Chain :
    (s : Store) (item key : ℕ) (ns : List Node)
    → Shape s ns
    → Chain (new_element item key s).cell s.first ns none
new-Chain s item key ns h =
    Chain-put s.cell s.first none ns s.next_free _ (h.below s.next_free (omega arith)) h.chain

-- Behind the first element SortedInsert is its loop.
past_first :
    (item key : ℕ) (s : Store) (a : ℕ) (f : ListElement)
    → s.first ≡ some a
    → (new_element item key s).cell a ≡ some f
    → ltb key f.key ≡ false
    → sorted_insert item key s
      ≡ insert_loop s.next_free s.first s.next_free key (new_element item key s)
unfolding sorted_insert
past_first item key s a f here eq pass = simp (here, eq, pass)

pub insert_nodes :
    (item key : ℕ) (s : Store) (ns : List Node)
    → Shape s ns
    → (s' : Store) × (sorted_insert item key s ≡ some s') × Shape s' (insert (fresh item key s) ns)
unfolding sorted_insert
insert_nodes item key s [] h =
    let empty = h.chain in
    let e = some s.next_free in
    (
      record (new_element item key s) { first = e; last = e },
      simp empty,
      grown s _ (fresh item key s) [] h refl refl (refl, none, ground arith, refl) refl,
    )
insert_nodes item key s (n ∷ ns) h =
    let e = fresh item key s in
    let (here, next, eq, rest) = new-Chain s item key (n ∷ ns) h in
    let new_cell : (new_element item key s).cell s.next_free ≡ element e none = ground arith in
    elim (Bool-cases (ltb key n.key)) [
      | inl before ↦
          let s' = record (new_element item key s) {
            cell = put (new_element item key s).cell s.next_free (element e s.first);
            first = some s.next_free;
          } in
          let far = h.below s.next_free (omega arith) in
          (
            s',
            simp (here, eq, before, new_cell),
            grown s s' e (n ∷ ns) h refl refl
                (rw before (
                  refl,
                  s.first,
                  ground arith,
                  Chain-put _ _ none (n ∷ ns) s.next_free _ far (here, next, eq, rest),
                ))
                (rw before h.ends),
          )
      | inr pass ↦
          let (s', run, done) =
            insert_loop_lem s.next_free n ns e (new_element item key s)
              (let count = h.count in omega arith) (refl, next, eq, rest) h.apart
              (h.below s.next_free (omega arith)) new_cell h.ends in
          let from_first : Chain s'.cell s'.first (n ∷ insert e ns) none =
            subst (λ p. Chain s'.cell p (n ∷ insert e ns) none) (sym (done.begins ∙ here))
              done.chain in
          (
            s',
            past_first item key s n.addr _ here eq pass
                ∙ ap (λ p. insert_loop s.next_free p s.next_free key (new_element item key s)) here
                ∙ run,
            grown s s' e (n ∷ ns) h refl done.free_from (rw pass from_first) (rw pass done.ends),
          )
    ]
