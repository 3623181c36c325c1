-- ===== src/LinkedList.antt =====
-- code/threads/list.cc: a singly linked list of ListElements on a heap. An operation that returns
-- `none` has followed a NULL pointer or one to a deleted element. A sort key is a simulated time, so
-- a natural number; an item is the pointer the caller passes.
pub mod Chains
pub mod Insertion
pub mod Ends
pub mod Refinement
pub mod Sorting
mod Tests
use usc_cs.Common.{
  ℕ, zero, suc, ◌+◌, Bool, true, false, Option, none, some, ltb, same, if◌then◌else◌, ◌>>=◌, put,
}

pub record ListElement : Type 0 where
  pub item : ℕ
  pub key : ℕ
  pub next : Option ℕ

-- The heap, as far as elements go, and the two pointers of one List. `next_free` is the address
-- that the next `new` returns.
pub record Store : Type 0 where
  pub next_free : ℕ
  pub cell : ℕ → Option ListElement
  pub first : Option ℕ
  pub last : Option ℕ

abbrev pub deref : Store → Option ℕ → Option ListElement
deref s none = none
deref s (some a) = s.cell a

abbrev pub write_next : Store → Option ℕ → Option ℕ → ListElement → Option Store
write_next s none q e = none
write_next s (some a) q e = some (record s { cell = put s.cell a (some (record e { next = q })) })

-- `p->next = q;`
abbrev pub set_next : Option ℕ → Option ℕ → Store → Option Store
set_next p q s = do e ← deref s p; write_next s p q e

-- `new ListElement(item, key)`, at the address `s.next_free`.
abbrev pub new_element : ℕ → ℕ → Store → Store
new_element item key s = record s {
  next_free = s.next_free + 1;
  cell = put s.cell s.next_free (some (record { item = item; key = key; next = none }));
}

-- List::List on a heap, and List::IsEmpty
abbrev pub new_list : Store → Store
new_list s = record s { first = none; last = none }

abbrev pub is_empty : Store → Bool
is_empty s = elim s.first [ none ↦ true | some a ↦ false ]

-- `last->next = element; last = element;`
abbrev pub put_last : ℕ → Store → Option Store
put_last e s = do s' ← set_next s.last (some e) s; some (record s' { last = some e })

-- `element->next = first; first = element;`
abbrev pub put_first : ℕ → Store → Option Store
put_first e s = do s' ← set_next (some e) s.first s; some (record s' { first = some e })

-- `element->next = ptr->next; ptr->next = element;` where ptr->next is `n`
abbrev pub put_between : Option ℕ → ℕ → ℕ → Store → Option Store
put_between ptr e n s = do s' ← set_next (some e) (some n) s; set_next ptr (some e) s'

-- List::Append
unfoldable pub append : ℕ → Store → Option Store
append item s =
    let e = some s.next_free in
    let s' = new_element item 0 s in
    if is_empty s' then some (record s' { first = e; last = e }) else put_last s.next_free s'

-- List::Prepend
unfoldable pub prepend : ℕ → Store → Option Store
prepend item s =
    let e = some s.next_free in
    let s' = new_element item 0 s in
    if is_empty s' then some (record s' { first = e; last = e }) else put_first s.next_free s'

-- The loop of List::SortedInsert from the element `ptr` on, and the code behind it. An element that
-- the loop has to pass has a smaller or an equal key.
unfoldable pub insert_loop : ℕ → Option ℕ → ℕ → ℕ → Store → Option Store
insert_loop zero ptr e key s = none
insert_loop (suc rounds) ptr e key s = do
  here ← deref s ptr
  elim here.next [
    | none ↦ put_last e s
    | some n ↦
        let rest = insert_loop rounds (some n) e key s in
        do there ← s.cell n; if ltb key there.key then put_between ptr e n s else rest
  ]

-- List::SortedInsert. The list has no more elements than the heap has given out.
unfoldable pub sorted_insert : ℕ → ℕ → Store → Option Store
sorted_insert item key s =
    let e = some s.next_free in
    let s' = new_element item key s in
    let looped = insert_loop s.next_free s.first s.next_free key s' in
    if is_empty s'
    then some (record s' { first = e; last = e })
    else do f ← deref s' s'.first; if ltb key f.key then put_first s.next_free s' else looped

abbrev pub remove_first : Option ℕ → Store → Option (Store × Option (ℕ × ℕ))
remove_first none s = some (s, none)
remove_first (some a) s = do
  e ← s.cell a
  some (
    record s {
      first = if same s.first s.last then none else e.next;
      last = if same s.first s.last then none else s.last;
      cell = put s.cell a none;
    },
    some (e.item, e.key),
  )

-- List::SortedRemove: the item and its key, `none` for NULL. List::Remove drops the key.
unfoldable pub sorted_remove : Store → Option (Store × Option (ℕ × ℕ))
sorted_remove s = remove_first s.first s
