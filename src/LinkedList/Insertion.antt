-- ===== src/LinkedList/Insertion.antt =====
-- The loop of List::SortedInsert on a chain of elements.
use usc_cs.Common.{
  ℕ, zero, suc, ◌<◌, ◌≡◌, ◌≢◌, inl, inr, refl, ap, ◌∙◌, false, Option, none, some, List, [], ◌∷◌,
  ltb, if◌then◌else◌, length, put, Bool-cases, arith,
}
use usc_cs.LinkedList.{ListElement, Store, insert_loop}
use usc_cs.LinkedList.Chains.{Node, Chain, at, Apart, Chain-put}

-- The address of the last node.
abbrev pub end_of : List Node → Option ℕ
end_of [] = none
end_of (n ∷ []) = some n.addr
end_of (n ∷ m ∷ ms) = end_of (m ∷ ms)

abbrev pub element : Node → Option ℕ → Option ListElement
element n q = some (record { item = n.item; key = n.key; next = q })

-- A new node goes before the first one with a greater key.
abbrev pub insert : Node → List Node → List Node
insert e [] = e ∷ []
insert e (n ∷ ns) = if ltb e.key n.key then e ∷ n ∷ ns else n ∷ insert e ns

-- What changes when the node `e` is put behind `m`, among the nodes `ms`.
pub record Inserted (s : Store) (m : Node) (ms : List Node) (e : Node) (s' : Store) : Type 0 where
  pub chain : Chain s'.cell (some m.addr) (m ∷ insert e ms) none
  pub ends : s'.last ≡ end_of (m ∷ insert e ms)
  pub begins : s'.first ≡ s.first
  pub free_from : s'.next_free ≡ s.next_free
  pub frame : (a : ℕ) → at a (m ∷ ms) ≡ false → a ≢ e.addr → s'.cell a ≡ s.cell a

pub insert_loop_lem :
    (rounds : ℕ) (m : Node) (ms : List Node) (e : Node) (s : Store)
    → length ms < rounds
    → Chain s.cell (some m.addr) (m ∷ ms) none
    → Apart (m ∷ ms)
    → at e.addr (m ∷ ms) ≡ false
    → s.cell e.addr ≡ element e none
    → s.last ≡ end_of (m ∷ ms)
    → (s' : Store) × (insert_loop rounds (some m.addr) e.addr e.key s ≡ some s')
      × Inserted s m ms e s'
unfolding insert_loop
insert_loop_lem zero m ms e s fuel c apart new cell_e ends = absurd (omega arith)
insert_loop_lem (suc rounds) m [] e s fuel (here, next, eq, stop) apart new cell_e ends =
    let s' = record s { cell = put s.cell m.addr (element m (some e.addr)); last = some e.addr } in
    (
      s',
      rw (eq, stop, ends, eq) refl,
      record {
        chain = (refl, some e.addr, ground arith, (refl, none, ground arith, refl));
        ends = refl;
        begins = refl;
        free_from = refl;
        frame = λ a far other. ground arith;
      },
    )
insert_loop_lem (suc rounds) m (n ∷ ns) e s fuel (here, next, eq, (at_n, after, eq_n, rest))
      (apart, tail) new cell_e ends =
    elim (Bool-cases (ltb e.key n.key)) [
      | inl before ↦
          let s' = record s {
            cell =
                put (put s.cell e.addr (element e (some n.addr))) m.addr (element m (some e.addr));
          } in
          let m_kept : put s.cell e.addr (element e (some n.addr)) m.addr ≡ element m next =
            ground arith in
          (
            s',
            rw (eq, at_n, eq_n, before, cell_e, m_kept) refl,
            record {
              chain = rw before (
                refl,
                some e.addr,
                ground arith,
                (
                  refl,
                  some n.addr,
                  ground arith,
                  Chain-put _ _ none (n ∷ ns) m.addr _ apart (
                      Chain-put _ _ none (n ∷ ns) e.addr _ (ground arith)
                        (refl, after, eq_n, rest)),
                ),
              );
              ends = rw before ends;
              begins = refl;
              free_from = refl;
              frame = λ a far other. ground arith;
            },
          )
      | inr pass ↦
          let (s', run, done) =
            insert_loop_lem rounds n ns e s (omega arith) (refl, after, eq_n, rest) tail
              (ground arith) cell_e ends in
          (
            s',
            rw (eq, at_n, eq_n, pass) run,
            record {
              chain = rw pass (
                refl,
                some n.addr,
                done.frame m.addr apart (ground arith) ∙ eq ∙ ap (element m) at_n,
                done.chain,
              );
              ends = rw pass done.ends;
              begins = done.begins;
              free_from = done.free_from;
              frame = λ a far other. done.frame a (ground arith) other;
            },
          )
    ]
