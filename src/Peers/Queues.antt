-- ===== src/Peers/Queues.antt =====
-- The numbers of the queries of a server (code/network/server.cc).
use usc_cs.Common.{
  ℕ, ◌≡◌, true, false, refl, ap, if-either, ◌==◌, List, [], ◌∷◌, ◌++◌, Option, none, some, arith,
}
use usc_cs.Peers.Pending.{QueryStatus}
use usc_cs.Peers.Queries.{or_after, take_query, count_first}
use usc_cs.Peers.Numbers.{NotIn, Numbered}

abbrev pub query_ids : List QueryStatus → List ℕ
query_ids [] = []
query_ids (q ∷ rest) = q.id ∷ query_ids rest

pub query_ids-last :
    (l : List QueryStatus) (q : QueryStatus) → query_ids (l ++ q ∷ []) ≡ query_ids l ++ q.id ∷ []
query_ids-last [] q = refl
query_ids-last (first ∷ rest) q = ap (λ l. first.id ∷ l) (query_ids-last rest q)

pub count_first-ids : (id : ℕ) (l : List QueryStatus) → query_ids (count_first id l) ≡ query_ids l
count_first-ids id [] = refl
count_first-ids id (q ∷ rest) =
    if-either (λ r. query_ids (r ∷ rest) ≡ query_ids (q ∷ rest)) (q.id == id) refl refl

-- A query at the end of the queue whose number no other one has is found, and the others stay.
pub take_query-last :
    (id : ℕ) (l : List QueryStatus) (q : QueryStatus)
    → NotIn id (query_ids l)
    → q.id ≡ id
    → take_query id (l ++ q ∷ []) ≡ some (q, l)
unfolding take_query
take_query-last id [] q h e = let same : (q.id == id) ≡ true = ground arith in simp same refl
take_query-last id (first ∷ rest) q (other, h) e =
    let not_here : (first.id == id) ≡ false = ground arith in
    simp (not_here, take_query-last id rest q h e) refl

LeavesOut : ℕ → Option (QueryStatus × List QueryStatus) → Type 0
LeavesOut n none = Unit
LeavesOut n (some (q, rest)) = NotIn n (query_ids rest)

take_query-LeavesOut :
    (n id : ℕ) (l : List QueryStatus) → NotIn n (query_ids l) → LeavesOut n (take_query id l)
unfolding take_query LeavesOut
take_query-LeavesOut n id [] h = tt
take_query-LeavesOut n id (q ∷ rest) (other, h) =
    if-either (LeavesOut n) (q.id == id) h
      (behind (take_query id rest) (take_query-LeavesOut n id rest h))
  where
    behind :
        (o : Option (QueryStatus × List QueryStatus)) → LeavesOut n o → LeavesOut n (or_after q o)
    behind none k = tt
    behind (some (found, left)) k = (other, k)

-- The queries that stay when one is taken have different numbers.
unfoldable pub StayNumbered : ℕ → Option (QueryStatus × List QueryStatus) → Type 0
StayNumbered next none = Unit
StayNumbered next (some (q, rest)) = Numbered next (query_ids rest)

pub take_query-StayNumbered :
    (next id : ℕ) (l : List QueryStatus)
    → Numbered next (query_ids l)
    → StayNumbered next (take_query id l)
unfolding take_query StayNumbered LeavesOut
take_query-StayNumbered next id [] u = tt
take_query-StayNumbered next id (q ∷ rest) (low, new, u) =
    if-either (StayNumbered next) (q.id == id) u (
      behind (take_query id rest) (take_query-LeavesOut q.id id rest new)
        (take_query-StayNumbered next id rest u))
  where
    behind :
        (o : Option (QueryStatus × List QueryStatus))
        → LeavesOut q.id o
        → StayNumbered next o
        → StayNumbered next (or_after q o)
    behind none k v = tt
    behind (some (found, left)) k v = (low, k, v)
