-- ===== src/Peers/Numbers.antt =====
-- What the steps of ServerToServerMessageHandler (code/network/server.cc) leave of the numbers of the
-- pending creates.
use usc_cs.Common.{
  ℕ, ◌<◌, ◌≤◌, ◌≡◌, ◌≢◌, inl, inr, refl, ap, subst, Bool, true, false, ◌&&◌, if-either, ◌==◌, List,
  [], ◌∷◌, ◌++◌, Option, none, some, Bool-cases, arith,
}
use usc_cs.Peers.Messages.{StructureType, Packet}
use usc_cs.Peers.Pending.{
  PendingCreate, QueryStatus, is_a_match, or_later, or_here, defer_answered, defer_last,
}
use usc_cs.Peers.Handler.{
  or_behind, or_joined, take_pending, update_pending, count_response, join_pending,
}

abbrev pub ids : List PendingCreate → List ℕ
ids [] = []
ids (pc ∷ rest) = pc.id ∷ ids rest

abbrev pub NotIn : ℕ → List ℕ → Type 0
NotIn id [] = Unit
NotIn id (n ∷ rest) = (n ≢ id) × NotIn id rest

-- Different numbers, all below `next`.
abbrev pub Numbered : ℕ → List ℕ → Type 0
Numbered next [] = Unit
Numbered next (n ∷ rest) = (n < next) × NotIn n rest × Numbered next rest

-- The list of pending creates that an operation may leave has the numbers of the one before.
unfoldable pub SameIds : List PendingCreate → Option (List PendingCreate) → Type 0
SameIds before none = Unit
SameIds before (some after) = ids after ≡ ids before

or_later-SameIds :
    (pc : PendingCreate) (rest : List PendingCreate) (o : Option (List PendingCreate))
    → SameIds rest o
    → SameIds (pc ∷ rest) (or_later pc o)
unfolding SameIds
or_later-SameIds pc rest none h = tt
or_later-SameIds pc rest (some after) h = ap (λ l. pc.id ∷ l) h

pub defer_answered-SameIds :
    (name : List ℕ) (type : StructureType) (p : Packet) (l : List PendingCreate)
    → SameIds l (defer_answered name type p l)
unfolding defer_answered SameIds
defer_answered-SameIds name type p [] = tt
defer_answered-SameIds name type p (pc ∷ rest) =
    if-either (SameIds (pc ∷ rest)) (is_a_match name type pc && pc.response_tracker p.from_machine)
      refl (or_later-SameIds pc rest _ (defer_answered-SameIds name type p rest))

or_here-SameIds :
    (b : Bool) (p : Packet) (pc : PendingCreate) (rest : List PendingCreate)
    (o : Option (List PendingCreate))
    → SameIds rest o
    → SameIds (pc ∷ rest) (or_here b p pc rest o)
unfolding SameIds
or_here-SameIds b p pc rest (some after) h = ap (λ l. pc.id ∷ l) h
or_here-SameIds true p pc rest none h = refl
or_here-SameIds false p pc rest none h = tt

pub defer_last-SameIds :
    (name : List ℕ) (type : StructureType) (p : Packet) (l : List PendingCreate)
    → SameIds l (defer_last name type p l)
unfolding defer_last SameIds
defer_last-SameIds name type p [] = tt
defer_last-SameIds name type p (pc ∷ rest) =
    or_here-SameIds (is_a_match name type pc) p pc rest (defer_last name type p rest)
      (defer_last-SameIds name type p rest)

pub join_pending-SameIds :
    (name : List ℕ) (type : StructureType) (q : QueryStatus) (l : List PendingCreate)
    → SameIds l (join_pending name type q l)
unfolding join_pending SameIds
join_pending-SameIds name type q [] = tt
join_pending-SameIds name type q (pc ∷ rest) =
    if-either (SameIds (pc ∷ rest)) (is_a_match name type pc) refl
      (joined (join_pending name type q rest) (join_pending-SameIds name type q rest))
  where
    joined :
        (o : Option (List PendingCreate)) → SameIds rest o → SameIds (pc ∷ rest) (or_joined pc o)
    joined none h = tt
    joined (some after) h = ap (λ l. pc.id ∷ l) h

pub update_pending-ids :
    (id from : ℕ) (l : List PendingCreate) → ids (update_pending id (count_response from) l) ≡ ids l
unfolding update_pending
update_pending-ids id from [] = refl
update_pending-ids id from (pc ∷ rest) =
    if-either (λ l. ids l ≡ ids (pc ∷ rest)) (pc.id == id) refl
      (ap (λ l. pc.id ∷ l) (update_pending-ids id from rest))

pub Numbered-mono : (next more : ℕ) (l : List ℕ) → next ≤ more → Numbered next l → Numbered more l
Numbered-mono next more [] h u = tt
Numbered-mono next more (n ∷ rest) h (low, new, u) =
    (omega arith, new, Numbered-mono next more rest h u)

pub NotIn-below : (next : ℕ) (l : List ℕ) → Numbered next l → NotIn next l
NotIn-below next [] u = tt
NotIn-below next (n ∷ rest) (low, new, u) = (ground arith, NotIn-below next rest u)

NotIn-last : (n m : ℕ) (l : List ℕ) → NotIn n l → m ≢ n → NotIn n (l ++ m ∷ [])
NotIn-last n m [] h k = (k, tt)
NotIn-last n m (first ∷ rest) (other, h) k = (other, NotIn-last n m rest h k)

-- The next number at the end.
pub Numbered-last :
    (next more : ℕ) (l : List ℕ) → Numbered next l → next < more → Numbered more (l ++ next ∷ [])
Numbered-last next more [] u h = (omega arith, tt, tt)
Numbered-last next more (n ∷ rest) (low, new, u) h =
    (omega arith, NotIn-last n next rest new (ground arith), Numbered-last next more rest u h)

pub ids-last :
    (l : List PendingCreate) (pc : PendingCreate) → ids (l ++ pc ∷ []) ≡ ids l ++ pc.id ∷ []
ids-last [] pc = refl
ids-last (first ∷ rest) pc = ap (λ l. first.id ∷ l) (ids-last rest pc)

-- The number is not in what is left when a pending create is taken.
LeavesOut : ℕ → Option (PendingCreate × List PendingCreate) → Type 0
LeavesOut n none = Unit
LeavesOut n (some (pc, rest)) = NotIn n (ids rest)

take_pending-LeavesOut :
    (n id : ℕ) (l : List PendingCreate) → NotIn n (ids l) → LeavesOut n (take_pending id l)
unfolding take_pending LeavesOut
take_pending-LeavesOut n id [] h = tt
take_pending-LeavesOut n id (pc ∷ rest) (other, h) =
    if-either (LeavesOut n) (pc.id == id) h
      (behind (take_pending id rest) (take_pending-LeavesOut n id rest h))
  where
    behind :
        (o : Option (PendingCreate × List PendingCreate))
        → LeavesOut n o
        → LeavesOut n (or_behind pc o)
    behind none k = tt
    behind (some (found, left)) k = (other, k)

-- What is left has different numbers, and the one that was taken is not among them.
unfoldable pub Leaves : ℕ → ℕ → Option (PendingCreate × List PendingCreate) → Type 0
Leaves next id none = Unit
Leaves next id (some (pc, rest)) = Numbered next (ids rest) × NotIn id (ids rest)

pub take_pending-Leaves :
    (next id : ℕ) (l : List PendingCreate)
    → Numbered next (ids l)
    → Leaves next id (take_pending id l)
unfolding take_pending Leaves LeavesOut
take_pending-Leaves next id [] u = tt
take_pending-Leaves next id (pc ∷ rest) (low, new, u) = elim (Bool-cases (pc.id == id)) [
  | inl found ↦
      let same : pc.id ≡ id = ground arith in
      simp found (u, subst (λ n. NotIn n (ids rest)) same new)
  | inr not_found ↦ simp not_found (
      behind (ground arith) (take_pending id rest) (take_pending-LeavesOut pc.id id rest new)
        (take_pending-Leaves next id rest u))
]
  where
    behind :
        pc.id ≢ id
        → (o : Option (PendingCreate × List PendingCreate)) → LeavesOut pc.id o
        → Leaves next id o
        → Leaves next id (or_behind pc o)
    behind other none k v = tt
    behind other (some (found, left)) k (v, w) = ((low, k, v), (other, w))

pub take_pending-none :
    (id : ℕ) (l : List PendingCreate) → NotIn id (ids l) → take_pending id l ≡ none
unfolding take_pending
take_pending-none id [] h = refl
take_pending-none id (pc ∷ rest) (other, h) =
    let not_here : (pc.id == id) ≡ false = ground arith in
    simp (not_here, take_pending-none id rest h) refl
