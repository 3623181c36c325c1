-- ===== src/Peers/Turns.antt =====
-- determineResponseToCreateRequest (code/network/server.cc) gives way to one of two servers.
use usc_cs.Common.{
  ℕ, ◌<◌, ◌≡◌, ◌⊎◌, inl, inr, refl, ◌∙◌, sym, ap, subst, true, false, ◌&&◌, ltb, List, [], ◌∷◌,
  none, some, Bool-cases, arith,
}
use usc_cs.Peers.Messages.{StructureType, Packet}
use usc_cs.Peers.Pending.{
  PendingCreate, is_a_match, push_response, response_entry, or_here, defer_answered, defer_last,
  deferred, refused, determine_response,
}

-- There is a pending create for the object.
abbrev pub Seeks : List ℕ → StructureType → List PendingCreate → Type 0
Seeks name type [] = (true ≡ false)
Seeks name type (pc ∷ rest) = (is_a_match name type pc ≡ true) ⊎ Seeks name type rest

-- No pending create for the object has had an answer from that server.
abbrev pub Unanswered : ℕ → List ℕ → StructureType → List PendingCreate → Type 0
Unanswered server name type [] = Unit
Unanswered server name type (pc ∷ rest) =
    (is_a_match name type pc && pc.response_tracker server ≡ false)
    × Unanswered server name type rest

-- Some pending create for the object has had an answer from that server.
abbrev pub Answered : ℕ → List ℕ → StructureType → List PendingCreate → Type 0
Answered server name type [] = (true ≡ false)
Answered server name type (pc ∷ rest) =
    (is_a_match name type pc && pc.response_tracker server ≡ true) ⊎ Answered server name type rest

abbrev Absent : List ℕ → StructureType → List PendingCreate → Type 0
Absent name type [] = Unit
Absent name type (pc ∷ rest) = (is_a_match name type pc ≡ false) × Absent name type rest

Seeks-Absent :
    (name : List ℕ) (type : StructureType) (l : List PendingCreate)
    → Seeks name type l
    → Absent name type l
    → true ≡ false
Seeks-Absent name type [] s a = s
Seeks-Absent name type (pc ∷ rest) (inl match) (other, a) = sym match ∙ other
Seeks-Absent name type (pc ∷ rest) (inr s) (other, a) = Seeks-Absent name type rest s a

-- The request stands at the end of the queue of one pending create for the object, and nothing else
-- changed.
pub data Queued (name : List ℕ) (type : StructureType) (p : Packet)
    : List PendingCreate → List PendingCreate → Type 0 where
  here :
      {pc : PendingCreate} {rest : List PendingCreate}
      → is_a_match name type pc ≡ true
      → Queued name type p (pc ∷ rest) (push_response (response_entry p) pc ∷ rest)
  later :
      {pc : PendingCreate} {rest after : List PendingCreate}
      → Queued name type p rest after
      → Queued name type p (pc ∷ rest) (pc ∷ after)

defer_last-Queued :
    (name : List ℕ) (type : StructureType) (p : Packet) (pending : List PendingCreate)
    → Seeks name type pending
    → (after : List PendingCreate) × (defer_last name type p pending ≡ some after)
      × Queued name type p pending after
unfolding defer_last
defer_last-Queued name type p pending s = found pending s (cases pending)
  where
    cases :
        (l : List PendingCreate)
        → ((defer_last name type p l ≡ none) × Absent name type l)
          ⊎ ((after : List PendingCreate) × (defer_last name type p l ≡ some after)
              × Queued name type p l after)
    cases [] = inl (refl, tt)
    cases (pc ∷ rest) = elim (cases rest) [
      | inr (after, e, q) ↦ inr (pc ∷ after, rw e refl, later q)
      | inl (e, absent) ↦ elim (Bool-cases (is_a_match name type pc)) [
        | inl match ↦ inr (
          push_response (response_entry p) pc ∷ rest,
          rw e (ap (λ b. or_here b p pc rest none) match),
          here match,
        )
        | inr other ↦ inl (rw e (ap (λ b. or_here b p pc rest none) other), (other, absent))
      ]
    ]

    found :
        (l : List PendingCreate)
        → Seeks name type l
        → ((defer_last name type p l ≡ none) × Absent name type l)
          ⊎ ((after : List PendingCreate) × (defer_last name type p l ≡ some after)
              × Queued name type p l after)
        → (after : List PendingCreate) × (defer_last name type p l ≡ some after)
          × Queued name type p l after
    found l s (inl (e, absent)) =
        let wrong = Seeks-Absent name type l s absent in absurd (ground arith)
    found l s (inr r) = r

defer_answered-none :
    (name : List ℕ) (type : StructureType) (p : Packet) (pending : List PendingCreate)
    → Unanswered p.from_machine name type pending
    → defer_answered name type p pending ≡ none
unfolding defer_answered
defer_answered-none name type p [] u = refl
defer_answered-none name type p (pc ∷ rest) (first, u) =
    simp (first, defer_answered-none name type p rest u) refl

defer_answered-Queued :
    (name : List ℕ) (type : StructureType) (p : Packet) (pending : List PendingCreate)
    → Answered p.from_machine name type pending
    → (after : List PendingCreate) × (defer_answered name type p pending ≡ some after)
      × Queued name type p pending after
unfolding defer_answered
defer_answered-Queued name type p [] a = absurd (ground arith)
defer_answered-Queued name type p (pc ∷ rest) a =
    elim (Bool-cases (is_a_match name type pc && pc.response_tracker p.from_machine)) [
      | inl match ↦
          let matches : is_a_match name type pc ≡ true = ground arith in
          (push_response (response_entry p) pc ∷ rest, simp match refl, here matches)
      | inr other ↦ elim a [
        | inl match ↦ absurd (ground arith)
        | inr more ↦
            let (after, e, q) = defer_answered-Queued name type p rest more in
            (pc ∷ after, simp (other, e) refl, later q)
      ]
    ]

-- Two servers with a pending create for the same object, of which neither has heard the answer of the
-- other, answer each other's request in opposite ways: the one with the lower number puts the request
-- on the queue of its pending create, and the other one answers that it does not have the object.
pub one_gives_way :
    (low high : ℕ) (name : List ℕ) (type : StructureType) (p q : Packet)
    (pending others : List PendingCreate)
    → low < high
    → p.from_machine ≡ high
    → q.from_machine ≡ low
    → Seeks name type pending
    → Unanswered high name type pending
    → Seeks name type others
    → Unanswered low name type others
    → ((after : List PendingCreate) × (determine_response low name type p pending ≡ deferred after)
        × Queued name type p pending after)
      × (determine_response high name type q others ≡ refused)
unfolding determine_response
one_gives_way low high name type p q pending others less from_high from_low s u t v =
    let (after, e, put_on) = defer_last-Queued name type p pending s in
    let (after', e', put_on') = defer_last-Queued name type q others t in
    let nobody =
      defer_answered-none name type p pending
        (subst (λ m. Unanswered m name type pending) (sym from_high) u) in
    let nobody' =
      defer_answered-none name type q others
        (subst (λ m. Unanswered m name type others) (sym from_low) v) in
    let first : ltb low p.from_machine ≡ true = ground arith in
    let second : ltb high q.from_machine ≡ false = ground arith in
    ((after, simp (nobody, e, first) refl, put_on), simp (nobody', e', second) refl)

-- The request of a server that has already answered that it does not have the object waits, whatever
-- the numbers of the two servers are.
pub request_waits :
    (my_machine_id : ℕ) (name : List ℕ) (type : StructureType) (p : Packet)
    (pending : List PendingCreate)
    → Answered p.from_machine name type pending
    → (after : List PendingCreate) × (determine_response my_machine_id name type p pending
        ≡ deferred after)
      × Queued name type p pending after
unfolding determine_response
request_waits my_machine_id name type p pending a =
    let (after, e, put_on) = defer_answered-Queued name type p pending a in
    (after, simp e refl, put_on)
