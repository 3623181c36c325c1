-- ===== src/Server/Objects.antt =====
-- What ServerLock and ServerCondition (code/threads/synch.cc) promise to the clients.
use usc_cs.Common.{
  true, false, none, some, List, [], ◌∷◌, ◌++◌, ◌≡◌, ◌⊎◌, inl, inr, refl, sym, Bool-cases, arith,
}
use usc_cs.Kernel.{LockStatus, busy, free}
use usc_cs.Server.{
  ClientRequest, ServerLock, is_held_by, is_taken, lock_acquire, lock_release, pass_on,
}

-- A free lock has neither an owner nor a waiter; a busy one has an owner.
pub data LockOk (l : ServerLock) : Type 0 where
  is_free : l.state ≡ free → l.current_client_request ≡ none → l.queue ≡ [] → LockOk l
  is_owned : (o : ClientRequest) → l.state ≡ busy → l.current_client_request ≡ some o → LockOk l

pub held_refl : (cr : ClientRequest) → is_held_by (some cr) cr ≡ true
held_refl cr = ground arith

-- Acquire of a lock in order keeps it in order, and answers the client who asked: it says to go on
-- exactly where that client now owns the lock; otherwise the client is the last in its queue, and the
-- owner is the same as before.
pub lock_acquire_lem :
    (cr : ClientRequest) (l : ServerLock)
    → LockOk l
    → let (answer, l') = lock_acquire cr l in
      LockOk l'
      × (answer.to ≡ cr)
      × (answer.respond ≡ is_held_by l'.current_client_request cr)
      × ((answer.respond ≡ true)
          ⊎ ((l'.queue ≡ l.queue ++ cr ∷ [])
              × (l'.current_client_request ≡ l.current_client_request)))
unfolding lock_acquire
lock_acquire_lem cr l ok = elim (Bool-cases (is_held_by l.current_client_request cr)) [
  | inl held ↦ simp held (ok, refl, refl, inl refl)
  | inr other ↦ elim ok [
    | is_free e o q ↦ simp (other, e) (is_owned cr refl refl, refl, sym (held_refl cr), inl refl)
    | is_owned o e own ↦ simp (other, e) (is_owned o refl own, refl, refl, inr (refl, refl))
  ]
]

pass_on_lem :
    (cr : ClientRequest) (q : List ClientRequest) (l : ServerLock)
    → l.queue ≡ q
    → is_taken l.state ≡ true
    → let (answer, l') = pass_on cr q l in
      LockOk l'
      × (((q ≡ []) × (answer.respond ≡ false) × (l'.state ≡ free))
          ⊎ ((next : ClientRequest) × (rest : List ClientRequest) × (q ≡ next ∷ rest)
              × (answer.to ≡ next)
              × (answer.respond ≡ true)
              × (l'.queue ≡ rest)
              × (l'.current_client_request ≡ some next)))
pass_on_lem cr [] l e taken = (is_free refl refl e, inl (refl, refl, refl))
pass_on_lem cr (next ∷ rest) l e taken =
    (is_owned next (busy_state l.state taken) refl, inr (next, rest, refl, refl, refl, refl, refl))
  where
    busy_state : (x : LockStatus) → is_taken x ≡ true → x ≡ busy
    busy_state busy h = refl
    busy_state free h = cc

pub owned_busy :
    (l : ServerLock) (cr : ClientRequest)
    → LockOk l
    → is_held_by l.current_client_request cr ≡ true
    → is_taken l.state ≡ true
owned_busy l cr (is_free e o q) held = let h = rw o at held in cc
owned_busy l cr (is_owned o e own) held = rw e refl

-- Release of a lock in order keeps it in order. By a client that does not own the lock it changes
-- nothing and answers nobody; by the owner it frees the lock and answers nobody where nobody waits, and
-- otherwise makes the longest waiter the owner and answers that client.
pub lock_release_lem :
    (cr : ClientRequest) (l : ServerLock)
    → LockOk l
    → let (answer, l') = lock_release cr l in
      LockOk l'
      × (((is_held_by l.current_client_request cr ≡ false) × (answer.respond ≡ false) × (l' ≡ l))
          ⊎ ((is_held_by l.current_client_request cr ≡ true)
              × (((l.queue ≡ []) × (answer.respond ≡ false) × (l'.state ≡ free))
                  ⊎ ((next : ClientRequest) × (rest : List ClientRequest) × (l.queue ≡ next ∷ rest)
                      × (answer.to ≡ next)
                      × (answer.respond ≡ true)
                      × (l'.queue ≡ rest)
                      × (l'.current_client_request ≡ some next)))))
unfolding lock_release
lock_release_lem cr l ok = elim (Bool-cases (is_held_by l.current_client_request cr)) [
  | inr other ↦ simp other (ok, inl (refl, refl, refl))
  | inl held ↦
      let (ok', cases) = pass_on_lem cr l.queue l refl (owned_busy l cr ok held) in
      simp held (ok', inr (refl, cases))
]
