-- ===== src/Synch/Values.antt =====
-- Semaphore::P and Semaphore::V of code/threads/synch.cc on the value of a semaphore and its queue.
use usc_cs.Common.{
  ℕ, suc, ◌+◌, true, List, [], ◌∷◌, ◌++◌, ◌==◌, ◌≡◌, ◌⊎◌, refl, ap, ◌∙◌, Bool-cases, inl, inr,
  arith,
}
use usc_cs.Kernel.{System, ready_list, of_semaphore, returns, tests_again, put, append}
use usc_cs.Synch.{semaphore_p, semaphore_v}
use usc_cs.Synch.Waits.{sleep-Frame}

p_parked :
    (s : System) (i : ℕ)
    → (s.value i == 0) ≡ true
    → let s' = semaphore_p i s in
      (s'.queues (of_semaphore i) ≡ s.queues (of_semaphore i) ++ s.current ∷ [])
      × (s'.resume s.current ≡ tests_again i)
      × (s'.value ≡ s.value)
unfolding semaphore_p
p_parked s i e =
    let f = sleep-Frame (
      append (of_semaphore i) s.current
        (record s { resume = put s.resume s.current (tests_again i) })) in
    rw e (f.semaphores i ∙ ground arith, ap (λ g. g s.current) f.resume ∙ ground arith, f.value)

-- P on a semaphore at 0 puts the caller at the end of its queue, to test the value again later, and
-- leaves the value; on a semaphore above 0 it takes one, and the caller goes on.
pub semaphore_p_lem :
    (s : System) (i : ℕ)
    → let s' = semaphore_p i s in
      ((s.value i ≡ 0)
        × (s'.queues (of_semaphore i) ≡ s.queues (of_semaphore i) ++ s.current ∷ [])
        × (s'.resume s.current ≡ tests_again i)
        × (s'.value ≡ s.value))
      ⊎ ((s.value i ≡ suc (s'.value i))
          × (s'.queues ≡ s.queues)
          × (s'.current ≡ s.current)
          × (s'.resume s.current ≡ returns))
unfolding semaphore_p
semaphore_p_lem s i = elim (Bool-cases (s.value i == 0)) [
  | inl e ↦ let (queue, later, value) = p_parked s i e in inl (ground arith, queue, later, value)
  | inr e ↦ inr (rw e (ground arith), rw e refl, rw e refl, rw e (ground arith))
]

-- V adds one to the value. With no waiter it leaves the queues alone; otherwise the longest waiter
-- moves from the semaphore's queue to the end of the ready list.
pub semaphore_v_lem :
    (s : System) (i : ℕ)
    → let s' = semaphore_v i s in
      (s'.value i ≡ s.value i + 1)
      × (((s.queues (of_semaphore i) ≡ []) × (s'.queues ≡ s.queues))
          ⊎ ((t : ℕ) × (rest : List ℕ) × (s.queues (of_semaphore i) ≡ t ∷ rest)
              × (s'.queues (of_semaphore i) ≡ rest)
              × (s'.queues ready_list ≡ s.queues ready_list ++ t ∷ [])))
unfolding semaphore_v
semaphore_v_lem s i = (ground arith, go (s.queues (of_semaphore i)) refl)
  where
    go :
        (ts : List ℕ)
        → s.queues (of_semaphore i) ≡ ts
        → let s' = semaphore_v i s in
          ((s.queues (of_semaphore i) ≡ []) × (s'.queues ≡ s.queues))
          ⊎ ((t : ℕ) × (rest : List ℕ) × (s.queues (of_semaphore i) ≡ t ∷ rest)
              × (s'.queues (of_semaphore i) ≡ rest)
              × (s'.queues ready_list ≡ s.queues ready_list ++ t ∷ []))
    go [] e = inl (e, ground arith)
    go (t ∷ rest) e = inr (t, rest, e, ground arith, ground arith)
