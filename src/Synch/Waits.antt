-- ===== src/Synch/Waits.antt =====
-- Condition::Wait, Semaphore::P and V, and locks and conditions whose constructors left a field
-- unset: what code/threads/synch.cc does there.
use usc_cs.Common.{
  ℕ, true, false, Option, none, some, List, [], ◌∷◌, ◌++◌, same, ◌≡◌, ◌≢◌, ◌⊎◌, refl, ◌∙◌, ap, inl,
  inr, arith,
}
use usc_cs.Kernel.{
  System, QueueId, ready_list, running, blocked, of_semaphore, of_lock, of_condition, returns,
  tests_again, reacquires, acquired, busy, free, put, put_queue, append, remove_front, ready_to_run,
  sleep, sleep_to,
}
use usc_cs.Synch.{
  new_lock, signal, broadcast, acquire, release, wait, wait_with, hand_over, is_held,
}

-- The first of the waiting threads, if there is one.
abbrev pub first : List ℕ → Option ℕ
first [] = none
first (t ∷ ts) = some t

pub record Frame (s s' : System) : Type 0 where
  pub waiters : (c : ℕ) → s'.queues (of_condition c) ≡ s.queues (of_condition c)
  pub semaphores : (i : ℕ) → s'.queues (of_semaphore i) ≡ s.queues (of_semaphore i)
  pub lock : s'.waiting_lock ≡ s.waiting_lock
  pub resume : s'.resume ≡ s.resume
  pub owner : s'.owner ≡ s.owner
  pub value : s'.value ≡ s.value

sleep_to-Frame : (s : System) (ts : List ℕ) → Frame s (sleep_to (remove_front ready_list ts s))
sleep_to-Frame s [] = record {
  waiters = λ c. refl;
  semaphores = λ i. refl;
  lock = refl;
  resume = refl;
  owner = refl;
  value = refl;
}
sleep_to-Frame s (t ∷ ts) = record {
  waiters = λ c. refl;
  semaphores = λ i. refl;
  lock = refl;
  resume = refl;
  owner = refl;
  value = refl;
}

-- After Sleep the other queues and the objects are as before.
pub sleep-Frame : (s : System) → Frame s (sleep s)
unfolding sleep
sleep-Frame s =
    let f =
      sleep_to-Frame (record s { status = put s.status s.current usc_cs.Kernel.blocked })
        (s.queues ready_list) in
    record {
      waiters = f.waiters;
      semaphores = f.semaphores;
      lock = f.lock;
      resume = f.resume;
      owner = f.owner;
      value = f.value;
    }

hand_over_lem :
    (s : System) (l : ℕ) (ts : List ℕ)
    → let s' = hand_over l (remove_front (of_lock l) ts s) in
      (s'.owner l ≡ first ts)
      × (s'.current ≡ s.current)
      × (s'.waiting_lock ≡ s.waiting_lock)
      × ((c : ℕ) → s'.queues (of_condition c) ≡ s.queues (of_condition c))
hand_over_lem s l [] = (ground arith, refl, refl, λ c. refl)
hand_over_lem s l (t ∷ ts) = (ground arith, refl, refl, λ c. refl)

release_held :
    (s : System) (l : ℕ)
    → s.owner l ≡ some s.current
    → let s' = release l s in
      (s'.owner l ≡ first (s.queues (of_lock l)))
      × (s'.current ≡ s.current)
      × (s'.waiting_lock ≡ s.waiting_lock)
      × ((c : ℕ) → s'.queues (of_condition c) ≡ s.queues (of_condition c))
unfolding release
release_held s l held =
    let yes_held : is_held l s ≡ true = ground arith in
    rw yes_held (hand_over_lem s l (s.queues (of_lock l)))

wait_with_lem :
    (s : System) (c l : ℕ)
    → s.owner l ≡ some s.current
    → s.waiting_lock c ≡ some l
    → let s' = wait_with c l s in
      (s'.queues (of_condition c) ≡ s.queues (of_condition c) ++ s.current ∷ [])
      × (s'.waiting_lock c ≡ some l)
      × (s'.resume s.current ≡ reacquires l)
      × (s'.owner l ≡ first (s.queues (of_lock l)))
wait_with_lem s c l held right =
    let (own, cur, lk, qs) = release_held s l held in
    let f = sleep-Frame parked in
    let lock_is : same (some l) (s.waiting_lock c) ≡ true = ground arith in
    let yes_held : is_held l s ≡ true = ground arith in
    rw (lock_is, yes_held)
      (
        f.waiters c ∙ ground (arith, qs c),
        ap (λ g. g c) f.lock ∙ ap (λ g. g c) lk ∙ right,
        ap (λ g. g s.current) f.resume ∙ ground arith,
        ap (λ g. g l) f.owner ∙ own,
      )
  where
    parked : System
    parked =
        let r = release l s in
        append (of_condition c) r.current
          (record r { resume = put r.resume r.current (reacquires l) })

-- What Release leaves of the lock, given its queue: with no waiter it is free, and otherwise it is
-- still busy, the longest waiter owns it and has left the queue.
pub Given : ℕ → List ℕ → System → System → Type 0
Given l [] s s' = (s'.state l ≡ free) × (s'.owner l ≡ none) × (s'.queues (of_lock l) ≡ [])
Given l (t ∷ ts) s s' =
    (s'.state l ≡ s.state l) × (s'.owner l ≡ some t) × (s'.queues (of_lock l) ≡ ts)

-- What Sleep does with the threads that are ready: the first one runs, or the processor idles; the one
-- that slept is blocked.
pub Slept : ℕ → List ℕ → System → Type 0
Slept me [] s' =
    (s'.idling ≡ true) × (s'.current ≡ me) × (s'.status me ≡ blocked) × (s'.queues ready_list ≡ [])
Slept me (t ∷ ts) s' =
    (s'.idling ≡ false)
    × (s'.current ≡ t)
    × (s'.status t ≡ running)
    × (s'.queues ready_list ≡ ts)
    × (me ≢ t → s'.status me ≡ blocked)

-- The thread that Release puts on the ready list.
abbrev pub woken : List ℕ → List ℕ
woken [] = []
woken (t ∷ ts) = t ∷ []

append_nil : (xs : List ℕ) → xs ≡ xs ++ []
append_nil [] = refl
append_nil (x ∷ xs) = ap (λ l. x ∷ l) (append_nil xs)

wait_switches :
    (s : System) (c l : ℕ) (ts rs : List ℕ)
    → s.queues (of_lock l) ≡ ts
    → s.queues ready_list ≡ rs
    → s.owner l ≡ some s.current
    → s.waiting_lock c ≡ some l
    → let s' = wait_with c l s in Given l ts s s' × Slept s.current (rs ++ woken ts) s'
unfolding Given Slept release sleep
wait_switches s c l [] [] e f held right =
    let lock_is : same (some l) (s.waiting_lock c) ≡ true = ground arith in
    let yes_held : is_held l s ≡ true = ground arith in
    simp (lock_is, yes_held, e, f)
      (
        (ground arith, ground arith, ground arith),
        (ground arith, ground arith, ground arith, ground arith),
      )
wait_switches s c l [] (r ∷ rs) e f held right =
    let lock_is : same (some l) (s.waiting_lock c) ≡ true = ground arith in
    let yes_held : is_held l s ≡ true = ground arith in
    simp (lock_is, yes_held, e, f)
      (
        (ground arith, ground arith, ground arith),
        (ground arith, ground arith, ground arith, append_nil rs, λ other. ground arith),
      )
wait_switches s c l (t ∷ ts) [] e f held right =
    let lock_is : same (some l) (s.waiting_lock c) ≡ true = ground arith in
    let yes_held : is_held l s ≡ true = ground arith in
    simp (lock_is, yes_held, e, f)
      (
        (ground arith, ground arith, ground arith),
        (ground arith, ground arith, ground arith, ground arith, λ other. ground arith),
      )
wait_switches s c l (t ∷ ts) (r ∷ rs) e f held right =
    let lock_is : same (some l) (s.waiting_lock c) ≡ true = ground arith in
    let yes_held : is_held l s ≡ true = ground arith in
    simp (lock_is, yes_held, e, f)
      (
        (ground arith, ground arith, ground arith),
        (ground arith, ground arith, ground arith, ground arith, λ other. ground arith),
      )

-- Wait by the owner of the lock, on a condition with no lock or this one, puts the caller at the end of
-- the condition's queue and binds it to take the lock again when it is woken, before it returns. The
-- lock goes to the longest waiter for it, which becomes ready, or is free; and the caller is blocked,
-- while the first thread that is ready runs, or the processor idles where there is none.
pub wait_lem :
    (s : System) (c l : ℕ)
    → s.owner l ≡ some s.current
    → (s.waiting_lock c ≡ none) ⊎ (s.waiting_lock c ≡ some l)
    → let s' = wait c (some l) s in
      (s'.queues (of_condition c) ≡ s.queues (of_condition c) ++ s.current ∷ [])
      × (s'.waiting_lock c ≡ some l)
      × (s'.resume s.current ≡ reacquires l)
      × Given l (s.queues (of_lock l)) s s'
      × Slept s.current (s.queues ready_list ++ woken (s.queues (of_lock l))) s'
unfolding wait Given
wait_lem s c l held (inr e) =
    let (queue, lock, resume, owner) = wait_with_lem s c l held e in
    let (given, slept) = wait_switches s c l _ _ refl refl held e in
    rw (e, wait) (queue, lock, resume, given, slept)
wait_lem s c l held (inl e) =
    let tied = record s { waiting_lock = put s.waiting_lock c (some l) } in
    let right : tied.waiting_lock c ≡ some l = ground arith in
    let (queue, lock, resume, owner) = wait_with_lem tied c l held right in
    let (given, slept) = wait_switches tied c l _ _ refl refl held right in
    rw (e, wait) (queue, lock, resume, Given-tied (s.queues (of_lock l)) _ given, slept)
  where
    Given-tied :
        (ts : List ℕ) (s' : System)
        → Given l ts (record s { waiting_lock = put s.waiting_lock c (some l) }) s'
        → Given l ts s s'
    Given-tied [] s' g = g
    Given-tied (t ∷ ts) s' g = g

-- A Wait that is refused because its caller does not own the lock still ties a condition without a
-- lock to that lock. From then on, though nobody waits, every Wait with another lock is refused, even
-- by that lock's owner, and a Signal or Broadcast does not undo it.
pub refused_wait_binds :
    (s : System) (c l k : ℕ)
    → s.waiting_lock c ≡ none
    → s.queues (of_condition c) ≡ []
    → s.owner l ≢ some s.current
    → k ≢ l
    → let s' = wait c (some l) s in
      (s'.waiting_lock c ≡ some l)
      × (s'.queues (of_condition c) ≡ [])
      × ((u : ℕ)
          → let s'' = record s' { current = u } in
            (wait c (some k) s'' ≡ s'')
            × (signal c (some k) s'' ≡ s'')
            × (signal c (some l) s'' ≡ s'')
            × (broadcast c (some l) s'' ≡ s''))
unfolding wait signal broadcast
refused_wait_binds s c l k unset nobody other ne =
    (ground arith, ground arith, λ u. (ground arith, ground arith, ground arith, ground arith))

-- The constructor of Lock leaves threadWithPossession as the memory held it. Where that happens to be
-- the current thread, the thread's Acquire of the new lock returns without taking it, and another
-- thread's Acquire then succeeds at once.
pub unset_owner :
    (s : System) (l u : ℕ)
    → u ≢ s.current
    → let s' = acquire l (new_lock l (some s.current) s) in
      (s'.state l ≡ free)
      × (s'.resume s.current ≡ returns)
      × (s'.current ≡ s.current)
      × (let s'' = acquire l (record s' { current = u }) in
          (s''.state l ≡ busy) × (s''.owner l ≡ some u) × (s''.current ≡ u))
unfolding acquire new_lock
unset_owner s l u ne =
    (ground arith, ground arith, ground arith, (ground arith, ground arith, ground arith))
