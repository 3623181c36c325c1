-- ===== src/Synch/Tests.antt =====
-- Two threads of code/threads/synch.cc on small states.
use usc_cs.Common.{◌++◌, ℕ, true, false, none, some, List, [], ◌∷◌, ◌≡◌, ◌≢◌, refl, ◌⊎◌, inr}
use usc_cs.Kernel.{
  System, ready_list, of_semaphore, of_lock, of_condition, just_created, busy, free, returns,
  reacquires, yield, fork, sleep, put, put_queue,
}
use usc_cs.Synch.{acquire, release, wait, signal, broadcast, is_held}
use usc_cs.Synch.Locks.{release_lem}
use usc_cs.Synch.Waits.{wait_lem, Given, Slept, woken, refused_wait_binds}
use usc_cs.Synch.Run.{
  call, Step, calls, forks, Reach, started, later, start, acquires, releases, yields,
}
use usc_cs.Synch.Run.Safety.{Located, threads_conserved, acquired_owns, exclusion}

-- Thread 0 forks thread 1, takes lock 0 and yields; thread 1 waits for the lock.
abbrev forked : System
forked = fork 1 (start (λ _. 1))

abbrev taken : System
taken = call (acquires 0) forked

abbrev yielded : System
yielded = call yields taken

abbrev contended : System
contended = call (acquires 0) yielded

-- Thread 0 releases it and yields; thread 1 comes back from Acquire.
abbrev handed : System
handed = call (releases 0) contended

abbrev back : System
back = call yields handed

yielded_reached : Reach (λ _. 1) yielded
unfolding call fork acquire yield start
yielded_reached =
    later (later (later started refl (forks 1 refl refl)) refl (calls (acquires 0) refl refl)) refl
      (calls yields refl refl)

acquire-Step : Step yielded contended
unfolding call fork acquire yield start
acquire-Step = calls (acquires 0) refl refl

contended_reached : Reach (λ _. 1) contended
unfolding call fork acquire yield start
contended_reached = later yielded_reached refl acquire-Step

back_reached : Reach (λ _. 1) back
unfolding call fork acquire yield start release sleep
back_reached =
    later (later contended_reached refl (calls (releases 0) refl refl)) refl
      (calls yields refl refl)

started_once : contended.status 1 ≢ just_created
unfolding call fork acquire yield start sleep
started_once e = cc

threads_conserved_example : Located contended 1
threads_conserved_example = threads_conserved contended_reached 1 started_once

acquired_owns_example : back.owner 0 ≡ some back.current
unfolding call fork acquire yield start release sleep
acquired_owns_example = acquired_owns back_reached 0 refl refl

exclusion_example : contended.owner 0 ≡ some 0
unfolding call fork acquire yield start
exclusion_example = exclusion yielded_reached acquire-Step 0 0 refl (λ e. cc)

-- Threads 4 and 5 wait for the lock 0 of thread 0, and threads 1 and 2 on condition 0, which remembers
-- that lock; thread 3 waits on semaphore 0.
abbrev crowd : System
crowd = record {
  current = 0;
  idling = false;
  halted = false;
  status = λ _. just_created;
  resume = λ _. returns;
  queues =
      put_queue
        (put_queue (put_queue (put_queue (λ _. []) ready_list (6 ∷ [])) (of_semaphore 0) (3 ∷ []))
          (of_lock 0) (4 ∷ 5 ∷ []))
        (of_condition 0) (1 ∷ 2 ∷ []);
  value = λ _. 0;
  state = λ _. busy;
  owner = put (λ _. some 9) 0 (some 0);
  waiting_lock = put (λ _. none) 0 (some 0);
}

wait_example :
    let s' = wait 0 (some 0) crowd in
    (s'.queues (of_condition 0) ≡ 1 ∷ 2 ∷ 0 ∷ [])
    × (s'.waiting_lock 0 ≡ some 0)
    × (s'.resume 0 ≡ reacquires 0)
    × Given 0 (crowd.queues (of_lock 0)) crowd s'
    × Slept 0 (crowd.queues ready_list ++ woken (crowd.queues (of_lock 0))) s'
wait_example = wait_lem crowd 0 0 refl (inr refl)

refused_wait_example :
    let s' = wait 1 (some 7) crowd in
    (s'.waiting_lock 1 ≡ some 7)
    × (s'.queues (of_condition 1) ≡ [])
    × ((u : ℕ)
        → let s'' = record s' { current = u } in
          (wait 1 (some 0) s'' ≡ s'')
          × (signal 1 (some 0) s'' ≡ s'')
          × (signal 1 (some 7) s'' ≡ s'')
          × (broadcast 1 (some 7) s'' ≡ s''))
refused_wait_example = refused_wait_binds crowd 1 7 0 refl refl (λ e. cc) (λ e. cc)

release_example :
    let s' = release 0 crowd in
    ((is_held 0 crowd ≡ false) × (s' ≡ crowd))
    ⊎ ((is_held 0 crowd ≡ true)
        × (crowd.queues (of_lock 0) ≡ [])
        × (s'.state 0 ≡ free)
        × (s'.owner 0 ≡ none))
    ⊎ ((t : ℕ) × (rest : List ℕ) × (is_held 0 crowd ≡ true)
        × (crowd.queues (of_lock 0) ≡ t ∷ rest)
        × (s'.owner 0 ≡ some t)
        × (s'.state 0 ≡ busy)
        × (s'.queues (of_lock 0) ≡ rest)
        × (s'.queues ready_list ≡ 6 ∷ t ∷ []))
release_example = release_lem crowd 0
