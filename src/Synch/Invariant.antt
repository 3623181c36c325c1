-- ===== src/Synch/Invariant.antt =====
-- The invariant of the kernel's threads and the synchronization objects of code/threads/synch.cc.
use usc_cs.Common.{ℕ, false, Option, none, some, List, [], ◌∷◌, ◌≡◌, ◌≢◌, refl, ◌⊎◌, arith}
use usc_cs.Kernel.{
  System, QueueId, ready_list, of_semaphore, of_lock, of_condition, busy, free, Resume, tests_again,
  acquired, reacquires, ThreadStatus, just_created, ready, running, blocked, put, append,
  remove_front, sleep_to, sleep, same_queue,
}
use usc_cs.Kernel.Homes.{Place, on_cpu, waits, nowhere, Homes, Homes-append, Homes-remove}
use usc_cs.Synch.{block, return}

-- Thread::status says where the thread is.
abbrev pub Shows : Place → ThreadStatus → Type 0
Shows on_cpu x = x ≡ running
Shows (waits ready_list) x = x ≡ ready
Shows (waits _) x = x ≡ blocked
Shows nowhere x = x ≡ just_created

pub unstarted : (p : Place) (x : ThreadStatus) → Shows p x → x ≡ just_created → p ≡ nowhere
unstarted on_cpu x h e = cc
unstarted nowhere x h e = refl
unstarted (waits ready_list) x h e = cc
unstarted (waits (of_semaphore i)) x h e = cc
unstarted (waits (of_lock l)) x h e = cc
unstarted (waits (of_condition c)) x h e = cc

-- A thread in the queue of an object goes on with that object.
abbrev pub Pending : (ℕ → Option ℕ) → Place → Resume → Type 0
Pending waiting_lock (waits (of_semaphore i)) r = r ≡ tests_again i
Pending waiting_lock (waits (of_lock l)) r = r ≡ acquired l
Pending waiting_lock (waits (of_condition c)) r =
    (l : ℕ) × (r ≡ reacquires l) × (waiting_lock c ≡ some l)
Pending waiting_lock _ r = Unit

pub record Core (place : ℕ → Place) (s : System) : Type 0 where
  pub homes : Homes s.queues place
  pub shows : (t : ℕ) → Shows (place t) (s.status t)
  pub pending : (t : ℕ) → Pending s.waiting_lock (place t) (s.resume t)
  -- A free lock has no owner and no waiter; a busy one has an owner.
  pub free_lock : (l : ℕ) → s.state l ≡ free → (s.owner l ≡ none) × (s.queues (of_lock l) ≡ [])
  pub busy_lock : (l : ℕ) → s.state l ≡ busy → s.owner l ≢ none
  -- A thread that was woken inside Acquire owns the lock.
  pub handed :
      (t l : ℕ) → s.resume t ≡ acquired l → (place t ≡ waits (of_lock l)) ⊎ (s.owner l ≡ some t)

-- One thread runs, and the others are in their queues; or none does, and the CPU idles.
pub record Inv (place : ℕ → Place) (s : System) : Type 0 where
  pub core : Core place s
  pub cpu : s.idling ≡ false → place s.current ≡ on_cpu
  pub alone : (t : ℕ) → place t ≡ on_cpu → (t ≡ s.current) × (s.idling ≡ false)

-- The next thread leaves the ready list for the CPU.
pub run_next :
    (place : ℕ → Place) (s : System) (ts : List ℕ)
    → s.queues ready_list ≡ ts
    → Core place s
    → ((t : ℕ) → place t ≢ on_cpu)
    → (there : ℕ → Place) × Inv there (sleep_to (remove_front ready_list ts s))
run_next place s [] e h none_runs = (
  place,
  record {
    core = record {
      homes = h.homes;
      shows = h.shows;
      pending = h.pending;
      free_lock = h.free_lock;
      busy_lock = h.busy_lock;
      handed = h.handed;
    };
    cpu = λ q. cc;
    alone = λ t q. absurd (none_runs t q);
  },
)
run_next place s (t ∷ rest) e h none_runs = (
  put place t on_cpu,
  record {
    core = record {
      homes = Homes-remove h.homes ready_list t rest on_cpu e (λ p q. cc);
      shows = λ u. ground (arith, h.shows u);
      pending = λ u. ground (arith, h.pending u);
      free_lock = λ l q. ground (arith, h.free_lock l);
      busy_lock = h.busy_lock;
      handed = λ u l q. ground (arith, h.handed u l, h.homes.home ready_list t);
    };
    cpu = λ q. ground arith;
    alone = λ u q. ground (arith, none_runs u);
  },
)

-- What the current thread waits for, as the queue that it joins and the way it goes on.
pub data Waits (s : System) : QueueId → Resume → Type 0 where
  semaphore : (i : ℕ) → Waits s (of_semaphore i) (tests_again i)
  lock : (l : ℕ) → s.state l ≡ busy → Waits s (of_lock l) (acquired l)
  condition : (c l : ℕ) → s.waiting_lock c ≡ some l → Waits s (of_condition c) (reacquires l)

Waits-Shows : {s : System} {q : QueueId} {r : Resume} → Waits s q r → Shows (waits q) blocked
Waits-Shows (semaphore i) = refl
Waits-Shows (lock l b) = refl
Waits-Shows (condition c l e) = refl

Waits-Pending :
    {s : System} {q : QueueId} {r : Resume} → Waits s q r → Pending s.waiting_lock (waits q) r
Waits-Pending (semaphore i) = refl
Waits-Pending (lock l b) = refl
Waits-Pending (condition c l e) = (l, refl, e)

Waits-free :
    {s : System} {q : QueueId} {r : Resume}
    → Waits s q r
    → (l : ℕ) → s.state l ≡ free
    → same_queue q (of_lock l) ≡ false
Waits-free (semaphore i) l e = refl
Waits-free (lock k b) l e = ground arith
Waits-free (condition c k b) l e = refl

Waits-acquired :
    {s : System} {q : QueueId} {r : Resume}
    → Waits s q r
    → (l : ℕ) → r ≡ acquired l
    → waits q ≡ waits (of_lock l)
Waits-acquired (semaphore i) l e = cc
Waits-acquired (lock k b) l e = cc
Waits-acquired (condition c k b) l e = cc

-- Joining a queue and going to sleep keeps the invariant.
pub block-Inv :
    (place : ℕ → Place) (s : System) (q : QueueId) (r : Resume)
    → Inv place s
    → s.idling ≡ false
    → Waits s q r
    → (there : ℕ → Place) × Inv there (block q r s)
unfolding sleep
block-Inv place s q r h awake w =
    run_next there parked (parked.queues ready_list) refl core none_runs
  where
    open h.core use {homes, shows, pending, free_lock, busy_lock, handed}

    parked : System
    parked =
        let s' = append q s.current (record s { resume = put s.resume s.current r }) in
        record s' { status = put s'.status s'.current blocked }

    there : ℕ → Place
    there = put place s.current (waits q)

    none_runs : (t : ℕ) → there t ≢ on_cpu
    none_runs t e = ground (arith, h.alone t)

    core : Core there parked
    core = record {
      homes = Homes-append homes q s.current (λ p e. ground (arith, h.cpu awake));
      shows = λ t. ground (arith, shows t, Waits-Shows w);
      pending = λ t. ground (arith, pending t, Waits-Pending w);
      free_lock = λ l e. rw (Waits-free w l e) (free_lock l e);
      busy_lock = busy_lock;
      handed = λ t l e. ground (arith, handed t l, Waits-acquired w l);
    }

-- Going on in the caller keeps it.
pub return-Inv :
    (place : ℕ → Place) (s : System) → Inv place s → s.idling ≡ false → Inv place (return s)
return-Inv place s h awake = record {
  core = record {
    homes = core.homes;
    shows = core.shows;
    pending = λ t. ground (arith, core.pending t, h.cpu awake);
    free_lock = core.free_lock;
    busy_lock = core.busy_lock;
    handed = λ t l e. ground (arith, core.handed t l);
  };
  cpu = h.cpu;
  alone = h.alone;
}
  where
    open h use {core}
