-- ===== src/Synch/Run.antt =====
-- Threads that call the operations of code/threads/synch.cc in any order, one step at a time.
pub mod Safety
pub mod Owner
use usc_cs.Common.{
  ℕ, zero, suc, Bool, true, false, Option, none, some, List, [], ◌∷◌, ◌++◌, ◌==◌, if◌then◌else◌,
  ◌≡◌, ◌≢◌, refl, ◌⊎◌, inl, inr, has, Bool-cases, if-either, arith,
}
use usc_cs.Kernel.{
  System, QueueId, ready_list, ThreadStatus, just_created, running, ready, blocked, LockStatus,
  free, Resume, returns, tests_again, acquired, reacquires, put, put_queue, remove_front, yield,
  yield_to, wake, halt, sleep_to, fork,
}
use usc_cs.Kernel.Homes.{Place, on_cpu, waits, nowhere, Homes, Homes-append, Homes-remove}
use usc_cs.Synch.{
  semaphore_p, semaphore_v, acquire, release, wait, signal, broadcast, return, resume_current,
  resume_with,
}
use usc_cs.Synch.Invariant.{Inv, Core, run_next, return-Inv, unstarted}
use usc_cs.Synch.Semaphores.{semaphore_p-Inv, semaphore_v-Inv}
use usc_cs.Synch.Locks.{acquire-Inv, release-Inv}
use usc_cs.Synch.Conditions.{wait-Inv, signal-Inv, broadcast-Inv}

yield_to-Inv :
    (place : ℕ → Place) (s : System) (ts : List ℕ)
    → s.queues ready_list ≡ ts
    → Inv place s
    → s.idling ≡ false
    → (there : ℕ → Place) × Inv there (yield_to (remove_front ready_list ts s))
yield_to-Inv place s [] e h awake = (place, h)
yield_to-Inv place s (t ∷ rest) e h awake = (
  there,
  record {
    core = record {
      homes =
          Homes-append (Homes-remove core.homes ready_list t rest on_cpu e (λ p q. cc)) ready_list
            s.current (λ p q. ground (arith, core.homes.home ready_list t, h.cpu awake));
      shows = λ u. ground (arith, core.shows u, core.homes.home ready_list t, h.cpu awake);
      pending = λ u. ground (arith, core.pending u);
      free_lock = core.free_lock;
      busy_lock = core.busy_lock;
      handed = λ u l q. ground (arith, core.handed u l, core.homes.home ready_list t, h.cpu awake);
    };
    cpu = λ q. ground (arith, core.homes.home ready_list t, h.cpu awake);
    alone = λ u q. ground (arith, h.alone u);
  },
)
  where
    open h use {core}

    there : ℕ → Place
    there = put (put place t on_cpu) s.current (waits ready_list)

-- Yield keeps the invariant.
yield-Inv :
    (place : ℕ → Place) (s : System)
    → Inv place s
    → s.idling ≡ false
    → (there : ℕ → Place) × Inv there (yield s)
unfolding yield
yield-Inv place s h awake = yield_to-Inv place s (s.queues ready_list) refl h awake

-- So does the loop of Sleep, when it looks for a thread again.
wake-Inv : (place : ℕ → Place) (s : System) → Inv place s → (there : ℕ → Place) × Inv there (wake s)
unfolding wake
wake-Inv place s h = elim (Bool-cases s.idling) [
  | inl idle ↦
      simp idle
        (run_next place s (s.queues ready_list) refl h.core λ t q. ground (arith, h.alone t))
  | inr awake ↦ simp awake (place, h)
]

-- So does the Halt of the idle loop.
halt-Inv : (place : ℕ → Place) (s : System) → Inv place s → (there : ℕ → Place) × Inv there (halt s)
unfolding halt
halt-Inv place s h =
    if-either (λ u. (there : ℕ → Place) × Inv there u) s.idling (place, off) (place, h)
  where
    off : Inv place (record s { halted = true })
    off = record {
      core = record {
        homes = h.core.homes;
        shows = h.core.shows;
        pending = h.core.pending;
        free_lock = h.core.free_lock;
        busy_lock = h.core.busy_lock;
        handed = h.core.handed;
      };
      cpu = h.cpu;
      alone = h.alone;
    }

-- And the Fork of a thread that has not started.
fork-Inv :
    (place : ℕ → Place) (s : System) (t : ℕ)
    → Inv place s
    → s.status t ≡ just_created
    → s.resume t ≡ returns
    → (there : ℕ → Place) × Inv there (fork t s)
unfolding fork
fork-Inv place s t h new fresh = (
  put place t (waits ready_list),
  record {
    core = record {
      homes = Homes-append core.homes ready_list t λ p q. ground (arith, away);
      shows = λ u. ground (arith, core.shows u);
      pending = λ u. ground (arith, core.pending u);
      free_lock = core.free_lock;
      busy_lock = core.busy_lock;
      handed = λ u l q. ground (arith, core.handed u l, fresh);
    };
    cpu = λ q. ground (arith, h.cpu q, away);
    alone = λ u q. ground (arith, h.alone u);
  },
)
  where
    open h use {core}

    away : place t ≡ nowhere
    away = unstarted (place t) (s.status t) (core.shows t) new

-- What a running thread can call.
pub data Call : Type 0 where
  p v : ℕ → Call
  acquires releases : ℕ → Call
  waits_on signals broadcasts : ℕ → Option ℕ → Call
  yields : Call

unfoldable pub call : Call → System → System
call (p i) s = semaphore_p i s
call (v i) s = semaphore_v i s
call (acquires l) s = acquire l s
call (releases l) s = release l s
call (waits_on c o) s = wait c o s
call (signals c o) s = signal c o s
call (broadcasts c o) s = broadcast c o s
call yields s = yield s

-- One atomic step: a call of the running thread; a thread that was switched to goes on behind its
-- Sleep; the handler of a device calls V; the idle loop looks for a thread, or halts
-- the machine; a new thread is forked.
pub data Step (s : System) : System → Type 0 where
  calls : (c : Call) → s.idling ≡ false → s.resume s.current ≡ returns → Step s (call c s)
  resumes : s.idling ≡ false → Step s (resume_current s)
  interrupts : (i : ℕ) → Step s (semaphore_v i s)
  wakes : Step s (wake s)
  halts : Step s (halt s)
  forks : (t : ℕ) → s.status t ≡ just_created → s.resume t ≡ returns → Step s (fork t s)

-- The first thread runs; every lock is free and without an owner, no condition has a lock.
unfoldable pub start : (ℕ → ℕ) → System
start values = record {
  current = 0;
  idling = false;
  halted = false;
  status = put (λ _. just_created) 0 running;
  resume = λ _. returns;
  queues = λ _. [];
  value = values;
  state = λ _. free;
  owner = λ _. none;
  waiting_lock = λ _. none;
}

pub data Reach (values : ℕ → ℕ) : System → Type 0 where
  started : Reach values (start values)
  -- A machine that has halted makes no step.
  later : {s u : System} → Reach values s → s.halted ≡ false → Step s u → Reach values u

start-Inv : (values : ℕ → ℕ) → Inv (put (λ _. nowhere) 0 on_cpu) (start values)
unfolding start
start-Inv values = record {
  core = record {
    homes = record { home = λ q t. ground arith; distinct = λ q. tt };
    shows = λ t. ground arith;
    pending = λ t. ground arith;
    free_lock = λ l e. (refl, refl);
    busy_lock = λ l e. cc;
    handed = λ t l e. cc;
  };
  cpu = λ e. refl;
  alone = λ t e. ground arith;
}

resume_with-Inv :
    (place : ℕ → Place) (s : System) (r : Resume)
    → Inv place s
    → s.idling ≡ false
    → (there : ℕ → Place) × Inv there (resume_with r s)
resume_with-Inv place s returns h awake = (place, h)
resume_with-Inv place s (tests_again i) h awake = semaphore_p-Inv place s i h awake
resume_with-Inv place s (acquired l) h awake = (place, return-Inv place s h awake)
resume_with-Inv place s (reacquires l) h awake =
    acquire-Inv place (return s) l (return-Inv place s h awake) awake

call-Inv :
    (place : ℕ → Place) (s : System) (c : Call)
    → Inv place s
    → s.idling ≡ false
    → s.resume s.current ≡ returns
    → (there : ℕ → Place) × Inv there (call c s)
unfolding call
call-Inv place s (p i) h awake here = semaphore_p-Inv place s i h awake
call-Inv place s (v i) h awake here = semaphore_v-Inv place s i h
call-Inv place s (acquires l) h awake here = acquire-Inv place s l h awake
call-Inv place s (releases l) h awake here = release-Inv place s l h awake here
call-Inv place s (waits_on c o) h awake here = wait-Inv place s c o h awake here
call-Inv place s (signals c o) h awake here = signal-Inv place s c o h
call-Inv place s (broadcasts c o) h awake here = broadcast-Inv place s c o h
call-Inv place s yields h awake here = yield-Inv place s h awake

Step-Inv :
    {s u : System} (place : ℕ → Place) → Step s u → Inv place s → (there : ℕ → Place) × Inv there u
unfolding resume_current
Step-Inv {s} place (calls c awake here) h = call-Inv place s c h awake here
Step-Inv {s} place (resumes awake) h = resume_with-Inv place s (s.resume s.current) h awake
Step-Inv {s} place (interrupts i) h = semaphore_v-Inv place s i h
Step-Inv {s} place wakes h = wake-Inv place s h
Step-Inv {s} place halts h = halt-Inv place s h
Step-Inv {s} place (forks t new fresh) h = fork-Inv place s t h new fresh

pub Reach-Inv : {values : ℕ → ℕ} {s : System} → Reach values s → (there : ℕ → Place) × Inv there s
Reach-Inv {values} started = (put (λ _. nowhere) 0 on_cpu, start-Inv values)
Reach-Inv (later r on st) = let (place, h) = Reach-Inv r in Step-Inv place st h
