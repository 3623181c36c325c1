-- ===== src/Synch/Semaphores.antt =====
-- Semaphore::P and Semaphore::V of code/threads/synch.cc.
use usc_cs.Common.{ℕ, false, List, [], ◌∷◌, ◌++◌, ◌==◌, ◌≡◌, refl, Bool-cases, inl, inr, arith}
use usc_cs.Kernel.{
  System, QueueId, ready_list, of_semaphore, tests_again, put, put_queue, remove_front,
}
use usc_cs.Kernel.Homes.{Place, waits, nowhere, Homes, Homes-append, Homes-remove}
use usc_cs.Synch.{semaphore_p, semaphore_v, wake_waiter}
use usc_cs.Synch.Invariant.{Inv, semaphore, block-Inv, return-Inv}

-- A waiter that is woken moves from its queue to the ready list.
abbrev pub to_ready : (ℕ → Place) → ℕ → ℕ → Place
to_ready place t = put (put place t nowhere) t (waits ready_list)

pub woken-Homes :
    (queues : QueueId → List ℕ) (place : ℕ → Place) (q : QueueId) (t : ℕ) (rest : List ℕ)
    → Homes queues place
    → queues q ≡ t ∷ rest
    → let left = put_queue queues q rest in
      Homes (put_queue left ready_list (left ready_list ++ t ∷ [])) (to_ready place t)
woken-Homes queues place q t rest h e =
    Homes-append (Homes-remove h q t rest nowhere e (λ p x. cc)) ready_list t (λ p x. ground arith)

-- The values of the semaphores do not matter to the invariant.
value-Inv :
    (place : ℕ → Place) (s : System) (f : ℕ → ℕ) → Inv place s → Inv place (record s { value = f })
value-Inv place s f h = record {
  core = record {
    homes = core.homes;
    shows = core.shows;
    pending = core.pending;
    free_lock = core.free_lock;
    busy_lock = core.busy_lock;
    handed = core.handed;
  };
  cpu = h.cpu;
  alone = h.alone;
}
  where
    open h use {core}

-- P keeps the invariant.
pub semaphore_p-Inv :
    (place : ℕ → Place) (s : System) (i : ℕ)
    → Inv place s
    → s.idling ≡ false
    → (there : ℕ → Place) × Inv there (semaphore_p i s)
unfolding semaphore_p
semaphore_p-Inv place s i h awake = elim (Bool-cases (s.value i == 0)) [
  | inl zero ↦ rw zero (block-Inv place s (of_semaphore i) (tests_again i) h awake (semaphore i))
  | inr more ↦ rw more (place, return-Inv place _ (value-Inv place s _ h) awake)
]

module _ (place : ℕ → Place) (s : System) (i : ℕ) (h : Inv place s) where
  open h use {core}

  v_cases :
      (ts : List ℕ)
      → s.queues (of_semaphore i) ≡ ts
      → (there : ℕ → Place) × Inv there (wake_waiter (remove_front (of_semaphore i) ts s))
  v_cases [] e = (place, h)
  v_cases (t ∷ rest) e = (
    to_ready place t,
    record {
      core = record {
        homes = woken-Homes s.queues place (of_semaphore i) t rest core.homes e;
        shows = λ u. ground (arith, core.shows u);
        pending = λ u. ground (arith, core.pending u);
        free_lock = core.free_lock;
        busy_lock = core.busy_lock;
        handed = λ u l q. ground (arith, core.handed u l, core.homes.home (of_semaphore i) t);
      };
      cpu = λ q. ground (arith, h.cpu q, core.homes.home (of_semaphore i) t);
      alone = λ u q. ground (arith, h.alone u);
    },
  )

  -- V keeps the invariant, on an empty queue and when it wakes a thread.
  pub semaphore_v-Inv : (there : ℕ → Place) × Inv there (semaphore_v i s)
  unfolding semaphore_v
  semaphore_v-Inv =
      let (there, inv) = v_cases (s.queues (of_semaphore i)) refl in
      (there, value-Inv there _ _ inv)
