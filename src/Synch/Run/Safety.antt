-- ===== src/Synch/Run/Safety.antt =====
-- What holds of the threads and locks of code/threads/synch.cc in every reachable state.
use usc_cs.Common.{ℕ, true, false, some, ◌≡◌, ◌≢◌, refl, ◌⊎◌, inl, inr, has, Bool-cases, arith}
use usc_cs.Kernel.{System, QueueId, just_created, acquired}
use usc_cs.Kernel.Homes.{Place, on_cpu, waits, nowhere}
use usc_cs.Synch.Invariant.{Inv}
use usc_cs.Synch.Run.{Step, Reach, Reach-Inv}
use usc_cs.Synch.Run.Owner.{Step-Keeps}

-- Where the invariant says that a thread is, as the queues show it.
abbrev pub Located : System → ℕ → Type 0
Located s t =
    ((t ≡ s.current) × (s.idling ≡ false) × ((q : QueueId) → has t (s.queues q) ≡ false))
    ⊎ ((q : QueueId) × (has t (s.queues q) ≡ true)
        × ((p : QueueId) → has t (s.queues p) ≡ true → p ≡ q)
        × (t ≡ s.current → s.idling ≡ true))

located :
    (place : ℕ → Place) (s : System) (t : ℕ) (p : Place)
    → Inv place s
    → place t ≡ p
    → s.status t ≢ just_created
    → Located s t
located place s t on_cpu h e old =
    let (cur, awake) = h.alone t e in inl (cur, awake, λ q. ground (arith, h.core.homes.home q t))
located place s t nowhere h e old = absurd (old (ground (arith, h.core.shows t)))
located place s t (waits q) h e old = inr (
  q,
  (h.core.homes.home q t).1 e,
  λ p m. ground (arith, h.core.homes.home p t),
  λ c. ground (arith, h.cpu, Bool-cases s.idling),
)

-- In every reachable state a thread that has been started is the running one, or stands in exactly
-- one queue, the ready list or that of a semaphore, lock or condition; it is never lost, and never
-- in two places.
pub threads_conserved :
    {values : ℕ → ℕ} {s : System}
    → Reach values s
    → (t : ℕ) → s.status t ≢ just_created
    → Located s t
threads_conserved {s} r t old =
    let (place, h) = Reach-Inv r in located place s t (place t) h refl old

-- A thread that comes back from Lock::Acquire after it had to wait owns the lock.
pub acquired_owns :
    {values : ℕ → ℕ} {s : System}
    → Reach values s
    → (l : ℕ) → s.idling ≡ false
    → s.resume s.current ≡ acquired l
    → s.owner l ≡ some s.current
acquired_owns {s} r l awake e =
    let (place, h) = Reach-Inv r in ground (arith, h.core.handed s.current l, h.cpu awake)

-- While a thread owns a lock, no step of another thread, of a device or of the idle loop takes it away.
pub exclusion :
    {values : ℕ → ℕ} {s u : System}
    → Reach values s
    → Step s u
    → (l t : ℕ) → s.owner l ≡ some t
    → t ≢ s.current
    → u.owner l ≡ some t
exclusion r st l t e ne =
    let (place, h) = Reach-Inv r in Step-Keeps st (λ k q. (h.core.free_lock k q).0) l t e ne
