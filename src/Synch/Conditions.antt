-- ===== src/Synch/Conditions.antt =====
-- Condition::Wait, Signal and Broadcast of code/threads/synch.cc.
use usc_cs.Common.{
  ℕ, zero, suc, Bool, true, false, Option, none, some, List, [], ◌∷◌, same, ◌≡◌, ◌≢◌, refl, ◌∙◌,
  Bool-cases, inl, inr, arith,
}
use usc_cs.Kernel.{
  System, ready_list, of_semaphore, of_lock, of_condition, returns, reacquires, put, put_queue,
  remove_front, ready_to_run, Resume,
}
use usc_cs.Kernel.Homes.{Place, on_cpu, waits, nowhere}
use usc_cs.Synch.{
  release, wait, signal, broadcast, broadcast_loop, is_held, remember, wait_with, wake_front,
  may_signal, forget, has_waiting,
}
use usc_cs.Synch.Invariant.{Inv, Pending, condition, block-Inv}
use usc_cs.Synch.Semaphores.{to_ready, woken-Homes}
use usc_cs.Synch.Locks.{release-Inv, release_keeps}

-- The remembered lock of a condition may change while nobody waits on it.
Pending-put :
    (f : ℕ → Option ℕ) (p : Place) (r : Resume) (c : ℕ) (o : Option ℕ)
    → Pending f p r
    → p ≢ waits (of_condition c)
    → Pending (put f c o) p r
Pending-put f on_cpu r c o h ne = h
Pending-put f nowhere r c o h ne = h
Pending-put f (waits ready_list) r c o h ne = h
Pending-put f (waits (of_semaphore i)) r c o h ne = h
Pending-put f (waits (of_lock i)) r c o h ne = h
Pending-put f (waits (of_condition d)) r c o (l, e, g) ne = (l, e, ground arith)

not_waiting :
    (f : ℕ → Option ℕ) (p : Place) (r : Resume) (c : ℕ)
    → Pending f p r
    → f c ≡ none
    → p ≢ waits (of_condition c)
not_waiting f (waits (of_condition d)) r c (l, e, g) n q = ground arith
not_waiting f on_cpu r c h n q = cc
not_waiting f nowhere r c h n q = cc
not_waiting f (waits ready_list) r c h n q = cc
not_waiting f (waits (of_semaphore i)) r c h n q = cc
not_waiting f (waits (of_lock i)) r c h n q = cc

-- Remembering a lock where there was none keeps the invariant: nobody waits there.
remember-Inv :
    (place : ℕ → Place) (s : System) (c l : ℕ) (o : Option ℕ)
    → s.waiting_lock c ≡ o
    → Inv place s
    → Inv place (remember c l o s)
remember-Inv place s c l (some k) e h = h
remember-Inv place s c l none e h = record {
  core = record {
    homes = core.homes;
    shows = core.shows;
    pending = λ t.
        Pending-put s.waiting_lock (place t) (s.resume t) c (some l) (core.pending t)
          (not_waiting s.waiting_lock (place t) (s.resume t) c (core.pending t) e);
    free_lock = core.free_lock;
    busy_lock = core.busy_lock;
    handed = core.handed;
  };
  cpu = h.cpu;
  alone = h.alone;
}
  where
    open h use {core}

-- The state in which Wait decides: only the remembered lock may differ.
remember_keeps :
    (s : System) (c l : ℕ) (o : Option ℕ)
    → let s' = remember c l o s in
      (s'.current ≡ s.current) × (s'.idling ≡ s.idling) × (s'.resume ≡ s.resume)
remember_keeps s c l none = (refl, refl, refl)
remember_keeps s c l (some k) = (refl, refl, refl)

wait_with-Inv :
    (place : ℕ → Place) (s : System) (c l : ℕ)
    → Inv place s
    → s.idling ≡ false
    → s.resume s.current ≡ returns
    → (there : ℕ → Place) × Inv there (wait_with c l s)
wait_with-Inv place s c l h awake here = elim (Bool-cases (same (some l) (s.waiting_lock c))) [
  | inr other ↦ rw other (place, h)
  | inl right ↦ rw right (elim (Bool-cases (is_held l s)) [
    | inr not_held ↦ rw not_held (place, h)
    | inl held ↦ rw held (
        let (there, inv) = release-Inv place s l h awake here in
        let (cur, idle, res, lk) = release_keeps s l in
        block-Inv there (release l s) (of_condition c) (reacquires l) inv (ground arith)
          (condition c l (ground arith)))
  ])
]

forget-Inv :
    (place : ℕ → Place) (s : System) (c : ℕ) (b : Bool)
    → has_waiting c s ≡ b
    → Inv place s
    → Inv place (forget c b s)
forget-Inv place s c true e h = h
forget-Inv place s c false e h = record {
  core = record {
    homes = core.homes;
    shows = core.shows;
    pending = λ t.
        Pending-put s.waiting_lock (place t) (s.resume t) c none (core.pending t)
          λ q. ground (arith, core.homes.home (of_condition c) t);
    free_lock = core.free_lock;
    busy_lock = core.busy_lock;
    handed = core.handed;
  };
  cpu = h.cpu;
  alone = h.alone;
}
  where
    open h use {core}

module _ (place : ℕ → Place) (s : System) (c : ℕ) (h : Inv place s) where
  open h use {core}

  woken_front : ℕ → List ℕ → System
  woken_front t rest =
      ready_to_run t (record s { queues = put_queue s.queues (of_condition c) rest })

  woken_front-Inv :
      (t : ℕ) (rest : List ℕ)
      → s.queues (of_condition c) ≡ t ∷ rest
      → Inv (to_ready place t) (woken_front t rest)
  unfolding woken_front
  woken_front-Inv t rest e = record {
    core = record {
      homes = woken-Homes s.queues place (of_condition c) t rest core.homes e;
      shows = λ u. ground (arith, core.shows u);
      pending = λ u. ground (arith, core.pending u);
      free_lock = core.free_lock;
      busy_lock = core.busy_lock;
      handed = λ u l q. ground (arith, core.handed u l, core.homes.home (of_condition c) t);
    };
    cpu = λ q. ground (arith, h.cpu q, core.homes.home (of_condition c) t);
    alone = λ u q. ground (arith, h.alone u);
  }

  wake_front-Inv :
      (ts : List ℕ)
      → s.queues (of_condition c) ≡ ts
      → (there : ℕ → Place) × Inv there (wake_front c (remove_front (of_condition c) ts s))
  unfolding woken_front
  wake_front-Inv [] e = (place, h)
  wake_front-Inv (t ∷ rest) e =
      (to_ready place t, forget-Inv (to_ready place t) _ c _ refl (woken_front-Inv t rest e))

-- Signal keeps the invariant.
pub signal-Inv :
    (place : ℕ → Place) (s : System) (c : ℕ) (o : Option ℕ)
    → Inv place s
    → (there : ℕ → Place) × Inv there (signal c o s)
unfolding signal
signal-Inv place s c none h = (place, h)
signal-Inv place s c (some l) h = elim (Bool-cases (may_signal c l s)) [
  | inl good ↦ rw good (wake_front-Inv place s c h (s.queues (of_condition c)) refl)
  | inr bad ↦ rw bad (place, h)
]

broadcast_loop-Inv :
    (rounds : ℕ) (place : ℕ → Place) (s : System) (c l : ℕ)
    → Inv place s
    → (there : ℕ → Place) × Inv there (broadcast_loop rounds c l s)
unfolding broadcast_loop
broadcast_loop-Inv zero place s c l h = (place, h)
broadcast_loop-Inv (suc rounds) place s c l h =
    let (there, inv) = signal-Inv place s c (some l) h in
    let rest = broadcast_loop-Inv rounds there (signal c (some l) s) c l inv in
    elim (Bool-cases (has_waiting c s)) [ inl more ↦ rw more rest | inr done ↦ rw done (place, h) ]

-- Broadcast keeps the invariant.
pub broadcast-Inv :
    (place : ℕ → Place) (s : System) (c : ℕ) (o : Option ℕ)
    → Inv place s
    → (there : ℕ → Place) × Inv there (broadcast c o s)
unfolding broadcast
broadcast-Inv place s c none h = (place, h)
broadcast-Inv place s c (some l) h = elim (Bool-cases (may_signal c l s)) [
  | inl good ↦ rw good (broadcast_loop-Inv _ place s c l h)
  | inr bad ↦ rw bad (place, h)
]

-- Wait keeps the invariant, up to its Sleep.
pub wait-Inv :
    (place : ℕ → Place) (s : System) (c : ℕ) (o : Option ℕ)
    → Inv place s
    → s.idling ≡ false
    → s.resume s.current ≡ returns
    → (there : ℕ → Place) × Inv there (wait c o s)
unfolding wait
wait-Inv place s c none h awake here = (place, h)
wait-Inv place s c (some l) h awake here =
    let (cur, idle, res) = remember_keeps s c l (s.waiting_lock c) in
    wait_with-Inv place (remember c l (s.waiting_lock c) s) c l
      (remember-Inv place s c l (s.waiting_lock c) refl h) (idle ∙ awake) (ground arith)
