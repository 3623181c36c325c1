-- ===== src/Synch/Locks.antt =====
-- Lock::Acquire and Lock::Release of code/threads/synch.cc.
use usc_cs.Common.{
  ◌⊎◌, ℕ, true, false, none, some, List, [], ◌∷◌, ◌++◌, ◌≡◌, refl, Bool-cases, inl, inr, arith,
}
use usc_cs.Kernel.{System, ready_list, of_lock, returns, acquired, busy, free, put, remove_front}
use usc_cs.Kernel.Homes.{Place}
use usc_cs.Synch.{acquire, release, is_held, is_busy, hand_over}
use usc_cs.Synch.Invariant.{Inv, lock, block-Inv, return-Inv}
use usc_cs.Synch.Semaphores.{to_ready, woken-Homes}

take-Inv :
    (place : ℕ → Place) (s : System) (l : ℕ)
    → Inv place s
    → s.state l ≡ free
    → Inv place (record s { state = put s.state l busy; owner = put s.owner l (some s.current) })
take-Inv place s l h e = record {
  core = record {
    homes = core.homes;
    shows = core.shows;
    pending = core.pending;
    free_lock = λ k q. ground (arith, core.free_lock k);
    busy_lock = λ k q r. ground (arith, core.busy_lock k);
    handed = λ t k q. ground (arith, core.handed t k, core.free_lock l);
  };
  cpu = h.cpu;
  alone = h.alone;
}
  where
    open h use {core}

-- Acquire keeps the invariant, whether it returns at once, takes the lock or waits for it.
pub acquire-Inv :
    (place : ℕ → Place) (s : System) (l : ℕ)
    → Inv place s
    → s.idling ≡ false
    → (there : ℕ → Place) × Inv there (acquire l s)
unfolding acquire
acquire-Inv place s l h awake = elim (Bool-cases (is_held l s)) [
  | inl held ↦ rw held (place, return-Inv place s h awake)
  | inr other ↦ rw other (elim (Bool-cases (is_busy l s)) [
    | inl b ↦ rw b (block-Inv place s (of_lock l) (acquired l) h awake (lock l (ground arith)))
    | inr f ↦ rw f (place, return-Inv place _ (take-Inv place s l h (ground arith)) awake)
  ])
]

module _ (place : ℕ → Place) (s : System) (l : ℕ) (h : Inv place s) (awake : s.idling ≡ false)
    (here : s.resume s.current ≡ returns) (held : s.owner l ≡ some s.current) where
  open h use {core}

  hand_over-Inv :
      (ts : List ℕ)
      → s.queues (of_lock l) ≡ ts
      → (there : ℕ → Place) × Inv there (hand_over l (remove_front (of_lock l) ts s))
  hand_over-Inv [] e = (
    place,
    record {
      core = record {
        homes = core.homes;
        shows = core.shows;
        pending = core.pending;
        free_lock = λ k q. ground (arith, core.free_lock k);
        busy_lock = λ k q r. ground (arith, core.busy_lock k);
        handed = λ u k q. ground (arith, core.handed u k);
      };
      cpu = h.cpu;
      alone = h.alone;
    },
  )
  hand_over-Inv (t ∷ rest) e = (
    to_ready place t,
    record {
      core = record {
        homes = woken-Homes s.queues place (of_lock l) t rest core.homes e;
        shows = λ u. ground (arith, core.shows u);
        pending = λ u. ground (arith, core.pending u);
        free_lock = λ k q. ground (arith, core.free_lock k);
        busy_lock = λ k q r. ground (arith, core.busy_lock k);
        handed =
            λ u k q. ground (arith, core.handed u k, core.homes.home (of_lock l) t, core.pending t);
      };
      cpu = λ q. ground (arith, h.cpu q, core.homes.home (of_lock l) t);
      alone = λ u q. ground (arith, h.alone u);
    },
  )

-- Release keeps the invariant, and leaves the running thread on the CPU.
pub release-Inv :
    (place : ℕ → Place) (s : System) (l : ℕ)
    → Inv place s
    → s.idling ≡ false
    → s.resume s.current ≡ returns
    → (there : ℕ → Place) × Inv there (release l s)
unfolding release
release-Inv place s l h awake here = elim (Bool-cases (is_held l s)) [
  | inl held ↦
      rw held (hand_over-Inv place s l h awake here (ground arith) (s.queues (of_lock l)) refl)
  | inr other ↦ rw other (place, h)
]

hand_over_keeps :
    (s : System) (l : ℕ) (ts : List ℕ)
    → let s' = hand_over l (remove_front (of_lock l) ts s) in
      (s'.current ≡ s.current)
      × (s'.idling ≡ s.idling)
      × (s'.resume ≡ s.resume)
      × (s'.waiting_lock ≡ s.waiting_lock)
hand_over_keeps s l [] = (refl, refl, refl, refl)
hand_over_keeps s l (t ∷ rest) = (refl, refl, refl, refl)

-- Release does not switch threads.
pub release_keeps :
    (s : System) (l : ℕ)
    → let s' = release l s in
      (s'.current ≡ s.current)
      × (s'.idling ≡ s.idling)
      × (s'.resume ≡ s.resume)
      × (s'.waiting_lock ≡ s.waiting_lock)
unfolding release
release_keeps s l = elim (Bool-cases (is_held l s)) [
  | inl held ↦ rw held (hand_over_keeps s l (s.queues (of_lock l)))
  | inr other ↦ rw other (refl, refl, refl, refl)
]

-- Release by a thread that does not own the lock changes nothing. Release by the owner frees the lock
-- where nobody waits for it; otherwise it gives the lock, still busy, to the longest waiter, who leaves
-- the lock's queue for the end of the ready list.
pub release_lem :
    (s : System) (l : ℕ)
    → let s' = release l s in
      ((is_held l s ≡ false) × (s' ≡ s))
      ⊎ ((is_held l s ≡ true)
          × (s.queues (of_lock l) ≡ [])
          × (s'.state l ≡ free)
          × (s'.owner l ≡ none))
      ⊎ ((t : ℕ) × (rest : List ℕ) × (is_held l s ≡ true)
          × (s.queues (of_lock l) ≡ t ∷ rest)
          × (s'.owner l ≡ some t)
          × (s'.state l ≡ s.state l)
          × (s'.queues (of_lock l) ≡ rest)
          × (s'.queues ready_list ≡ s.queues ready_list ++ t ∷ []))
unfolding release
release_lem s l = elim (Bool-cases (is_held l s)) [
  | inr other ↦ inl (other, rw other refl)
  | inl held ↦ inr (go (s.queues (of_lock l)) refl held)
]
  where
    go :
        (ts : List ℕ)
        → s.queues (of_lock l) ≡ ts
        → is_held l s ≡ true
        → let s' = release l s in
          ((is_held l s ≡ true)
            × (s.queues (of_lock l) ≡ [])
            × (s'.state l ≡ free)
            × (s'.owner l ≡ none))
          ⊎ ((t : ℕ) × (rest : List ℕ) × (is_held l s ≡ true)
              × (s.queues (of_lock l) ≡ t ∷ rest)
              × (s'.owner l ≡ some t)
              × (s'.state l ≡ s.state l)
              × (s'.queues (of_lock l) ≡ rest)
              × (s'.queues ready_list ≡ s.queues ready_list ++ t ∷ []))
    go [] e held = inl (held, e, ground arith, ground arith)
    go (t ∷ rest) e held =
        inr (t, rest, held, e, ground arith, ground arith, ground arith, ground arith)
