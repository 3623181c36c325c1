-- ===== src/Synch/Signals.antt =====
-- What Signal, Broadcast, Wait, P and V of code/threads/synch.cc do to the queues.
use usc_cs.Common.{
  ℕ, true, false, Option, none, some, List, [], ◌∷◌, ◌++◌, ◌≡◌, ◌⊎◌, refl, Bool-cases, inl, inr,
  arith,
}
use usc_cs.Kernel.{System, ready_list, of_condition, ready}
use usc_cs.Synch.{signal, may_signal}

-- The lock that a condition remembers while `ts` wait on it.
abbrev pub remembered : ℕ → List ℕ → Option ℕ
remembered l [] = none
remembered l (t ∷ ts) = some l

-- `s'` is `s` with the thread `t`, which stood before `rest` on condition `c`, made ready.
pub record Woken (c l t : ℕ) (rest : List ℕ) (s s' : System) : Type 0 where
  pub waiters : s'.queues (of_condition c) ≡ rest
  pub ready_queue : s'.queues ready_list ≡ s.queues ready_list ++ t ∷ []
  pub status : s'.status t ≡ ready
  pub lock : s'.waiting_lock c ≡ remembered l rest
  pub owner : s'.owner ≡ s.owner
  pub current : s'.current ≡ s.current

signal-Woken :
    (s : System) (c l t : ℕ) (rest : List ℕ)
    → may_signal c l s ≡ true
    → s.queues (of_condition c) ≡ t ∷ rest
    → Woken c l t rest s (signal c (some l) s)
unfolding signal
signal-Woken s c l t [] good e = record {
  waiters = ground arith;
  ready_queue = ground arith;
  status = ground arith;
  lock = ground arith;
  owner = ground arith;
  current = ground arith;
}
signal-Woken s c l t (u ∷ rest) good e = record {
  waiters = ground arith;
  ready_queue = ground arith;
  status = ground arith;
  lock = ground arith;
  owner = ground arith;
  current = ground arith;
}

-- A call of Signal or Broadcast with no lock, without a waiter, with another lock than the condition
-- remembers, or with a lock that the caller does not own.
pub data Refuses (s : System) (c : ℕ) : Option ℕ → Type 0 where
  no_lock : Refuses s c none
  not_allowed : (l : ℕ) → may_signal c l s ≡ false → Refuses s c (some l)

-- The waiters of a condition that has some.
waiters :
    (ts : List ℕ)
    → (s : System) → (c l : ℕ) → s.queues (of_condition c) ≡ ts
    → may_signal c l s ≡ true
    → (t : ℕ) × (rest : List ℕ) × (ts ≡ t ∷ rest)
waiters [] s c l e good = ground arith
waiters (t ∷ rest) s c l e good = (t, rest, refl)

-- Signal either refuses the call and changes nothing, or is called with the lock of the condition, by
-- its owner; then the longest waiter moves to the end of the ready list, and the condition forgets the
-- lock exactly where nobody waits any more.
pub signal_lem :
    (s : System) (c : ℕ) (o : Option ℕ)
    → (Refuses s c o × (signal c o s ≡ s))
      ⊎ ((l t : ℕ) × (rest : List ℕ) × (o ≡ some l)
          × (may_signal c l s ≡ true)
          × (s.queues (of_condition c) ≡ t ∷ rest)
          × Woken c l t rest s (signal c o s))
unfolding signal
signal_lem s c none = inl (no_lock, refl)
signal_lem s c (some l) = elim (Bool-cases (may_signal c l s)) [
  | inr bad ↦ inl (not_allowed l bad, rw bad refl)
  | inl good ↦
      let (t, rest, e) = waiters (s.queues (of_condition c)) s c l refl good in
      inr (l, t, rest, refl, good, e, signal-Woken s c l t rest good e)
]
