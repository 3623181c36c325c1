-- ===== src/Synch/Run/Owner.antt =====
-- Who may change the owner of a lock.
use usc_cs.Common.{
  if-either, ℕ, zero, suc, Option, none, some, List, [], ◌∷◌, ◌==◌, same, ◌≡◌, ◌≢◌, refl, ◌∙◌, ap,
  inl, inr, length, Bool-cases, arith,
}
use usc_cs.Kernel.{
  System, ready_list, of_semaphore, of_condition, Resume, returns, tests_again, acquired,
  reacquires, remove_front, yield, yield_to, wake, halt, sleep, sleep_to, fork, free,
}
use usc_cs.Synch.{
  semaphore_p, semaphore_v, acquire, release, wait, signal, broadcast, broadcast_loop, return,
  resume_current, resume_with, wake_waiter, is_held, is_busy, remember, wait_with, wake_front,
  may_signal,
}
use usc_cs.Synch.Run.{
  Call, p, v, acquires, releases, waits_on, signals, broadcasts, yields, call, Step, calls, resumes,
  interrupts, wakes, halts, forks,
}

sleep_to-owner :
    (s : System) (ts : List ℕ) → (sleep_to (remove_front ready_list ts s)).owner ≡ s.owner
sleep_to-owner s [] = refl
sleep_to-owner s (t ∷ ts) = refl

sleep-owner : (s : System) → (sleep s).owner ≡ s.owner
unfolding sleep
sleep-owner s = sleep_to-owner _ (s.queues ready_list)

yield_to-owner :
    (s : System) (ts : List ℕ) → (yield_to (remove_front ready_list ts s)).owner ≡ s.owner
yield_to-owner s [] = refl
yield_to-owner s (t ∷ ts) = refl

semaphore_p-owner : (i : ℕ) (s : System) → (semaphore_p i s).owner ≡ s.owner
unfolding semaphore_p
semaphore_p-owner i s = elim (Bool-cases (s.value i == 0)) [
  | inl e ↦ rw e (sleep-owner _)
  | inr e ↦ rw e
]

semaphore_v-owner : (i : ℕ) (s : System) → (semaphore_v i s).owner ≡ s.owner
unfolding semaphore_v
semaphore_v-owner i s = go (s.queues (of_semaphore i))
  where
    go : (ts : List ℕ) → (wake_waiter (remove_front (of_semaphore i) ts s)).owner ≡ s.owner
    go [] = refl
    go (t ∷ ts) = refl

-- What a thread may do to the owner of a lock: nothing, unless it is the owner or there is none.
abbrev pub Keeps : (ℕ → Option ℕ) → (ℕ → Option ℕ) → ℕ → Type 0
Keeps before after me = (l t : ℕ) → before l ≡ some t → t ≢ me → after l ≡ some t

acquire-Keeps :
    (l : ℕ) (s : System)
    → ((k : ℕ) → s.state k ≡ free → s.owner k ≡ none)
    → Keeps s.owner (acquire l s).owner s.current
unfolding acquire
acquire-Keeps l s free_lock k t e ne = elim (Bool-cases (is_held l s)) [
  | inl held ↦ rw held e
  | inr other ↦ rw other (elim (Bool-cases (is_busy l s)) [
    | inl b ↦ rw b (ap (λ f. f k) (sleep-owner _) ∙ e)
    | inr f ↦ rw f (ground (arith, free_lock l))
  ])
]

release-Keeps : (l : ℕ) (s : System) → Keeps s.owner (release l s).owner s.current
unfolding release
release-Keeps l s k t e ne = ground arith

remember-owner :
    (c l : ℕ) (o : Option ℕ) (s : System)
    → ((remember c l o s).owner ≡ s.owner) × ((remember c l o s).current ≡ s.current)
remember-owner c l none s = (refl, refl)
remember-owner c l (some k) s = (refl, refl)

wait_with-Keeps : (c l : ℕ) (s : System) → Keeps s.owner (wait_with c l s).owner s.current
wait_with-Keeps c l s k t e ne = elim (Bool-cases (same (some l) (s.waiting_lock c))) [
  | inr other ↦ rw other e
  | inl right ↦ rw right (elim (Bool-cases (is_held l s)) [
    | inr not_held ↦ rw not_held e
    | inl held ↦ rw held (ap (λ f. f k) (sleep-owner _) ∙ release-Keeps l s k t e ne)
  ])
]

wait-Keeps : (c : ℕ) (o : Option ℕ) (s : System) → Keeps s.owner (wait c o s).owner s.current
unfolding wait
wait-Keeps c none s k t e ne = e
wait-Keeps c (some l) s k t e ne =
    let (own, cur) = remember-owner c l (s.waiting_lock c) s in
    wait_with-Keeps c l (remember c l (s.waiting_lock c) s) k t (ground arith) (ground arith)

wake_front-owner :
    (c : ℕ) (ts : List ℕ) (s : System)
    → (wake_front c (remove_front (of_condition c) ts s)).owner ≡ s.owner
wake_front-owner c [] s = refl
wake_front-owner c (t ∷ []) s = ground arith
wake_front-owner c (t ∷ u ∷ ts) s = ground arith

signal-owner : (c : ℕ) (o : Option ℕ) (s : System) → (signal c o s).owner ≡ s.owner
unfolding signal
signal-owner c none s = refl
signal-owner c (some l) s = elim (Bool-cases (may_signal c l s)) [
  | inl good ↦ rw good (wake_front-owner c (s.queues (of_condition c)) s)
  | inr bad ↦ rw bad
]

broadcast_loop-owner : (n c l : ℕ) (s : System) → (broadcast_loop n c l s).owner ≡ s.owner
unfolding broadcast_loop
broadcast_loop-owner zero c l s = refl
broadcast_loop-owner (suc n) c l s =
    ground (arith, broadcast_loop-owner n c l (signal c (some l) s), signal-owner c (some l) s)

broadcast-owner : (c : ℕ) (o : Option ℕ) (s : System) → (broadcast c o s).owner ≡ s.owner
unfolding broadcast
broadcast-owner c none s = refl
broadcast-owner c (some l) s =
    ground (arith, broadcast_loop-owner (length (s.queues (of_condition c))) c l s)

wake-owner : (s : System) → (wake s).owner ≡ s.owner
unfolding wake
wake-owner s = ground (arith, sleep_to-owner s (s.queues ready_list))

halt-owner : (s : System) → (halt s).owner ≡ s.owner
unfolding halt
halt-owner s = if-either (λ (u : System). u.owner ≡ s.owner) s.idling refl refl

resume_with-Keeps :
    (r : Resume) (s : System)
    → ((k : ℕ) → s.state k ≡ free → s.owner k ≡ none)
    → Keeps s.owner (resume_with r s).owner s.current
resume_with-Keeps returns s f k t e ne = e
resume_with-Keeps (tests_again i) s f k t e ne = ap (λ g. g k) (semaphore_p-owner i s) ∙ e
resume_with-Keeps (acquired l) s f k t e ne = e
resume_with-Keeps (reacquires l) s f k t e ne = acquire-Keeps l (return s) f k t e ne

call-Keeps :
    (c : Call) (s : System)
    → ((k : ℕ) → s.state k ≡ free → s.owner k ≡ none)
    → Keeps s.owner (call c s).owner s.current
unfolding call yield
call-Keeps (p i) s f k t e ne = ap (λ g. g k) (semaphore_p-owner i s) ∙ e
call-Keeps (v i) s f k t e ne = ap (λ g. g k) (semaphore_v-owner i s) ∙ e
call-Keeps (acquires l) s f k t e ne = acquire-Keeps l s f k t e ne
call-Keeps (releases l) s f k t e ne = release-Keeps l s k t e ne
call-Keeps (waits_on c o) s f k t e ne = wait-Keeps c o s k t e ne
call-Keeps (signals c o) s f k t e ne = ap (λ g. g k) (signal-owner c o s) ∙ e
call-Keeps (broadcasts c o) s f k t e ne = ap (λ g. g k) (broadcast-owner c o s) ∙ e
call-Keeps yields s f k t e ne = ap (λ g. g k) (yield_to-owner s (s.queues ready_list)) ∙ e

pub Step-Keeps :
    {s u : System}
    → Step s u
    → ((k : ℕ) → s.state k ≡ free → s.owner k ≡ none)
    → Keeps s.owner u.owner s.current
unfolding resume_current fork
Step-Keeps {s} (calls c awake here) f k t e ne = call-Keeps c s f k t e ne
Step-Keeps {s} (resumes awake) f k t e ne = resume_with-Keeps (s.resume s.current) s f k t e ne
Step-Keeps {s} (interrupts i) f k t e ne = ap (λ g. g k) (semaphore_v-owner i s) ∙ e
Step-Keeps {s} wakes f k t e ne = ap (λ g. g k) (wake-owner s) ∙ e
Step-Keeps {s} halts f k t e ne = ap (λ g. g k) (halt-owner s) ∙ e
Step-Keeps {s} (forks u new fresh) f k t e ne = e
