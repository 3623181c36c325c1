-- ===== src/Kernel/Homes.antt =====
-- Where each thread is: on the CPU, in one queue, or in none.
use usc_cs.Common.{
  ℕ, true, false, List, [], ◌∷◌, ◌++◌, ◌≡◌, ◌≢◌, refl, subst, ◌↔◌, has, has-append, Bool-cases, inl,
  inr, arith,
}
use usc_cs.Kernel.{
  QueueId, ready_list, of_semaphore, of_lock, of_condition, same_queue, put, put_queue,
}

pub data Place : Type 0 where
  on_cpu : Place
  waits : QueueId → Place
  nowhere : Place

pub same_queue_iff : (p q : QueueId) → (same_queue p q ≡ true) ↔ (p ≡ q)
same_queue_iff ready_list ready_list = (λ _. refl, λ _. refl)
same_queue_iff (of_semaphore i) (of_semaphore j) = ground arith
same_queue_iff (of_lock i) (of_lock j) = ground arith
same_queue_iff (of_condition i) (of_condition j) = ground arith
same_queue_iff ready_list (of_semaphore j) = ground arith
same_queue_iff _ _ = ground arith

abbrev pub Distinct : List ℕ → Type 0
Distinct [] = Unit
Distinct (t ∷ ts) = (has t ts ≡ false) × Distinct ts

-- A thread is in the queue that `place` names for it, once, and in no other.
pub record Homes (queues : QueueId → List ℕ) (place : ℕ → Place) : Type 0 where
  pub home : (q : QueueId) (t : ℕ) → (has t (queues q) ≡ true) ↔ (place t ≡ waits q)
  pub distinct : (q : QueueId) → Distinct (queues q)

Distinct-append : (ts : List ℕ) (t : ℕ) → Distinct ts → has t ts ≡ false → Distinct (ts ++ t ∷ [])
Distinct-append [] t d h = (refl, tt)
Distinct-append (x ∷ ts) t d h =
    (ground (arith, has-append x ts (t ∷ [])), Distinct-append ts t d.1 (ground arith))

module _ {queues : QueueId → List ℕ} {place : ℕ → Place} (h : Homes queues place) where
  not_in : (q : QueueId) (t : ℕ) → place t ≢ waits q → has t (queues q) ≡ false
  not_in q t ne = elim (Bool-cases (has t (queues q))) [
    | inl e ↦ absurd (ne ((h.home q t).0 e))
    | inr e ↦ e
  ]

  -- A thread that is in no queue joins the end of one.
  pub Homes-append :
      (q : QueueId) (t : ℕ)
      → ((p : QueueId) → place t ≢ waits p)
      → Homes (put_queue queues q (queues q ++ t ∷ [])) (put place t (waits q))
  Homes-append q t out = record {
    home = λ p u.
        ground (arith, same_queue_iff q p, h.home p u, has-append u (queues q) (t ∷ []), out p);
    distinct = λ p. elim (Bool-cases (same_queue q p)) [
      | inl e ↦ rw e (Distinct-append (queues q) t (h.distinct q) (not_in q t (out q)))
      | inr e ↦ rw e (h.distinct p)
    ];
  }

  -- The first thread of a queue leaves it.
  pub Homes-remove :
      (q : QueueId) (t : ℕ) (rest : List ℕ) (to : Place)
      → queues q ≡ t ∷ rest
      → ((p : QueueId) → to ≢ waits p)
      → Homes (put_queue queues q rest) (put place t to)
  Homes-remove q t rest to e out = record {
    home = λ p u. ground (arith, same_queue_iff q p, h.home p u, h.home q u, front, e, out p);
    distinct = λ p. elim (Bool-cases (same_queue q p)) [
      | inl eq ↦ rw eq front.1
      | inr eq ↦ rw eq (h.distinct p)
    ];
  }
    where
      front : Distinct (t ∷ rest)
      front = subst Distinct e (h.distinct q)
