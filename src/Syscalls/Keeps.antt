-- ===== src/Syscalls/Keeps.antt =====
-- The lock and condition calls of code/userprog/exception.cc that leave their caller running.
use usc_cs.Common.{ℕ, ◌≡◌, refl, inl, inr, Option, none, some, not, ◌&&◌, Bool-cases, arith}
use usc_cs.BitMap
use usc_cs.Kernel.{put}
use usc_cs.Synch.{lock_destructor, condition_destructor, release, is_busy, has_waiting}
use usc_cs.Synch.Awake.{
  StaysOn, StaysOn-trans, release-StaysOn, destroyed_lock, destroyed_condition,
}
use usc_cs.Syscalls.{
  Outcome, ok, halted, aborted, at_valid, asserted, ◌>>=◌, Tables, release_at, destroy_lock_at,
  destroy_condition_at, decrease, is_zero,
}

-- When a call ends in `k'`, the caller of `k` still has the processor.
abbrev pub Keeps : Tables → Outcome Tables → Type 0
Keeps k r = (k' : Tables) → r ≡ ok k' → StaysOn k.sys k'.sys

pub Keeps-ok : (k k' : Tables) → StaysOn k.sys k'.sys → Keeps k (ok k')
Keeps-ok k k' h k'' e = ground (arith, h)

pub at_valid-Keeps :
    (k : Tables) (f : ℕ → Outcome Tables) (r : Outcome (Option ℕ))
    → ((n : ℕ) → Keeps k (f n))
    → Keeps k (r >>= at_valid k f)
at_valid-Keeps k f halted h = λ k' e. cc
at_valid-Keeps k f aborted h = λ k' e. cc
at_valid-Keeps k f (ok none) h = Keeps-ok k k (record { current = refl; idling = refl })
at_valid-Keeps k f (ok (some n)) h = h n

deleted-Keeps :
    (k : Tables) {A : Type 0} (r : Option A) (f : A → Tables)
    → ((a : A) → StaysOn k.sys (f a).sys)
    → Keeps k (asserted r >>= λ a. ok (f a))
deleted-Keeps k none f h = λ k' e. cc
deleted-Keeps k (some a) f h = Keeps-ok k (f a) (h a)

pub release_at-Keeps : (k : Tables) (n : ℕ) → Keeps k (release_at k n)
unfolding release_at
release_at-Keeps k n =
    let e = k.lock_table n in
    let s = release e.lock k.sys in
    let count = decrease e.acquire_count in
    let k' = record k {
      lock_table = put k.lock_table n (record e { acquire_count = count });
      sys = s;
    } in
    let on = release-StaysOn e.lock k.sys in
    elim (Bool-cases (e.is_to_be_deleted && is_zero count && not (is_busy e.lock s))) [
      | inl gone ↦ rw gone (
          deleted-Keeps k (BitMap.clear k.lock_map n)
            (λ m. record k' { lock_map = m; sys = lock_destructor (k'.lock_table n).lock s })
            λ m. StaysOn-trans k.sys s _ on (destroyed_lock _ s))
      | inr stays ↦ rw stays (Keeps-ok k k' on)
    ]

pub destroy_lock_at-Keeps : (k : Tables) (n : ℕ) → Keeps k (destroy_lock_at k n)
unfolding destroy_lock_at
destroy_lock_at-Keeps k n =
    let e = k.lock_table n in
    elim (Bool-cases (is_busy e.lock k.sys && is_zero e.acquire_count)) [
      | inr gone ↦ rw gone (
          deleted-Keeps k (BitMap.clear k.lock_map n)
            (λ m. record k { lock_map = m; sys = lock_destructor e.lock k.sys })
            λ m. destroyed_lock e.lock k.sys)
      | inl stays ↦ rw stays (Keeps-ok k _ (record { current = refl; idling = refl }))
    ]

pub destroy_condition_at-Keeps : (k : Tables) (n : ℕ) → Keeps k (destroy_condition_at k n)
unfolding destroy_condition_at
destroy_condition_at-Keeps k n =
    let e = k.condition_table n in
    elim (Bool-cases (has_waiting e.condition k.sys)) [
      | inr gone ↦ rw gone (
          deleted-Keeps k (BitMap.clear k.condition_map n)
            (λ m. record k { condition_map = m; sys = condition_destructor e.condition k.sys })
            λ m. destroyed_condition e.condition k.sys)
      | inl stays ↦ rw stays (Keeps-ok k _ (record { current = refl; idling = refl }))
    ]
