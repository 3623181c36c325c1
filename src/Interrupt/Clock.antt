-- ===== src/Interrupt/Clock.antt =====
-- How Interrupt::OneTick (code/machine/interrupt.cc) moves the clock and runs the handlers that are due.
use usc_cs.Common.{
  ℕ, zero, suc, ◌+◌, ◌≤◌, ◌<◌, ◌≡◌, inl, inr, refl, ◌∙◌, sym, ap, true, false, some, List, [], ◌∷◌,
  leb, if◌then◌else◌, subst, arith,
}
use usc_cs.LinkedList.{Store}
use usc_cs.LinkedList.Refinement.{Holds}
use usc_cs.LinkedList.Sorting.{Above, AtLeast}
use usc_cs.Interrupt.{
  Interrupt, int_off, int_on, MachineStatus, system_mode, Calls, fire, is_off, is_idle, check_all,
  tick, tick_length, one_tick, yield_if_asked, idle_mode, user_mode,
}
use usc_cs.Interrupt.Schedule.{Pending, Kept, check_if_due_lem}

-- How many of the pending interrupts are due at the time `t`.
abbrev pub due_count : ℕ → List (ℕ × ℕ) → ℕ
due_count t [] = 0
due_count t ((i, when) ∷ xs) = (if leb when t then 1 else 0) + due_count t xs

-- What the device simulators do: a handler schedules interrupts for later and leaves the clock, the
-- level and the status alone.
pub record Behaves {ℓ} {World : Type ℓ} (calls : Calls World) : Type ℓ where
  pub keeps :
      (i : ℕ) (s : Interrupt World) (xs : List (ℕ × ℕ))
      → is_off s.level ≡ true
      → Pending s xs
      → (ys : List (ℕ × ℕ)) × Pending (fire calls i s) ys
        × (is_off (fire calls i s).level ≡ true)
        × ((fire calls i s).total_ticks ≡ s.total_ticks)
        × (due_count s.total_ticks ys ≤ due_count s.total_ticks xs)

-- Nothing that is pending is due.
pub record Quiet {ℓ} {World : Type ℓ} (s : Interrupt World) (t : ℕ) : Type ℓ where
  pub left : List (ℕ × ℕ)
  pub pending : Pending s left
  pub none_due : Above t left
  pub time : s.total_ticks ≡ t
  pub off : is_off s.level ≡ true

-- What firing an interrupt means: the handler of it is called with its argument, after the delayed load
-- of the processor, and finds `in_handler` set and the system mode; both are restored behind it.
abbrev pub handled {ℓ} : {World : Type ℓ} → Calls World → ℕ → Interrupt World → Interrupt World
handled calls i s =
    let called =
      calls.handle (s.interrupts i) (record s {
        world = calls.delayed_load s.world;
        in_handler = true;
        status = system_mode;
      }) in
    record called { in_handler = false; status = s.status }

-- The handlers that are called one after the other: each time the earliest interrupt of those pending,
-- which is due, until none is due.
pub data Fires {ℓ} {World : Type ℓ} (calls : Calls World)
    : Interrupt World → List (ℕ × ℕ) → Interrupt World → Type ℓ where
  quiet :
      {s : Interrupt World} {xs ys : List (ℕ × ℕ)} {p : Store}
      → Kept xs ys
      → Pending (record s { pending = p }) ys
      → Above s.total_ticks ys
      → Fires calls s xs (record s { pending = p })
  fires :
      {s end : Interrupt World} {rest ys : List (ℕ × ℕ)} {p : Store} (i when : ℕ)
      → when ≤ s.total_ticks
      → AtLeast when rest
      → Holds p rest
      → Pending (handled calls i (record s { pending = p })) ys
      → Fires calls (handled calls i (record s { pending = p })) ys end
      → Fires calls s ((i, when) ∷ rest) end

tick_lem {ℓ} :
    {World : Type ℓ} (m : MachineStatus) (s : Interrupt World)
    → ((tick m s).status ≡ s.status)
      × ((tick m s).pending ≡ s.pending)
      × ((tick m s).total_ticks ≡ s.total_ticks + tick_length m)
tick_lem idle_mode s = (refl, refl, refl)
tick_lem system_mode s = (refl, refl, refl)
tick_lem user_mode s = (refl, refl, refl)

module _ {ℓ} {World : Type ℓ} (calls : Calls World) (b : Behaves calls) where
  check_all_lem :
      (rounds : ℕ) (s : Interrupt World) (xs : List (ℕ × ℕ))
      → due_count s.total_ticks xs < rounds
      → is_off s.level ≡ true
      → is_idle s.status ≡ false
      → Pending s xs
      → (s' : Interrupt World) × (check_all calls rounds s ≡ some s')
        × Quiet s' s.total_ticks
        × Fires calls s xs s'
  unfolding check_all
  check_all_lem zero s xs enough off busy h = absurd (omega arith)
  check_all_lem (suc rounds) s xs enough off busy h = elim (check_if_due_lem calls s xs off h) [
    | inr (ys, p, run, kept, same, inl none_due) ↦ (
      _,
      rw run refl,
      record { left = ys; pending = kept; none_due = none_due; time = refl; off = off },
      quiet same kept none_due,
    )
    | inr (ys, p, run, kept, same, inr idle) ↦ absurd cc
    | inl (i, when, rest, p, split, now, least, ordered, left, run) ↦
        let s' = fire calls i (record s { pending = p }) in
        let (ys, pending, still_off, time, fewer) =
          b.keeps i (record s { pending = p }) rest off
            (record { holds = left; sorted = ordered }) in
        let count : due_count s.total_ticks xs ≡ suc (due_count s.total_ticks rest) =
          ap (due_count s.total_ticks) split ∙ ground arith in
        let (end, rest_run, calm, trace) =
          check_all_lem rounds s' ys (rw time (omega arith)) still_off busy pending in
        (
          end,
          rw run rest_run,
          subst (Quiet end) time calm,
          subst (λ l. Fires calls s l end) (sym split) (fires i when now least left pending trace),
        )
  ]

  -- OneTick, outside the idle loop, moves the clock by a system tick or by a user tick, and then calls
  -- handlers with interrupts disabled, each time that of the earliest pending interrupt, which is due,
  -- until none is due: the loop ends after at most one round more than interrupts are due, and no
  -- pending interrupt is due before the thread may yield. Assumed is that a handler schedules
  -- interrupts for later and leaves the clock and the level alone.
  pub one_tick_lem :
      (rounds : ℕ) (s : Interrupt World) (xs : List (ℕ × ℕ))
      → Pending s xs
      → is_idle s.status ≡ false
      → due_count (s.total_ticks + tick_length s.status) xs < rounds
      → (s' : Interrupt World) × (one_tick calls rounds s
          ≡ some (yield_if_asked calls s.status (record s' { level = int_on })))
        × Quiet s' (s.total_ticks + tick_length s.status)
        × Fires calls (record (tick s.status s) { level = int_off }) xs s'
  unfolding one_tick
  one_tick_lem rounds s xs h busy enough =
      let (status, pending, time) = tick_lem s.status s in
      let s' = record (tick s.status s) { level = int_off } in
      let (end, run, calm, trace) =
        check_all_lem rounds s' xs (rw time enough) refl (rw status busy)
          (record { holds = subst (λ p. Holds p xs) (sym pending) h.holds; sorted = h.sorted }) in
      (end, rw run refl, subst (Quiet end) time calm, trace)
