-- ===== src/Interrupt/Tests.antt =====
-- One pending interrupt of code/machine/interrupt.cc.
use usc_cs.Common.{ℕ, suc, ◌≤◌, ◌≡◌, ◌⊎◌, refl, true, false, none, some, List, [], ◌∷◌, arith}
use usc_cs.LinkedList.{Store}
use usc_cs.LinkedList.Refinement.{Holds}
use usc_cs.LinkedList.Sorting.{IsSorted, AtLeast, Above}
use usc_cs.Interrupt.{
  Interrupt, Calls, int_off, int_on, user_mode, timer_int, check_if_due, fire, is_idle, one_tick,
  tick, yield_if_asked,
}
use usc_cs.Interrupt.Schedule.{Pending, Kept, check_if_due_lem}
use usc_cs.Interrupt.Clock.{Behaves, Quiet, Fires, one_tick_lem}

-- Interrupt 0, of the timer, at time 5.
abbrev timer : Store
timer = record {
  next_free = 1;
  cell = λ _. some (record { item = 0; key = 5; next = none });
  first = some 0;
  last = some 0;
}

abbrev clock : Interrupt ℕ
clock = record {
  level = int_off;
  pending = timer;
  interrupts = λ _. record { handler = 0; arg = 0; when = 5; type_of = timer_int };
  next_interrupt = 1;
  in_handler = false;
  yield_on_return = false;
  status = user_mode;
  total_ticks = 4;
  idle_ticks = 0;
  system_ticks = 0;
  user_ticks = 4;
  world = 0;
}

abbrev clock_items : List (ℕ × ℕ)
clock_items = (0, 5) ∷ []

clock-Pending : Pending clock clock_items
clock-Pending = record {
  holds = record {
    nodes = record { addr = 0; item = 0; key = 5 } ∷ [];
    shape = record {
      chain = (refl, none, refl, refl);
      ends = refl;
      apart = (refl, tt);
      below = λ a far. ground arith;
      count = omega arith;
    };
    same_values = refl;
  };
  sorted = (tt, tt);
}

-- Handlers that count their calls.
abbrev counting : Calls ℕ
counting = record {
  handle = λ i s. record s { world = suc s.world };
  delayed_load = λ w. w;
  yield = λ s. s;
}

counting-Behaves : Behaves counting
counting-Behaves = record {
  keeps =
      λ i s xs off h. (xs, record { holds = h.holds; sorted = h.sorted }, off, refl, omega arith);
}

abbrev delay : ℕ
delay = 7

check_if_due_example :
    ((i when : ℕ) × (rest : List (ℕ × ℕ)) × (p : Store) × (clock_items ≡ (i, when) ∷ rest)
      × (when ≤ 4)
      × AtLeast when rest
      × IsSorted rest
      × Holds p rest
      × (check_if_due counting false clock
          ≡ some (true, fire counting i (record clock { pending = p }))))
    ⊎ ((ys : List (ℕ × ℕ)) × (p : Store) × (check_if_due counting false clock
          ≡ some (false, record clock { pending = p }))
        × Pending (record clock { pending = p }) ys
        × Kept clock_items ys
        × (Above 4 ys ⊎ (is_idle clock.status ≡ true)))
check_if_due_example = check_if_due_lem counting clock clock_items refl clock-Pending

one_tick_example :
    (s' : Interrupt ℕ) × (one_tick counting 2 clock
      ≡ some (yield_if_asked counting user_mode (record s' { level = int_on })))
    × Quiet s' 5
    × Fires counting (record (tick user_mode clock) { level = int_off }) clock_items s'
one_tick_example =
    one_tick_lem counting counting-Behaves 2 clock clock_items clock-Pending refl (omega arith)
