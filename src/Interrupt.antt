-- ===== src/Interrupt.antt =====
-- code/machine/interrupt.cc: the pending interrupts and the simulated time. `World` is the rest of the
-- program, which the handlers and the yield of a thread may change; an operation that returns `none`
-- has failed an ASSERT or followed a NULL pointer. Times do not overflow an int64_t here.
pub mod Schedule
pub mod Clock
mod Tests
use usc_cs.Common.{
  ℕ, zero, suc, ◌+◌, ◌-◌, Bool, true, false, not, ◌&&◌, Option, none, some, ltb, if◌then◌else◌,
  ◌>>=◌, put, assert,
}
use usc_cs.LinkedList.{Store, sorted_insert, sorted_remove, is_empty}

pub data IntStatus : Type 0 where
  int_off int_on : IntStatus

pub data MachineStatus : Type 0 where
  idle_mode system_mode user_mode : MachineStatus

pub data IntType : Type 0 where
  timer_int disk_int console_write_int console_read_int network_send_int network_recv_int : IntType

-- `handler` and `arg` name the procedure to call.
pub record PendingInterrupt : Type 0 where
  pub handler : ℕ
  pub arg : ℕ
  pub when : ℕ
  pub type_of : IntType

pub record Interrupt {ℓ} (World : Type ℓ) : Type ℓ where
  pub level : IntStatus
  -- The pending interrupts: a List of pointers, and what they point to.
  pub pending : Store
  pub interrupts : ℕ → PendingInterrupt
  pub next_interrupt : ℕ
  pub in_handler : Bool
  pub yield_on_return : Bool
  pub status : MachineStatus
  pub total_ticks : ℕ
  pub idle_ticks : ℕ
  pub system_ticks : ℕ
  pub user_ticks : ℕ
  pub world : World

abbrev pub system_tick : ℕ
system_tick = 10

abbrev pub user_tick : ℕ
user_tick = 1

abbrev pub is_off : IntStatus → Bool
is_off int_off = true
is_off int_on = false

abbrev pub is_idle : MachineStatus → Bool
is_idle idle_mode = true
is_idle _ = false

abbrev pub is_timer : IntType → Bool
is_timer timer_int = true
is_timer _ = false

module _ {ℓ} {World : Type ℓ} where
  -- Interrupt::Schedule. The new PendingInterrupt is at the address `next_interrupt`.
  unfoldable pub schedule : ℕ → ℕ → ℕ → IntType → Interrupt World → Option (Interrupt World)
  schedule handler arg from_now type_of s =
      let when = s.total_ticks + from_now in
      let to_occur : PendingInterrupt = record {
        handler = handler;
        arg = arg;
        when = when;
        type_of = type_of;
      } in
      do
        pending ← assert (ltb 0 from_now) s.pending
        pending ← sorted_insert s.next_interrupt when pending
        some (record s {
          interrupts = put s.interrupts s.next_interrupt to_occur;
          next_interrupt = s.next_interrupt + 1;
          pending = pending;
        })

  -- Interrupt::YieldOnReturn
  unfoldable pub yield_on_return : Interrupt World → Option (Interrupt World)
  yield_on_return s = assert s.in_handler (record s { yield_on_return = true })

abbrev pub tick_length : MachineStatus → ℕ
tick_length system_mode = system_tick
tick_length _ = user_tick

-- `totalTicks += ...` in OneTick, in the status it finds
abbrev pub tick {ℓ} : {World : Type ℓ} → MachineStatus → Interrupt World → Interrupt World
tick system_mode s = record s {
  total_ticks = s.total_ticks + system_tick;
  system_ticks = s.system_ticks + system_tick;
}
tick _ s = record s {
  total_ticks = s.total_ticks + user_tick;
  user_ticks = s.user_ticks + user_tick;
}

-- What the interrupt controller calls: the handlers of the devices, the delayed load of the CPU, and
-- the yield of the current thread.
pub record Calls {ℓ} (World : Type ℓ) : Type ℓ where
  pub handle : PendingInterrupt → Interrupt World → Interrupt World
  pub delayed_load : World → World
  pub yield : Interrupt World → Interrupt World

module _ {ℓ} {World : Type ℓ} (calls : Calls World) where
  -- The handler runs with `in_handler` set and in system mode.
  abbrev pub fire : ℕ → Interrupt World → Interrupt World
  fire i s =
      let s' = calls.handle (s.interrupts i) (record s {
        world = calls.delayed_load s.world;
        in_handler = true;
        status = system_mode;
      }) in
      record s' { status = s.status; in_handler = false }

  -- `pending->SortedInsert(toOccur, when); return FALSE;`
  abbrev pub put_back : ℕ → ℕ → Interrupt World → Option (Bool × Interrupt World)
  put_back i when s = do
    pending ← sorted_insert i when s.pending
    some (false, record s { pending = pending })

  -- Is only the time-slice daemon left, on an idle machine?
  abbrev pub nothing_more : ℕ → Interrupt World → Bool
  nothing_more i s = is_idle s.status && is_timer (s.interrupts i).type_of && is_empty s.pending

  -- The clock moves on to `when`, if it has not passed it.
  abbrev pub advance : ℕ → Interrupt World → Interrupt World
  advance when s =
      if ltb s.total_ticks when
      then record s { idle_ticks = s.idle_ticks + (when - s.total_ticks); total_ticks = when }
      else s

  abbrev pub fire_or_quit : ℕ → ℕ → Interrupt World → Option (Bool × Interrupt World)
  fire_or_quit i when s = if nothing_more i s then put_back i when s else some (true, fire i s)

  abbrev pub due : Bool → Option (ℕ × ℕ) → Interrupt World → Option (Bool × Interrupt World)
  due clock none s = some (false, s)
  due true (some (i, when)) s = fire_or_quit i when (advance when s)
  due false (some (i, when)) s =
      if ltb s.total_ticks when then put_back i when s else fire_or_quit i when s

  -- Interrupt::CheckIfDue
  unfoldable pub check_if_due : Bool → Interrupt World → Option (Bool × Interrupt World)
  check_if_due clock s = do
    pending ← assert (is_off s.level) s.pending
    (pending, to_occur) ← sorted_remove pending
    due clock to_occur (record s { pending = pending })

  -- `while (CheckIfDue(FALSE));` for at most a number of rounds.
  unfoldable pub check_all : ℕ → Interrupt World → Option (Interrupt World)
  check_all zero s = none
  check_all (suc rounds) s = do
    (fired, s) ← check_if_due false s
    if fired then check_all rounds s else some s

  -- `if (yieldOnReturn) ...`, where `old` is the status that OneTick found.
  abbrev pub yield_if_asked : MachineStatus → Interrupt World → Interrupt World
  yield_if_asked old s =
      if s.yield_on_return
      then (let s' = calls.yield (record s { yield_on_return = false; status = system_mode }) in
          record s' { status = old })
      else s

  -- Interrupt::OneTick
  unfoldable pub one_tick : ℕ → Interrupt World → Option (Interrupt World)
  one_tick rounds s = do
    s' ← check_all rounds (record (tick s.status s) { level = int_off })
    some (yield_if_asked s.status (record s' { level = int_on }))

  -- Interrupt::SetLevel: the old level, and the new state.
  unfoldable pub set_level : ℕ → IntStatus → Interrupt World → Option (IntStatus × Interrupt World)
  set_level rounds int_off s = some (s.level, record s { level = int_off })
  set_level rounds int_on s = do
    s' ← assert (not s.in_handler) (record s { level = int_on })
    s' ← if is_off s.level then one_tick rounds s' else some s'
    some (s.level, s')

  -- The yield is automatic, since nothing is in the ready queue.
  abbrev pub go_on : Interrupt World → Option (Option (Interrupt World))
  go_on s = some (some (record s { yield_on_return = false; status = system_mode }))

  -- Interrupt::Idle: the state to go on with, or `none` inside for Halt.
  unfoldable pub idle : ℕ → Interrupt World → Option (Option (Interrupt World))
  idle rounds s = do
    (fired, s) ← check_if_due true (record s { status = idle_mode })
    if fired then check_all rounds s >>= go_on else some none
