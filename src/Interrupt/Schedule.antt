-- ===== src/Interrupt/Schedule.antt =====
-- Which interrupt Interrupt::CheckIfDue (code/machine/interrupt.cc) fires, and when.
use usc_cs.Common.{
  ℕ, ◌+◌, ◌≤◌, ◌<◌, ◌≡◌, ◌⊎◌, inl, inr, refl, true, false, none, some, List, [], ◌∷◌, ◌++◌, ltb,
  put, subst, sym, Bool-cases, arith,
}
use usc_cs.LinkedList.{Store}
use usc_cs.LinkedList.Refinement.{Holds}
use usc_cs.LinkedList.Sorting.{
  IsSorted, AtLeast, Above, AtLeast-Above, remove_lem, sorted_insert_lem, UpTo,
}
use usc_cs.Interrupt.{
  Interrupt, IntType, PendingInterrupt, Calls, schedule, fire, put_back, nothing_more, is_off,
  is_idle, check_if_due,
}

-- The pending interrupts, each with its time, the earliest first.
pub record Pending {ℓ} {World : Type ℓ} (s : Interrupt World) (xs : List (ℕ × ℕ)) : Type ℓ where
  pub holds : Holds s.pending xs
  pub sorted : IsSorted xs

-- The interrupts are the same ones: the first one may have moved behind others that are due no later.
pub Kept : List (ℕ × ℕ) → List (ℕ × ℕ) → Type 0
Kept [] ys = ys ≡ []
Kept ((i, when) ∷ rest) ys =
    (before after : List (ℕ × ℕ)) × (rest ≡ before ++ after)
    × (ys ≡ before ++ (i, when) ∷ after)
    × UpTo when before

Above-between :
    (i when t : ℕ) (before after : List (ℕ × ℕ))
    → t < when
    → Above t (before ++ after)
    → Above t (before ++ (i, when) ∷ after)
Above-between i when t [] after h a = (h, a)
Above-between i when t ((k, l) ∷ before) after h (b, a) =
    (b, Above-between i when t before after h a)

module _ {ℓ} {World : Type ℓ} where
  -- Schedule refuses a delay of 0; any other interrupt is put behind all that are due no later than it
  -- and before all that are due later, and nothing but the pending interrupts changes.
  pub schedule_lem :
      (handler arg from_now : ℕ) (type_of : IntType) (s : Interrupt World) (xs : List (ℕ × ℕ))
      → Pending s xs
      → ((from_now ≡ 0) × (schedule handler arg from_now type_of s ≡ none))
        ⊎ ((s' : Interrupt World) × (before after : List (ℕ × ℕ)) × (schedule handler arg from_now
                type_of s
              ≡ some s')
            × (xs ≡ before ++ after)
            × Pending s' (before ++ (s.next_interrupt, s.total_ticks + from_now) ∷ after)
            × UpTo (s.total_ticks + from_now) before
            × Above (s.total_ticks + from_now) after
            × ((s'.interrupts s.next_interrupt).when ≡ s.total_ticks + from_now)
            × (s'.total_ticks ≡ s.total_ticks)
            × (s'.world ≡ s.world))
  unfolding schedule
  schedule_lem handler arg from_now type_of s xs h = elim (Bool-cases (ltb 0 from_now)) [
    | inr refused ↦ inl (ground arith, rw refused refl)
    | inl later ↦
        let (p, before, after, run, split, holds, sorted, low, high) =
          sorted_insert_lem s.next_interrupt (s.total_ticks + from_now) s.pending xs h.holds
            h.sorted in
        let to_occur : PendingInterrupt = record {
          handler = handler;
          arg = arg;
          when = s.total_ticks + from_now;
          type_of = type_of;
        } in
        let s' = record s {
          interrupts = put s.interrupts s.next_interrupt to_occur;
          next_interrupt = s.next_interrupt + 1;
          pending = p;
        } in
        inr (
          s',
          before,
          after,
          simp (later, run),
          split,
          record { holds = holds; sorted = sorted },
          low,
          high,
          ground arith,
          refl,
          refl,
        )
  ]

module _ {ℓ} {World : Type ℓ} (calls : Calls World) where
  put_back_lem :
      (i when : ℕ) (s : Interrupt World) (rest : List (ℕ × ℕ))
      → Pending s rest
      → (p : Store) × (ys : List (ℕ × ℕ)) × (put_back calls i when s
          ≡ some (false, record s { pending = p }))
        × Pending (record s { pending = p }) ys
        × Kept ((i, when) ∷ rest) ys
        × (s.total_ticks < when → Above s.total_ticks rest → Above s.total_ticks ys)
  unfolding Kept
  put_back_lem i when s rest h =
      let (p, before, after, run, split, holds, sorted, low, high) =
        sorted_insert_lem i when s.pending rest h.holds h.sorted in
      (
        p,
        before ++ (i, when) ∷ after,
        rw run refl,
        record { holds = holds; sorted = sorted },
        (before, after, split, refl, low),
        λ early above.
            Above-between i when s.total_ticks before after early
              (subst (Above s.total_ticks) split above),
      )

  -- CheckIfDue(FALSE) with interrupts disabled, on pending interrupts in the order of their times.
  -- Either it fires the first one, which is due and the earliest of all; or it fires none, and keeps
  -- all that were pending, in the order of their times: then none is due, or the machine is idle.
  pub check_if_due_lem :
      (s : Interrupt World) (xs : List (ℕ × ℕ))
      → is_off s.level ≡ true
      → Pending s xs
      → ((i when : ℕ) × (rest : List (ℕ × ℕ)) × (p : Store) × (xs ≡ (i, when) ∷ rest)
          × (when ≤ s.total_ticks)
          × AtLeast when rest
          × IsSorted rest
          × Holds p rest
          × (check_if_due calls false s ≡ some (true, fire calls i (record s { pending = p }))))
        ⊎ ((ys : List (ℕ × ℕ)) × (p : Store) × (check_if_due calls false s
              ≡ some (false, record s { pending = p }))
            × Pending (record s { pending = p }) ys
            × Kept xs ys
            × (Above s.total_ticks ys ⊎ (is_idle s.status ≡ true)))
  unfolding check_if_due Kept
  check_if_due_lem s xs off h = elim (remove_lem s.pending xs h.holds) [
    | inl (empty, run) ↦ inr (
      [],
      s.pending,
      simp (off, run),
      record { holds = subst (Holds s.pending) empty h.holds; sorted = tt },
      subst (λ l. Kept l []) (sym empty) refl,
      inl tt,
    )
    | inr ((i, when), rest, p, split, run, left) ↦
        let (least, ordered) = subst IsSorted split h.sorted in
        let here : Pending (record s { pending = p }) rest = record {
          holds = left;
          sorted = ordered;
        } in
        let (q, ys, back, pending, same, above) =
          put_back_lem i when (record s { pending = p }) rest here in
        elim (Bool-cases (ltb s.total_ticks when)) [
          | inl early ↦ inr (
            ys,
            q,
            simp (off, run, early, back),
            pending,
            subst (λ l. Kept l ys) (sym split) same,
            inl (above (ground arith) (AtLeast-Above s.total_ticks when rest (ground arith) least)),
          )
          | inr due_now ↦ elim (Bool-cases (nothing_more calls i (record s { pending = p }))) [
            | inr more ↦ inl (
              i,
              when,
              rest,
              p,
              split,
              ground arith,
              least,
              ordered,
              left,
              simp (off, run, due_now, more),
            )
            | inl no_more ↦ inr (
              ys,
              q,
              simp (off, run, due_now, no_more, back),
              pending,
              subst (λ l. Kept l ys) (sym split) same,
              inr (ground arith),
            )
          ]
        ]
  ]
