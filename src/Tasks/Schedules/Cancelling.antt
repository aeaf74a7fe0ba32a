-- ===== src/Tasks/Schedules/Cancelling.antt =====
-- internal/taskmaster/scheduler.go: what a cancelled or a replaced schedule still does.
use webmail_engine.Base.{
  ℕ, ◌+◌, ◌≤◌, ◌≡◌, refl, ap, sym, subst, Bool, true, false, not, List, [], ◌∷◌, Option, none, some,
  String, arith, get_elem?, Stands, Stands-set, get_elem?-set_self, get_elem?-append_left, ◌==◌,
  Bool-cases, Option-cases, inl, inr, if_split, if_true, if◌then◌else◌,
}
use webmail_engine.Base.Int.{ℤ, pos, leb_ℤ, ltb_ℤ}
use webmail_engine.Base.Dict.{lookup}
use webmail_engine.Tasks.{TaskFailure, TaskDispatch}
use webmail_engine.Tasks.Schedules.Runs.{one_if, pending, if_pending}
use webmail_engine.Tasks.Schedules.{
  ScheduleTaskOptions, Runner, Phase, starting, delaying, ticking, sending, finished, Signal,
  begins, ticks, delay_over, sends, stop_seen, context_ended, end_if, tick, runner_step,
  TaskScheduler, run_schedule, schedule_task, deactivate, cancel_at, cancel_schedule,
}

pub data Event (P : Type 0) : Type 0 where
  schedules :
      (now : ℤ) (dispatching : Bool) (fresh : String) (t : TaskDispatch P) (interval : ℤ)
      (opts : Option ScheduleTaskOptions)
      → Event P
  cancels : String → Event P
  runs : ℕ → Signal → Event P

module _ {P : Type 0} where
  abbrev pub from_position : ℕ → Option (TaskDispatch P) → Option (ℕ × TaskDispatch P)
  from_position i none = none
  from_position i (some t) = some (i, t)

  -- What the event dispatches, with the position of the runner.
  unfoldable pub event_step :
      TaskScheduler P → Event P → TaskScheduler P × Option (ℕ × TaskDispatch P)
  event_step s (schedules now dispatching fresh t interval opts) =
      ((schedule_task s now dispatching fresh t interval opts).0, none)
  event_step s (cancels id) = ((cancel_schedule s id).0, none)
  event_step s (runs i g) = ((run_schedule s i g).0, from_position i (run_schedule s i g).1)

  -- The dispatches of one runner in a history.
  abbrev pub from_runner : ℕ → Option (ℕ × TaskDispatch P) → ℕ
  from_runner i none = 0
  from_runner i (some (j, t)) = if j == i then 1 else 0

  unfoldable pub dispatches_of : ℕ → TaskScheduler P → List (Event P) → ℕ
  dispatches_of i s [] = 0
  dispatches_of i s (e ∷ es) =
      from_runner i (event_step s e).1 + dispatches_of i (event_step s e).0 es

  -- A runner that is off and has at most `n` dispatches to make.
  abbrev pub HasLeft : ℕ → Runner P → Type 0
  HasLeft n r = (pending r.phase ≤ n) × (r.schedule.is_active ≡ false)

  abbrev pub IsOff : ℕ → List (Runner P) → ℕ → Type 0
  IsOff n runners i = Stands (HasLeft n) runners i

  -- A runner that is off dispatches what it was about to, and stays off.
  abbrev Dims : ℕ → Runner P × Bool → Type 0
  Dims n x = (one_if x.1 + pending x.0.phase ≤ n) × (x.0.schedule.is_active ≡ false)

  still-Dims :
      (r : Runner P) (phase : Phase)
      → r.phase ≡ phase
      → r.schedule.is_active ≡ false
      → Dims (pending phase) (r, false)
  still-Dims r phase e off = (omega (arith, ap pending e), off)

  moved-Dims :
      (r : Runner P) (phase next : Phase)
      → pending next ≡ pending phase
      → r.schedule.is_active ≡ false
      → Dims (pending phase) (record r { phase = next }, false)
  moved-Dims r phase next e off = (omega (arith, e), off)

  end_if-Dims :
      (r : Runner P) (phase : Phase) (stops : Bool)
      → r.phase ≡ phase
      → 0 ≡ pending phase
      → r.schedule.is_active ≡ false
      → Dims (pending phase) (end_if stops r, false)
  end_if-Dims r phase true e none_pending off = moved-Dims r phase finished none_pending off
  end_if-Dims r phase false e none_pending off = still-Dims r phase e off

  tick-Dims :
      (now : ℤ) (r : Runner P) → r.schedule.is_active ≡ false → Dims 0 (tick now r.schedule, false)
  unfolding tick
  tick-Dims now r off =
      let stops : not r.schedule.is_active ≡ true = rw off refl in
      subst (λ (x : Runner P). Dims 0 (x, false))
        (sym (if_true (not r.schedule.is_active) _ _ stops)) (omega arith, off)

  runner_step-Dims :
      (r : Runner P) (phase : Phase) (g : Signal)
      → r.phase ≡ phase
      → r.schedule.is_active ≡ false
      → Dims (pending phase) (runner_step r phase g)
  unfolding runner_step
  runner_step-Dims r starting (begins now) e off =
      moved-Dims r starting (if ltb_ℤ now r.schedule.next_run then delaying else ticking)
        (if_pending (ltb_ℤ now r.schedule.next_run)) off
  runner_step-Dims r starting (ticks now) e off = still-Dims r starting e off
  runner_step-Dims r starting delay_over e off = still-Dims r starting e off
  runner_step-Dims r starting sends e off = still-Dims r starting e off
  runner_step-Dims r starting stop_seen e off = still-Dims r starting e off
  runner_step-Dims r starting context_ended e off = still-Dims r starting e off
  runner_step-Dims r delaying (begins now) e off = still-Dims r delaying e off
  runner_step-Dims r delaying (ticks now) e off = still-Dims r delaying e off
  runner_step-Dims r delaying delay_over e off = moved-Dims r delaying ticking refl off
  runner_step-Dims r delaying sends e off = still-Dims r delaying e off
  runner_step-Dims r delaying stop_seen e off =
      end_if-Dims r delaying r.schedule.stop_closed e refl off
  runner_step-Dims r delaying context_ended e off = end_if-Dims r delaying true e refl off
  runner_step-Dims r ticking (begins now) e off = still-Dims r ticking e off
  runner_step-Dims r ticking (ticks now) e off = tick-Dims now r off
  runner_step-Dims r ticking delay_over e off = still-Dims r ticking e off
  runner_step-Dims r ticking sends e off = still-Dims r ticking e off
  runner_step-Dims r ticking stop_seen e off =
      end_if-Dims r ticking r.schedule.stop_closed e refl off
  runner_step-Dims r ticking context_ended e off = end_if-Dims r ticking true e refl off
  runner_step-Dims r sending (begins now) e off = still-Dims r sending e off
  runner_step-Dims r sending (ticks now) e off = still-Dims r sending e off
  runner_step-Dims r sending delay_over e off = still-Dims r sending e off
  runner_step-Dims r sending sends e off = (omega arith, off)
  runner_step-Dims r sending stop_seen e off = still-Dims r sending e off
  runner_step-Dims r sending context_ended e off = still-Dims r sending e off
  runner_step-Dims r finished g e off = still-Dims r finished e off

  -- What the runner at a place dispatches and what it is still about to are within what it was.
  run_schedule-IsOff :
      (s : TaskScheduler P) (n i j : ℕ) (g : Signal)
      → IsOff n s.runners i
      → IsOff n (run_schedule s j g).0.runners i
  unfolding run_schedule
  run_schedule-IsOff s n i j g (r, at, off) = elim (Option-cases (get_elem? s.runners j)) [
    | inl missing ↦ rw (missing, run_schedule) (r, at, off)
    | inr (q, there) ↦
        rw (there, run_schedule)
          (Stands-set (HasLeft n) s.runners i j q (runner_step q q.phase g).0 there
            (λ q_off.
              (let dims = runner_step-Dims q q.phase g refl q_off.1 in
                (omega (arith, dims.0, q_off.0), dims.1)))
            (r, at, off))
  ]

  count_sent : Option (TaskDispatch P) → ℕ
  count_sent none = 0
  count_sent (some t) = 1

  count_sent-if :
      (dispatches : Bool) (t : TaskDispatch P)
      → count_sent (if dispatches then some t else none) ≡ one_if dispatches
  unfolding count_sent
  count_sent-if true t = refl
  count_sent-if false t = refl

  -- The runner steps: what it still is about to, and what it dispatched now, are within what it was.
  run_schedule-left :
      (s : TaskScheduler P) (n i : ℕ) (g : Signal)
      → IsOff n s.runners i
      → (m : ℕ) × (m + count_sent (run_schedule s i g).1 ≤ n)
        × IsOff m (run_schedule s i g).0.runners i
  unfolding run_schedule count_sent
  run_schedule-left s n i g (r, at, off) =
      let dims = runner_step-Dims r r.phase g refl off.1 in
      let next = (runner_step r r.phase g).0 in
      let sent_one =
        count_sent-if (runner_step r r.phase g).1
          (record { task_id = r.schedule.task_id; payload = r.schedule.payload }) in
      rw (at, run_schedule)
        (
          pending next.phase,
          omega (arith, dims.0, off.0, sent_one),
          (next, get_elem?-set_self s.runners i next r at, (omega arith, dims.1)),
        )

  schedule_task-IsOff :
      (s : TaskScheduler P) (n i : ℕ) (now : ℤ) (dispatching : Bool) (fresh : String)
      (t : TaskDispatch P) (interval : ℤ) (opts : Option ScheduleTaskOptions)
      → IsOff n s.runners i
      → IsOff n (schedule_task s now dispatching fresh t interval opts).0.runners i
  unfolding schedule_task
  schedule_task-IsOff s n i now dispatching fresh t interval opts (r, at, off) =
      let P' = λ (x : TaskScheduler P × Option TaskFailure × String). IsOff n x.0.runners i in
      if_split P' (not dispatching) (λ _. (r, at, off))
        (λ _.
          if_split P' (leb_ℤ interval (pos 0)) (λ _. (r, at, off))
            (λ _. (r, get_elem?-append_left s.runners _ i r at, off)))

  cancel_at-IsOff :
      (s : TaskScheduler P) (n i : ℕ) (id : String) (o : Option ℕ)
      → IsOff n s.runners i
      → IsOff n (cancel_at s id o).0.runners i
  unfolding cancel_at
  cancel_at-IsOff s n i id none off = off
  cancel_at-IsOff s n i id (some j) off = elim (Option-cases (get_elem? s.runners j)) [
    | inl missing ↦ rw (missing, cancel_at) off
    | inr (q, there) ↦
        rw (there, cancel_at)
          (Stands-set (HasLeft n) s.runners i j q (deactivate q) there
            (λ q_off. unfold deactivate in (q_off.0, refl)) off)
  ]

  from_other :
      (i j : ℕ) (o : Option (TaskDispatch P))
      → (j == i) ≡ false
      → from_runner i (from_position j o) ≡ 0
  from_other i j none e = refl
  from_other i j (some t) e = rw e refl

  from_self :
      (i j : ℕ) (o : Option (TaskDispatch P)) → from_runner i (from_position j o) ≤ count_sent o
  unfolding count_sent
  from_self i j none = omega arith
  from_self i j (some t) =
      if_split (λ (k : ℕ). k ≤ 1) (j == i) (λ _. omega arith) (λ _. omega arith)

  event_step-IsOff :
      (s : TaskScheduler P) (n i : ℕ) (e : Event P)
      → IsOff n s.runners i
      → (m : ℕ) × (m + from_runner i (event_step s e).1 ≤ n) × IsOff m (event_step s e).0.runners i
  unfolding event_step
  event_step-IsOff s n i (schedules now dispatching fresh t interval opts) off =
      (n, omega arith, schedule_task-IsOff s n i now dispatching fresh t interval opts off)
  event_step-IsOff s n i (cancels id) off = (
    n,
    omega arith,
    unfold cancel_schedule in cancel_at-IsOff s n i id (lookup id s.schedules) off,
  )
  event_step-IsOff s n i (runs j g) off = elim (Bool-cases (j == i)) [
    | inr other ↦ (
      n,
      omega (arith, from_other i j (run_schedule s j g).1 other),
      run_schedule-IsOff s n i j g off,
    )
    | inl here ↦
        (let same : i ≡ j = ground arith in
          let left = run_schedule-left s n j g (subst (IsOff n s.runners) same off) in
          (
            left.0,
            omega (arith, left.1, from_self i j (run_schedule s j g).1),
            subst (IsOff left.0 (run_schedule s j g).0.runners) (sym same) left.2,
          ))
  ]

  dispatches_of-IsOff :
      (es : List (Event P)) (s : TaskScheduler P) (n i : ℕ)
      → IsOff n s.runners i
      → dispatches_of i s es ≤ n
  unfolding dispatches_of
  dispatches_of-IsOff [] s n i off = omega arith
  dispatches_of-IsOff (e ∷ es) s n i off =
      let step = event_step-IsOff s n i e off in
      omega (arith, step.1, dispatches_of-IsOff es (event_step s e).0 step.0 i step.2)

  -- `CancelSchedule` of a schedule in the map succeeds. Its goroutine dispatches nothing afterwards where
  -- it was not between its check of the schedule and its call of `Dispatch` (`pending` is 0), and at most
  -- the one task it was about to dispatch where it was, whatever is scheduled, cancelled or seen by the
  -- goroutines afterwards.
  pub cancel_schedule-silent :
      (s : TaskScheduler P) (id : String) (i : ℕ) (r : Runner P) (es : List (Event P))
      → lookup id s.schedules ≡ some i
      → get_elem? s.runners i ≡ some r
      → ((cancel_schedule s id).1 ≡ none)
        × (dispatches_of i (cancel_schedule s id).0 es ≤ pending r.phase)
  cancel_schedule-silent s id i r es found at =
      let off : IsOff (pending r.phase) (cancel_at s id (some i)).0.runners i =
        unfold cancel_at in
        rw (at, cancel_at)
          (
            deactivate r,
            get_elem?-set_self s.runners i (deactivate r) r at,
            unfold deactivate in (omega arith, refl),
          ) in
      unfold cancel_schedule in
      rw (found) (
        unfold cancel_at in refl,
        dispatches_of-IsOff es (cancel_at s id (some i)).0 (pending r.phase) i off,
      )
