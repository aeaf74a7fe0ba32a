-- ===== src/Tasks/Schedules/Replacing.antt =====
-- internal/taskmaster/scheduler.go: a schedule whose name is given to another.
use webmail_engine.Base.{
  ℕ, ◌≡◌, refl, ◌∙◌, ap, Bool, true, false, not, ◌||◌, [], ◌∷◌, ◌++◌, Option, none, some, String,
  str_eq, length, get_elem?, set, get_elem?-append_left, get_elem?-append_end, get_elem?-set_ne,
  get_elem?-set_self, get_elem?-inside, if_false, if◌then◌else◌,
}
use webmail_engine.Base.Int.{ℤ, pos, leb_ℤ}
use webmail_engine.Base.Dict.{lookup, insert, remove, lookup-insert_self, lookup-remove_self}
use webmail_engine.Tasks.{TaskDispatch}
use webmail_engine.Tasks.Schedules.{
  ScheduleTaskOptions, Runner, Phase, Signal, starting, ticking, sending, ticks, sends, is_spent,
  is_over, tick, runner_step, TaskScheduler, run_schedule, schedule_task, deactivate, cancel_at,
  cancel_schedule, time_or,
}

module _ {P : Type 0} where
  made : ℤ → String → TaskDispatch P → ℤ → ScheduleTaskOptions → Runner P
  made now id t interval opts = record {
    schedule = record {
      id = id;
      task_id = t.task_id;
      payload = t.payload;
      interval = interval;
      opts = opts;
      next_run = time_or opts.start_at now;
      last_run = none;
      execution_count = pos 0;
      is_active = true;
      created_at = now;
      stop_closed = false;
    };
    phase = starting;
  }

  added : TaskScheduler P → String → Runner P → TaskScheduler P
  added s id new = record s {
    schedules = insert id (length s.runners) s.schedules;
    runners = s.runners ++ new ∷ [];
  }

  schedule_task-added :
      (s : TaskScheduler P) (now : ℤ) (fresh name : String) (t : TaskDispatch P) (interval : ℤ)
      (opts : ScheduleTaskOptions)
      → opts.name ≡ name
      → str_eq name "" ≡ false
      → leb_ℤ interval (pos 0) ≡ false
      → (schedule_task s now true fresh t interval (some opts)).0
        ≡ added s name (made now name t interval opts)
  unfolding schedule_task added made
  schedule_task-added s now fresh name t interval opts named unempty positive =
      let id_is : (if str_eq opts.name "" then fresh else opts.name) ≡ name =
        if_false (str_eq opts.name "") fresh opts.name (rw named unempty) ∙ named in
      rw positive (rw id_is refl)

  -- The cancelled schedule is the new one.
  without_new : TaskScheduler P → String → Runner P → TaskScheduler P
  unfolding added
  without_new s name new = record (added s name new) {
    schedules = remove name (added s name new).schedules;
    runners = set (added s name new).runners (length s.runners) (deactivate new);
  }

  cancel_schedule-added :
      (s : TaskScheduler P) (name : String) (new : Runner P)
      → (cancel_schedule (added s name new) name).0 ≡ without_new s name new
  unfolding cancel_schedule cancel_at added without_new
  cancel_schedule-added s name new =
      rw (lookup-insert_self name (length s.runners) s.schedules)
        (rw (get_elem?-append_end s.runners new, cancel_at) refl)

  -- What a runner hands to the dispatcher.
  sent : Runner P → Bool → Option (TaskDispatch P)
  sent r dispatches =
      if dispatches
      then some (record { task_id = r.schedule.task_id; payload = r.schedule.payload })
      else none

  tick-goes :
      (r : Runner P) (later : ℤ)
      → r.schedule.is_active ≡ true
      → (is_spent r.schedule || is_over later r.schedule.opts.end_at) ≡ false
      → let r' = tick later r.schedule in
        (r'.phase ≡ sending)
        × (r'.schedule.task_id ≡ r.schedule.task_id)
        × (r'.schedule.payload ≡ r.schedule.payload)
  unfolding tick
  tick-goes r later on goes = rw (if_false (not r.schedule.is_active) _ _ (rw (on) refl)) (
      rw (if_false (is_spent r.schedule || is_over later r.schedule.opts.end_at) _ _ goes)
        (refl, refl, refl))

  run_schedule-step :
      (s : TaskScheduler P) (i : ℕ) (r : Runner P) (phase : Phase) (g : Signal)
      → get_elem? s.runners i ≡ some r
      → r.phase ≡ phase
      → run_schedule s i g ≡ (
        record s { runners = set s.runners i (runner_step r phase g).0 },
        sent r (runner_step r phase g).1,
      )
  unfolding run_schedule sent
  run_schedule-step s i r phase g at loops =
      ap
        (λ (o : Option (Runner P)). (elim o as (λ _. TaskScheduler P × Option (TaskDispatch P)) [
          | none ↦ (s, none)
          | some q ↦ (
            record s { runners = set s.runners i (runner_step q q.phase g).0 },
            sent q (runner_step q q.phase g).1,
          )
        ]))
        at
      ∙ ap
          (λ (p : Phase). (
            record s { runners = set s.runners i (runner_step r p g).0 },
            sent r (runner_step r p g).1,
          ))
          loops

  -- The tick, and the dispatch that follows it.
  run_schedule-ticks :
      (s : TaskScheduler P) (i : ℕ) (r : Runner P) (later : ℤ)
      → get_elem? s.runners i ≡ some r
      → r.phase ≡ ticking
      → r.schedule.is_active ≡ true
      → (is_spent r.schedule || is_over later r.schedule.opts.end_at) ≡ false
      → (run_schedule (run_schedule s i (ticks later)).0 i sends).1
        ≡ some (record { task_id = r.schedule.task_id; payload = r.schedule.payload })
  unfolding runner_step sent
  run_schedule-ticks s i r later at loops on goes =
      let (about_to, same_task, same_payload) = tick-goes r later on goes in
      let r' = tick later r.schedule in
      let s' = record s { runners = set s.runners i r' } in
      let first : (run_schedule s i (ticks later)).0 ≡ s' =
        ap (λ x. x.0) (run_schedule-step s i r ticking (ticks later) at loops) in
      let here = get_elem?-set_self s.runners i r' r at in
      ap (λ (q : TaskScheduler P). (run_schedule q i sends).1) first
      ∙ ap (λ x. x.1) (run_schedule-step s' i r' sending sends here about_to)
      ∙ rw (same_task, same_payload) refl

  -- A schedule with a name that is in use takes its place in the map, and the goroutine of the old
  -- schedule goes on: after its next tick it dispatches its task, also when the schedule of that name
  -- was cancelled before. The old schedule is in its loop, active, neither at its maximum nor past its end
  -- time at that tick; the new interval is positive and the name not empty.
  pub replaced-runs :
      (s : TaskScheduler P) (i : ℕ) (r : Runner P) (now later : ℤ) (fresh name : String)
      (t : TaskDispatch P) (interval : ℤ) (opts : ScheduleTaskOptions)
      → lookup name s.schedules ≡ some i
      → get_elem? s.runners i ≡ some r
      → r.phase ≡ ticking
      → r.schedule.is_active ≡ true
      → (is_spent r.schedule || is_over later r.schedule.opts.end_at) ≡ false
      → opts.name ≡ name
      → str_eq name "" ≡ false
      → leb_ℤ interval (pos 0) ≡ false
      → let s1 = (schedule_task s now true fresh t interval (some opts)).0 in
        let s2 = (cancel_schedule s1 name).0 in
        (lookup name s2.schedules ≡ none)
        × ((run_schedule (run_schedule s2 i (ticks later)).0 i sends).1
            ≡ some (record { task_id = r.schedule.task_id; payload = r.schedule.payload }))
  unfolding without_new remove
  replaced-runs s i r now later fresh name t interval opts found at loops on goes named unempty
        positive =
      let new = made now name t interval opts in
      let s1 = added s name new in
      let inside : get_elem? s1.runners i ≡ some r =
        unfold added in get_elem?-append_left s.runners (new ∷ []) i r at in
      let apart = get_elem?-inside s.runners i r at in
      rw
        (
          schedule_task-added s now fresh name t interval opts named unempty positive,
          cancel_schedule-added s name new,
        )
        (
          lookup-remove_self name s1.schedules,
          run_schedule-ticks (without_new s name new) i r later
              (unfold without_new added in
                get_elem?-set_ne s1.runners i (length s.runners) (deactivate new) apart ∙ inside)
              loops on goes,
        )
