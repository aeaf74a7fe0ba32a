-- ===== src/Tasks/Tests.antt =====
-- The theorems on the managed pool and the schedules at concrete inputs.
use webmail_engine.Base.{
  ℕ, ◌≤◌, ◌<◌, ◌≡◌, Stands, refl, true, false, List, [], ◌∷◌, none, some, inl, arith, min, length,
  ltb,
}
use webmail_engine.Base.Int.{ℤ, pos}
use webmail_engine.Base.Dict.{Dict, lookup}
use webmail_engine.Tasks.{context_done, TaskDispatch}
use webmail_engine.Tasks.Stats.{zero_stats}
use webmail_engine.Tasks.Managed.{
  ManagedDispatcher, idle, begin_stop as begin_pool_stop, dispatch, dispatch_multiple,
}
use webmail_engine.Tasks.Managed.Workers.{takes, finishes, leaves, worker_step}
use webmail_engine.Tasks.Managed.History.{Event, dispatches, continues, starts, begins_stop}
use webmail_engine.Tasks.Managed.Order.{alive, request_of, work, dispatch_multiple-work}
use webmail_engine.Tasks.Managed.Stopping.{IsAlive, moves, begin_stop-loses}
use webmail_engine.Tasks.Schedules.{
  Runner, ticking, sending, ticks, sends, stop_seen, TaskScheduler, schedule_task, cancel_schedule,
  run_schedule,
}
use webmail_engine.Tasks.Schedules.Runs.{pending, signals, signals-bounded}
use webmail_engine.Tasks.Schedules.Liveness.{tick_signals, signals-ticks}
use webmail_engine.Tasks.Schedules.Cancelling.{runs, dispatches_of, cancel_schedule-silent}
use webmail_engine.Tasks.Schedules.Stopping.{begin_stop, end_stop, run_signals, begin_stop-waits}
use webmail_engine.Tasks.Schedules.Replacing.{replaced-runs}

abbrev halved : ℤ → ℤ → ℤ
halved a b = b

abbrev mail : TaskDispatch ℕ
mail = record { task_id = "mail"; payload = 5 }

abbrev sync : TaskDispatch ℕ
sync = record { task_id = "sync"; payload = 6 }

abbrev pool : ManagedDispatcher ℕ ℕ
pool = record {
  tasks = ("mail", 1) ∷ ("sync", 2) ∷ [];
  queue_size = 3;
  task_chan = [];
  worker_count = pos 1;
  workers = idle ∷ [];
  running = true;
  stop_closed = false;
  stats = zero_stats;
  in_flight = pos 0;
}

-- The worker takes and finishes the first task before the call of `Dispatch` has counted it.
abbrev busy_day : List (Event ℕ)
busy_day =
    starts
    ∷ dispatches mail
    ∷ continues 0 false true
    ∷ Event.moves 0 takes
    ∷ Event.moves 0 (finishes true (pos 8) (pos 2))
    ∷ dispatches sync
    ∷ continues 0 false true
    ∷ begins_stop
    ∷ []

abbrev known_tasks : Dict ℕ
known_tasks = ("mail", 1) ∷ []

dispatch_multiple-work_example :
    let (d', errors) = dispatch_multiple pool (alive (mail ∷ sync ∷ [])) in
    let (last, log) =
      work halved 0 (λ k. ltb k 1) (λ k. pos k) (λ k. pos 2) (length d'.task_chan) d' in
    (errors ≡ []) × (last.task_chan ≡ []) × (log ≡ request_of mail ∷ request_of sync ∷ [])
unfolding lookup
dispatch_multiple-work_example =
    dispatch_multiple-work halved 0 (λ k. ltb k 1) (λ k. pos k) (λ k. pos 2) pool (mail ∷ sync ∷ [])
      refl (refl, (refl, tt)) (omega arith) refl

-- A request is in the queue when `Stop` is called, and the worker sees the closed channel first.
abbrev queued_pool : ManagedDispatcher ℕ ℕ
queued_pool = record pool { task_chan = request_of sync ∷ [] }

begin_stop-loses_example :
    let stopped = moves halved (begin_pool_stop queued_pool).0 ((0, leaves false) ∷ []) in
    let (d', error) = dispatch stopped mail false true in
    Stands IsAlive (moves halved queued_pool ((0, leaves false) ∷ [])).workers 0
    × (error ≡ none)
    × ((moves halved d' ((0, takes) ∷ (0, leaves true) ∷ [])).task_chan
        ≡ request_of sync ∷ request_of mail ∷ [])
unfolding begin_pool_stop moves worker_step lookup
begin_stop-loses_example =
    begin_stop-loses halved queued_pool mail 0 ((0, leaves false) ∷ [])
      ((0, takes) ∷ (0, leaves true) ∷ []) refl refl refl (idle, refl, (λ e. absurd (cc)))
      ((λ e. absurd (cc)), tt) (refl, tt) (omega arith)

abbrev twice : Runner ℕ
twice = record {
  schedule = record {
    id = "nightly";
    task_id = "mail";
    payload = 5;
    interval = pos 10;
    opts = record { name = "nightly"; start_at = none; end_at = none; max_executions = pos 2 };
    next_run = pos 0;
    last_run = none;
    execution_count = pos 0;
    is_active = true;
    created_at = pos 0;
    stop_closed = false;
  };
  phase = ticking;
}

signals-bounded_example :
    (signals twice
      (ticks (pos 1) ∷ sends ∷ stop_seen ∷ ticks (pos 2) ∷ sends ∷ ticks (pos 3) ∷ sends ∷ [])).1
    ≤ 2
signals-bounded_example =
    signals-bounded
      (ticks (pos 1) ∷ sends ∷ stop_seen ∷ ticks (pos 2) ∷ sends ∷ ticks (pos 3) ∷ sends ∷ []) 2
      twice (omega arith) (omega arith) refl refl refl

signals-ticks_example :
    ((signals twice (tick_signals (λ k. pos k) 5)).1 ≡ min 5 2)
    × (2 < 5 → (signals twice (tick_signals (λ k. pos k) 5)).0.schedule.is_active ≡ false)
signals-ticks_example =
    signals-ticks (λ k. pos k) 5 2 twice (omega arith) (omega arith)
      (record { counts = refl; maximum = refl; active = refl; endless = refl; loops = refl })

abbrev one_schedule : TaskScheduler ℕ
one_schedule = record {
  schedules = ("nightly", 0) ∷ [];
  runners = twice ∷ [];
  running = true;
  stop_closed = false;
}

replaced-runs_example :
    let s1 =
      (schedule_task one_schedule (pos 9) true "u-1" sync (pos 60) (
        some (record {
          name = "nightly";
          start_at = none;
          end_at = none;
          max_executions = pos 0;
        }))).0 in
    let s2 = (cancel_schedule s1 "nightly").0 in
    (lookup "nightly" s2.schedules ≡ none)
    × ((run_schedule (run_schedule s2 0 (ticks (pos 11))).0 0 sends).1 ≡ some mail)
unfolding lookup
replaced-runs_example =
    replaced-runs one_schedule 0 twice (pos 9) (pos 11) "u-1" "nightly" sync (pos 60)
      (record { name = "nightly"; start_at = none; end_at = none; max_executions = pos 0 }) refl
      refl refl refl refl refl refl refl

-- Cancelled after a tick and before the dispatch of it.
abbrev about_to_send : Runner ℕ
about_to_send = record twice { phase = sending }

abbrev sending_schedule : TaskScheduler ℕ
sending_schedule = record one_schedule { runners = about_to_send ∷ [] }

cancel_schedule-silent_example :
    ((cancel_schedule sending_schedule "nightly").1 ≡ none)
    × (dispatches_of 0
          (cancel_schedule sending_schedule "nightly").0
          (runs 0 sends ∷ runs 0 (ticks (pos 4)) ∷ runs 0 sends ∷ [])
        ≤ pending sending)
unfolding lookup
cancel_schedule-silent_example =
    cancel_schedule-silent sending_schedule "nightly" 0 about_to_send
      (runs 0 sends ∷ runs 0 (ticks (pos 4)) ∷ runs 0 sends ∷ []) refl refl

abbrev forever : Runner ℕ
forever = record twice {
  schedule = record (twice.schedule) {
    opts = record { name = "nightly"; start_at = none; end_at = none; max_executions = pos 0 };
  };
}

abbrev endless_schedule : TaskScheduler ℕ
endless_schedule = record one_schedule { runners = forever ∷ [] }

begin_stop-waits_example :
    let s' =
      run_signals
        (begin_stop endless_schedule).0
        ((0, ticks (pos 4)) ∷ (0, sends) ∷ (0, stop_seen) ∷ []) in
    (end_stop s' false true ≡ none)
    × (end_stop s' true true ≡ some (record s' { running = false }, some context_done))
begin_stop-waits_example =
    begin_stop-waits endless_schedule 0 forever
      ((0, ticks (pos 4)) ∷ (0, sends) ∷ (0, stop_seen) ∷ []) true refl refl refl
      (record {
        active = refl;
        unstopped = refl;
        unlimited = refl;
        endless = refl;
        loops = inl refl;
      })
      ((λ e. absurd (cc)), ((λ e. absurd (cc)), ((λ e. absurd (cc)), tt)))
