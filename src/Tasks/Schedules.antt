-- ===== src/Tasks/Schedules.antt =====
-- internal/taskmaster/scheduler.go: `TaskScheduler`. The schedules are objects that the map and the
-- goroutine of each share: a list of runners, each a schedule with the place of its goroutine, and a
-- map from IDs to positions in it. Each thing that a goroutine can see is a step.

pub mod Runs
pub mod Liveness
pub mod Cancelling
pub mod Replacing
pub mod Stopping
pub mod Creating
use webmail_engine.Base.{
  ℕ, suc, Bool, true, false, not, ◌&&◌, ◌||◌, List, [], ◌∷◌, ◌++◌, Option, none, some, String,
  length, get_elem?, set, str_eq, if◌then◌else◌,
}
use webmail_engine.Base.Int.{ℤ, pos, add64, ◌+ℤ◌, ltb_ℤ, leb_ℤ}
use webmail_engine.Base.Dict.{Dict, lookup, insert, remove}
use webmail_engine.Tasks.{
  TaskFailure, not_started, already_started, schedule_not_found, interval_not_positive,
  TaskDispatch,
}

-- A zero time is `none`. The metadata are never read.
pub record ScheduleTaskOptions : Type 0 where
  pub name : String
  pub start_at : Option ℤ
  pub end_at : Option ℤ
  pub max_executions : ℤ

pub record Schedule (P : Type 0) : Type 0 where
  pub id : String
  pub task_id : String
  pub payload : P
  pub interval : ℤ
  pub opts : ScheduleTaskOptions
  pub next_run : ℤ
  pub last_run : Option ℤ
  pub execution_count : ℤ
  pub is_active : Bool
  pub created_at : ℤ
  pub stop_closed : Bool

pub data Phase : Type 0 where
  starting delaying ticking finished : Phase
  sending : Phase  -- between the unlock and the call of `Dispatch`

pub data Signal : Type 0 where
  begins ticks : (now : ℤ) → Signal
  delay_over sends stop_seen context_ended : Signal

pub record Runner (P : Type 0) : Type 0 where
  pub schedule : Schedule P
  pub phase : Phase

pub record TaskScheduler (P : Type 0) : Type 0 where
  pub schedules : Dict ℕ
  pub runners : List (Runner P)
  pub running : Bool
  pub stop_closed : Bool

abbrev pub default_options : ScheduleTaskOptions
default_options = record { name = ""; start_at = none; end_at = none; max_executions = pos 0 }

abbrev pub options_or_default : Option ScheduleTaskOptions → ScheduleTaskOptions
options_or_default none = default_options
options_or_default (some opts) = opts

abbrev pub time_or : Option ℤ → ℤ → ℤ
time_or none now = now
time_or (some at) now = at

abbrev pub is_over : ℤ → Option ℤ → Bool
is_over now none = false
is_over now (some at) = ltb_ℤ at now

module _ {P : Type 0} where
  unfoldable pub new_task_scheduler : TaskScheduler P
  new_task_scheduler = record { schedules = []; runners = []; running = false; stop_closed = false }

  unfoldable pub start : TaskScheduler P → TaskScheduler P × Option TaskFailure
  start s = if s.running then (s, some already_started) else (record s { running = true }, none)

  abbrev pub is_spent : Schedule P → Bool
  is_spent sched =
      ltb_ℤ (pos 0) sched.opts.max_executions
      && leb_ℤ sched.opts.max_executions sched.execution_count

  -- One tick of the loop of `runSchedule`, up to the unlock.
  unfoldable pub tick : ℤ → Schedule P → Runner P
  unfolding add64 ◌+ℤ◌
  tick now sched =
      if not sched.is_active
      then record { schedule = sched; phase = finished }
      else if is_spent sched || is_over now sched.opts.end_at
      then record { schedule = record sched { is_active = false }; phase = finished }
      else record {
        schedule = record sched {
          execution_count = add64 sched.execution_count (pos 1);
          last_run = some now;
          next_run = now +ℤ sched.interval;
        };
        phase = sending;
      }

  abbrev pub end_if : Bool → Runner P → Runner P
  end_if stops r = if stops then record r { phase = finished } else r

  unfoldable pub runner_step : Runner P → Phase → Signal → Runner P × Bool
  unfolding tick
  runner_step r starting (begins now) =
      (record r { phase = if ltb_ℤ now r.schedule.next_run then delaying else ticking }, false)
  runner_step r delaying delay_over = (record r { phase = ticking }, false)
  runner_step r delaying stop_seen = (end_if r.schedule.stop_closed r, false)
  runner_step r delaying context_ended = (end_if true r, false)
  runner_step r ticking (ticks now) = (tick now r.schedule, false)
  runner_step r sending sends = (record r { phase = ticking }, true)
  runner_step r ticking stop_seen = (end_if r.schedule.stop_closed r, false)
  runner_step r ticking context_ended = (end_if true r, false)
  runner_step r phase signal = (r, false)

  -- A signal for one runner: what it dispatches is the last result.
  unfoldable pub run_schedule :
      TaskScheduler P → ℕ → Signal → TaskScheduler P × Option (TaskDispatch P)
  unfolding runner_step
  run_schedule s i signal = elim (get_elem? s.runners i) [
    | none ↦ (s, none)
    | some r ↦
        (let (r', dispatches) = runner_step r r.phase signal in
          (
            record s { runners = set s.runners i r' },
            if dispatches
                then some (record { task_id = r.schedule.task_id; payload = r.schedule.payload })
                else none,
          ))
  ]

  -- `fresh` is the UUID of the call, `dispatching` whether the dispatcher runs.
  unfoldable pub schedule_task :
      TaskScheduler P
      → ℤ
      → Bool
      → String
      → TaskDispatch P
      → ℤ
      → Option ScheduleTaskOptions
      → TaskScheduler P × Option TaskFailure × String
  unfolding insert
  schedule_task s now dispatching fresh t interval options =
      let opts = options_or_default options in
      let id = if str_eq opts.name "" then fresh else opts.name in
      if not dispatching
      then (s, some not_started, "")
      else if leb_ℤ interval (pos 0)
      then (s, some interval_not_positive, "")
      else (
        record s {
          schedules = insert id (length s.runners) s.schedules;
          runners =
              s.runners
              ++ record {
                schedule = record {
                  id = id;
                  task_id = t.task_id;
                  payload = t.payload;
                  interval = interval;
                  opts = opts;
                  next_run = time_or opts.start_at now;
                  last_run = none;
                  execution_count = pos 0;
                  is_active = true;
                  created_at = now;
                  stop_closed = false;
                };
                phase = starting;
              }
                ∷ [];
        },
        none,
        id,
      )

  unfoldable pub deactivate : Runner P → Runner P
  deactivate r = record r {
    schedule = record (r.schedule) { is_active = false; stop_closed = true };
  }

  unfoldable pub cancel_at :
      TaskScheduler P → String → Option ℕ → TaskScheduler P × Option TaskFailure
  unfolding deactivate remove
  cancel_at s id none = (s, some schedule_not_found)
  cancel_at s id (some i) = (
    record s {
      schedules = remove id s.schedules;
      runners = elim (get_elem? s.runners i) [
        | none ↦ s.runners
        | some r ↦ set s.runners i (deactivate r)
      ];
    },
    none,
  )

  unfoldable pub cancel_schedule : TaskScheduler P → String → TaskScheduler P × Option TaskFailure
  unfolding cancel_at lookup
  cancel_schedule s id = cancel_at s id (lookup id s.schedules)

  unfoldable pub active_schedules : List (Runner P) → Dict ℕ → ℕ
  active_schedules runners [] = 0
  active_schedules runners ((id, i) ∷ rest) =
      let others = active_schedules runners rest in
      elim (get_elem? runners i) [
        | none ↦ others
        | some r ↦ (if r.schedule.is_active then suc others else others)
      ]
