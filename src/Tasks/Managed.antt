-- ===== src/Tasks/Managed.antt =====
-- internal/taskmaster/managed.go: `ManagedDispatcher`. A worker is a goroutine with the place where it
-- stands; each of its moves is a step, so that a history interleaves callers and workers as the runtime
-- may. `average` is the float arithmetic of the mean time that `updateStats` keeps.

pub mod Workers
pub mod Dispatching
pub mod Counters
pub mod Accounting
pub mod History
pub mod Order
pub mod Stopping
use webmail_engine.Base.{
  ℕ, zero, suc, Bool, true, false, List, [], ◌∷◌, ◌++◌, Option, none, some, String, length,
  get_elem?, set, ltb, not, ◌&&◌, ◌||◌, if◌then◌else◌,
}
use webmail_engine.Base.Int.{ℤ, pos, pos_part, add64, sub64, leb_ℤ}
use webmail_engine.Base.Dict.{Dict, lookup, insert, has_key}
use webmail_engine.Tasks.Stats.{
  ManagedStats, zero_stats, count_received, count_failed, count_queued,
}
use webmail_engine.Tasks.{
  TaskFailure, nil_task, already_registered, task_not_found, not_started, already_started,
  queue_full, shutdown_timeout, context_done, execution_failed, TaskRequest, TaskDispatch, Reply,
  returned, panicked,
}

pub data Worker (P : Type 0) : Type 0 where
  idle : Worker P  -- at the head of its loop
  busy : TaskRequest P → Worker P  -- in `processTask`
  ended : Worker P

-- `task_chan` is the buffer of the channel, `stop_closed` tells that `stopChan` is closed.
pub record ManagedDispatcher (T P : Type 0) : Type 0 where
  pub tasks : Dict T
  pub queue_size : ℕ
  pub task_chan : List (TaskRequest P)
  pub worker_count : ℤ
  pub workers : List (Worker P)
  pub running : Bool
  pub stop_closed : Bool
  pub stats : ManagedStats
  pub in_flight : ℤ

unfoldable pub idle_workers : {P : Type 0} → ℕ → List (Worker P)
idle_workers zero = []
idle_workers (suc n) = idle ∷ idle_workers n

abbrev pub or_default : ℤ → ℤ → ℤ
or_default n default = if leb_ℤ n (pos 0) then default else n

module _ {T P : Type 0} where
  unfoldable pub new_managed_dispatcher : Dict T → ℤ → ℤ → ManagedDispatcher T P
  new_managed_dispatcher tasks worker_count queue_size = record {
    tasks = tasks;
    queue_size = pos_part (or_default queue_size (pos 100));
    task_chan = [];
    worker_count = or_default worker_count (pos 4);
    workers = [];
    running = false;
    stop_closed = false;
    stats = zero_stats;
    in_flight = pos 0;
  }

  unfoldable pub start : ManagedDispatcher T P → ManagedDispatcher T P × Option TaskFailure
  unfolding idle_workers
  start d = if d.running then (d, some already_started) else (
    record d { workers = d.workers ++ idle_workers (pos_part d.worker_count); running = true },
    none,
  )

  -- `close(d.stopChan)` panics where the channel is closed.
  unfoldable pub begin_stop : ManagedDispatcher T P → ManagedDispatcher T P × Reply
  begin_stop d =
      if d.running
      then (if d.stop_closed
          then (d, panicked)
          else (record d { stop_closed = true }, returned none))
      else (d, returned none)

  -- The wait is over: all workers have ended, or the context of the call is done.
  unfoldable pub end_stop :
      ManagedDispatcher T P → Bool → ManagedDispatcher T P × Option TaskFailure
  end_stop d timed_out =
      (record d { running = false }, if timed_out then some shutdown_timeout else none)

  -- `none` is a nil task. The ID may be empty here.
  unfoldable pub register :
      ManagedDispatcher T P → Option (String × T) → ManagedDispatcher T P × Option TaskFailure
  unfolding lookup insert
  register d none = (d, some nil_task)
  register d (some (task_id, task)) =
      if has_key task_id d.tasks
      then (d, some already_registered)
      else (record d { tasks = insert task_id task d.tasks }, none)

  abbrev pub has_room : ManagedDispatcher T P → Bool
  has_room d = ltb (length d.task_chan) d.queue_size

  unfoldable pub send : ManagedDispatcher T P → TaskRequest P → ManagedDispatcher T P
  send d request = record d { task_chan = d.task_chan ++ request ∷ [] }

  -- The `select` of `Dispatch`: where the channel has room and the context is done, the runtime
  -- chooses.
  unfoldable pub offer :
      ManagedDispatcher T P
      → TaskRequest P
      → Bool
      → Bool
      → ManagedDispatcher T P × Option TaskFailure
  unfolding count_queued count_failed send
  offer d request ctx_done prefers_send =
      if has_room d && (not ctx_done || prefers_send)
      then (
        record (send d request) { stats = count_queued d.stats (suc (length d.task_chan)) },
        none,
      )
      else if ctx_done
      then (d, some context_done)
      else (record d { stats = count_failed d.stats }, some queue_full)

  unfoldable pub dispatch :
      ManagedDispatcher T P
      → TaskDispatch P
      → Bool
      → Bool
      → ManagedDispatcher T P × Option TaskFailure
  unfolding offer count_received lookup
  dispatch d t ctx_done prefers_send =
      if not d.running
      then (d, some not_started)
      else if not (has_key t.task_id d.tasks)
      then (d, some task_not_found)
      else offer (record d { stats = count_received d.stats })
          (record { task_id = t.task_id; payload = t.payload; result_chan = false }) ctx_done
          prefers_send

  -- `DispatchSync` up to its wait for the result.
  unfoldable pub dispatch_sync :
      ManagedDispatcher T P
      → TaskDispatch P
      → Bool
      → Bool
      → ManagedDispatcher T P × Option TaskFailure
  unfolding send lookup
  dispatch_sync d t ctx_done prefers_send =
      if not d.running
      then (d, some not_started)
      else if not (has_key t.task_id d.tasks)
      then (d, some task_not_found)
      else if has_room d && (not ctx_done || prefers_send)
      then (send d (record { task_id = t.task_id; payload = t.payload; result_chan = true }), none)
      else (d, some (if ctx_done then context_done else queue_full))

  -- The loop of `DispatchMultiple`, with the errors that it gathers; `done` and `prefers` are those of
  -- each call.
  unfoldable pub dispatch_multiple :
      ManagedDispatcher T P
      → List (TaskDispatch P × Bool × Bool)
      → ManagedDispatcher T P × List (String × TaskFailure)
  unfolding dispatch
  dispatch_multiple d [] = (d, [])
  dispatch_multiple d ((t, ctx_done, prefers_send) ∷ ts) =
      let (d', error) = dispatch d t ctx_done prefers_send in
      let (last, errors) = dispatch_multiple d' ts in
      (last, elim error [ none ↦ errors | some e ↦ (t.task_id, e) ∷ errors ])
