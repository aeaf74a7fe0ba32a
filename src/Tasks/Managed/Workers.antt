-- ===== src/Tasks/Managed/Workers.antt =====
-- internal/taskmaster/managed.go: the moves of the workers.
use webmail_engine.Base.{
  ℕ, Bool, ◌&&◌, ◌||◌, not, List, [], ◌∷◌, Option, none, some, length, get_elem?, set,
  if◌then◌else◌,
}
use webmail_engine.Base.Int.{ℤ, pos, add64, sub64}
use webmail_engine.Base.Dict.{lookup, has_key}
use webmail_engine.Tasks.{TaskFailure, task_not_found, execution_failed, TaskRequest}
use webmail_engine.Tasks.Stats.{update_stats}
use webmail_engine.Tasks.Managed.{ManagedDispatcher, Worker, idle, busy, ended}

-- What a worker does next: a move that is not open to it changes nothing.
pub data Move : Type 0 where
  takes : Move  -- receives a request and begins `processTask`
  finishes : (success : Bool) (now elapsed : ℤ) → Move  -- `Execute` has returned
  leaves : (ctx_done : Bool) → Move  -- sees the closed `stopChan` or the context

-- What comes of a move: a result for a caller that waits, or nothing.
pub data Outcome : Type 0 where
  silent : Outcome
  sends_result : Option TaskFailure → Outcome

module _ {T P : Type 0} where
  abbrev pub place : ManagedDispatcher T P → ℕ → Worker P → ManagedDispatcher T P
  place d i w = record d { workers = set d.workers i w }

  unfoldable pub take_request :
      ManagedDispatcher T P → ℕ → List (TaskRequest P) → ManagedDispatcher T P
  unfolding add64
  take_request d i [] = d
  take_request d i (request ∷ rest) = record d {
    task_chan = rest;
    workers = set d.workers i (busy request);
    in_flight = add64 d.in_flight (pos 1);
  }

  -- A task that is no longer registered counts as failed.
  abbrev pub succeeds : ManagedDispatcher T P → TaskRequest P → Bool → Bool
  succeeds d request success = has_key request.task_id d.tasks && success

  abbrev pub result_of : ManagedDispatcher T P → TaskRequest P → Bool → Option TaskFailure
  result_of d request success =
      if not (has_key request.task_id d.tasks)
      then some task_not_found
      else if success
      then none
      else some execution_failed

  -- The end of `processTask`.
  unfoldable pub finish_request :
      (ℤ → ℤ → ℤ)
      → ManagedDispatcher T P
      → ℕ
      → TaskRequest P
      → Bool
      → ℤ
      → ℤ
      → ManagedDispatcher T P × Outcome
  unfolding update_stats sub64 lookup
  finish_request average d i request success now elapsed = (
    record d {
      workers = set d.workers i idle;
      stats =
          update_stats average d.stats (succeeds d request success) (length d.task_chan) now
            elapsed;
      in_flight = sub64 d.in_flight (pos 1);
    },
    if request.result_chan then sends_result (result_of d request success) else silent,
  )

  unfoldable pub move_worker :
      (ℤ → ℤ → ℤ) → ManagedDispatcher T P → ℕ → Worker P → Move → ManagedDispatcher T P × Outcome
  unfolding take_request finish_request
  move_worker average d i idle takes = (take_request d i d.task_chan, silent)
  move_worker average d i idle (leaves ctx_done) =
      (if d.stop_closed || ctx_done then place d i ended else d, silent)
  move_worker average d i (busy request) (finishes success now elapsed) =
      finish_request average d i request success now elapsed
  move_worker average d i w m = (d, silent)

  unfoldable pub worker_step :
      (ℤ → ℤ → ℤ) → ManagedDispatcher T P → ℕ → Move → ManagedDispatcher T P × Outcome
  unfolding move_worker
  worker_step average d i m = elim (get_elem? d.workers i) [
    | none ↦ (d, silent)
    | some w ↦ move_worker average d i w m
  ]
