-- ===== src/Tasks.antt =====
-- internal/taskmaster: the values that its dispatchers and its scheduler share, from interface.go and
-- errors.go. `P` is the type of payloads; a task's implementation is a value of a type `T`, and what
-- `Execute` returns is an argument of the step in which it returns.
pub mod Stats
pub mod Managed
pub mod Schedules
mod Tests
use webmail_engine.Base.{Bool, Option, String}
use webmail_engine.Base.Int.{ℤ}

-- The errors by their kind, without the text and the wrapped error.
pub data TaskFailure : Type 0 where
  task_not_found already_registered not_started already_started queue_full : TaskFailure
  shutdown_timeout context_done schedule_not_found interval_not_positive : TaskFailure
  nil_task empty_id not_initialized execution_failed : TaskFailure

pub data ExecutionMode : Type 0 where
  managed_mode rest_mode machinery_mode : ExecutionMode

pub record TaskDispatch (P : Type 0) : Type 0 where
  pub task_id : String
  pub payload : P

-- `result_chan` tells whether the caller waits for the result.
pub record TaskRequest (P : Type 0) : Type 0 where
  pub task_id : String
  pub payload : P
  pub result_chan : Bool

-- A return with the error or nil, or a panic.
pub data Reply : Type 0 where
  returned : Option TaskFailure → Reply
  panicked : Reply
