-- ===== src/Scheduler/Worker.antt =====
-- `ProcessQueue` of internal/scheduler/fairuse_scheduler.go as a state machine: the loop's place and
-- one step for each thing that can happen there.
use webmail_engine.Base.{ℕ, Bool, false, Option, none, some, String, if◌then◌else◌}
use webmail_engine.Base.Int.{pos, sub64}
use webmail_engine.Scheduler.Queue.{QueuedOperation, cancelled, dequeue}
use webmail_engine.Scheduler.{
  FairUseScheduler, Outcome, returned, panicked, Charge, consume_tokens, release_tokens,
}

pub data Phase : Type 0 where
  polling : Phase  -- at the head of the loop
  attempting : QueuedOperation → Phase  -- about to call `ConsumeTokens`
  sleeping : QueuedOperation → Phase  -- waiting for `op.Cancel` or one second
  granting : QueuedOperation → Phase  -- sending on `op.Execute`
  executing : QueuedOperation → Phase  -- waiting for `op.Result` or the context
  stopped : Option QueuedOperation → Phase  -- returned, with the operation it cancelled
  crashed : Phase  -- `ConsumeTokens` panicked

pub data Event : Type 0 where
  polls context_done cancels wakes accepted : Event
  attempts : ℕ → Event
  results : Bool → Event

unfoldable pub poll : FairUseScheduler → String → FairUseScheduler × Phase
unfolding dequeue
poll s account_id =
    let (queue', head) = dequeue s.queue account_id in
    (record s { queue = queue' }, elim head [ none ↦ stopped none | some op ↦ attempting op ])

unfoldable pub attempt :
    FairUseScheduler × Outcome Charge → QueuedOperation → FairUseScheduler × Phase
attempt (s, panicked) op = (s, crashed)
attempt (s, returned c) op = (s, if c.success then granting op else sleeping op)

-- A failed operation gives back the cost that was computed when it was queued.
unfoldable pub finish : FairUseScheduler → String → QueuedOperation → Bool → FairUseScheduler
unfolding release_tokens sub64
finish s account_id op success =
    let s' = if success then s else release_tokens s account_id op.cost in
    record s' {
      stats = record (s'.stats) { queued_operations = sub64 s'.stats.queued_operations (pos 1) };
    }

-- An event that the loop does not wait for changes nothing.
unfoldable pub worker_step : String → FairUseScheduler × Phase → Event → FairUseScheduler × Phase
unfolding poll attempt finish consume_tokens
worker_step a (s, polling) polls = poll s a
worker_step a (s, polling) context_done = (s, stopped none)
worker_step a (s, attempting op) (attempts now) = attempt (consume_tokens s a op.operation now) op
worker_step a (s, sleeping op) wakes = (s, attempting op)
worker_step a (s, sleeping op) cancels = (
  s,
  stopped (some (record op { result = some (record { success = false; error = some cancelled }) })),
)
worker_step a (s, granting op) accepted = (s, executing op)
worker_step a (s, executing op) (results success) = (finish s a op success, polling)
worker_step a (s, executing op) context_done = (s, stopped none)
worker_step a (s, phase) event = (s, phase)
