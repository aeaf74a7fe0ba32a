-- ===== src/Tasks/Managed/Dispatching.antt =====
-- internal/taskmaster/managed.go: `Dispatch` in the steps between which other goroutines may come: the
-- tests with the count of a received task, the `select`, and the count of what came of it. The tests
-- (`running`, and the registry, to which tasks are only added) and the first count are one step.
use webmail_engine.Base.{Bool, false, not, ◌&&◌, ◌||◌, length, if◌then◌else◌}
use webmail_engine.Base.Dict.{has_key}
use webmail_engine.Tasks.{TaskDispatch, TaskRequest}
use webmail_engine.Tasks.Stats.{count_received, count_failed, count_queued}
use webmail_engine.Tasks.Managed.{ManagedDispatcher, has_room, send}

-- Where a call of `Dispatch` stands.
pub data Call (P : Type 0) : Type 0 where
  selects : TaskRequest P → Call P  -- before the `select`
  counts_queued : Call P  -- after the send, before `TasksInFlight++`
  counts_failed : Call P  -- the queue was full, before `TasksFailed++`
  gave_up : Call P  -- the context was done
  over : Call P

module _ {T P : Type 0} where
  unfoldable pub begin_dispatch :
      ManagedDispatcher T P → TaskDispatch P → ManagedDispatcher T P × Call P
  unfolding count_received
  begin_dispatch d t =
      if not d.running then (d, over) else if not (has_key t.task_id d.tasks) then (d, over) else (
        record d { stats = count_received d.stats },
        selects (record { task_id = t.task_id; payload = t.payload; result_chan = false }),
      )

  -- Where the channel has room and the context is done, the runtime chooses.
  unfoldable pub continue_dispatch :
      ManagedDispatcher T P → Call P → Bool → Bool → ManagedDispatcher T P × Call P
  unfolding send count_queued count_failed
  continue_dispatch d (selects request) ctx_done prefers_send =
      if has_room d && (not ctx_done || prefers_send)
      then (send d request, counts_queued)
      else if ctx_done
      then (d, gave_up)
      else (d, counts_failed)
  continue_dispatch d counts_queued ctx_done prefers_send =
      (record d { stats = count_queued d.stats (length d.task_chan) }, over)
  continue_dispatch d counts_failed ctx_done prefers_send =
      (record d { stats = count_failed d.stats }, over)
  continue_dispatch d gave_up ctx_done prefers_send = (d, gave_up)
  continue_dispatch d over ctx_done prefers_send = (d, over)
