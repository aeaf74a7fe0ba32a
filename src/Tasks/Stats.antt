-- ===== src/Tasks/Stats.antt =====
-- internal/taskmaster/managed.go: `ManagedStats`. `average` is the float arithmetic of the mean time.
use webmail_engine.Base.{ℕ, Bool, if◌then◌else◌}
use webmail_engine.Base.Int.{ℤ, pos, add64, sub64, eqb_ℤ}

pub record ManagedStats : Type 0 where
  pub tasks_received : ℤ
  pub tasks_completed : ℤ
  pub tasks_failed : ℤ
  pub tasks_in_flight : ℤ
  pub queue_depth : ℤ
  pub last_task_at : ℤ
  pub avg_process_time_ms : ℤ

abbrev pub zero_stats : ManagedStats
zero_stats = record {
  tasks_received = pos 0;
  tasks_completed = pos 0;
  tasks_failed = pos 0;
  tasks_in_flight = pos 0;
  queue_depth = pos 0;
  last_task_at = pos 0;
  avg_process_time_ms = pos 0;
}

unfoldable pub count_received : ManagedStats → ManagedStats
unfolding add64
count_received s = record s { tasks_received = add64 s.tasks_received (pos 1) }

unfoldable pub count_failed : ManagedStats → ManagedStats
unfolding add64
count_failed s = record s { tasks_failed = add64 s.tasks_failed (pos 1) }

unfoldable pub count_queued : ManagedStats → ℕ → ManagedStats
unfolding add64
count_queued s depth = record s {
  tasks_in_flight = add64 s.tasks_in_flight (pos 1);
  queue_depth = pos depth;
}

-- `updateStats`: `depth` is the number of requests in the channel, `now` the time, `elapsed` the
-- milliseconds since the task began.
unfoldable pub update_stats : (ℤ → ℤ → ℤ) → ManagedStats → Bool → ℕ → ℤ → ℤ → ManagedStats
unfolding add64 sub64
update_stats average s success depth now elapsed = record {
  tasks_received = s.tasks_received;
  tasks_completed = if success then add64 s.tasks_completed (pos 1) else s.tasks_completed;
  tasks_failed = if success then s.tasks_failed else add64 s.tasks_failed (pos 1);
  tasks_in_flight = sub64 s.tasks_in_flight (pos 1);
  queue_depth = pos depth;
  last_task_at = now;
  avg_process_time_ms =
      if eqb_ℤ s.avg_process_time_ms (pos 0)
      then elapsed
      else average s.avg_process_time_ms elapsed;
}
