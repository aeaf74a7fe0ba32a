-- ===== src/Tasks/Schedules/Stopping.antt =====
-- internal/taskmaster/scheduler.go: `TaskScheduler.Stop`, which waits for the goroutines of the schedules.
use webmail_engine.Base.{
  ℕ, zero, suc, ◌≡◌, ◌≢◌, refl, sym, subst, Bool, true, false, not, ◌&&◌, ◌||◌, ◌⊎◌, List, [], ◌∷◌,
  Option, none, some, arith, get_elem?, Stands, Stands-set, Option-cases, inl, inr, if_split,
  if◌then◌else◌,
}
use webmail_engine.Base.Int.{ℤ, pos}
use webmail_engine.Tasks.{TaskFailure, context_done, Reply, returned, panicked}
use webmail_engine.Tasks.Schedules.{
  Runner, Phase, ticking, sending, finished, Signal, begins, ticks, delay_over, sends, stop_seen,
  context_ended, end_if, is_spent, is_over, tick, runner_step, TaskScheduler, run_schedule,
}

abbrev pub has_finished : Phase → Bool
has_finished finished = true
has_finished _ = false

abbrev pub all_finished : {P : Type 0} → List (Runner P) → Bool
all_finished [] = true
all_finished (r ∷ rs) = has_finished r.phase && all_finished rs

abbrev pub Uninterrupted : List (ℕ × Signal) → Type 0
Uninterrupted [] = Unit {0}
Uninterrupted ((j, g) ∷ gs) = (g ≢ context_ended) × Uninterrupted gs

-- The goroutine is in its loop, or about to dispatch from it.
abbrev pub InLoop : Phase → Type 0
InLoop phase = (phase ≡ ticking) ⊎ (phase ≡ sending)

module _ {P : Type 0} where
  -- `Stop` up to its wait; `close(s.stopChan)` panics where the channel is closed.
  unfoldable pub begin_stop : TaskScheduler P → TaskScheduler P × Reply
  begin_stop s =
      if s.running
      then (if s.stop_closed
          then (s, panicked)
          else (record s { stop_closed = true }, returned none))
      else (s, returned none)

  -- The wait of `Stop` ends with the goroutines of all schedules (the monitor sees `stopChan`), or with
  -- the context; where both are over the runtime chooses.
  unfoldable pub end_stop :
      TaskScheduler P → Bool → Bool → Option (TaskScheduler P × Option TaskFailure)
  end_stop s ctx_done prefers_done =
      if all_finished s.runners && (not ctx_done || prefers_done)
      then some (record s { running = false }, none)
      else if ctx_done
      then some (record s { running = false }, some context_done)
      else none

  -- Signals for the goroutines, each with its position.
  unfoldable pub run_signals : TaskScheduler P → List (ℕ × Signal) → TaskScheduler P
  run_signals s [] = s
  run_signals s ((j, g) ∷ gs) = run_signals (run_schedule s j g).0 gs

  -- An active schedule in its loop, with no maximum and no end time.
  pub record IsEndless (r : Runner P) : Type 0 where
    pub active : r.schedule.is_active ≡ true
    pub unstopped : r.schedule.stop_closed ≡ false
    pub unlimited : r.schedule.opts.max_executions ≡ pos 0
    pub endless : r.schedule.opts.end_at ≡ none
    pub loops : InLoop r.phase

  tick-IsEndless : (now : ℤ) (r : Runner P) → IsEndless r → IsEndless (tick now r.schedule)
  unfolding tick
  tick-IsEndless now r h =
      if_split IsEndless (not r.schedule.is_active) (λ off. absurd (ground (arith, h.active)))
        (λ _.
          if_split IsEndless (is_spent r.schedule || is_over now r.schedule.opts.end_at)
            (λ stops. absurd (ground (arith, h.unlimited, h.endless)))
            (λ _. record {
              active = h.active;
              unstopped = h.unstopped;
              unlimited = h.unlimited;
              endless = h.endless;
              loops = inr refl;
            }))

  ticking-IsEndless :
      (r : Runner P) (g : Signal)
      → g ≢ context_ended
      → IsEndless r
      → IsEndless (runner_step r ticking g).0
  unfolding runner_step
  ticking-IsEndless r (begins now) n h = h
  ticking-IsEndless r (ticks now) n h = tick-IsEndless now r h
  ticking-IsEndless r delay_over n h = h
  ticking-IsEndless r sends n h = h
  ticking-IsEndless r stop_seen n h =
      subst (λ (stops : Bool). IsEndless (end_if stops r)) (sym h.unstopped) h
  ticking-IsEndless r context_ended n h = absurd (n refl)

  sending-IsEndless :
      (r : Runner P) (g : Signal) → IsEndless r → IsEndless (runner_step r sending g).0
  unfolding runner_step
  sending-IsEndless r (begins now) h = h
  sending-IsEndless r (ticks now) h = h
  sending-IsEndless r delay_over h = h
  sending-IsEndless r sends h = record {
    active = h.active;
    unstopped = h.unstopped;
    unlimited = h.unlimited;
    endless = h.endless;
    loops = inl refl;
  }
  sending-IsEndless r stop_seen h = h
  sending-IsEndless r context_ended h = h

  runner_step-IsEndless :
      (r : Runner P) (g : Signal)
      → g ≢ context_ended
      → IsEndless r
      → IsEndless (runner_step r r.phase g).0
  runner_step-IsEndless r g n h = elim (h.loops) [
    | inl loops ↦
        subst (λ (phase : Phase). IsEndless (runner_step r phase g).0) (sym loops)
          (ticking-IsEndless r g n h)
    | inr about_to ↦
        subst (λ (phase : Phase). IsEndless (runner_step r phase g).0) (sym about_to)
          (sending-IsEndless r g h)
  ]

  run_schedule-IsEndless :
      (s : TaskScheduler P) (i j : ℕ) (g : Signal)
      → g ≢ context_ended
      → Stands IsEndless s.runners i
      → Stands IsEndless (run_schedule s j g).0.runners i
  unfolding run_schedule
  run_schedule-IsEndless s i j g n stands = elim (Option-cases (get_elem? s.runners j)) [
    | inl missing ↦ rw (missing, run_schedule) stands
    | inr (q, there) ↦
        rw (there, run_schedule)
          (Stands-set IsEndless s.runners i j q (runner_step q q.phase g).0 there
            (runner_step-IsEndless q g n) stands)
  ]

  run_signals-IsEndless :
      (gs : List (ℕ × Signal)) (s : TaskScheduler P) (i : ℕ)
      → Uninterrupted gs
      → Stands IsEndless s.runners i
      → Stands IsEndless (run_signals s gs).runners i
  unfolding run_signals
  run_signals-IsEndless [] s i u stands = stands
  run_signals-IsEndless ((j, g) ∷ gs) s i u stands =
      run_signals-IsEndless gs (run_schedule s j g).0 i u.1
        (run_schedule-IsEndless s i j g u.0 stands)

  all_finished-IsEndless :
      (rs : List (Runner P)) (i : ℕ) → Stands IsEndless rs i → all_finished rs ≡ false
  all_finished-IsEndless [] i (r, at, h) = absurd (cc)
  all_finished-IsEndless (q ∷ rs) zero (r, at, h) =
      let same : q ≡ r = cc in
      elim (h.loops) [ inl loops ↦ rw (same, loops) refl | inr about_to ↦ rw (same, about_to) refl ]
  all_finished-IsEndless (q ∷ rs) (suc i) stands =
      rw (all_finished-IsEndless rs i stands) (ground (arith))

  -- `Stop` of a running scheduler ends no active schedule that is in its loop and has no maximum and no
  -- end time: however the goroutines go on meanwhile, where the context of none of them ends and
  -- `CancelSchedule` is not called, the wait of `Stop` is not over until its own context is done, and then
  -- it returns that as an error.
  pub begin_stop-waits :
      (s : TaskScheduler P) (i : ℕ) (r : Runner P) (gs : List (ℕ × Signal)) (prefers_done : Bool)
      → s.running ≡ true
      → s.stop_closed ≡ false
      → get_elem? s.runners i ≡ some r
      → IsEndless r
      → Uninterrupted gs
      → let s' = run_signals (begin_stop s).0 gs in
        (end_stop s' false prefers_done ≡ none)
        × (end_stop s' true prefers_done ≡ some (record s' { running = false }, some context_done))
  unfolding end_stop
  begin_stop-waits s i r gs prefers_done on open' at h u =
      let closed : (begin_stop s).0.runners ≡ s.runners =
        unfold begin_stop in rw (on, open') refl in
      let stuck =
        all_finished-IsEndless (run_signals (begin_stop s).0 gs).runners i
          (run_signals-IsEndless gs (begin_stop s).0 i u (r, rw closed at, h)) in
      rw stuck (refl, refl)
