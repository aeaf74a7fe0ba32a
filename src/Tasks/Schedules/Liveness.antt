-- ===== src/Tasks/Schedules/Liveness.antt =====
-- internal/taskmaster/scheduler.go: a schedule dispatches its task at each tick until its maximum.
use webmail_engine.Base.{
  ℕ, zero, suc, ◌+◌, ◌<◌, ◌≡◌, refl, ◌∙◌, sym, ap, true, false, not, ◌||◌, List, [], ◌∷◌, none,
  some, arith, min, if_true, if_false,
}
use webmail_engine.Base.Int.{ℤ, ◌+ℤ◌, pos, two_63, add64, add64_pos}
use webmail_engine.Tasks.Schedules.{
  Schedule, Runner, Phase, ticking, sending, finished, Signal, ticks, sends, is_spent, is_over,
  tick, runner_step,
}
use webmail_engine.Tasks.Schedules.Runs.{one_if, signals}

-- `k` ticks, at these times, each with the time to dispatch after it.
abbrev pub tick_signals : (ℕ → ℤ) → ℕ → List Signal
tick_signals now zero = []
tick_signals now (suc k) = ticks (now k) ∷ sends ∷ tick_signals now k

module _ {P : Type 0} where
  -- An active schedule without an end time, in its loop, with `c` executions of a maximum of `c + left`.
  pub record IsLive (left c : ℕ) (r : Runner P) : Type 0 where
    pub counts : r.schedule.execution_count ≡ pos c
    pub maximum : r.schedule.opts.max_executions ≡ pos (c + left)
    pub active : r.schedule.is_active ≡ true
    pub endless : r.schedule.opts.end_at ≡ none
    pub loops : r.phase ≡ ticking

  ticked : ℤ → Schedule P → Runner P
  unfolding add64 ◌+ℤ◌
  ticked now sched = record {
    schedule = record sched {
      execution_count = add64 sched.execution_count (pos 1);
      last_run = some now;
      next_run = now +ℤ sched.interval;
    };
    phase = ticking;
  }

  tick-live :
      (now : ℤ) (left c : ℕ) (r : Runner P)
      → IsLive (suc left) c r
      → tick now r.schedule ≡ record (ticked now r.schedule) { phase = sending }
  unfolding tick ticked
  tick-live now left c r h =
      let on : not r.schedule.is_active ≡ false = rw (h.active) refl in
      let goes : (is_spent r.schedule || is_over now r.schedule.opts.end_at) ≡ false =
        rw (h.counts, h.maximum, h.endless) (ground arith) in
      if_false (not r.schedule.is_active) _ _ on
      ∙ if_false (is_spent r.schedule || is_over now r.schedule.opts.end_at) _ _ goes

  ticked-IsLive :
      (now : ℤ) (left c : ℕ) (r : Runner P)
      → c + suc left < two_63
      → IsLive (suc left) c r
      → IsLive left (c + 1) (ticked now r.schedule)
  unfolding ticked
  ticked-IsLive now left c r small h = record {
    counts = rw (h.counts) (add64_pos c (omega arith));
    maximum = h.maximum ∙ ap pos (omega arith);
    active = h.active;
    endless = h.endless;
    loops = refl;
  }

  stopped : Schedule P → Runner P
  stopped sched = record { schedule = record sched { is_active = false }; phase = finished }

  tick-spent :
      (now : ℤ) (c : ℕ) (r : Runner P)
      → 0 < c
      → IsLive 0 c r
      → tick now r.schedule ≡ stopped r.schedule
  unfolding tick stopped
  tick-spent now c r p h =
      let on : not r.schedule.is_active ≡ false = rw (h.active) refl in
      let stops : (is_spent r.schedule || is_over now r.schedule.opts.end_at) ≡ true =
        rw (h.counts, h.maximum, h.endless) (ground arith) in
      if_false (not r.schedule.is_active) _ _ on
      ∙ if_true (is_spent r.schedule || is_over now r.schedule.opts.end_at) _ _ stops

  signals-step :
      (r : Runner P) (phase : Phase) (g : Signal) (gs : List Signal)
      → r.phase ≡ phase
      → signals r (g ∷ gs) ≡ (
        (signals (runner_step r phase g).0 gs).0,
        one_if (runner_step r phase g).1 + (signals (runner_step r phase g).0 gs).1,
      )
  unfolding signals
  signals-step r phase g gs e =
      ap
        (λ (p : Phase).
          let x = runner_step r p g in ((signals x.0 gs).0, one_if x.1 + (signals x.0 gs).1))
        e

  -- A tick whose check passes, with its dispatch.
  signals-goes :
      (now : ℤ) (r next : Runner P) (gs : List Signal)
      → r.phase ≡ ticking
      → next.phase ≡ ticking
      → tick now r.schedule ≡ record next { phase = sending }
      → signals r (ticks now ∷ sends ∷ gs) ≡ ((signals next gs).0, 1 + (signals next gs).1)
  unfolding runner_step
  signals-goes now r next gs loops again e =
      let x = record next { phase = sending } in
      let back : record next { phase = ticking } ≡ next =
        ap (λ (p : Phase). record next { phase = p }) (sym again) in
      signals-step r ticking (ticks now) (sends ∷ gs) loops
      ∙ ap (λ (y : Runner P). ((signals y (sends ∷ gs)).0, 0 + (signals y (sends ∷ gs)).1)) e
      ∙ ap (λ (y : Runner P × ℕ). (y.0, 0 + y.1)) (signals-step x sending sends gs refl)
      ∙ ap (λ (y : Runner P). ((signals y gs).0, 0 + (1 + (signals y gs).1))) back
      ∙ ap (λ (m : ℕ). ((signals next gs).0, m))
          (let same : 0 + (1 + (signals next gs).1) ≡ 1 + (signals next gs).1 = omega arith in same)

  signals-ends :
      (now : ℤ) (r next : Runner P) (gs : List Signal)
      → r.phase ≡ ticking
      → next.phase ≡ finished
      → tick now r.schedule ≡ next
      → signals r (ticks now ∷ sends ∷ gs) ≡ ((signals next gs).0, 0 + (0 + (signals next gs).1))
  unfolding runner_step
  signals-ends now r next gs loops over e =
      signals-step r ticking (ticks now) (sends ∷ gs) loops
      ∙ ap (λ (y : Runner P). ((signals y (sends ∷ gs)).0, 0 + (signals y (sends ∷ gs)).1)) e
      ∙ ap (λ (y : Runner P × ℕ). (y.0, 0 + y.1)) (signals-step next finished sends gs over)

  -- A goroutine that has ended takes no part.
  signals-finished :
      (now : ℕ → ℤ) (k : ℕ) (r : Runner P)
      → r.phase ≡ finished
      → signals r (tick_signals now k) ≡ (r, 0)
  unfolding runner_step
  signals-finished now zero r e = unfold signals in refl
  signals-finished now (suc k) r e =
      let gs = tick_signals now k in
      signals-step r finished (ticks (now k)) (sends ∷ gs) e
      ∙ ap (λ (y : Runner P × ℕ). (y.0, 0 + y.1)) (signals-step r finished sends gs e)
      ∙ ap (λ (later : Runner P × ℕ). (later.0, 0 + (0 + later.1))) (signals-finished now k r e)

  ticks-live :
      (now : ℕ → ℤ) (k left c : ℕ) (r : Runner P)
      → c + left < two_63
      → 0 < c + left
      → IsLive left c r
      → ((signals r (tick_signals now k)).1 ≡ min k left)
        × (left < k → (signals r (tick_signals now k)).0.schedule.is_active ≡ false)
  ticks-live now zero left c r small p h =
      unfold signals in
      (let none_left : 0 ≡ min 0 left = omega arith in none_left, λ q. absurd (omega arith))
  ticks-live now (suc k) zero c r small p h =
      rw
        (signals-ends (now k) r (stopped r.schedule) (tick_signals now k) h.loops
          (unfold stopped in refl) (tick-spent (now k) c r (omega arith) h))
        (rw (signals-finished now k (stopped r.schedule) (unfold stopped in refl)) (
          let none_left : 0 + (0 + 0) ≡ min (suc k) 0 = omega arith in none_left,
          λ q. unfold stopped in refl,
        ))
  ticks-live now (suc k) (suc left) c r small p h =
      let next = ticked (now k) r.schedule in
      let (count, over) =
        ticks-live now k left (c + 1) next (omega arith) (omega arith)
          (ticked-IsLive (now k) left c r small h) in
      rw
        (signals-goes (now k) r next (tick_signals now k) h.loops (unfold ticked in refl)
          (tick-live (now k) left c r h))
        (omega (arith, count), λ q. over (omega arith))

  -- A new active schedule without an end time, whose goroutine is in its loop, dispatches its task after each
  -- tick until it has done so as often as its maximum, which is positive; with the next tick it
  -- becomes inactive.
  pub signals-ticks :
      (now : ℕ → ℤ) (k n : ℕ) (r : Runner P)
      → 0 < n
      → n < two_63
      → IsLive n 0 r
      → ((signals r (tick_signals now k)).1 ≡ min k n)
        × (n < k → (signals r (tick_signals now k)).0.schedule.is_active ≡ false)
  signals-ticks now k n r p small h = ticks-live now k n 0 r (omega arith) (omega arith) h
