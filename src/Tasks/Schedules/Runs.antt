-- ===== src/Tasks/Schedules/Runs.antt =====
-- internal/taskmaster/scheduler.go: how often one schedule dispatches its task.
use webmail_engine.Base.{
  ℕ, ◌+◌, ◌≤◌, ◌<◌, ◌≡◌, refl, ◌∙◌, ap, subst, Bool, true, false, not, ◌||◌, List, [], ◌∷◌, arith,
  if_split, if◌then◌else◌,
}
use webmail_engine.Base.Int.{ℤ, pos, two_63, add64_pos, ltb_ℤ}
use webmail_engine.Tasks.Schedules.{
  Runner, Phase, starting, delaying, ticking, sending, finished, Signal, sends, begins, ticks,
  delay_over, stop_seen, context_ended, is_spent, is_over, end_if, tick, runner_step,
}

abbrev pub one_if : Bool → ℕ
one_if true = 1
one_if false = 0

-- The dispatch that a goroutine is about to make.
abbrev pub pending : Phase → ℕ
pending sending = 1
pending _ = 0

pub if_pending : (b : Bool) → pending (if b then delaying else ticking) ≡ 0
if_pending true = refl
if_pending false = refl

module _ {P : Type 0} where
  -- The runner after some signals, and the number of dispatches.
  unfoldable pub signals : Runner P → List Signal → Runner P × ℕ
  signals r [] = (r, 0)
  signals r (g ∷ gs) =
      let (r', dispatches) = runner_step r r.phase g in
      let (last, later) = signals r' gs in (last, one_if dispatches + later)

  -- The count of executions is `m`, the maximum is `n`.
  record Bounded (n m : ℕ) (r : Runner P) : Type 0 where
    counts : r.schedule.execution_count ≡ pos m
    maximum : r.schedule.opts.max_executions ≡ pos n

  -- After `c` dispatches, one more signal keeps to the maximum and counts what it dispatches and what
  -- is about to be dispatched.
  abbrev Keeps : ℕ → ℕ → Runner P × Bool → Type 0
  Keeps n c x =
      (c + one_if x.1 + pending x.0.phase ≤ n) × Bounded n (c + one_if x.1 + pending x.0.phase) x.0

  same-Keeps :
      (n c m : ℕ) (r s : Runner P) (b : Bool)
      → m ≤ n
      → Bounded n m r
      → s.schedule.execution_count ≡ r.schedule.execution_count
      → s.schedule.opts.max_executions ≡ r.schedule.opts.max_executions
      → m ≡ c + one_if b + pending s.phase
      → Keeps n c (s, b)
  same-Keeps n c m r s b le h e f same =
      subst (λ (k : ℕ). (k ≤ n) × Bounded n k s) same
        (le, record { counts = e ∙ h.counts; maximum = f ∙ h.maximum })

  still-Keeps :
      (n c : ℕ) (r : Runner P) (phase : Phase)
      → r.phase ≡ phase
      → c + pending phase ≤ n
      → Bounded n (c + pending phase) r
      → Keeps n c (r, false)
  still-Keeps n c r phase e le h =
      same-Keeps n c (c + pending phase) r r false le h refl refl (omega (arith, ap pending e))

  moved-Keeps :
      (n c : ℕ) (r : Runner P) (phase next : Phase)
      → pending next ≡ pending phase
      → c + pending phase ≤ n
      → Bounded n (c + pending phase) r
      → Keeps n c (record r { phase = next }, false)
  moved-Keeps n c r phase next e le h =
      same-Keeps n c (c + pending phase) r (record r { phase = next }) false le h refl refl
        (omega (arith, e))

  sent-Keeps :
      (n c : ℕ) (r : Runner P)
      → c + 1 ≤ n
      → Bounded n (c + 1) r
      → Keeps n c (record r { phase = ticking }, true)
  sent-Keeps n c r le h =
      same-Keeps n c (c + 1) r (record r { phase = ticking }) true le h refl refl (omega arith)

  end_if-Keeps :
      (n c : ℕ) (r : Runner P) (phase : Phase) (stops : Bool)
      → r.phase ≡ phase
      → 0 ≡ pending phase
      → c + pending phase ≤ n
      → Bounded n (c + pending phase) r
      → Keeps n c (end_if stops r, false)
  end_if-Keeps n c r phase true e none_pending le h =
      moved-Keeps n c r phase finished none_pending le h
  end_if-Keeps n c r phase false e none_pending le h = still-Keeps n c r phase e le h

  tick-Keeps :
      (now : ℤ) (n c : ℕ) (r : Runner P)
      → 0 < n
      → n < two_63
      → c + 0 ≤ n
      → Bounded n (c + 0) r
      → Keeps n c (tick now r.schedule, false)
  unfolding tick
  tick-Keeps now n c r p small le h =
      let Q = λ (x : Runner P). Keeps n c (x, false) in
      if_split Q (not r.schedule.is_active)
        (λ _.
          same-Keeps n c (c + 0) r (record { schedule = r.schedule; phase = finished }) false le h
            refl refl (omega arith))
        (λ _.
          if_split Q (is_spent r.schedule || is_over now r.schedule.opts.end_at)
            (λ _.
              same-Keeps n c (c + 0) r
                (record { schedule = record (r.schedule) { is_active = false }; phase = finished })
                false le h refl refl (omega arith))
            (λ goes.
              (let less : c + 0 < n = ground (arith, h.counts, h.maximum) in
                (
                  omega arith,
                  record {
                    counts = rw (h.counts) (add64_pos (c + 0) (omega arith));
                    maximum = h.maximum;
                  },
                ))))

  runner_step-Keeps :
      (n c : ℕ) (r : Runner P) (phase : Phase) (g : Signal)
      → r.phase ≡ phase
      → 0 < n
      → n < two_63
      → c + pending phase ≤ n
      → Bounded n (c + pending phase) r
      → Keeps n c (runner_step r phase g)
  unfolding runner_step
  runner_step-Keeps n c r starting (begins now) e p small le h =
      moved-Keeps n c r starting (if ltb_ℤ now r.schedule.next_run then delaying else ticking)
        (if_pending (ltb_ℤ now r.schedule.next_run)) le h
  runner_step-Keeps n c r starting (ticks now) e p small le h = still-Keeps n c r starting e le h
  runner_step-Keeps n c r starting delay_over e p small le h = still-Keeps n c r starting e le h
  runner_step-Keeps n c r starting sends e p small le h = still-Keeps n c r starting e le h
  runner_step-Keeps n c r starting stop_seen e p small le h = still-Keeps n c r starting e le h
  runner_step-Keeps n c r starting context_ended e p small le h = still-Keeps n c r starting e le h
  runner_step-Keeps n c r delaying (begins now) e p small le h = still-Keeps n c r delaying e le h
  runner_step-Keeps n c r delaying (ticks now) e p small le h = still-Keeps n c r delaying e le h
  runner_step-Keeps n c r delaying delay_over e p small le h =
      moved-Keeps n c r delaying ticking refl le h
  runner_step-Keeps n c r delaying sends e p small le h = still-Keeps n c r delaying e le h
  runner_step-Keeps n c r delaying stop_seen e p small le h =
      end_if-Keeps n c r delaying r.schedule.stop_closed e refl le h
  runner_step-Keeps n c r delaying context_ended e p small le h =
      end_if-Keeps n c r delaying true e refl le h
  runner_step-Keeps n c r ticking (begins now) e p small le h = still-Keeps n c r ticking e le h
  runner_step-Keeps n c r ticking (ticks now) e p small le h = tick-Keeps now n c r p small le h
  runner_step-Keeps n c r ticking delay_over e p small le h = still-Keeps n c r ticking e le h
  runner_step-Keeps n c r ticking sends e p small le h = still-Keeps n c r ticking e le h
  runner_step-Keeps n c r ticking stop_seen e p small le h =
      end_if-Keeps n c r ticking r.schedule.stop_closed e refl le h
  runner_step-Keeps n c r ticking context_ended e p small le h =
      end_if-Keeps n c r ticking true e refl le h
  runner_step-Keeps n c r sending (begins now) e p small le h = still-Keeps n c r sending e le h
  runner_step-Keeps n c r sending (ticks now) e p small le h = still-Keeps n c r sending e le h
  runner_step-Keeps n c r sending delay_over e p small le h = still-Keeps n c r sending e le h
  runner_step-Keeps n c r sending sends e p small le h = sent-Keeps n c r le h
  runner_step-Keeps n c r sending stop_seen e p small le h = still-Keeps n c r sending e le h
  runner_step-Keeps n c r sending context_ended e p small le h = still-Keeps n c r sending e le h
  runner_step-Keeps n c r finished g e p small le h = still-Keeps n c r finished e le h

  signals-Keeps :
      (gs : List Signal) (n c : ℕ) (r : Runner P)
      → 0 < n
      → n < two_63
      → c + pending r.phase ≤ n
      → Bounded n (c + pending r.phase) r
      → c + (signals r gs).1 ≤ n
  unfolding signals
  signals-Keeps [] n c r p small le h = omega (arith, le)
  signals-Keeps (g ∷ gs) n c r p small le h =
      let (le', h') = runner_step-Keeps n c r r.phase g refl p small le h in
      let rest =
        signals-Keeps gs n (c + one_if (runner_step r r.phase g).1) (runner_step r r.phase g).0 p
          small le' h' in
      omega (arith, rest)

  -- Whatever the goroutine of a schedule sees, a schedule with a positive maximum that has not run yet,
  -- and is not about to, dispatches its task at most that often.
  pub signals-bounded :
      (gs : List Signal) (n : ℕ) (r : Runner P)
      → 0 < n
      → n < two_63
      → pending r.phase ≡ 0
      → r.schedule.execution_count ≡ pos 0
      → r.schedule.opts.max_executions ≡ pos n
      → (signals r gs).1 ≤ n
  signals-bounded gs n r p small quiet e f = omega (
    arith,
    signals-Keeps gs n 0 r p small (omega (arith, quiet)) (record {
      counts = e ∙ ap pos (let same : 0 ≡ 0 + pending r.phase = omega (arith, quiet) in same);
      maximum = f;
    }),
  )
