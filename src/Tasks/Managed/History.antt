-- ===== src/Tasks/Managed/History.antt =====
-- internal/taskmaster/managed.go: what the statistics count, over every interleaving of callers and
-- workers.
use webmail_engine.Base.{ℕ, ◌+◌, Bool, List, [], ◌∷◌, ◌++◌, none, some, get_elem?, set}
use webmail_engine.Base.Int.{ℤ}
use webmail_engine.Base.Dict.{Dict}
use webmail_engine.Tasks.{TaskDispatch}
use webmail_engine.Tasks.Managed.{ManagedDispatcher, start, begin_stop, end_stop}
use webmail_engine.Tasks.Managed.Workers.{Move, worker_step}
use webmail_engine.Tasks.Managed.Dispatching.{Call, begin_dispatch, continue_dispatch}
use webmail_engine.Tasks.Managed.Accounting.{Inv, uncounted_of, unsent_of}

pub data Event (P : Type 0) : Type 0 where
  dispatches : TaskDispatch P → Event P
  continues : ℕ → (ctx_done prefers_send : Bool) → Event P
  moves : ℕ → Move → Event P
  starts begins_stop : Event P
  ends_stop : (timed_out : Bool) → Event P

abbrev pub sum_by : {P : Type 0} → (Call P → ℕ) → List (Call P) → ℕ
sum_by f [] = 0
sum_by f (c ∷ cs) = f c + sum_by f cs

-- The dispatcher, and the calls of `Dispatch` so far.
abbrev pub Run : Type 0 → Type 0 → Type 0
Run T P = ManagedDispatcher T P × List (Call P)

abbrev pub Balanced : {T P : Type 0} → ℕ → Run T P → Type 0
Balanced n s = Inv n (sum_by uncounted_of s.1) (sum_by unsent_of s.1) s.0

module _ {T P : Type 0} (average : ℤ → ℤ → ℤ) where
  unfoldable pub event_step : Run T P → Event P → Run T P
  event_step (d, calls) (dispatches t) =
      ((begin_dispatch d t).0, calls ++ (begin_dispatch d t).1 ∷ [])
  event_step (d, calls) (continues i ctx_done prefers_send) = elim (get_elem? calls i) [
    | none ↦ (d, calls)
    | some c ↦ (
      (continue_dispatch d c ctx_done prefers_send).0,
      set calls i (continue_dispatch d c ctx_done prefers_send).1,
    )
  ]
  event_step (d, calls) (moves i m) = ((worker_step average d i m).0, calls)
  event_step (d, calls) starts = ((start d).0, calls)
  event_step (d, calls) begins_stop = ((begin_stop d).0, calls)
  event_step (d, calls) (ends_stop timed_out) = ((end_stop d timed_out).0, calls)

  unfoldable pub run : Run T P → List (Event P) → Run T P
  run s [] = s
  run s (e ∷ es) = run (event_step s e) es
