-- ===== src/Tasks/Schedules/Creating.antt =====
-- internal/taskmaster/scheduler.go: `CreateTask` and `CreateTaskMultiple` over the managed pool.
use webmail_engine.Base.{
  ◌≡◌, refl, ◌∙◌, ap, Bool, true, false, not, List, [], ◌∷◌, ◌++◌, Option, none, some, String,
  if_false, if◌then◌else◌,
}
use webmail_engine.Base.Int.{ℤ, pos, ltb_ℤ}
use webmail_engine.Base.Dict.{has_key}
use webmail_engine.Tasks.{TaskFailure, not_started, task_not_found, TaskDispatch}
use webmail_engine.Tasks.Managed.{ManagedDispatcher, dispatch}

-- One task of a call: `delay` is 0 without options, `fresh` its UUID, the last two are those of `Dispatch`.
pub record TaskCreation (P : Type 0) : Type 0 where
  pub task : TaskDispatch P
  pub delay : ℤ
  pub fresh : String
  pub ctx_done : Bool
  pub prefers_send : Bool

-- The pool, the tasks that goroutines hold until their delay is over, and what the call returns.
pub record Creation (T P : Type 0) : Type 0 where
  pub pool : ManagedDispatcher T P
  pub delayed : List (TaskDispatch P)
  pub failure : Option TaskFailure
  pub task_id : String

module _ {T P : Type 0} where
  abbrev pub created :
      List (TaskDispatch P) → String → ManagedDispatcher T P × Option TaskFailure → Creation T P
  created held fresh (d, none) = record {
    pool = d;
    delayed = held;
    failure = none;
    task_id = fresh;
  }
  created held fresh (d, some e) = record {
    pool = d;
    delayed = held;
    failure = some e;
    task_id = "";
  }

  unfoldable pub create_task :
      ManagedDispatcher T P → List (TaskDispatch P) → TaskCreation P → Creation T P
  unfolding dispatch
  create_task d held c =
      if not d.running
      then record { pool = d; delayed = held; failure = some not_started; task_id = "" }
      else if ltb_ℤ (pos 0) c.delay
      then record { pool = d; delayed = held ++ c.task ∷ []; failure = none; task_id = c.fresh }
      else created held c.fresh (dispatch d c.task c.ctx_done c.prefers_send)

  -- The end of a delay: the goroutine logs the error of `Dispatch`.
  unfoldable pub delay_ends :
      ManagedDispatcher T P
      → TaskDispatch P
      → Bool
      → Bool
      → ManagedDispatcher T P × Option TaskFailure
  unfolding dispatch
  delay_ends d t ctx_done prefers_send = dispatch d t ctx_done prefers_send

  -- The IDs and the errors that `CreateTaskMultiple` gathers.
  unfoldable pub create_task_multiple :
      ManagedDispatcher T P
      → List (TaskDispatch P)
      → List (TaskCreation P)
      → ManagedDispatcher T P × List (TaskDispatch P) × List String × List (String × TaskFailure)
  unfolding create_task
  create_task_multiple d held [] = (d, held, [], [])
  create_task_multiple d held (c ∷ cs) =
      let one = create_task d held c in
      let (d', held', ids, errors) = create_task_multiple one.pool one.delayed cs in
      elim one.failure [
        | none ↦ (d', held', one.task_id ∷ ids, errors)
        | some e ↦ (d', held', ids, (c.task.task_id, e) ∷ errors)
      ]

  dispatch_unknown :
      (d : ManagedDispatcher T P) (t : TaskDispatch P) (ctx_done prefers_send : Bool)
      → d.running ≡ true
      → has_key t.task_id d.tasks ≡ false
      → dispatch d t ctx_done prefers_send ≡ (d, some task_not_found)
  unfolding dispatch
  dispatch_unknown d t ctx_done prefers_send on unknown = rw (on, unknown) refl

  -- A delayed task is not looked up: with an ID that no task has it is accepted under a fresh ID, and is
  -- refused when its delay is over, with no change of the pool; without the delay the call refuses it.
  pub create_task-unknown :
      (d : ManagedDispatcher T P) (held : List (TaskDispatch P)) (c : TaskCreation P)
      (ctx_done prefers_send : Bool)
      → d.running ≡ true
      → has_key c.task.task_id d.tasks ≡ false
      → (ltb_ℤ (pos 0) c.delay ≡ true
          → ((create_task d held c).failure ≡ none)
            × ((create_task d held c).task_id ≡ c.fresh)
            × ((create_task d held c).delayed ≡ held ++ c.task ∷ []))
        × (ltb_ℤ (pos 0) c.delay ≡ false → (create_task d held c).failure ≡ some task_not_found)
        × (delay_ends d c.task ctx_done prefers_send ≡ (d, some task_not_found))
  unfolding create_task delay_ends
  create_task-unknown d held c ctx_done prefers_send on unknown =
      let refused = dispatch_unknown d c.task in
      (
        λ delayed. rw (on, delayed) (refl, refl, refl),
        λ now.
            ap (λ (x : Creation T P). x.failure)
              (if_false (not d.running) _ _ (rw on refl)
                ∙ if_false (ltb_ℤ (pos 0) c.delay) _ _ now
                ∙ ap (created held c.fresh) (refused c.ctx_done c.prefers_send on unknown)),
        refused ctx_done prefers_send on unknown,
      )
