-- ===== src/Tasks/Managed/Order.antt =====
-- internal/taskmaster/managed.go: the requests that are accepted are executed, in order.
use mathlib.Core.List.{append_assoc, append-nil}
use webmail_engine.Base.{
  ℕ, zero, suc, ◌+◌, ◌≤◌, ◌<◌, ◌≡◌, refl, ◌∙◌, sym, ap, Bool, true, false, List, [], ◌∷◌, ◌++◌, map,
  Option, none, some, String, arith, length, length-append, get_elem?, get_elem?-set_self, ltb,
}
use webmail_engine.Base.Int.{ℤ}
use webmail_engine.Base.Dict.{has_key}
use webmail_engine.Tasks.{TaskFailure, TaskDispatch, TaskRequest}
use webmail_engine.Tasks.Stats.{count_received, count_queued}
use webmail_engine.Tasks.Managed.{
  ManagedDispatcher, Worker, idle, busy, send, offer, dispatch, dispatch_multiple,
}
use webmail_engine.Tasks.Managed.Workers.{
  takes, finishes, take_request, finish_request, move_worker, worker_step,
}

abbrev pub request_of : {P : Type 0} → TaskDispatch P → TaskRequest P
request_of t = record { task_id = t.task_id; payload = t.payload; result_chan = false }

-- Calls whose context is not done.
abbrev pub alive : {P : Type 0} → List (TaskDispatch P) → List (TaskDispatch P × Bool × Bool)
alive [] = []
alive (t ∷ ts) = (t, false, true) ∷ alive ts

-- What the worker executes, where it is in `processTask`.
abbrev pub executing : {P : Type 0} → Option (Worker P) → List (TaskRequest P)
executing (some (busy request)) = request ∷ []
executing _ = []

module _ {T P : Type 0} where
  abbrev pub AllRegistered : ManagedDispatcher T P → List (TaskDispatch P) → Type 0
  AllRegistered d [] = Unit {0}
  AllRegistered d (t ∷ ts) = (has_key t.task_id d.tasks ≡ true) × AllRegistered d ts

  -- What `Dispatch` returns where the pool runs, the task is registered and the queue has room.
  unfoldable pub accepted : ManagedDispatcher T P → TaskDispatch P → ManagedDispatcher T P
  accepted d t = record (send d (request_of t)) {
    stats = count_queued (count_received d.stats) (suc (length d.task_chan));
  }

  pub dispatch-accepted :
      (d : ManagedDispatcher T P) (t : TaskDispatch P)
      → d.running ≡ true
      → has_key t.task_id d.tasks ≡ true
      → length d.task_chan < d.queue_size
      → dispatch d t false true ≡ (accepted d t, none)
  unfolding dispatch offer send accepted
  dispatch-accepted d t on known room =
      let free : ltb (length d.task_chan) d.queue_size ≡ true = ground arith in
      rw (on, known, free) refl

  AllRegistered-accepted :
      (d : ManagedDispatcher T P) (t : TaskDispatch P) (ts : List (TaskDispatch P))
      → AllRegistered d ts
      → AllRegistered (accepted d t) ts
  unfolding accepted send
  AllRegistered-accepted d t [] h = tt
  AllRegistered-accepted d t (u ∷ ts) h = (h.0, AllRegistered-accepted d t ts h.1)

  pub record Accepts (d d' : ManagedDispatcher T P) (ts : List (TaskDispatch P)) : Type 0 where
    pub queued : d'.task_chan ≡ d.task_chan ++ map request_of ts
    pub same_workers : d'.workers ≡ d.workers

  dispatch_multiple-cons :
      (d d' : ManagedDispatcher T P) (t : TaskDispatch P) (ts : List (TaskDispatch P × Bool × Bool))
      → dispatch d t false true ≡ (d', none)
      → dispatch_multiple d ((t, false, true) ∷ ts) ≡ dispatch_multiple d' ts
  unfolding dispatch_multiple
  dispatch_multiple-cons d d' t ts e =
      ap
        (λ (r : ManagedDispatcher T P × Option TaskFailure).
          let later = dispatch_multiple r.0 ts in
          (
            later.0,
            elim r.1 as (λ _. List (String × TaskFailure)) [
              | none ↦ later.1
              | some error ↦ (t.task_id, error) ∷ later.1
            ],
          ))
        e

  dispatch_multiple-Accepts :
      (ts : List (TaskDispatch P)) (d : ManagedDispatcher T P)
      → d.running ≡ true
      → AllRegistered d ts
      → length d.task_chan + length ts ≤ d.queue_size
      → ((dispatch_multiple d (alive ts)).1 ≡ []) × Accepts d (dispatch_multiple d (alive ts)).0 ts
  unfolding dispatch_multiple accepted send
  dispatch_multiple-Accepts [] d on known room =
      (refl, record { queued = sym (append-nil d.task_chan); same_workers = refl })
  dispatch_multiple-Accepts (t ∷ ts) d on known room =
      let (errors, rest) =
        dispatch_multiple-Accepts ts (accepted d t) on (AllRegistered-accepted d t ts known.1)
          (omega (arith, length-append d.task_chan (request_of t ∷ []))) in
      rw
        (dispatch_multiple-cons d (accepted d t) t (alive ts)
          (dispatch-accepted d t on known.0 (omega arith)))
        (
          errors,
          record {
            queued = rest.queued ∙ append_assoc d.task_chan (request_of t ∷ []) (map request_of ts);
            same_workers = rest.same_workers;
          },
        )

  -- `k` rounds of the loop of one worker, with the requests that it executes; `succeeds` and `elapsed`
  -- tell how.
  module _ (average : ℤ → ℤ → ℤ) (i : ℕ) (succeeds : ℕ → Bool) (now elapsed : ℕ → ℤ) where
    unfoldable pub work : ℕ → ManagedDispatcher T P → ManagedDispatcher T P × List (TaskRequest P)
    work zero d = (d, [])
    work (suc k) d =
        let taken = (worker_step average d i takes).0 in
        let done = (worker_step average taken i (finishes (succeeds k) (now k) (elapsed k))).0 in
        let (last, later) = work k done in (last, executing (get_elem? taken.workers i) ++ later)

    -- One round with a request in the queue.
    done_with :
        ℕ → ManagedDispatcher T P → TaskRequest P → List (TaskRequest P) → ManagedDispatcher T P
    done_with k d request rest =
        (finish_request average (take_request d i (request ∷ rest)) i request (succeeds k) (now k)
          (elapsed k)).0

    taken_busy :
        (d : ManagedDispatcher T P) (request : TaskRequest P) (rest : List (TaskRequest P))
        → get_elem? d.workers i ≡ some idle
        → get_elem? (take_request d i (request ∷ rest)).workers i ≡ some (busy request)
    unfolding take_request
    taken_busy d request rest at = get_elem?-set_self d.workers i (busy request) idle at

    done_with-idle :
        (k : ℕ) (d : ManagedDispatcher T P) (request : TaskRequest P) (rest : List (TaskRequest P))
        → get_elem? d.workers i ≡ some idle
        → get_elem? (done_with k d request rest).workers i ≡ some idle
    unfolding done_with finish_request
    done_with-idle k d request rest at =
        get_elem?-set_self (take_request d i (request ∷ rest)).workers i idle (busy request)
          (taken_busy d request rest at)

    done_with-task_chan :
        (k : ℕ) (d : ManagedDispatcher T P) (request : TaskRequest P) (rest : List (TaskRequest P))
        → (done_with k d request rest).task_chan ≡ rest
    unfolding done_with finish_request take_request
    done_with-task_chan k d request rest = refl

    work-suc :
        (k : ℕ) (d : ManagedDispatcher T P) (request : TaskRequest P) (rest : List (TaskRequest P))
        → d.task_chan ≡ request ∷ rest
        → get_elem? d.workers i ≡ some idle
        → work (suc k) d ≡ (
          (work k (done_with k d request rest)).0,
          request ∷ (work k (done_with k d request rest)).1,
        )
    unfolding work done_with
    work-suc k d request rest e at =
        let taken = take_request d i (request ∷ rest) in
        let is_busy = taken_busy d request rest at in
        let takes_it : (worker_step average d i takes).0 ≡ taken =
          unfold worker_step move_worker in rw (at, worker_step) (rw e refl) in
        let ends_it : (worker_step average taken i (finishes (succeeds k) (now k) (elapsed k))).0
            ≡ done_with k d request rest =
          unfold worker_step move_worker done_with in rw (is_busy, worker_step) refl in
        rw (takes_it, ends_it, is_busy) refl

    work_lem :
        (queue : List (TaskRequest P)) (d : ManagedDispatcher T P)
        → d.task_chan ≡ queue
        → get_elem? d.workers i ≡ some idle
        → ((work (length queue) d).1 ≡ queue) × ((work (length queue) d).0.task_chan ≡ [])
    work_lem [] d e at = unfold work in (refl, e)
    work_lem (request ∷ rest) d e at =
        let k = length rest in
        let (log, empty) =
          work_lem rest (done_with k d request rest) (done_with-task_chan k d request rest)
            (done_with-idle k d request rest at) in
        rw (work-suc k d request rest e at) (ap (◌∷◌ request) log, empty)

    -- Where the pool runs with an idle worker, tasks that are registered and fit in the queue are all
    -- accepted; as many rounds of that worker as there are requests then empty the queue, and execute
    -- those that waited already and the new ones, each once and in the order of the calls, whether
    -- they succeed or fail.
    pub dispatch_multiple-work :
        (d : ManagedDispatcher T P) (ts : List (TaskDispatch P))
        → d.running ≡ true
        → AllRegistered d ts
        → length d.task_chan + length ts ≤ d.queue_size
        → get_elem? d.workers i ≡ some idle
        → let (d', errors) = dispatch_multiple d (alive ts) in
          let (last, log) = work (length d'.task_chan) d' in
          (errors ≡ []) × (last.task_chan ≡ []) × (log ≡ d.task_chan ++ map request_of ts)
    dispatch_multiple-work d ts on known room at =
        let (none_failed, accepts) = dispatch_multiple-Accepts ts d on known room in
        let d' = (dispatch_multiple d (alive ts)).0 in
        let (log, empty) = work_lem d'.task_chan d' refl (rw (accepts.same_workers) at) in
        (none_failed, empty, log ∙ accepts.queued)
