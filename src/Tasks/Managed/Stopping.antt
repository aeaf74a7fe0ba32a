-- ===== src/Tasks/Managed/Stopping.antt =====
-- internal/taskmaster/managed.go: what becomes of requests when the pool stops, and what synchronous
-- calls do to the statistics.
use webmail_engine.Base.{
  ℕ, zero, suc, ◌<◌, ◌≡◌, ◌≢◌, refl, ◌∙◌, sym, ap, subst, true, false, ◌||◌, List, [], ◌∷◌, ◌++◌,
  Option, none, some, length, get_elem?, Stands, Stands-set, Option-cases, inl, inr, if_split,
  if_true, if_false, if◌then◌else◌,
}
use webmail_engine.Base.Int.{ℤ}
use webmail_engine.Base.Dict.{has_key}
use webmail_engine.Tasks.{TaskFailure, returned, panicked, TaskDispatch, TaskRequest}
use webmail_engine.Tasks.Managed.{
  ManagedDispatcher, Worker, idle, busy, ended, begin_stop, send, dispatch,
}
use webmail_engine.Tasks.Managed.Workers.{
  Move, takes, finishes, leaves, place, take_request, finish_request, move_worker, worker_step,
}
use webmail_engine.Tasks.Managed.Order.{request_of, accepted, dispatch-accepted}

-- None of the moves is a worker that leaves because its context is done.
abbrev pub Patient : List (ℕ × Move) → Type 0
Patient [] = Unit {0}
Patient ((i, m) ∷ ms) = (m ≢ leaves true) × Patient ms

module _ {P : Type 0} where
  abbrev pub AllEnded : List (Worker P) → Type 0
  AllEnded [] = Unit {0}
  AllEnded (w ∷ ws) = (w ≡ ended) × AllEnded ws

  abbrev pub IsAlive : Worker P → Type 0
  IsAlive w = w ≢ ended

  AllEnded-get :
      (ws : List (Worker P)) (i : ℕ) (w : Worker P)
      → AllEnded ws
      → get_elem? ws i ≡ some w
      → w ≡ ended
  AllEnded-get [] i w h e = absurd (cc)
  AllEnded-get (v ∷ ws) zero w h e = (let same : v ≡ w = cc in sym same ∙ h.0)
  AllEnded-get (v ∷ ws) (suc i) w h e = AllEnded-get ws i w h.1 e

module _ {T P : Type 0} (average : ℤ → ℤ → ℤ) where
  -- Moves of workers, each with its place in the pool.
  unfoldable pub moves : ManagedDispatcher T P → List (ℕ × Move) → ManagedDispatcher T P
  moves d [] = d
  moves d ((i, m) ∷ ms) = moves (worker_step average d i m).0 ms

  take_request-lives :
      (d : ManagedDispatcher T P) (i j : ℕ) (rs : List (TaskRequest P)) (w : Worker P)
      → get_elem? d.workers j ≡ some w
      → Stands IsAlive d.workers i
      → Stands IsAlive (take_request d j rs).workers i
  unfolding take_request
  take_request-lives d i j [] w there alive = alive
  take_request-lives d i j (r ∷ rs) w there alive =
      Stands-set IsAlive d.workers i j w (busy r) there (λ h e. absurd (cc)) alive

  worker_step-ended :
      (d : ManagedDispatcher T P) (i : ℕ) (m : Move)
      → AllEnded d.workers
      → (worker_step average d i m).0 ≡ d
  unfolding worker_step move_worker
  worker_step-ended d i m h = elim (Option-cases (get_elem? d.workers i)) [
    | inl missing ↦ rw (missing, worker_step) refl
    | inr (w, at) ↦ rw (at, worker_step) (rw (AllEnded-get d.workers i w h at) refl)
  ]

  moves-ended :
      (ms : List (ℕ × Move)) (d : ManagedDispatcher T P) → AllEnded d.workers → moves d ms ≡ d
  unfolding moves
  moves-ended [] d h = refl
  moves-ended ((i, m) ∷ ms) d h = rw (worker_step-ended d i m h) (moves-ended ms d h)

  begin_stop-closes :
      (d : ManagedDispatcher T P)
      → d.running ≡ true
      → d.stop_closed ≡ false
      → begin_stop d ≡ (record d { stop_closed = true }, returned none)
  unfolding begin_stop
  begin_stop-closes d on open' =
      let stops =
        if d.stop_closed then (d, panicked) else (record d { stop_closed = true }, returned none) in
      if_true d.running stops (d, returned none) on
      ∙ if_false d.stop_closed (d, panicked) (record d { stop_closed = true }, returned none) open'

  -- What a move of a worker leaves as it is.
  record Same (d e : ManagedDispatcher T P) : Type 0 where
    running : e.running ≡ d.running
    tasks : e.tasks ≡ d.tasks
    queue_size : e.queue_size ≡ d.queue_size
    stop_closed : e.stop_closed ≡ d.stop_closed

  same : (d : ManagedDispatcher T P) → Same d d
  same d = record { running = refl; tasks = refl; queue_size = refl; stop_closed = refl }

  take_request-Same :
      (d : ManagedDispatcher T P) (i : ℕ) (rs : List (TaskRequest P)) → Same d (take_request d i rs)
  unfolding take_request
  take_request-Same d i [] = same d
  take_request-Same d i (r ∷ rs) = record {
    running = refl;
    tasks = refl;
    queue_size = refl;
    stop_closed = refl;
  }

  move_worker-Same :
      (d : ManagedDispatcher T P) (i : ℕ) (w : Worker P) (m : Move)
      → Same d (move_worker average d i w m).0
  unfolding move_worker finish_request
  move_worker-Same d i idle takes = take_request-Same d i d.task_chan
  move_worker-Same d i idle (finishes success now elapsed) = same d
  move_worker-Same d i idle (leaves ctx_done) =
      if_split (Same d) (d.stop_closed || ctx_done)
        (λ _. record { running = refl; tasks = refl; queue_size = refl; stop_closed = refl })
        (λ _. same d)
  move_worker-Same d i (busy request) (finishes success now elapsed) = record {
    running = refl;
    tasks = refl;
    queue_size = refl;
    stop_closed = refl;
  }
  move_worker-Same d i (busy request) takes = same d
  move_worker-Same d i (busy request) (leaves ctx_done) = same d
  move_worker-Same d i ended m = same d

  worker_step-Same :
      (d : ManagedDispatcher T P) (i : ℕ) (m : Move) → Same d (worker_step average d i m).0
  unfolding worker_step
  worker_step-Same d i m = elim (Option-cases (get_elem? d.workers i)) [
    | inl missing ↦ rw (missing, worker_step) (same d)
    | inr (w, at) ↦ rw (at, worker_step) (move_worker-Same d i w m)
  ]

  moves-Same : (ms : List (ℕ × Move)) (d : ManagedDispatcher T P) → Same d (moves d ms)
  unfolding moves
  moves-Same [] d = same d
  moves-Same ((i, m) ∷ ms) d =
      let here = worker_step-Same d i m in
      let later = moves-Same ms (worker_step average d i m).0 in
      record {
        running = later.running ∙ here.running;
        tasks = later.tasks ∙ here.tasks;
        queue_size = later.queue_size ∙ here.queue_size;
        stop_closed = later.stop_closed ∙ here.stop_closed;
      }

  -- Without `Stop`, a worker that sees no done context does not end.
  move_worker-lives :
      (d : ManagedDispatcher T P) (i j : ℕ) (w : Worker P) (m : Move)
      → d.stop_closed ≡ false
      → m ≢ leaves true
      → get_elem? d.workers j ≡ some w
      → Stands IsAlive d.workers i
      → Stands IsAlive (move_worker average d j w m).0.workers i
  unfolding move_worker finish_request
  move_worker-lives d i j idle takes open' patient there alive =
      take_request-lives d i j d.task_chan idle there alive
  move_worker-lives d i j idle (finishes success now elapsed) open' patient there alive = alive
  move_worker-lives d i j idle (leaves true) open' patient there alive = absurd (patient refl)
  move_worker-lives d i j idle (leaves false) open' patient there alive =
      let stays : d.stop_closed || false ≡ false = rw open' refl in
      subst (λ (x : ManagedDispatcher T P). Stands IsAlive x.workers i)
        (sym (if_false (d.stop_closed || false) (place d j ended) d stays)) alive
  move_worker-lives d i j (busy request) (finishes success now elapsed) open' patient there alive =
      Stands-set IsAlive d.workers i j (busy request) idle there (λ h e. absurd (cc)) alive
  move_worker-lives d i j (busy request) takes open' patient there alive = alive
  move_worker-lives d i j (busy request) (leaves ctx_done) open' patient there alive = alive
  move_worker-lives d i j ended m open' patient there alive = alive

  worker_step-lives :
      (d : ManagedDispatcher T P) (i j : ℕ) (m : Move)
      → d.stop_closed ≡ false
      → m ≢ leaves true
      → Stands IsAlive d.workers i
      → Stands IsAlive (worker_step average d j m).0.workers i
  unfolding worker_step
  worker_step-lives d i j m open' patient alive = elim (Option-cases (get_elem? d.workers j)) [
    | inl missing ↦ rw (missing, worker_step) alive
    | inr (w, there) ↦
        rw (there, worker_step) (move_worker-lives d i j w m open' patient there alive)
  ]

  moves-lives :
      (ms : List (ℕ × Move)) (d : ManagedDispatcher T P) (i : ℕ)
      → d.stop_closed ≡ false
      → Patient ms
      → Stands IsAlive d.workers i
      → Stands IsAlive (moves d ms).workers i
  unfolding moves
  moves-lives [] d i open' patient alive = alive
  moves-lives ((j, m) ∷ ms) d i open' patient alive =
      moves-lives ms (worker_step average d j m).0 i ((worker_step-Same d j m).stop_closed ∙ open')
        patient.1 (worker_step-lives d i j m open' patient.0 alive)

  -- A running pool with a worker that has not ended, and moves of which none is a worker that leaves
  -- because its context is done. Without `Stop` the worker does not end by these moves. Where they end all
  -- workers after `Stop` has closed its channel, and until the wait of `Stop` is over, `Dispatch` still
  -- accepts a registered task if the queue has room, and no later move executes it, or what was in the
  -- queue: the channel stays as it is.
  pub begin_stop-loses :
      (d : ManagedDispatcher T P) (t : TaskDispatch P) (i : ℕ) (before after : List (ℕ × Move))
      → d.running ≡ true
      → d.stop_closed ≡ false
      → has_key t.task_id d.tasks ≡ true
      → Stands IsAlive d.workers i
      → Patient before
      → AllEnded (moves (begin_stop d).0 before).workers
      → length (moves (begin_stop d).0 before).task_chan < d.queue_size
      → let stopped = moves (begin_stop d).0 before in
        let (d', error) = dispatch stopped t false true in
        Stands IsAlive (moves d before).workers i
        × (error ≡ none)
        × ((moves d' after).task_chan ≡ stopped.task_chan ++ request_of t ∷ [])
  unfolding accepted send
  begin_stop-loses d t i before after on open' known alive patient all room =
      let closed = record d { stop_closed = true } in
      let starts : (begin_stop d).0 ≡ closed = ap (λ x. x.0) (begin_stop-closes d on open') in
      let stopped = moves (begin_stop d).0 before in
      let kept =
        subst (λ (e : ManagedDispatcher T P). Same e stopped) starts
          (moves-Same before (begin_stop d).0) in
      let known' : has_key t.task_id stopped.tasks ≡ true =
        subst (λ tasks. has_key t.task_id tasks ≡ true) (sym kept.tasks) known in
      let room' : length stopped.task_chan < stopped.queue_size =
        subst (λ (n : ℕ). length stopped.task_chan < n) (sym kept.queue_size) room in
      let sent = dispatch-accepted stopped t (kept.running ∙ on) known' room' in
      (
        moves-lives before d i open' patient alive,
        ap (λ x. x.1) sent,
        ap (λ (x : ManagedDispatcher T P × Option TaskFailure). (moves x.0 after).task_chan) sent
            ∙ ap (λ (e : ManagedDispatcher T P). e.task_chan)
                (moves-ended after (accepted stopped t) all),
      )
