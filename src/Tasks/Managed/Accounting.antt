-- ===== src/Tasks/Managed/Accounting.antt =====
-- internal/taskmaster/managed.go: each call and each move keeps the statistics in balance.
use webmail_engine.Base.{
  ℕ, suc, ◌+◌, ◌≤◌, ◌<◌, ◌≡◌, refl, ◌∙◌, ap, subst, Bool, not, ◌&&◌, ◌||◌, List, [], ◌∷◌, ◌++◌,
  some, arith, length, length-append, get_elem?, set, Option-cases, inl, inr, if_split,
}
use webmail_engine.Base.Int.{ℤ, pos, two_63, sub64, add64_pos, sub64_pos}
use webmail_engine.Base.Dict.{has_key}
use webmail_engine.Tasks.{TaskDispatch, TaskRequest}
use webmail_engine.Tasks.Stats.{count_received, count_failed, count_queued}
use webmail_engine.Tasks.Managed.{ManagedDispatcher, Worker, idle, busy, ended, has_room, send}
use webmail_engine.Tasks.Managed.Workers.{
  Move, takes, finishes, leaves, take_request, succeeds, finish_request, move_worker, worker_step,
  place,
}
use webmail_engine.Tasks.Managed.Dispatching.{
  Call, selects, counts_queued, counts_failed, gave_up, over, begin_dispatch, continue_dispatch,
}
use webmail_engine.Tasks.Managed.Counters.{
  sent-Counted, count_busy, count_busy-set, Counted, count_received-Counted, count_queued-Counted,
  count_failed-Counted, update_stats-Counted, later-Counted, same-Counted,
}

-- The statistics are in balance: `uncounted` calls have sent and not yet counted it, `unsent` were counted
-- as received and have neither sent nor been counted as failed.
pub record Inv {T P : Type 0} (n uncounted unsent : ℕ) (d : ManagedDispatcher T P) : Type 0 where
  pub counted : Counted d.stats n (length d.task_chan + count_busy d.workers) uncounted unsent
  pub executing : d.in_flight ≡ pos (count_busy d.workers)
  pub bounded : length d.task_chan ≤ d.queue_size

-- The calls that have sent a request and not counted it, and those that have not sent.
abbrev pub uncounted_of : {P : Type 0} → Call P → ℕ
uncounted_of counts_queued = 1
uncounted_of _ = 0

abbrev pub unsent_of : {P : Type 0} → Call P → ℕ
unsent_of (selects request) = 1
unsent_of counts_failed = 1
unsent_of gave_up = 1
unsent_of _ = 0

module _ {T P : Type 0} where
  pub later-Inv : (n u x : ℕ) (d : ManagedDispatcher T P) → Inv n u x d → Inv (suc n) u x d
  later-Inv n u x d h = record {
    counted = later-Counted d.stats n (length d.task_chan + count_busy d.workers) u x h.counted;
    executing = h.executing;
    bounded = h.bounded;
  }

  pub same-Inv :
      (n u u' x x' : ℕ) (d : ManagedDispatcher T P) → u ≡ u' → x ≡ x' → Inv n u x d → Inv n u' x' d
  same-Inv n u u' x x' d e f h =
      subst (λ (v : ℕ). Inv n v x' d) e (subst (λ (y : ℕ). Inv n u y d) f h)

  pub begin_dispatch-Inv :
      (n u x : ℕ) (d : ManagedDispatcher T P) (t : TaskDispatch P)
      → suc n < two_63
      → Inv n u x d
      → Inv
          (suc n)
          (u + uncounted_of (begin_dispatch d t).1)
          (x + unsent_of (begin_dispatch d t).1)
          (begin_dispatch d t).0
  unfolding begin_dispatch
  begin_dispatch-Inv n u x d t small h =
      let P' = λ (r : ManagedDispatcher T P × Call P).
        Inv (suc n) (u + uncounted_of r.1) (x + unsent_of r.1) r.0 in
      let zero_more = λ (m : ℕ). (let e : m ≡ m + 0 = omega arith in e) in
      let unchanged =
        same-Inv (suc n) u (u + 0) x (x + 0) d (zero_more u) (zero_more x) (later-Inv n u x d h) in
      if_split P' (not d.running) (λ _. unchanged)
        (λ _.
          if_split P' (not (has_key t.task_id d.tasks)) (λ _. unchanged)
            (λ _.
              same-Inv (suc n) u (u + 0) (suc x) (x + 1)
                (record d { stats = count_received d.stats }) (zero_more u) (omega arith)
                (record {
                  counted =
                      count_received-Counted d.stats n (length d.task_chan + count_busy d.workers) u
                        x small h.counted;
                  executing = h.executing;
                  bounded = h.bounded;
                })))

  selects-Inv :
      (n u x : ℕ) (d : ManagedDispatcher T P) (request : TaskRequest P)
      (ctx_done prefers_send : Bool)
      → Inv n u (x + 1) d
      → Inv n
          (u + uncounted_of (continue_dispatch d (selects request) ctx_done prefers_send).1)
          (x + unsent_of (continue_dispatch d (selects request) ctx_done prefers_send).1)
          (continue_dispatch d (selects request) ctx_done prefers_send).0
  unfolding continue_dispatch send
  selects-Inv n u x d request ctx_done prefers_send h =
      let P' = λ (r : ManagedDispatcher T P × Call P).
        Inv n (u + uncounted_of r.1) (x + unsent_of r.1) r.0 in
      let still = same-Inv n u (u + 0) (x + 1) (x + 1) d (omega arith) refl h in
      let k = length d.task_chan + count_busy d.workers in
      if_split P' (has_room d && (not ctx_done || prefers_send))
        (λ room.
          same-Inv n (suc u) (u + 1) x (x + 0) (send d request) (omega arith) (omega arith)
            (record {
              counted =
                  (let moved : k + 1 ≡ length (d.task_chan ++ request ∷ []) + count_busy d.workers =
                      omega (arith, length-append d.task_chan (request ∷ [])) in
                    let one : x + 1 ≡ suc x = omega arith in
                    same-Counted d.stats n (k + 1)
                      (length (d.task_chan ++ request ∷ []) + count_busy d.workers) (suc u) x moved
                      (sent-Counted d.stats n k u x
                        (subst (λ (y : ℕ). Counted d.stats n k u y) one h.counted)));
              executing = h.executing;
              bounded = ground (arith, h.bounded, length-append d.task_chan (request ∷ []));
            }))
        (λ _. if_split P' ctx_done (λ _. still) (λ _. still))

  pub continue_dispatch-Inv :
      (n u x : ℕ) (d : ManagedDispatcher T P) (c : Call P) (ctx_done prefers_send : Bool)
      → n < two_63
      → Inv n (u + uncounted_of c) (x + unsent_of c) d
      → Inv n
          (u + uncounted_of (continue_dispatch d c ctx_done prefers_send).1)
          (x + unsent_of (continue_dispatch d c ctx_done prefers_send).1)
          (continue_dispatch d c ctx_done prefers_send).0
  unfolding continue_dispatch
  continue_dispatch-Inv n u x d (selects request) ctx_done prefers_send small h =
      selects-Inv n u x d request ctx_done prefers_send
        (same-Inv n (u + 0) u (x + 1) (x + 1) d (omega arith) refl h)
  continue_dispatch-Inv n u x d counts_queued ctx_done prefers_send small h =
      let k = length d.task_chan + count_busy d.workers in
      let h' = same-Inv n (u + 1) (suc u) (x + 0) x d (omega arith) (omega arith) h in
      same-Inv n u (u + 0) x (x + 0)
        (record d { stats = count_queued d.stats (length d.task_chan) }) (omega arith) (omega arith)
        (record {
          counted = count_queued-Counted d.stats n k u x (length d.task_chan) small h'.counted;
          executing = h'.executing;
          bounded = h'.bounded;
        })
  continue_dispatch-Inv n u x d counts_failed ctx_done prefers_send small h =
      let k = length d.task_chan + count_busy d.workers in
      let h' = same-Inv n (u + 0) u (x + 1) (suc x) d (omega arith) (omega arith) h in
      same-Inv n u (u + 0) x (x + 0) (record d { stats = count_failed d.stats }) (omega arith)
        (omega arith)
        (record {
          counted = count_failed-Counted d.stats n k u x small h'.counted;
          executing = h'.executing;
          bounded = h'.bounded;
        })
  continue_dispatch-Inv n u x d gave_up ctx_done prefers_send small h = h
  continue_dispatch-Inv n u x d over ctx_done prefers_send small h = h

  take_request-Inv :
      (n u x : ℕ) (d : ManagedDispatcher T P) (i : ℕ) (queue : List (TaskRequest P))
      → n < two_63
      → d.task_chan ≡ queue
      → get_elem? d.workers i ≡ some idle
      → Inv n u x d
      → Inv n u x (take_request d i queue)
  unfolding take_request
  take_request-Inv n u x d i [] small e at h = h
  take_request-Inv n u x d i (request ∷ rest) small e at h =
      let one_more = count_busy-set d.workers i idle (busy request) at in
      let was : length d.task_chan ≡ suc (length rest) = ap length e in
      let k = length d.task_chan + count_busy d.workers in
      let k' = length rest + count_busy (set d.workers i (busy request)) in
      let moved : k ≡ k' = omega (arith, one_more, was) in
      record {
        counted = same-Counted d.stats n k k' u x moved h.counted;
        executing = rw (h.executing) (
            add64_pos (count_busy d.workers) (omega (arith, h.counted.balance, h.counted.few, was))
            ∙ ap pos (omega (arith, one_more)));
        bounded = omega (arith, h.bounded, was);
      }

  finish_request-Inv :
      (average : ℤ → ℤ → ℤ) (n u x : ℕ) (d : ManagedDispatcher T P) (i : ℕ)
      (request : TaskRequest P) (success : Bool) (now elapsed : ℤ)
      → n < two_63
      → get_elem? d.workers i ≡ some (busy request)
      → Inv n u x d
      → Inv n u x (finish_request average d i request success now elapsed).0
  unfolding finish_request
  finish_request-Inv average n u x d i request success now elapsed small at h =
      let one_less = count_busy-set d.workers i (busy request) idle at in
      let left = count_busy (set d.workers i idle) in
      let k = length d.task_chan + count_busy d.workers in
      let moved : k ≡ length d.task_chan + left + 1 = omega (arith, one_less) in
      let was : count_busy d.workers ≡ left + 1 = omega (arith, one_less) in
      record {
        counted =
            update_stats-Counted average d.stats (succeeds d request success) (length d.task_chan)
              now elapsed n (length d.task_chan + left) u x small
              (same-Counted d.stats n k (length d.task_chan + left + 1) u x moved h.counted);
        executing = rw (h.executing) (
            ap (λ (m : ℕ). sub64 (pos m) (pos 1)) was
            ∙ sub64_pos left (omega (arith, h.counted.balance, h.counted.few, moved)));
        bounded = h.bounded;
      }

  place-Inv :
      (n u x : ℕ) (d : ManagedDispatcher T P) (i : ℕ)
      → get_elem? d.workers i ≡ some idle
      → Inv n u x d
      → Inv n u x (place d i ended)
  place-Inv n u x d i at h =
      let same : count_busy d.workers ≡ count_busy (set d.workers i ended) =
        omega (arith, count_busy-set d.workers i idle ended at) in
      let k = length d.task_chan in
      record {
        counted =
            same-Counted d.stats n (k + count_busy d.workers)
              (k + count_busy (set d.workers i ended)) u x (ap (λ (m : ℕ). k + m) same) h.counted;
        executing = h.executing ∙ ap pos same;
        bounded = h.bounded;
      }

  move_worker-Inv :
      (average : ℤ → ℤ → ℤ) (n u x : ℕ) (d : ManagedDispatcher T P) (i : ℕ) (w : Worker P)
      (m : Move)
      → n < two_63
      → get_elem? d.workers i ≡ some w
      → Inv n u x d
      → Inv n u x (move_worker average d i w m).0
  unfolding move_worker
  move_worker-Inv average n u x d i idle takes small at h =
      take_request-Inv n u x d i d.task_chan small refl at h
  move_worker-Inv average n u x d i idle (leaves ctx_done) small at h =
      if_split (Inv n u x) (d.stop_closed || ctx_done) (λ _. place-Inv n u x d i at h) (λ _. h)
  move_worker-Inv average n u x d i idle (finishes success now elapsed) small at h = h
  move_worker-Inv average n u x d i (busy request) (finishes success now elapsed) small at h =
      finish_request-Inv average n u x d i request success now elapsed small at h
  move_worker-Inv average n u x d i (busy request) takes small at h = h
  move_worker-Inv average n u x d i (busy request) (leaves ctx_done) small at h = h
  move_worker-Inv average n u x d i ended m small at h = h

  pub worker_step-Inv :
      (average : ℤ → ℤ → ℤ) (n u x : ℕ) (d : ManagedDispatcher T P) (i : ℕ) (m : Move)
      → n < two_63
      → Inv n u x d
      → Inv n u x (worker_step average d i m).0
  unfolding worker_step
  worker_step-Inv average n u x d i m small h = elim (Option-cases (get_elem? d.workers i)) [
    | inl none_there ↦ rw (none_there, worker_step) h
    | inr (w, at) ↦ rw (at, worker_step) (move_worker-Inv average n u x d i w m small at h)
  ]
