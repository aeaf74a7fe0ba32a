-- ===== src/Tasks/Managed/Counters.antt =====
-- internal/taskmaster/managed.go: the counters of the statistics as numbers.
use webmail_engine.Base.{
  ℕ, zero, suc, ◌+◌, ◌≤◌, ◌<◌, ◌≡◌, refl, ◌∙◌, subst, Bool, true, false, List, [], ◌∷◌, ◌++◌, some,
  arith, get_elem?, set,
}
use webmail_engine.Base.Int.{ℤ, pos, sub_ℕ, add64, sub64, two_63, add64_pos}
use webmail_engine.Tasks.Stats.{
  ManagedStats, count_received, count_failed, count_queued, update_stats,
}
use webmail_engine.Tasks.Managed.{Worker, idle, busy, ended, idle_workers}

abbrev pub load : {P : Type 0} → Worker P → ℕ
load idle = 0
load (busy request) = 1
load ended = 0

abbrev pub count_busy : {P : Type 0} → List (Worker P) → ℕ
count_busy [] = 0
count_busy (w ∷ ws) = load w + count_busy ws

module _ {P : Type 0} where
  pub count_busy-set :
      (ws : List (Worker P)) (i : ℕ) (old new : Worker P)
      → get_elem? ws i ≡ some old
      → count_busy (set ws i new) + load old ≡ count_busy ws + load new
  count_busy-set [] i old new e = absurd (cc)
  count_busy-set (w ∷ ws) zero old new e = (let same : w ≡ old = cc in rw same (omega arith))
  count_busy-set (w ∷ ws) (suc i) old new e = omega (arith, count_busy-set ws i old new e)

  pub count_busy-append :
      (ws vs : List (Worker P)) → count_busy (ws ++ vs) ≡ count_busy ws + count_busy vs
  count_busy-append [] vs = omega arith
  count_busy-append (w ∷ ws) vs = omega (arith, count_busy-append ws vs)

pub count_busy-idle_workers : (P : Type 0) (n : ℕ) → count_busy (idle_workers {P = P} n) ≡ 0
unfolding idle_workers
count_busy-idle_workers P zero = refl
count_busy-idle_workers P (suc n) = omega (arith, count_busy-idle_workers P n)

-- The counters are these numbers, with no wrap-around. `uncounted` counts the calls that have sent a
-- request and not yet added it to `TasksInFlight`, `unsent` those that were counted as received and have
-- neither sent nor been counted as failed: they go on, or have given up.
pub record Counted (s : ManagedStats) (n in_flight uncounted unsent : ℕ) : Type 0 where
  pub received : ℕ
  pub completed : ℕ
  pub failed : ℕ
  pub is_received : s.tasks_received ≡ pos received
  pub is_completed : s.tasks_completed ≡ pos completed
  pub is_failed : s.tasks_failed ≡ pos failed
  pub is_in_flight : s.tasks_in_flight ≡ sub_ℕ in_flight uncounted
  pub balance : received ≡ completed + failed + in_flight + unsent
  pub few : received ≤ n
  pub few_calls : uncounted + unsent ≤ n

one_up : (k u : ℕ) → k < two_63 → u < two_63 → add64 (sub_ℕ k (suc u)) (pos 1) ≡ sub_ℕ k u
unfolding add64
one_up k u small small' = ground arith

one_down : (k u : ℕ) → k < two_63 → u < two_63 → sub64 (sub_ℕ (k + 1) u) (pos 1) ≡ sub_ℕ k u
unfolding sub64
one_down k u small small' = ground arith

both_up : (k u : ℕ) → sub_ℕ k u ≡ sub_ℕ (k + 1) (suc u)
both_up k u = ground arith

pub count_received-Counted :
    (s : ManagedStats) (n k u x : ℕ)
    → suc n < two_63
    → Counted s n k u x
    → Counted (count_received s) (suc n) k u (suc x)
unfolding count_received
count_received-Counted s n k u x small h = record {
  received = h.received + 1;
  completed = h.completed;
  failed = h.failed;
  is_received = rw (h.is_received) (add64_pos h.received (omega (arith, h.few)));
  is_completed = h.is_completed;
  is_failed = h.is_failed;
  is_in_flight = h.is_in_flight;
  balance = omega (arith, h.balance);
  few = omega (arith, h.few);
  few_calls = omega (arith, h.few_calls);
}

-- The request is in the queue, and the statistics are as they were.
pub sent-Counted :
    (s : ManagedStats) (n k u x : ℕ) → Counted s n k u (suc x) → Counted s n (k + 1) (suc u) x
sent-Counted s n k u x h = record {
  received = h.received;
  completed = h.completed;
  failed = h.failed;
  is_received = h.is_received;
  is_completed = h.is_completed;
  is_failed = h.is_failed;
  is_in_flight = h.is_in_flight ∙ both_up k u;
  balance = omega (arith, h.balance);
  few = h.few;
  few_calls = omega (arith, h.few_calls);
}

pub count_queued-Counted :
    (s : ManagedStats) (n k u x depth : ℕ)
    → n < two_63
    → Counted s n k (suc u) x
    → Counted (count_queued s depth) n k u x
unfolding count_queued
count_queued-Counted s n k u x depth small h = record {
  received = h.received;
  completed = h.completed;
  failed = h.failed;
  is_received = h.is_received;
  is_completed = h.is_completed;
  is_failed = h.is_failed;
  is_in_flight =
      rw (h.is_in_flight)
        (one_up k u (omega (arith, h.few, h.balance)) (omega (arith, h.few_calls)));
  balance = h.balance;
  few = h.few;
  few_calls = omega (arith, h.few_calls);
}

pub count_failed-Counted :
    (s : ManagedStats) (n k u x : ℕ)
    → n < two_63
    → Counted s n k u (suc x)
    → Counted (count_failed s) n k u x
unfolding count_failed
count_failed-Counted s n k u x small h = record {
  received = h.received;
  completed = h.completed;
  failed = h.failed + 1;
  is_received = h.is_received;
  is_completed = h.is_completed;
  is_failed = rw (h.is_failed) (add64_pos h.failed (omega (arith, h.few, h.balance)));
  is_in_flight = h.is_in_flight;
  balance = omega (arith, h.balance);
  few = h.few;
  few_calls = omega (arith, h.few_calls);
}

pub update_stats-Counted :
    (average : ℤ → ℤ → ℤ) (s : ManagedStats) (success : Bool) (depth : ℕ) (now elapsed : ℤ)
    (n k u x : ℕ)
    → n < two_63
    → Counted s n (k + 1) u x
    → Counted (update_stats average s success depth now elapsed) n k u x
unfolding update_stats
update_stats-Counted average s true depth now elapsed n k u x small h = record {
  received = h.received;
  completed = h.completed + 1;
  failed = h.failed;
  is_received = h.is_received;
  is_completed = rw (h.is_completed) (add64_pos h.completed (omega (arith, h.few, h.balance)));
  is_failed = h.is_failed;
  is_in_flight =
      rw (h.is_in_flight)
        (one_down k u (omega (arith, h.few, h.balance)) (omega (arith, h.few_calls)));
  balance = omega (arith, h.balance);
  few = h.few;
  few_calls = h.few_calls;
}
update_stats-Counted average s false depth now elapsed n k u x small h = record {
  received = h.received;
  completed = h.completed;
  failed = h.failed + 1;
  is_received = h.is_received;
  is_completed = h.is_completed;
  is_failed = rw (h.is_failed) (add64_pos h.failed (omega (arith, h.few, h.balance)));
  is_in_flight =
      rw (h.is_in_flight)
        (one_down k u (omega (arith, h.few, h.balance)) (omega (arith, h.few_calls)));
  balance = omega (arith, h.balance);
  few = h.few;
  few_calls = h.few_calls;
}

pub later-Counted : (s : ManagedStats) (n k u x : ℕ) → Counted s n k u x → Counted s (suc n) k u x
later-Counted s n k u x h = record {
  received = h.received;
  completed = h.completed;
  failed = h.failed;
  is_received = h.is_received;
  is_completed = h.is_completed;
  is_failed = h.is_failed;
  is_in_flight = h.is_in_flight;
  balance = h.balance;
  few = omega (arith, h.few);
  few_calls = omega (arith, h.few_calls);
}

pub same-Counted :
    (s : ManagedStats) (n k k' u x : ℕ) → k ≡ k' → Counted s n k u x → Counted s n k' u x
same-Counted s n k k' u x e = subst (λ (j : ℕ). Counted s n j u x) e
