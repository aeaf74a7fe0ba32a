-- ===== src/Scheduler/History.antt =====
-- Every history of calls of the scheduler.
use webmail_engine.Base.{ℕ, List, [], ◌∷◌, Option, none, some, String, arith}
use webmail_engine.Base.Int.{ℤ}
use webmail_engine.Base.Dict.{Each-nil}
use webmail_engine.Scheduler.Budget.{IsBucket, IsAmount}
use webmail_engine.Scheduler.Invariant.{
  IsPolicy, Inv, register-Inv, consume_tokens-Inv, release_tokens-Inv, refill_tick-Inv,
  update_policy-Inv, remove_account-Inv, check_after-Inv, wait_probe-Inv, default_costs_fit,
}
use webmail_engine.Scheduler.{
  FairUsePolicy, FairUseScheduler, new_fair_use_scheduler, initialize_account, consume_tokens,
  release_tokens, refill_tick, update_policy, remove_account, shutdown, queue_operation,
}
use webmail_engine.Scheduler.Probe.{can_execute, wait_round}

pub data Call : Type 0 where
  initializes : String → Option FairUsePolicy → ℕ → Call
  consumes : String → String → ℕ → Call
  queues : String → String → String → String → ℕ → Call
  releases : String → ℤ → Call
  refills : String → ℕ → Call
  updates : String → FairUsePolicy → Call
  removes : String → Call
  checks : String → String → ℕ → Call
  waits : String → ℤ → ℕ → Call
  shuts_down : Call

pub step : FairUseScheduler → Call → FairUseScheduler
step s (initializes a p now) = (initialize_account s a p now).0
step s (consumes a operation now) = (consume_tokens s a operation now).0
step s (queues a operation priority op_id now) =
    (queue_operation s a operation priority op_id now).0
step s (releases a n) = release_tokens s a n
step s (refills a now) = refill_tick s a now
step s (updates a p) = update_policy s a p
step s (removes a) = remove_account s a
step s (checks a operation now) = (can_execute s a operation now).0
step s (waits a cost now) = (wait_round s a cost now).0
step s shuts_down = shutdown s

pub run : FairUseScheduler → List Call → FairUseScheduler
run s [] = s
run s (c ∷ cs) = run (step s c) cs

-- Policies and amounts that the caller hands over are sensible.
abbrev pub IsCall : Call → Type 0
IsCall (initializes a none now) = Unit {0}
IsCall (initializes a (some p) now) = IsPolicy p
IsCall (releases a n) = IsAmount n
IsCall (updates a p) = IsPolicy p
IsCall _ = Unit {0}

abbrev pub AllCalls : List Call → Type 0
AllCalls [] = Unit {0}
AllCalls (c ∷ cs) = IsCall c × AllCalls cs

pub new-Inv : Inv new_fair_use_scheduler
unfolding new_fair_use_scheduler
new-Inv = record {
  buckets_fit = Each-nil IsBucket;
  policies_fit = Each-nil IsPolicy;
  default_fits = record { size_fits = omega arith; costs_fit = default_costs_fit };
}

step-Inv : (s : FairUseScheduler) (c : Call) → IsCall c → Inv s → Inv (step s c)
unfolding step initialize_account queue_operation can_execute wait_round shutdown
step-Inv s (initializes a none now) i h = register-Inv s a s.default_policy now h.default_fits h
step-Inv s (initializes a (some p) now) i h = register-Inv s a p now i h
step-Inv s (consumes a operation now) i h = consume_tokens-Inv s a operation now h
step-Inv s (queues a operation priority op_id now) i h = record {
  buckets_fit = h.buckets_fit;
  policies_fit = h.policies_fit;
  default_fits = h.default_fits;
}
step-Inv s (releases a n) i h = release_tokens-Inv s a n i h
step-Inv s (refills a now) i h = refill_tick-Inv s a now h
step-Inv s (updates a p) i h = update_policy-Inv s a p i h
step-Inv s (removes a) i h = remove_account-Inv s a h
step-Inv s (checks a operation now) i h =
    check_after-Inv (consume_tokens s a operation now) a (consume_tokens-Inv s a operation now h)
step-Inv s (waits a cost now) i h =
    wait_probe-Inv (consume_tokens s a "WAIT" now) a now (consume_tokens-Inv s a "WAIT" now h)
step-Inv s shuts_down i h = record {
  buckets_fit = Each-nil IsBucket;
  policies_fit = h.policies_fit;
  default_fits = h.default_fits;
}

run-Inv : (s : FairUseScheduler) (cs : List Call) → AllCalls cs → Inv s → Inv (run s cs)
unfolding run
run-Inv s [] i h = h
run-Inv s (c ∷ cs) i h = run-Inv (step s c) cs i.1 (step-Inv s c i.0 h)

-- After any history of calls from a new scheduler whose policies and amounts are sensible, the
-- bucket of every account is between empty and full and every stored policy is sensible.
pub run-new-Inv : (cs : List Call) → AllCalls cs → Inv (run new_fair_use_scheduler cs)
run-new-Inv cs i = run-Inv new_fair_use_scheduler cs i new-Inv
