-- ===== src/Scheduler/Tests.antt =====
-- The theorems on the scheduler at concrete inputs, and runs of it.
use webmail_engine.Base.{◌+◌, ◌≤◌, ◌≡◌, refl, true, false, List, [], ◌∷◌, none, some, String, arith}
use webmail_engine.Base.Int.{pos, pos_part}
use webmail_engine.Base.Dict.{lookup}
use webmail_engine.Scheduler.Bucket.{TokenBucket}
use webmail_engine.Scheduler.Budget.{
  IsBucket, BucketCall, run_bucket, total_taken, total_given, run_bucket_budget,
}
use webmail_engine.Scheduler.Budget
use webmail_engine.Scheduler.Queue.{QueuedOperation, queue_of, len}
use webmail_engine.Scheduler.Order.{enqueue_all, dequeue_all, dequeue_all-enqueue_all}
use webmail_engine.Scheduler.Invariant.{IsPolicy, Inv, default_costs_fit}
use webmail_engine.Scheduler.History.{
  Call, initializes, consumes, refills, removes, checks, waits, run, run-new-Inv,
}
use webmail_engine.Scheduler.Consume.{Registered, consume_tokens_lem}
use webmail_engine.Scheduler.Worker.{attempting, attempts, accepted, results}
use webmail_engine.Scheduler.Refund.{worker_run, process_charges}
use webmail_engine.Scheduler.{
  FairUsePolicy, FairUseScheduler, returned, default_operation_costs, new_fair_use_scheduler,
  operation_cost, consume_tokens,
}

abbrev ten_a_minute : FairUsePolicy
ten_a_minute = record {
  enabled = true;
  token_bucket_size = pos 100;
  refill_rate = pos 10;
  operation_costs = default_operation_costs;
  priority_levels = [];
}

abbrev unlimited : FairUsePolicy
unlimited = record ten_a_minute { enabled = false }

abbrev some_tokens : TokenBucket
some_tokens = record {
  account_id = "ann";
  tokens = pos 7;
  max_tokens = pos 100;
  refill_rate = pos 10;
  last_refill = 0;
}

abbrev under : FairUsePolicy → FairUseScheduler
under p = record {
  buckets = ("ann", some_tokens) ∷ [];
  policies = ("ann", p) ∷ [];
  default_policy = ten_a_minute;
  queue = record { queues = []; max_queue = pos 2 };
  stats = record {
    total_operations = pos 0;
    queued_operations = pos 0;
    throttled_requests = pos 0;
  };
}

registered : (p : FairUsePolicy) → Registered (under p) "ann" some_tokens p
unfolding lookup
registered p = record { has_bucket = refl; has_policy = refl }

some_tokens-IsBucket : IsBucket some_tokens
some_tokens-IsBucket = record {
  not_negative = omega arith;
  not_over = omega arith;
  in_range = omega arith;
}

ten_a_minute-IsPolicy : IsPolicy ten_a_minute
ten_a_minute-IsPolicy = record { size_fits = omega arith; costs_fit = default_costs_fit }

abbrev a_search : String → QueuedOperation
a_search id = record {
  id = id;
  account_id = "ann";
  operation = "SEARCH";
  cost = pos 5;
  priority = pos 5;
  submitted = 0;
  result = none;
}

abbrev a_day : List Call
a_day =
    initializes "ann" (some ten_a_minute) 0
    ∷ consumes "ann" "SEARCH" 1
    ∷ refills "ann" 2
    ∷ checks "bob" "SEND" 3
    ∷ waits "ann" (pos 9) 4
    ∷ removes "ann"
    ∷ []

run-new-Inv_example : Inv (run new_fair_use_scheduler a_day)
run-new-Inv_example = run-new-Inv a_day (ten_a_minute-IsPolicy, (tt, (tt, (tt, (tt, (tt, tt))))))

abbrev two_searches : List BucketCall
two_searches = Budget.consumes (pos 5) ∷ Budget.ticks 1 ∷ Budget.consumes (pos 5) ∷ []

run_bucket_budget_example :
    (total_taken some_tokens two_searches + pos_part (run_bucket some_tokens two_searches).tokens
      ≤ 7 + total_given two_searches)
    × IsBucket (run_bucket some_tokens two_searches)
run_bucket_budget_example =
    run_bucket_budget two_searches some_tokens (omega arith) some_tokens-IsBucket

consume_tokens_lem_example :
    (consume_tokens (under ten_a_minute) "ann" "SEARCH" 9).1
    ≡ returned (record { success = true; cost = pos 5 })
unfolding operation_cost
consume_tokens_lem_example =
    (consume_tokens_lem (under ten_a_minute) "ann" "SEARCH" 9 some_tokens ten_a_minute
      (registered ten_a_minute) refl).0

process_charges_example :
    lookup "ann"
      (worker_run "ann"
        (under ten_a_minute, attempting (a_search "1"))
        (attempts 3 ∷ accepted ∷ results false ∷ [])).0.buckets
    ≡ some some_tokens
unfolding operation_cost lookup
process_charges_example =
    (process_charges (under ten_a_minute) "ann" (a_search "1") 3 false some_tokens ten_a_minute
      (registered ten_a_minute) refl some_tokens-IsBucket ten_a_minute-IsPolicy refl refl).1

dequeue_all-enqueue_all_example :
    dequeue_all 2
      (enqueue_all (under unlimited).queue "ann" (a_search "1" ∷ a_search "2" ∷ []))
      "ann"
    ≡ a_search "1" ∷ a_search "2" ∷ []
unfolding queue_of len lookup
dequeue_all-enqueue_all_example =
    dequeue_all-enqueue_all (under unlimited).queue "ann" (a_search "1" ∷ a_search "2" ∷ []) 2
      (omega arith) (omega arith)
