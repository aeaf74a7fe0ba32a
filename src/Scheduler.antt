-- ===== src/Scheduler.antt =====
-- internal/scheduler/fairuse_scheduler.go: `FairUseScheduler` over its buckets (Scheduler/Bucket)
-- and its queue (Scheduler/Queue). A method takes the state and returns the new one; the mutexes
-- make each method one step. `Outcome` tells a return from a panic, whose changes stay.
pub mod Bucket
pub mod Queue
pub mod Budget
pub mod Order
pub mod Invariant
pub mod Probe
pub mod Consume
pub mod History
pub mod Worker
pub mod Refund
pub mod Probing
mod Tests
use webmail_engine.Base.{
  ℕ, suc, ◌-◌, ◌/◌, Bool, true, false, List, [], ◌∷◌, Option, none, some, String, ◌==◌, not,
  if◌then◌else◌,
}
use webmail_engine.Base.Int.{ℤ, pos, negsuc, add64, eqb_ℤ}
use webmail_engine.Base.Dict.{Dict, lookup, insert, remove}
use Bucket.{TokenBucket, try_consume, refill, release, resize}
use Queue.{OperationQueue, QueuedOperation, new_operation_queue, enqueue, clear}

pub record FairUsePolicy : Type 0 where
  pub enabled : Bool
  pub token_bucket_size : ℤ
  pub refill_rate : ℤ  -- tokens per minute
  pub operation_costs : Dict ℤ
  pub priority_levels : Dict ℤ

pub record SchedulerStats : Type 0 where
  pub total_operations : ℤ
  pub queued_operations : ℤ
  pub throttled_requests : ℤ

pub record FairUseScheduler : Type 0 where
  pub buckets : Dict TokenBucket
  pub policies : Dict FairUsePolicy
  pub default_policy : FairUsePolicy
  pub queue : OperationQueue
  pub stats : SchedulerStats

abbrev pub default_operation_costs : Dict ℤ
default_operation_costs =
    ("FETCH", pos 1)
    ∷ ("SEARCH", pos 5)
    ∷ ("SEND", pos 3)
    ∷ ("LIST", pos 1)
    ∷ ("RETRIEVE", pos 2)
    ∷ ("ATTACHMENT", pos 3)
    ∷ ("IDLE", pos 0)
    ∷ ("SYNC", pos 2)
    ∷ []

unfoldable pub new_fair_use_scheduler : FairUseScheduler
unfolding new_operation_queue
new_fair_use_scheduler = record {
  buckets = [];
  policies = [];
  default_policy = record {
    enabled = true;
    token_bucket_size = pos 100;
    refill_rate = pos 10;
    operation_costs = default_operation_costs;
    priority_levels = ("low", pos 1) ∷ ("normal", pos 5) ∷ ("high", pos 10) ∷ [];
  };
  queue = new_operation_queue (pos 1000);
  stats = record {
    total_operations = pos 0;
    queued_operations = pos 0;
    throttled_requests = pos 0;
  };
}

pub data Outcome {ℓ} (A : Type ℓ) : Type ℓ where
  returned : A → Outcome A
  panicked : Outcome A

-- `m[k]` on a map of ints: 0 where the key is missing.
abbrev pub int_at : String → Dict ℤ → ℤ
int_at k m = elim (lookup k m) [ none ↦ pos 0 | some n ↦ n ]

abbrev pub or_default {ℓ} : {A : Type ℓ} → Option A → A → A
or_default none d = d
or_default (some a) d = a

-- `time.NewTicker(time.Minute / time.Duration(rate))`: the division panics at 0, and `NewTicker`
-- panics at an interval that is not positive.
unfoldable pub ticker_starts : ℤ → Bool
ticker_starts (pos n) = if n == 0 then false else not (60000000000 / n == 0)
ticker_starts (negsuc n) = false

-- What `InitializeAccount` and `initializeAccountLazy` share. The policy is stored before the
-- ticker is made, the bucket after it.
unfoldable pub register :
    FairUseScheduler → String → FairUsePolicy → ℕ → FairUseScheduler × Outcome (Unit {0})
unfolding insert ticker_starts
register s account_id policy now =
    let stored = record s { policies = insert account_id policy s.policies } in
    if ticker_starts policy.refill_rate
    then (record stored { buckets = insert account_id bucket s.buckets }, returned tt)
    else (stored, panicked)
  where
    bucket : TokenBucket
    bucket = record {
      account_id = account_id;
      tokens = policy.token_bucket_size;
      max_tokens = policy.token_bucket_size;
      refill_rate = policy.refill_rate;
      last_refill = now;
    }

unfoldable pub initialize_account :
    FairUseScheduler → String → Option FairUsePolicy → ℕ → FairUseScheduler × Outcome (Unit {0})
unfolding register
initialize_account s account_id policy now =
    register s account_id (or_default policy s.default_policy) now

unfoldable pub initialize_account_lazy :
    FairUseScheduler → String → Option FairUsePolicy → ℕ → FairUseScheduler × Outcome (Unit {0})
unfolding register lookup
initialize_account_lazy s account_id policy now = elim (lookup account_id s.buckets) [
  | some b ↦ (s, returned tt)
  | none ↦ register s account_id (or_default policy s.default_policy) now
]

unfoldable pub operation_cost : FairUsePolicy → String → ℤ
unfolding lookup
operation_cost policy operation =
    let cost = int_at operation policy.operation_costs in
    if eqb_ℤ cost (pos 0) then int_at operation default_operation_costs else cost

-- `(success, cost, err)`: the error is `ErrInsufficientTokens`, and comes exactly with a failure.
pub record Charge : Type 0 where
  pub success : Bool
  pub cost : ℤ

-- The part of `ConsumeTokens` behind the lazy initialisation, with the bucket and policy found.
unfoldable pub consume_from :
    FairUseScheduler → String → String → TokenBucket → FairUsePolicy → FairUseScheduler × Charge
unfolding operation_cost try_consume insert add64
consume_from s account_id operation bucket policy =
    let cost = operation_cost policy operation in
    let (bucket', taken) = try_consume bucket cost in
    if not policy.enabled
    then (s, record { success = true; cost = pos 0 })
    else if taken
    then (
      record s {
        buckets = insert account_id bucket' s.buckets;
        stats = record stats { total_operations = add64 stats.total_operations (pos 1) };
      },
      record { success = true; cost = cost },
    )
    else (
      record s {
        stats = record stats { throttled_requests = add64 stats.throttled_requests (pos 1) };
      },
      record { success = false; cost = cost },
    )
  where
    open s use {stats}

-- With no bucket after the lazy initialisation, `bucket.tryConsume` would fail on a nil pointer;
-- a disabled policy returns before it.
unfoldable pub consume_registered :
    FairUseScheduler → String → String → FairUseScheduler × Outcome Charge
unfolding consume_from lookup
consume_registered s account_id operation =
    let policy = or_default (lookup account_id s.policies) s.default_policy in
    elim (lookup account_id s.buckets) [
      | some bucket ↦
          let (s', c) = consume_from s account_id operation bucket policy in (s', returned c)
      | none ↦
          if policy.enabled
          then (s, panicked)
          else (s, returned (record { success = true; cost = pos 0 }))
    ]

-- `ConsumeTokens` behind the lazy initialisation, which may have panicked.
unfoldable pub consume_after :
    FairUseScheduler × Outcome (Unit {0}) → String → String → FairUseScheduler × Outcome Charge
unfolding consume_registered
consume_after (s, returned u) account_id operation = consume_registered s account_id operation
consume_after (s, panicked) account_id operation = (s, panicked)

unfoldable pub consume_tokens :
    FairUseScheduler → String → String → ℕ → FairUseScheduler × Outcome Charge
unfolding consume_after initialize_account_lazy
consume_tokens s account_id operation now = elim (lookup account_id s.buckets) [
  | some b ↦ consume_registered s account_id operation
  | none ↦ consume_after (initialize_account_lazy s account_id none now) account_id operation
]

unfoldable pub release_tokens : FairUseScheduler → String → ℤ → FairUseScheduler
unfolding lookup insert release
release_tokens s account_id tokens = elim (lookup account_id s.buckets) [
  | none ↦ s
  | some b ↦ record s { buckets = insert account_id (release b tokens) s.buckets }
]

-- The goroutine of `startRefill` that belongs to the registered bucket.
unfoldable pub refill_tick : FairUseScheduler → String → ℕ → FairUseScheduler
unfolding lookup insert refill
refill_tick s account_id now = elim (lookup account_id s.buckets) [
  | none ↦ s
  | some b ↦ record s { buckets = insert account_id (refill b now) s.buckets }
]

unfoldable pub update_policy : FairUseScheduler → String → FairUsePolicy → FairUseScheduler
unfolding lookup insert resize
update_policy s account_id policy =
    let stored = record s { policies = insert account_id policy s.policies } in
    elim (lookup account_id s.buckets) [
      | none ↦ stored
      | some b ↦ record stored {
        buckets =
            insert account_id (resize b policy.token_bucket_size policy.refill_rate) s.buckets;
      }
    ]

unfoldable pub remove_account : FairUseScheduler → String → FairUseScheduler
unfolding remove clear
remove_account s account_id = record s {
  buckets = remove account_id s.buckets;
  policies = remove account_id s.policies;
  queue = clear s.queue account_id;
}

unfoldable pub shutdown : FairUseScheduler → FairUseScheduler
shutdown s = record s { buckets = [] }

unfoldable pub get_token_bucket : FairUseScheduler → String → Option TokenBucket
unfolding lookup
get_token_bucket s account_id = lookup account_id s.buckets

-- The priority that `QueueOperation` stores: 5 where the policy names none.
unfoldable pub priority_level : FairUsePolicy → String → ℤ
unfolding lookup
priority_level policy priority = or_default (lookup priority policy.priority_levels) (pos 5)

-- `op_id` is `generateOperationID()`, a text of the time.
unfoldable pub queue_operation :
    FairUseScheduler → String → String → String → String → ℕ → FairUseScheduler × QueuedOperation
unfolding operation_cost priority_level enqueue lookup add64
queue_operation s account_id operation priority op_id now =
    let (queue', op') = enqueue s.queue account_id op in
    (
      record s {
        queue = queue';
        stats = record stats { queued_operations = add64 stats.queued_operations (pos 1) };
      },
      op',
    )
  where
    open s use {stats}

    policy : FairUsePolicy
    policy = or_default (lookup account_id s.policies) s.default_policy

    op : QueuedOperation
    op = record {
      id = op_id;
      account_id = account_id;
      operation = operation;
      cost = operation_cost policy operation;
      priority = priority_level policy priority;
      submitted = now;
      result = none;
    }
