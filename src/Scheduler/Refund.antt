-- ===== src/Scheduler/Refund.antt =====
-- What `ProcessQueue` charges for an operation and gives back.
use webmail_engine.Base.{
  ℕ, ◌+◌, min, if◌then◌else◌, ◌≡◌, refl, ◌∙◌, ap, Bool, true, false, List, [], ◌∷◌, some, String,
  arith,
}
use webmail_engine.Base.Int.{ℤ, pos_part, sub64, leb_ℤ}
use webmail_engine.Base.Dict.{lookup}
use webmail_engine.Scheduler.Bucket.{TokenBucket, release}
use webmail_engine.Scheduler.Budget.{IsBucket, IsAmount}
use webmail_engine.Scheduler.Queue.{QueuedOperation}
use webmail_engine.Scheduler.Invariant.{IsPolicy, operation_cost-IsAmount}
use webmail_engine.Scheduler.Consume.{
  Registered, consume_tokens_charged, consume_tokens_free, consume_tokens-Registered,
  release_tokens-Registered,
}
use webmail_engine.Scheduler.Worker.{
  Phase, polling, attempting, granting, Event, attempts, accepted, results, attempt, finish,
  worker_step,
}
use webmail_engine.Scheduler.{
  FairUsePolicy, FairUseScheduler, Outcome, returned, panicked, Charge, operation_cost,
  consume_tokens,
}

pub worker_run : String → FairUseScheduler × Phase → List Event → FairUseScheduler × Phase
worker_run a w [] = w
worker_run a w (e ∷ es) = worker_run a (worker_step a w e) es

attempt_returned :
    (r : FairUseScheduler × Outcome Charge) (op : QueuedOperation) {c : ℤ}
    → r.1 ≡ returned (record { success = true; cost = c })
    → attempt r op ≡ (r.0, granting op)
unfolding attempt
attempt_returned (s, panicked) op e = cc
attempt_returned (s, returned c) op e = ground arith

-- An attempt that is charged, then accepted and finished.
charged_run :
    (s : FairUseScheduler) (a : String) (op : QueuedOperation) (now : ℕ) (success : Bool)
    (b : TokenBucket) (p : FairUsePolicy)
    → Registered s a b p
    → p.enabled ≡ true
    → leb_ℤ (operation_cost p op.operation) b.tokens ≡ true
    → worker_run a (s, attempting op) (attempts now ∷ accepted ∷ results success ∷ [])
      ≡ (finish (consume_tokens s a op.operation now).0 a op success, polling)
unfolding worker_run worker_step
charged_run s a op now success b p r on enough = rw (
    attempt_returned (consume_tokens s a op.operation now) op
      (consume_tokens_charged s a op.operation now b p r on enough))

refunded :
    (s : FairUseScheduler) (a : String) (op : QueuedOperation) (b : TokenBucket) (p : FairUsePolicy)
    → Registered s a b p
    → Registered (finish s a op false) a (release b op.cost) p
unfolding finish
refunded s a op b p r =
    let r' = release_tokens-Registered s a op.cost b p r in
    record { has_bucket = r'.has_bucket; has_policy = r'.has_policy }

kept :
    (s : FairUseScheduler) (a : String) (op : QueuedOperation) (b : TokenBucket) (p : FairUsePolicy)
    → Registered s a b p
    → Registered (finish s a op true) a b p
unfolding finish
kept s a op b p r = record { has_bucket = r.has_bucket; has_policy = r.has_policy }

restored :
    (b : TokenBucket) (c : ℤ)
    → IsBucket b
    → IsAmount c
    → leb_ℤ c b.tokens ≡ true
    → release (record b { tokens = sub64 b.tokens c }) c ≡ b
unfolding release sub64
restored b c h i e = ground arith

-- For an account with a bucket between empty and full and an enabled, sensible policy: an operation
-- whose queued cost is the cost in force, and for which the bucket has the tokens, is charged that
-- cost if it succeeds; if it fails, the bucket is exactly what it was.
pub process_charges :
    (s : FairUseScheduler) (a : String) (op : QueuedOperation) (now : ℕ) (success : Bool)
    (b : TokenBucket) (p : FairUsePolicy)
    → Registered s a b p
    → p.enabled ≡ true
    → IsBucket b
    → IsPolicy p
    → leb_ℤ (operation_cost p op.operation) b.tokens ≡ true
    → op.cost ≡ operation_cost p op.operation
    → let w = worker_run a (s, attempting op) (attempts now ∷ accepted ∷ results success ∷ []) in
      (w.1 ≡ polling)
      × (lookup a w.0.buckets
          ≡ some (if success then record b { tokens = sub64 b.tokens op.cost } else b))
unfolding finish
process_charges s a op now true b p r on h f enough priced =
    rw (charged_run s a op now true b p r on enough) (
      refl,
      rw priced
          (kept _ a op _ p
            (consume_tokens-Registered s a op.operation now b p r on enough)).has_bucket,
    )
process_charges s a op now false b p r on h f enough priced =
    let r' = refunded _ a op _ p (consume_tokens-Registered s a op.operation now b p r on enough) in
    rw (charged_run s a op now false b p r on enough) (
      refl,
      r'.has_bucket
          ∙ ap some (
              rw priced (
                restored b (operation_cost p op.operation) h
                  (operation_cost-IsAmount p op.operation f) enough)),
    )

free_run :
    (s : FairUseScheduler) (a : String) (op : QueuedOperation) (now : ℕ) (b : TokenBucket)
    (p : FairUsePolicy)
    → Registered s a b p
    → p.enabled ≡ false
    → worker_run a (s, attempting op) (attempts now ∷ accepted ∷ results false ∷ [])
      ≡ (finish s a op false, polling)
unfolding worker_run worker_step
free_run s a op now b p r off = rw (consume_tokens_free s a op.operation now b p r off) refl

release_tokens_sum :
    (b : TokenBucket) (n : ℤ)
    → IsBucket b
    → IsAmount n
    → pos_part (release b n).tokens ≡ min (pos_part b.max_tokens) (pos_part b.tokens + pos_part n)
unfolding release
release_tokens_sum b n h i = ground arith

-- For an account with a bucket between empty and full and a disabled policy, the attempt costs
-- nothing, and a failure still gives back the queued cost, where that is a sensible amount: the
-- bucket gains tokens that were never taken, up to a full one.
pub disabled_failure_gains :
    (s : FairUseScheduler) (a : String) (op : QueuedOperation) (now : ℕ) (b : TokenBucket)
    (p : FairUsePolicy)
    → Registered s a b p
    → p.enabled ≡ false
    → IsBucket b
    → IsAmount op.cost
    → let w = worker_run a (s, attempting op) (attempts now ∷ accepted ∷ results false ∷ []) in
      (b' : TokenBucket) × (lookup a w.0.buckets ≡ some b')
      × (pos_part b'.tokens ≡ min (pos_part b.max_tokens) (pos_part b.tokens + pos_part op.cost))
disabled_failure_gains s a op now b p r off h i =
    rw (free_run s a op now b p r off)
      (_, (refunded s a op b p r).has_bucket, release_tokens_sum b op.cost h i)
