-- ===== src/Scheduler/Probing.antt =====
-- What the methods that ask about tokens do to them.
use native.Mathlib.Nat.{div-le_self, div-add-mod'}
use webmail_engine.Base.{
  ℕ, ◌+◌, ◌-◌, ◌*◌, ◌/◌, ◌%◌, ◌≤◌, ◌<◌, ◌≡◌, ◌≢◌, refl, true, some, String, arith, min,
}
use webmail_engine.Base.Int.{ℤ, pos, negsuc, pos_part, neg_part, sub64, mul64, div64, leb_ℤ}
use webmail_engine.Base.Dict.{lookup}
use webmail_engine.Scheduler.Bucket.{TokenBucket, release}
use webmail_engine.Scheduler.Budget.{IsBucket, IsAmount}
use webmail_engine.Scheduler.Invariant.{IsPolicy, operation_cost-IsAmount}
use webmail_engine.Scheduler.Consume.{
  Registered, consume_tokens_charged, consume_tokens-Registered, release_tokens-Registered,
}
use webmail_engine.Scheduler.Probe.{
  check_after, can_execute, wait_actual, wait_probe, wait_round, estimate_wait_time,
}
use webmail_engine.Scheduler.{
  FairUsePolicy, FairUseScheduler, Outcome, returned, panicked, Charge, operation_cost,
  consume_tokens, release_tokens,
}

-- A charge of `c` and a release of one token leave `c - 1` tokens less, up to a full bucket.
probe_tokens :
    (b : TokenBucket) (c : ℤ)
    → IsBucket b
    → IsAmount c
    → leb_ℤ c b.tokens ≡ true
    → pos_part (release (record b { tokens = sub64 b.tokens c }) (pos 1)).tokens
      ≡ min (pos_part b.max_tokens) (pos_part b.tokens - pos_part c + 1)
unfolding release sub64
probe_tokens b c h i e = ground arith

check_after_returned :
    (r : FairUseScheduler × Outcome Charge) (a : String) {c : ℤ}
    → r.1 ≡ returned (record { success = true; cost = c })
    → check_after r a ≡ (release_tokens r.0 a (pos 1), returned true)
unfolding check_after
check_after_returned (s, panicked) a e = cc
check_after_returned (s, returned c) a e = ground arith

-- `CanExecute`, on an account with an enabled, sensible policy whose bucket is between empty and
-- full and holds the cost, answers yes, and its bucket then holds `cost - 1` tokens less than
-- before the question (one more, if the cost is 0), up to a full bucket.
pub can_execute_drains :
    (s : FairUseScheduler) (a operation : String) (now : ℕ) (b : TokenBucket) (p : FairUsePolicy)
    → Registered s a b p
    → p.enabled ≡ true
    → IsBucket b
    → IsPolicy p
    → leb_ℤ (operation_cost p operation) b.tokens ≡ true
    → ((can_execute s a operation now).1 ≡ returned true)
      × ((b' : TokenBucket) × (lookup a (can_execute s a operation now).0.buckets ≡ some b')
          × (pos_part b'.tokens
              ≡ min
                  (pos_part b.max_tokens)
                  (pos_part b.tokens - pos_part (operation_cost p operation) + 1)))
unfolding can_execute
can_execute_drains s a operation now b p r on h f enough =
    let r' = consume_tokens-Registered s a operation now b p r on enough in
    let r'' = release_tokens-Registered _ a (pos 1) _ p r' in
    rw
      (check_after_returned (consume_tokens s a operation now) a
        (consume_tokens_charged s a operation now b p r on enough))
      (
        refl,
        (
          _,
          r''.has_bucket,
          probe_tokens b (operation_cost p operation) h (operation_cost-IsAmount p operation f)
              enough,
        ),
      )

wait_probe_returned :
    (r : FairUseScheduler × Outcome Charge) (a : String) (now : ℕ) {c : ℤ}
    → r.1 ≡ returned (record { success = true; cost = c })
    → wait_probe r a now
      ≡ wait_actual (consume_tokens (release_tokens r.0 a (pos 1)) a "ACTUAL" now)
unfolding wait_probe
wait_probe_returned (s, panicked) a now e = cc
wait_probe_returned (s, returned c) a now e = ground arith

wait_actual_returned :
    (r : FairUseScheduler × Outcome Charge) {c : ℤ}
    → r.1 ≡ returned (record { success = true; cost = c })
    → wait_actual r ≡ (r.0, returned true)
unfolding wait_actual
wait_actual_returned (s, panicked) e = cc
wait_actual_returned (s, returned c) e = ground arith

-- A policy that prices no operation by the names "WAIT" and "ACTUAL".
abbrev pub PricesNoWait : FairUsePolicy → Type 0
PricesNoWait p = (operation_cost p "WAIT" ≡ pos 0) × (operation_cost p "ACTUAL" ≡ pos 0)

-- The two charges of a round at price 0 with one token given back between them.
wait_bucket : TokenBucket → TokenBucket
wait_bucket b =
    let b₁ : TokenBucket = release (record b { tokens = sub64 b.tokens (pos 0) }) (pos 1) in
    record b₁ { tokens = sub64 b₁.tokens (pos 0) }

wait_bucket_tokens :
    (b : TokenBucket)
    → IsBucket b
    → pos_part (wait_bucket b).tokens ≡ min (pos_part b.max_tokens) (pos_part b.tokens + 1)
unfolding wait_bucket release sub64
wait_bucket_tokens b h = ground arith

wait_enough :
    (b : TokenBucket)
    → IsBucket b
    → leb_ℤ (pos 0) (release (record b { tokens = sub64 b.tokens (pos 0) }) (pos 1)).tokens ≡ true
unfolding release sub64
wait_enough b h = ground arith

-- For an account with a bucket between empty and full and an enabled policy that prices neither of
-- the operations `WAIT` and `ACTUAL`, the first round of `WaitForTokens` ends the wait with no
-- error, whatever `cost` is asked for and however few tokens there are, and the bucket then holds
-- one token more, up to a full bucket.
pub wait_round_ignores_cost :
    (s : FairUseScheduler) (a : String) (cost : ℤ) (now : ℕ) (b : TokenBucket) (p : FairUsePolicy)
    → Registered s a b p
    → p.enabled ≡ true
    → IsBucket b
    → PricesNoWait p
    → ((wait_round s a cost now).1 ≡ returned true)
      × ((b' : TokenBucket) × (lookup a (wait_round s a cost now).0.buckets ≡ some b')
          × (pos_part b'.tokens ≡ min (pos_part b.max_tokens) (pos_part b.tokens + 1)))
unfolding wait_round wait_bucket
wait_round_ignores_cost s a cost now b p r on h (w, act) =
    let ok₁ : leb_ℤ (operation_cost p "WAIT") b.tokens ≡ true = rw w (ground arith) in
    let b₁ : TokenBucket =
      release (record b { tokens = sub64 b.tokens (operation_cost p "WAIT") }) (pos 1) in
    let r₁ =
      release_tokens-Registered _ a (pos 1) _ p
        (consume_tokens-Registered s a "WAIT" now b p r on ok₁) in
    let ok₂ : leb_ℤ (operation_cost p "ACTUAL") b₁.tokens ≡ true = rw (w, act) (wait_enough b h) in
    let r₂ = consume_tokens-Registered _ a "ACTUAL" now b₁ p r₁ on ok₂ in
    rw
      (wait_probe_returned (consume_tokens s a "WAIT" now) a now
        (consume_tokens_charged s a "WAIT" now b p r on ok₁))
      (rw
        (wait_actual_returned
          (consume_tokens (release_tokens (consume_tokens s a "WAIT" now).0 a (pos 1)) a "ACTUAL"
            now)
          (consume_tokens_charged _ a "ACTUAL" now b₁ p r₁ on ok₂))
        (refl, (_, r₂.has_bucket, rw (w, act) (wait_bucket_tokens b h))))

sub64_pos : (m n : ℕ) → n ≤ m → m < 100000000 → sub64 (pos m) (pos n) ≡ pos (m - n)
unfolding sub64
sub64_pos m n h k = ground arith

div64_pos : (m n : ℕ) → m < 100000000 → div64 (pos m) (pos n) ≡ pos (m / n)
unfolding div64
div64_pos m n h = ground (arith, div-le_self m n)

mul64_pos : (m : ℕ) → m < 100000000 → mul64 (pos m) (pos 60000000000) ≡ pos (m * 60000000000)
unfolding mul64
mul64_pos m h = ground arith

estimate_value :
    (t : ℤ) (cost rate : ℕ)
    → neg_part t ≡ 0
    → pos_part t < cost
    → cost < 100000000
    → mul64 (div64 (sub64 (pos cost) t) (pos rate)) (pos 60000000000)
      ≡ pos ((cost - pos_part t) / rate * 60000000000)
estimate_value (negsuc n) cost rate h few small = absurd (omega arith)
estimate_value (pos n) cost rate h few small = rw (sub64_pos cost n (omega arith) small) (
    rw (div64_pos (cost - n) rate (omega arith))
      (mul64_pos ((cost - n) / rate) (omega (arith, div-le_self (cost - n) rate))))

-- `EstimateWaitTime` for an account with a bucket between empty and full and a positive refill
-- rate, where tokens are missing for a cost under 100000000: the whole minutes of the missing
-- amount by the rate, rounded down. Where the rate does not divide the amount, the refills of that
-- time are too few.
pub estimate_wait_time_short :
    (s : FairUseScheduler) (a : String) (cost : ℕ) (rate : ℕ) (b : TokenBucket) (p : FairUsePolicy)
    → Registered s a b p
    → IsBucket b
    → p.refill_rate ≡ pos rate
    → 0 < rate
    → pos_part b.tokens < cost
    → cost < 100000000
    → let missing = cost - pos_part b.tokens in
      (m : ℕ) × (estimate_wait_time s a (pos cost) ≡ returned (pos (m * 60000000000)))
      × (m * rate ≤ missing)
      × (missing % rate ≢ 0 → m * rate < missing)
unfolding estimate_wait_time
estimate_wait_time_short s a cost rate b p r h e k few small =
    let m = (cost - pos_part b.tokens) / rate in
    (
      m,
      rw (r.has_bucket, estimate_wait_time)
          (rw r.has_policy
            (rw e (ground (arith, estimate_value b.tokens cost rate h.not_negative few small)))),
      omega (arith, div-add-mod' (cost - pos_part b.tokens) rate),
      λ ne. omega (arith, div-add-mod' (cost - pos_part b.tokens) rate),
    )
