-- ===== src/Scheduler/Budget.antt =====
-- What the token bucket promises: it stays between empty and full, and no history of calls spends
-- more than it held, was refilled and was given back.
use webmail_engine.Base.{ℕ, ◌+◌, ◌≤◌, ◌<◌, ◌≡◌, true, List, [], ◌∷◌, arith, if◌then◌else◌}
use webmail_engine.Base.Int.{ℤ, pos_part, neg_part, ◌≤ℤ◌}
use webmail_engine.Scheduler.Bucket.{TokenBucket, try_consume, refill, release, resize}

-- Half of what an `int` holds, so that the sum of two amounts does not overflow.
abbrev pub two_62 : ℕ
two_62 = 4611686018427387904

-- Between empty and full, at a size below 2 ^ 62.
pub record IsBucket (b : TokenBucket) : Type 0 where
  pub not_negative : neg_part b.tokens ≡ 0
  pub not_over : b.tokens ≤ℤ b.max_tokens
  pub in_range : pos_part b.max_tokens < two_62

-- A size or a cost of a sensible policy.
abbrev pub IsAmount : ℤ → Type 0
IsAmount n = (neg_part n ≡ 0) × (pos_part n < two_62)

pub try_consume-IsBucket :
    (b : TokenBucket) (cost : ℤ) → IsAmount cost → IsBucket b → IsBucket (try_consume b cost).0
unfolding try_consume
try_consume-IsBucket b cost c h = ground arith

pub refill-IsBucket : (b : TokenBucket) (now : ℕ) → IsBucket b → IsBucket (refill b now)
unfolding refill
refill-IsBucket b now h = ground arith

pub release-IsBucket : (b : TokenBucket) (n : ℤ) → IsAmount n → IsBucket b → IsBucket (release b n)
unfolding release
release-IsBucket b n c h = ground arith

pub resize-IsBucket :
    (b : TokenBucket) (size rate : ℤ) → IsAmount size → IsBucket b → IsBucket (resize b size rate)
unfolding resize
resize-IsBucket b size rate c h = ground arith

-- A history of one bucket.
pub data BucketCall : Type 0 where
  consumes : ℤ → BucketCall
  ticks : ℕ → BucketCall
  releases : ℤ → BucketCall

pub step_bucket : TokenBucket → BucketCall → TokenBucket
step_bucket b (consumes cost) = (try_consume b cost).0
step_bucket b (ticks now) = refill b now
step_bucket b (releases n) = release b n

-- What one call takes out, and what it may put in at most.
pub taken : TokenBucket → BucketCall → ℕ
taken b (consumes cost) = if (try_consume b cost).1 then pos_part cost else 0
taken b (ticks now) = 0
taken b (releases n) = 0

abbrev pub given : BucketCall → ℕ
given (consumes cost) = 0
given (ticks now) = 1
given (releases n) = pos_part n

pub run_bucket : TokenBucket → List BucketCall → TokenBucket
run_bucket b [] = b
run_bucket b (c ∷ cs) = run_bucket (step_bucket b c) cs

pub total_taken : TokenBucket → List BucketCall → ℕ
total_taken b [] = 0
total_taken b (c ∷ cs) = taken b c + total_taken (step_bucket b c) cs

abbrev pub total_given : List BucketCall → ℕ
total_given [] = 0
total_given (c ∷ cs) = given c + total_given cs

-- Costs and amounts given back are amounts.
abbrev pub IsCall : BucketCall → Type 0
IsCall (consumes cost) = IsAmount cost
IsCall (ticks now) = Unit
IsCall (releases n) = IsAmount n

abbrev pub AllCalls : List BucketCall → Type 0
AllCalls [] = Unit
AllCalls (c ∷ cs) = IsCall c × AllCalls cs

step_bucket-IsBucket :
    (b : TokenBucket) (c : BucketCall) → IsCall c → IsBucket b → IsBucket (step_bucket b c)
unfolding step_bucket
step_bucket-IsBucket b (consumes cost) i h = try_consume-IsBucket b cost i h
step_bucket-IsBucket b (ticks now) i h = refill-IsBucket b now h
step_bucket-IsBucket b (releases n) i h = release-IsBucket b n i h

step_bucket_budget :
    (b : TokenBucket) (c : BucketCall)
    → IsCall c
    → IsBucket b
    → taken b c + pos_part (step_bucket b c).tokens ≤ pos_part b.tokens + given c
unfolding step_bucket taken try_consume refill release
step_bucket_budget b (consumes cost) i h = ground arith
step_bucket_budget b (ticks now) i h = ground arith
step_bucket_budget b (releases n) i h = ground arith

-- For a bucket between empty and full and calls with sensible amounts, whatever the order of calls
-- and refills: what was spent and what is left is at most what the bucket held, plus one for each
-- tick and plus what was given back; and the bucket stays between empty and full.
pub run_bucket_budget :
    (cs : List BucketCall) (b : TokenBucket)
    → AllCalls cs
    → IsBucket b
    → (total_taken b cs + pos_part (run_bucket b cs).tokens ≤ pos_part b.tokens + total_given cs)
      × IsBucket (run_bucket b cs)
unfolding total_taken run_bucket
run_bucket_budget [] b i h = (omega arith, h)
run_bucket_budget (c ∷ cs) b i h =
    let h' = step_bucket-IsBucket b c i.0 h in
    let (spent, still) = run_bucket_budget cs (step_bucket b c) i.1 h' in
    (omega (arith, step_bucket_budget b c i.0 h), still)

-- Tokens that were taken and are given back leave the bucket as it was.
pub release-try_consume :
    (b : TokenBucket) (cost : ℤ)
    → IsBucket b
    → IsAmount cost
    → (try_consume b cost).1 ≡ true
    → release (try_consume b cost).0 cost ≡ b
unfolding release try_consume
release-try_consume b cost h c e = ground arith
