-- ===== src/Scheduler/Bucket.antt =====
-- The token bucket of internal/scheduler/fairuse_scheduler.go: `TokenBucket`, its `tryConsume`, one
-- round of `startRefill`, and the bodies of `ReleaseTokens` and `UpdatePolicy` under the bucket's
-- lock. The numbers are Go's `int`, with wrap-around; a time is a count of nanoseconds.
use webmail_engine.Base.{ℕ, Bool, true, false, String, if◌then◌else◌}
use webmail_engine.Base.Int.{ℤ, pos, add64, sub64, leb_ℤ, ltb_ℤ}

pub record TokenBucket : Type 0 where
  pub account_id : String
  pub tokens : ℤ
  pub max_tokens : ℤ
  pub refill_rate : ℤ  -- tokens per minute
  pub last_refill : ℕ

unfoldable pub try_consume : TokenBucket → ℤ → TokenBucket × Bool
unfolding sub64
try_consume b cost =
    if leb_ℤ cost b.tokens then (record b { tokens = sub64 b.tokens cost }, true) else (b, false)

-- One tick of the ticker in `startRefill`.
unfoldable pub refill : TokenBucket → ℕ → TokenBucket
unfolding add64
refill b now = record b {
  tokens = if ltb_ℤ b.tokens b.max_tokens then add64 b.tokens (pos 1) else b.tokens;
  last_refill = now;
}

-- `if bucket.tokens > bucket.maxTokens { bucket.tokens = bucket.maxTokens }`
abbrev pub cap_at : ℤ → ℤ → ℤ
cap_at tokens max_tokens = if ltb_ℤ max_tokens tokens then max_tokens else tokens

unfoldable pub release : TokenBucket → ℤ → TokenBucket
unfolding add64
release b n = record b { tokens = cap_at (add64 b.tokens n) b.max_tokens }

unfoldable pub resize : TokenBucket → ℤ → ℤ → TokenBucket
resize b size rate = record b {
  max_tokens = size;
  refill_rate = rate;
  tokens = cap_at b.tokens size;
}
