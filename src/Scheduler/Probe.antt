-- ===== src/Scheduler/Probe.antt =====
-- The methods of internal/scheduler/fairuse_scheduler.go that ask about tokens: `CanExecute`,
-- `WaitForTokens` and `EstimateWaitTime`.
use webmail_engine.Base.{ℕ, Bool, true, false, none, some, String, if◌then◌else◌}
use webmail_engine.Base.Int.{ℤ, pos, sub64, mul64, div64, leb_ℤ, eqb_ℤ}
use webmail_engine.Base.Dict.{lookup}
use webmail_engine.Scheduler.{
  FairUseScheduler, Outcome, returned, panicked, or_default, Charge, consume_tokens, release_tokens,
}

-- `CanExecute` behind its call of `ConsumeTokens`: a success gives back one token.
unfoldable pub check_after :
    FairUseScheduler × Outcome Charge → String → FairUseScheduler × Outcome Bool
unfolding release_tokens
check_after (s, panicked) account_id = (s, panicked)
check_after (s, returned c) account_id =
    if c.success then (release_tokens s account_id (pos 1), returned true) else (s, returned false)

unfoldable pub can_execute :
    FairUseScheduler → String → String → ℕ → FairUseScheduler × Outcome Bool
unfolding consume_tokens check_after
can_execute s account_id operation now =
    check_after (consume_tokens s account_id operation now) account_id

-- Whether the second call of `ConsumeTokens` in a round of `WaitForTokens` ends the loop. Its only
-- error is `ErrInsufficientTokens`, at which the loop goes on.
unfoldable pub wait_actual : FairUseScheduler × Outcome Charge → FairUseScheduler × Outcome Bool
wait_actual (s, panicked) = (s, panicked)
wait_actual (s, returned c) = (s, returned c.success)

unfoldable pub wait_probe :
    FairUseScheduler × Outcome Charge → String → ℕ → FairUseScheduler × Outcome Bool
unfolding consume_tokens release_tokens wait_actual
wait_probe (s, panicked) account_id now = (s, panicked)
wait_probe (s, returned c) account_id now =
    if c.success
    then wait_actual (consume_tokens (release_tokens s account_id (pos 1)) account_id "ACTUAL" now)
    else (s, returned false)

-- One tick of the loop in `WaitForTokens`: `returned true` ends it with no error. The argument
-- `cost` is not read.
unfoldable pub wait_round : FairUseScheduler → String → ℤ → ℕ → FairUseScheduler × Outcome Bool
unfolding consume_tokens wait_probe
wait_round s account_id cost now =
    wait_probe (consume_tokens s account_id "WAIT" now) account_id now

-- `EstimateWaitTime`, in nanoseconds.
unfoldable pub estimate_wait_time : FairUseScheduler → String → ℤ → Outcome ℤ
unfolding lookup sub64 div64 mul64
estimate_wait_time s account_id cost =
    let policy = or_default (lookup account_id s.policies) s.default_policy in
    elim (lookup account_id s.buckets) [
      | none ↦ returned (pos 0)
      | some b ↦
          if leb_ℤ cost b.tokens
          then returned (pos 0)
          else if eqb_ℤ policy.refill_rate (pos 0)
          then panicked
          else returned (mul64 (div64 (sub64 cost b.tokens) policy.refill_rate) (pos 60000000000))
    ]
