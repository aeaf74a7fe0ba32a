-- ===== src/Scheduler/Invariant.antt =====
-- What holds of the scheduler between two calls.
use webmail_engine.Base.{
  ℕ, ◌≡◌, refl, sym, inl, inr, none, String, arith, Bool-cases, Option-cases, subst,
}
use webmail_engine.Base.Int.{ℤ, pos}
use webmail_engine.Base.Dict.{Dict, lookup, insert, Each, Each-insert, Each-remove}
use webmail_engine.Scheduler.Bucket.{TokenBucket, try_consume}
use webmail_engine.Scheduler.Budget.{
  IsBucket, IsAmount, try_consume-IsBucket, refill-IsBucket, release-IsBucket, resize-IsBucket,
}
use webmail_engine.Scheduler.{
  FairUsePolicy, FairUseScheduler, ticker_starts, or_default, Charge, consume_after, Outcome,
  returned, panicked, default_operation_costs, int_at, register, initialize_account_lazy,
  operation_cost, consume_from, consume_registered, consume_tokens, release_tokens, refill_tick,
  update_policy, remove_account,
}
use webmail_engine.Scheduler.Probe.{check_after, wait_actual, wait_probe}

pub record IsPolicy (p : FairUsePolicy) : Type 0 where
  pub size_fits : IsAmount p.token_bucket_size
  pub costs_fit : Each IsAmount p.operation_costs

-- Every bucket is between empty and full, and every policy charges amounts.
pub record Inv (s : FairUseScheduler) : Type 0 where
  pub buckets_fit : Each IsBucket s.buckets
  pub policies_fit : Each IsPolicy s.policies
  pub default_fits : IsPolicy s.default_policy

int_at-IsAmount : (k : String) (m : Dict ℤ) → Each IsAmount m → IsAmount (int_at k m)
int_at-IsAmount k m h = elim (Option-cases (lookup k m)) [
  | inl e ↦ rw (e, int_at) (omega arith)
  | inr (n, e) ↦ rw (e, int_at) (h k n e)
]

pub default_costs_fit : Each IsAmount default_operation_costs
unfolding lookup
default_costs_fit k n e = ground arith

pub operation_cost-IsAmount :
    (p : FairUsePolicy) (operation : String) → IsPolicy p → IsAmount (operation_cost p operation)
unfolding operation_cost
operation_cost-IsAmount p operation h = ground (
  arith,
  int_at-IsAmount operation p.operation_costs h.costs_fit,
  int_at-IsAmount operation default_operation_costs default_costs_fit,
)

-- How a call changes the buckets: not at all, or at one account.
pub data Writes (s t : FairUseScheduler) : Type 0 where
  keeps : t.buckets ≡ s.buckets → Writes s t
  writes :
      (k : String) (b : TokenBucket) → IsBucket b → t.buckets ≡ insert k b s.buckets → Writes s t

abbrev pub SamePolicies : FairUseScheduler → FairUseScheduler → Type 0
SamePolicies s t = (t.policies ≡ s.policies) × (t.default_policy ≡ s.default_policy)

Writes-fit :
    {s t : FairUseScheduler} → Each IsBucket s.buckets → Writes s t → Each IsBucket t.buckets
Writes-fit h (keeps e) = subst (Each IsBucket) (sym e) h
Writes-fit {s} h (writes k b w e) =
    subst (Each IsBucket) (sym e) (Each-insert IsBucket k b s.buckets w h)

Writes-Inv : {s t : FairUseScheduler} → SamePolicies s t → Writes s t → Inv s → Inv t
Writes-Inv p w h = record {
  buckets_fit = Writes-fit h.buckets_fit w;
  policies_fit = subst (Each IsPolicy) (sym p.0) h.policies_fit;
  default_fits = subst IsPolicy (sym p.1) h.default_fits;
}

-- A stored policy that fits keeps the invariant.
store-Inv :
    (s : FairUseScheduler) (k : String) (p : FairUsePolicy)
    → IsPolicy p
    → Inv s
    → Inv (record s { policies = insert k p s.policies })
store-Inv s k p f h = record {
  buckets_fit = h.buckets_fit;
  policies_fit = Each-insert IsPolicy k p s.policies f h.policies_fit;
  default_fits = h.default_fits;
}

fresh-IsBucket :
    (p : FairUsePolicy) (account_id : String) (now : ℕ)
    → IsPolicy p
    → IsBucket (record {
      account_id = account_id;
      tokens = p.token_bucket_size;
      max_tokens = p.token_bucket_size;
      refill_rate = p.refill_rate;
      last_refill = now;
    })
fresh-IsBucket p account_id now h = record {
  not_negative = h.size_fits.0;
  not_over = omega arith;
  in_range = h.size_fits.1;
}

pub register-Inv :
    (s : FairUseScheduler) (account_id : String) (p : FairUsePolicy) (now : ℕ)
    → IsPolicy p
    → Inv s
    → Inv (register s account_id p now).0
unfolding register
register-Inv s account_id p now f h = elim (Bool-cases (ticker_starts p.refill_rate)) [
  | inl e ↦ rw e (
      Writes-Inv (refl, refl) (writes account_id _ (fresh-IsBucket p account_id now f) refl)
        (store-Inv s account_id p f h))
  | inr e ↦ rw e (store-Inv s account_id p f h)
]

consume_from-Inv :
    (s : FairUseScheduler) (account_id operation : String) (b : TokenBucket) (p : FairUsePolicy)
    → IsBucket b
    → IsPolicy p
    → Inv s
    → Inv (consume_from s account_id operation b p).0
unfolding consume_from
consume_from-Inv s account_id operation b p bf pf h = elim (Bool-cases p.enabled) [
  | inr e ↦ rw e h
  | inl e ↦ elim (Bool-cases (try_consume b (operation_cost p operation)).1) [
    | inl t ↦
        rw (e, t)
          (Writes-Inv (refl, refl)
            (writes account_id _
              (try_consume-IsBucket b _ (operation_cost-IsAmount p operation pf) bf) refl)
            h)
    | inr t ↦ rw (e, t) (Writes-Inv (refl, refl) (keeps refl) h)
  ]
]

-- The policy in force for an account fits.
or_default-IsPolicy :
    (s : FairUseScheduler) (account_id : String)
    → Inv s
    → IsPolicy (or_default (lookup account_id s.policies) s.default_policy)
or_default-IsPolicy s account_id h = elim (Option-cases (lookup account_id s.policies)) [
  | inl e ↦ rw e h.default_fits
  | inr (p, e) ↦ rw e (h.policies_fit account_id p e)
]

consume_registered-Inv :
    (s : FairUseScheduler) (account_id operation : String)
    → Inv s
    → Inv (consume_registered s account_id operation).0
unfolding consume_registered
consume_registered-Inv s account_id operation h =
    elim (Option-cases (lookup account_id s.buckets)) [
      | inl e ↦
          rw (e, consume_registered)
            (elim (Bool-cases
              (or_default (lookup account_id s.policies) s.default_policy).enabled) [
                | inl t ↦ rw t h
                | inr t ↦ rw t h
              ])
      | inr (b, e) ↦
          rw (e, consume_registered)
            (consume_from-Inv s account_id operation b _ (h.buckets_fit account_id b e)
              (or_default-IsPolicy s account_id h) h)
    ]

consume_after-Inv :
    (r : FairUseScheduler × Outcome (Unit {0})) (account_id operation : String)
    → Inv r.0
    → Inv (consume_after r account_id operation).0
unfolding consume_after
consume_after-Inv (s, returned u) account_id operation h =
    consume_registered-Inv s account_id operation h
consume_after-Inv (s, panicked) account_id operation h = h

initialize_account_lazy-Inv :
    (s : FairUseScheduler) (account_id : String) (now : ℕ)
    → Inv s
    → Inv (initialize_account_lazy s account_id none now).0
unfolding initialize_account_lazy
initialize_account_lazy-Inv s account_id now h = elim (Option-cases (lookup account_id s.buckets)) [
  | inl e ↦
      rw (e, initialize_account_lazy)
        (register-Inv s account_id s.default_policy now h.default_fits h)
  | inr (b, e) ↦ rw (e, initialize_account_lazy) h
]

pub consume_tokens-Inv :
    (s : FairUseScheduler) (account_id operation : String) (now : ℕ)
    → Inv s
    → Inv (consume_tokens s account_id operation now).0
unfolding consume_tokens
consume_tokens-Inv s account_id operation now h =
    elim (Option-cases (lookup account_id s.buckets)) [
      | inr (b, e) ↦ rw (e, consume_tokens) (consume_registered-Inv s account_id operation h)
      | inl e ↦
          rw (e, consume_tokens)
            (consume_after-Inv (initialize_account_lazy s account_id none now) account_id operation
              (initialize_account_lazy-Inv s account_id now h))
    ]

pub release_tokens-Inv :
    (s : FairUseScheduler) (account_id : String) (n : ℤ)
    → IsAmount n
    → Inv s
    → Inv (release_tokens s account_id n)
unfolding release_tokens
release_tokens-Inv s account_id n f h = elim (Option-cases (lookup account_id s.buckets)) [
  | inl e ↦ rw (e, release_tokens) h
  | inr (b, e) ↦
      rw (e, release_tokens)
        (Writes-Inv (refl, refl)
          (writes account_id _ (release-IsBucket b n f (h.buckets_fit account_id b e)) refl) h)
]

pub refill_tick-Inv :
    (s : FairUseScheduler) (account_id : String) (now : ℕ)
    → Inv s
    → Inv (refill_tick s account_id now)
unfolding refill_tick
refill_tick-Inv s account_id now h = elim (Option-cases (lookup account_id s.buckets)) [
  | inl e ↦ rw (e, refill_tick) h
  | inr (b, e) ↦
      rw (e, refill_tick)
        (Writes-Inv (refl, refl)
          (writes account_id _ (refill-IsBucket b now (h.buckets_fit account_id b e)) refl) h)
]

pub update_policy-Inv :
    (s : FairUseScheduler) (account_id : String) (p : FairUsePolicy)
    → IsPolicy p
    → Inv s
    → Inv (update_policy s account_id p)
unfolding update_policy
update_policy-Inv s account_id p f h = elim (Option-cases (lookup account_id s.buckets)) [
  | inl e ↦ rw (e, update_policy) (store-Inv s account_id p f h)
  | inr (b, e) ↦
      rw (e, update_policy)
        (Writes-Inv (refl, refl)
          (writes account_id _
            (resize-IsBucket b p.token_bucket_size p.refill_rate f.size_fits
              (h.buckets_fit account_id b e))
            refl)
          (store-Inv s account_id p f h))
]

pub remove_account-Inv :
    (s : FairUseScheduler) (account_id : String) → Inv s → Inv (remove_account s account_id)
unfolding remove_account
remove_account-Inv s account_id h = record {
  buckets_fit = Each-remove IsBucket account_id s.buckets h.buckets_fit;
  policies_fit = Each-remove IsPolicy account_id s.policies h.policies_fit;
  default_fits = h.default_fits;
}

pub check_after-Inv :
    (r : FairUseScheduler × Outcome Charge) (account_id : String)
    → Inv r.0
    → Inv (check_after r account_id).0
unfolding check_after
check_after-Inv (s, panicked) account_id h = h
check_after-Inv (s, returned c) account_id h = elim (Bool-cases c.success) [
  | inl t ↦ rw t (release_tokens-Inv s account_id (pos 1) (omega arith) h)
  | inr t ↦ rw t h
]

wait_actual-Inv : (r : FairUseScheduler × Outcome Charge) → Inv r.0 → Inv (wait_actual r).0
unfolding wait_actual
wait_actual-Inv (s, panicked) h = h
wait_actual-Inv (s, returned c) h = h

pub wait_probe-Inv :
    (r : FairUseScheduler × Outcome Charge) (account_id : String) (now : ℕ)
    → Inv r.0
    → Inv (wait_probe r account_id now).0
unfolding wait_probe
wait_probe-Inv (s, panicked) account_id now h = h
wait_probe-Inv (s, returned c) account_id now h = elim (Bool-cases c.success) [
  | inl t ↦ rw t (
      wait_actual-Inv (consume_tokens (release_tokens s account_id (pos 1)) account_id "ACTUAL" now)
        (consume_tokens-Inv _ account_id "ACTUAL" now
          (release_tokens-Inv s account_id (pos 1) (omega arith) h)))
  | inr t ↦ rw t h
]
